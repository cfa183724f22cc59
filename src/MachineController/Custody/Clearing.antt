-- ===== src/MachineController/Custody/Clearing.antt =====
-- The deletion of a machine takes its servers away before it lets it go.
use cluster_api_provider_lat.Base.{
  ◌<>◌, Bool, true, false, [], ◌∷◌, ◌≡◌, ◌⊎◌, inl, inr, arith, ◌==◌, string_eq, nat_eq, refl,
  Bool-cases,
}
use cluster_api_provider_lat.Go.Errors.{Error}
use cluster_api_provider_lat.World.{Call}
use cluster_api_provider_lat.Action.{Outcome, ok, err, panic}
use cluster_api_provider_lat.Api.{LatitudeMachine, has_key, is_deleted}
use cluster_api_provider_lat.MachineController.Lookup.{get_hostname}
use cluster_api_provider_lat.Kube.{Kube}
use cluster_api_provider_lat.Latitude.{ClientInterface}
use cluster_api_provider_lat.MachineController.Frames.{but_conditions_fields, set_condition_frame}
use cluster_api_provider_lat.MachineController.Cloud.{Cloud, held, held-without, held_empty}
use cluster_api_provider_lat.MachineController.Server.{Machines}
use cluster_api_provider_lat.MachineController.Reconcile
use cluster_api_provider_lat.MachineController.Custody.{
  IsCustody, IsUnmoved, set_condition-IsUnmoved,
}
use cluster_api_provider_lat.MachineController.Custody.Runs.{reconcile_normal-IsCustody}

-- Whether the controller asks for no other run.
abbrev pub settled : Outcome Reconcile.CtrlResult → Bool
settled (ok r) = r.requeue_after == 0
settled (err e) = false
settled panic = false

module _ {W : Type 0} (kube : Kube W) (client : ClientInterface W) (cloud : Cloud kube client) where
  delete_user_data-IsUnmoved :
      (s : Machines W) → IsUnmoved kube client cloud s (Reconcile.delete_user_data kube client s).1
  unfolding Reconcile.delete_user_data
  delete_user_data-IsUnmoved s =
      ground (arith, cloud.delete_user_data s.object.status.user_data_id s.outside)

  finish_delete-IsUnmoved :
      (s : Machines W) → IsUnmoved kube client cloud s (Reconcile.finish_delete kube client s).1
  unfolding Reconcile.finish_delete
  finish_delete-IsUnmoved s = ground (arith, delete_user_data-IsUnmoved s)

  -- What a run of a deleted machine leaves: no server, or the machine as it was to others and
  -- another run.
  abbrev IsCleared : Outcome Reconcile.CtrlResult → Machines W → Machines W → Type 0
  IsCleared r s s' =
      IsCustody kube client cloud s'
      × ((cloud.servers s'.outside ≡ []) ⊎ ((settled r ≡ false) × (s'.object.meta ≡ s.object.meta)))

  finish_delete-IsCleared :
      (s : Machines W)
      → cloud.servers s.outside ≡ []
      → let (r, s') = Reconcile.finish_delete kube client s in IsCleared r s s'
  unfolding held
  finish_delete-IsCleared s h = ground (arith, finish_delete-IsUnmoved s)

  delete_failed-IsCleared :
      (e : Error) (s : Machines W)
      → IsCustody kube client cloud s
      → let (r, s') = Reconcile.delete_failed kube client s.object.status.server_id e s in
        IsCleared r s s'
  unfolding Reconcile.delete_failed
  delete_failed-IsCleared e s h =
      grind (
        arith,
        set_condition-IsUnmoved kube client cloud,
        set_condition_frame,
        but_conditions_fields,
      )

  -- The state once Latitude.sh has answered the deletion.
  abbrev asked : Machines W → Machines W
  asked s = record s {
    outside = (client.delete_server s.object.status.server_id s.outside).1;
    trace = Call.delete_server s.object.status.server_id ∷ s.trace;
  }

  abbrev told : Machines W → Machines W
  told s = record (asked s) {
    trace =
        Call.event "Normal" "SuccessfulDelete" ("Deleted server " <> s.object.status.server_id)
        ∷ (asked s).trace;
  }

  -- The code's answer to that of Latitude.sh.
  answered-IsCleared :
      (r : Outcome (Unit {0})) (s : Machines W)
      → IsCustody kube client cloud s
      → (s.object.status.server_id == "") ≡ false
      → (client.delete_server s.object.status.server_id s.outside).0 ≡ r
      → let (r', s') = Reconcile.reconcile_delete kube client s in IsCleared r' s s'
  unfolding Reconcile.reconcile_delete
  answered-IsCleared (ok u) s h known k = ground (
    arith,
    finish_delete-IsCleared (told s),
    cloud.delete s.object.status.server_id s.outside,
    held-without (cloud.servers s.outside) s.object.status.server_id h,
  )
  answered-IsCleared (err e) s h known k =
      ground (
        arith,
        delete_failed-IsCleared e (asked s),
        cloud.delete s.object.status.server_id s.outside,
      )
  answered-IsCleared panic s h known k =
      ground (arith, cloud.delete s.object.status.server_id s.outside)

  no_server-IsCleared :
      (s : Machines W)
      → IsCustody kube client cloud s
      → (s.object.status.server_id == "") ≡ true
      → let (r', s') = Reconcile.reconcile_delete kube client s in IsCleared r' s s'
  unfolding Reconcile.reconcile_delete
  no_server-IsCleared s h unknown = ground (
    arith,
    finish_delete-IsCleared s,
    held_empty (cloud.servers s.outside) s.object.status.server_id unknown h,
  )

  pub reconcile_delete-IsCleared :
      (s : Machines W)
      → IsCustody kube client cloud s
      → let (r', s') = Reconcile.reconcile_delete kube client s in IsCleared r' s s'
  reconcile_delete-IsCleared s h = elim (Bool-cases (s.object.status.server_id == "")) [
    | inl unknown ↦ no_server-IsCleared s h unknown
    | inr known ↦
        answered-IsCleared (client.delete_server s.object.status.server_id s.outside).0 s h known
          refl
  ]

  pub dispatch-IsCustody :
      (before : LatitudeMachine) (s : Machines W)
      → (get_hostname s.object == cloud.host) ≡ true
      → IsCustody kube client cloud s
      → IsCustody kube client cloud (Reconcile.dispatch kube client before s).1
  unfolding Reconcile.dispatch
  dispatch-IsCustody before s named h = ground (
    arith,
    reconcile_normal-IsCustody kube client cloud before s named h,
    reconcile_delete-IsCleared s h,
  )

  -- If Latitude.sh and the API server keep the laws of `Cloud`: a run of a machine that is being
  -- deleted and not paused, and whose servers all have the id in its status, takes them away before
  -- it lets the machine go. It ends with no server left but such as were reported missing; or with
  -- the metadata, and so the finalizers, as they were, and with an error, a panic, or a demand for
  -- another run.
  pub dispatch_clears :
      (before : LatitudeMachine) (s : Machines W)
      → IsCustody kube client cloud s
      → is_deleted s.object.meta ≡ true
      → has_key "cluster.x-k8s.io/paused" s.object.meta.annotations ≡ false
      → let (r, s') = Reconcile.dispatch kube client before s in
        (cloud.servers s'.outside ≡ []) ⊎ ((settled r ≡ false) × (s'.object.meta ≡ s.object.meta))
  unfolding Reconcile.dispatch
  dispatch_clears before s h deleted running = ground (arith, reconcile_delete-IsCleared s h)
