-- ===== src/MachineController/Creation.antt =====
-- When a reconciliation of a machine asks for a server.
use cluster_api_provider_lat.Base.{
  [], ◌+◌, ◌≤◌, none, ◌≡◌, ◌⊎◌, arith, true, false, inl, inr, string_eq,
}
use cluster_api_provider_lat.Action.{ok, is_ok, Outcome-ok_cases}
use cluster_api_provider_lat.Api.{NamespacedName, LatitudeMachine, has_key, is_deleted}
use cluster_api_provider_lat.Kube.{Kube}
use cluster_api_provider_lat.Latitude.{ClientInterface}
use cluster_api_provider_lat.MachineController.Server.{Machines}
use cluster_api_provider_lat.MachineController.Frames.{set_condition_frame, creations}
use cluster_api_provider_lat.MachineController.Reconcile
use cluster_api_provider_lat.MachineController.Asking.{AsksForServer, find_owner_frame}

-- A machine that the controller has taken on, and that is neither ready, failed, paused nor going.
abbrev pub IsOpen : {W : Type 0} → Kube W → LatitudeMachine → Type 0
IsOpen kube m =
    (kube.contains_finalizer m.meta.finalizers Reconcile.finalizer_name ≡ true)
    × (m.status.ready ≡ false)
    × (m.status.failure_reason ≡ none)
    × (has_key "cluster.x-k8s.io/paused" m.meta.annotations ≡ false)
    × (is_deleted m.meta ≡ false)

module _ {W : Type 0} (kube : Kube W) (client : ClientInterface W) (before : LatitudeMachine) where
  reconcile_normal_frame :
      (s : Machines W)
      → let s' = (Reconcile.reconcile_normal kube client before s).1 in
        (creations s'.trace ≤ creations s.trace + 1)
        × ((creations s'.trace ≡ creations s.trace) ⊎ AsksForServer kube client s.object s.outside)
  unfolding Reconcile.reconcile_normal
  reconcile_normal_frame s = ground (arith, find_owner_frame kube client before s)

  reconcile_delete_frame :
      (s : Machines W)
      → creations (Reconcile.reconcile_delete kube client s).1.trace ≡ creations s.trace
  unfolding Reconcile.reconcile_delete Reconcile.finish_delete Reconcile.delete_failed
      Reconcile.delete_user_data
  reconcile_delete_frame s = grind (arith, set_condition_frame)

  dispatch_frame :
      (s : Machines W)
      → let s' = (Reconcile.dispatch kube client before s).1 in
        (creations s'.trace ≤ creations s.trace + 1)
        × ((creations s'.trace ≡ creations s.trace) ⊎ AsksForServer kube client s.object s.outside)
  unfolding Reconcile.dispatch
  dispatch_frame s = ground (arith, reconcile_normal_frame s, reconcile_delete_frame s)

  -- A machine that is not open is left without a new server.
  dispatch-IsOpen :
      (s : Machines W)
      → (creations (Reconcile.dispatch kube client before s).1.trace ≡ creations s.trace)
        ⊎ IsOpen kube s.object
  unfolding Reconcile.dispatch Reconcile.reconcile_normal
  dispatch-IsOpen s = ground (arith, reconcile_delete_frame s)

module _ {W : Type 0} (kube : Kube W) (client : ClientInterface W) (req : NamespacedName)
    (w : W) where
  reconcile_not_found :
      is_ok (kube.get_latitude_machine req w).0 ≡ false
      → creations (Reconcile.reconcile kube client req w).1.trace ≡ 0
  unfolding Reconcile.reconcile
  reconcile_not_found h = ground arith

  reconcile_found :
      (m : LatitudeMachine)
      → (kube.get_latitude_machine req w).0 ≡ ok m
      → let s' = (Reconcile.reconcile kube client req w).1 in
        (creations s'.trace ≤ 1)
        × ((creations s'.trace ≡ 0)
            ⊎ (IsOpen kube m
                × AsksForServer kube client m
                    (kube.new_machine_helper m (kube.get_latitude_machine req w).1).1))
  unfolding Reconcile.reconcile Reconcile.with_deferred_patch
  reconcile_found m h =
      let start : Machines W = record {
        outside = (kube.new_machine_helper m (kube.get_latitude_machine req w).1).1;
        object = m;
        trace = [];
      } in
      ground (arith, dispatch_frame kube client m start, dispatch-IsOpen kube client m start)

-- One run of the machine controller asks for at most one server. If it asks for one, the machine
-- that it was called for has the finalizer, is neither ready nor failed nor paused nor being
-- deleted, and its owner is found; and it has no recorded server, or the API answers the question for
-- it, when the run comes to it, with an error of any kind, also a timeout.
pub reconcile_creates_once :
    {W : Type 0} (kube : Kube W) (client : ClientInterface W) (req : NamespacedName) (w : W)
    → let s' = (Reconcile.reconcile kube client req w).1 in
      (creations s'.trace ≤ 1)
      × ((creations s'.trace ≡ 0)
          ⊎ ((m : LatitudeMachine) × ((kube.get_latitude_machine req w).0 ≡ ok m)
              × IsOpen kube m
              × AsksForServer kube client m
                  (kube.new_machine_helper m (kube.get_latitude_machine req w).1).1))
reconcile_creates_once kube client req w =
    elim (Outcome-ok_cases (kube.get_latitude_machine req w).0) [
      | inr missing ↦
          let none_made = reconcile_not_found kube client req w missing in
          (omega arith, inl none_made)
      | inl (m, found) ↦
          let (bound, why) = reconcile_found kube client req w m found in
          (
            bound,
            elim why [
              | inl none_made ↦ inl none_made
              | inr (still_open, needed) ↦ inr (m, found, still_open, needed)
            ],
          )
    ]
