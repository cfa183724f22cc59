-- ===== src/MachineController/Deletion.antt =====
-- When the machine controller lets go of a machine that is being deleted.
use cluster_api_provider_lat.Base.{String, ◌≡◌, ◌⊎◌, arith, true, false, string_eq}
use text.Mathlib.TextEquality.{eq_iff}
use cluster_api_provider_lat.Go.Errors.{Error}
use cluster_api_provider_lat.Action.{Outcome, ok, panic, is_ok}
use cluster_api_provider_lat.Kube.{Kube, IsLawful}
use cluster_api_provider_lat.Latitude.{ClientInterface}
use cluster_api_provider_lat.MachineController.Server.{Machines}
use cluster_api_provider_lat.MachineController.Frames.{but_conditions_fields, set_condition_frame}
use cluster_api_provider_lat.MachineController.Reconcile.{
  CtrlResult, requeue, finalizer_name, reconcile_delete, finish_delete, delete_failed,
  delete_user_data,
}

module _ {W : Type 0} (kube : Kube W) (client : ClientInterface W) where
  -- The answer to the request to delete the machine's server.
  abbrev pub deletion : Machines W → Outcome (Unit {0})
  deletion s = (client.delete_server s.object.status.server_id s.outside).0

  -- The finalizer is gone, and no server is left.
  abbrev pub IsReleased : Machines W → Outcome CtrlResult × Machines W → Type 0
  IsReleased s (r, s') =
      (r ≡ ok (requeue 0))
      × (kube.contains_finalizer s'.object.meta.finalizers finalizer_name ≡ false)
      × ((s.object.status.server_id ≡ "") ⊎ (is_ok (deletion s) ≡ true))

  -- The deletion has failed; the machine is kept as it is, and the run is repeated in 30 seconds.
  abbrev pub IsHeld : Machines W → Outcome CtrlResult × Machines W → Type 0
  IsHeld s (r, s') =
      (r ≡ ok (requeue 30))
      × (s'.object.meta ≡ s.object.meta)
      × (s'.object.status.server_id ≡ s.object.status.server_id)
      × (is_ok (deletion s) ≡ false)

  abbrev pub IsPanic : Machines W → Outcome CtrlResult × Machines W → Type 0
  IsPanic s (r, s') = (r ≡ panic) × (s'.object.meta ≡ s.object.meta)

  delete_failed_lem :
      (id : String) (e : Error) (s : Machines W)
      → let (r, s') = delete_failed kube client id e s in
        (r ≡ ok (requeue 30))
        × (s'.object.meta ≡ s.object.meta)
        × (s'.object.status.server_id ≡ s.object.status.server_id)
  unfolding delete_failed
  delete_failed_lem id e s = grind (arith, set_condition_frame, but_conditions_fields)

  module _ (lawful : IsLawful kube) where
    finish_delete_lem :
        (s : Machines W)
        → let (r, s') = finish_delete kube client s in
          ((r ≡ ok (requeue 0))
            × (kube.contains_finalizer s'.object.meta.finalizers finalizer_name ≡ false))
          ⊎ ((r ≡ panic) × (s'.object.meta ≡ s.object.meta))
    unfolding finish_delete delete_user_data
    finish_delete_lem s = grind (arith, lawful.contains-remove)

    -- If finalizers behave as controller-runtime documents, a run on a machine that is being
    -- deleted ends in one of three ways. The finalizer is gone, and then there was no server or the
    -- API has confirmed that the server is deleted. Or the API has not, and then the metadata and
    -- the server's id are as before, and the run is repeated in 30 seconds. Or a call of the API
    -- has panicked, and then the metadata is as before.
    pub reconcile_delete_lem :
        (s : Machines W)
        → let out = reconcile_delete kube client s in
          IsReleased s out ⊎ IsHeld s out ⊎ IsPanic s out
    unfolding reconcile_delete
    reconcile_delete_lem s =
        grind (arith, finish_delete_lem, delete_failed_lem, eq_iff s.object.status.server_id "")
