-- ===== src/MachineController/Service.antt =====
-- What stands behind a machine that gets ready: the server that Latitude.sh says runs.
use mathlib.Core.Path.{subst}
use cluster_api_provider_lat.Base.{
  String, Bool, true, false, Option, none, some, ◌∷◌, ◌≡◌, ◌⊎◌, inl, inr, ◌==◌, ◌<>◌, string_eq,
  arith, refl, Bool-cases, sym,
}
use cluster_api_provider_lat.Go.Errors.{Error}
use cluster_api_provider_lat.Action.{Outcome, ok, err, panic, attempt, ◌>>=◌}
use cluster_api_provider_lat.Api.{LatitudeMachine, Machine}
use cluster_api_provider_lat.Kube.{Kube}
use cluster_api_provider_lat.Latitude.{Server, ClientInterface}
use cluster_api_provider_lat.World.{Call}
use cluster_api_provider_lat.Scope.{new_machine_scope, set_ready, set_provider_id}
use cluster_api_provider_lat.MachineController.Conditions.{set_machine_failed}
use cluster_api_provider_lat.MachineController.Lookup.{
  validate_machine_spec, check_control_plane_failed,
}
use cluster_api_provider_lat.MachineController.Server.{
  Machines, with_server_id, is_running, start_server, reconcile_server,
}
use cluster_api_provider_lat.MachineController.Frames.{
  but_ids_fields, but_conditions_fields, set_condition_frame, start_server_frame,
}
use cluster_api_provider_lat.MachineController.Reconcile

-- The machine is ready, with the id and the addresses of a server that runs, as the client has
-- answered at some time to a question for the id.
pub data IsServed {W : Type 0} (client : ClientInterface W) (id : String)
    : LatitudeMachine → Type 0 where
  served :
      {m : LatitudeMachine} (server : Server) (w : W)
      → (client.get_server id w).0 ≡ ok server
      → is_running server.status ≡ true
      → m.status.ready ≡ true
      → m.status.server_id ≡ server.id
      → m.status.addresses ≡ Reconcile.addresses_of server
      → m.spec.provider_id ≡ some ("latitude://" <> server.id)
      → IsServed client id m

abbrev is_server : Outcome (Option Server) → Bool
is_server (ok (some server)) = true
is_server (ok none) = false
is_server (err e) = false
is_server panic = false

module _ {W : Type 0} (kube : Kube W) (client : ClientInterface W) where
  -- The machine is still not ready, or there is a server behind it.
  abbrev IsBacked : String → LatitudeMachine → Type 0
  IsBacked id m = (m.status.ready ≡ false) ⊎ IsServed client id m

  mark_ready-IsServed :
      (id : String) (server : Server) (w : W) (s : Machines W)
      → (client.get_server id w).0 ≡ ok server
      → is_running server.status ≡ true
      → IsServed client id (Reconcile.mark_ready kube client server s).1.object
  unfolding Reconcile.mark_ready set_ready set_provider_id
  mark_ready-IsServed id server w s h k =
      served server w h k (grind (arith, set_condition_frame, but_conditions_fields))
        (grind (arith, set_condition_frame, but_conditions_fields))
        (grind (arith, set_condition_frame, but_conditions_fields))
        (grind (arith, set_condition_frame, but_conditions_fields))

  -- What follows the search for the server, from its answer and the state that it leaves.
  abbrev rest : Outcome (Option Server) × Machines W → Machines W
  rest p = ((attempt (λ (t : Machines W). p) >>= Reconcile.provision_step kube client) p.1).1

  -- A run from the question for the server on.
  abbrev serve : LatitudeMachine → Machine → Machines W → Machines W
  serve before machine s =
      ((attempt (reconcile_server kube client before machine)
          >>= Reconcile.provision_step kube client)
        s).1

  reconcile_delete_ready :
      (s : Machines W)
      → (Reconcile.reconcile_delete kube client s).1.object.status.ready ≡ s.object.status.ready
  unfolding Reconcile.reconcile_delete Reconcile.finish_delete Reconcile.delete_user_data
      Reconcile.delete_failed
  reconcile_delete_ready s = grind (arith, set_condition_frame, but_conditions_fields)

  module _ (before : LatitudeMachine) where
    unserved :
        (r : Outcome (Option Server)) (s : Machines W)
        → is_server r ≡ false
        → s.object.status.ready ≡ false
        → ((attempt (λ (t : Machines W). (r, s)) >>= Reconcile.provision_step kube client)
            s).1.object.status.ready
          ≡ false
    unfolding Reconcile.provision_step Reconcile.provision_failed Reconcile.wait_for_provisioning
        set_machine_failed
    unserved (ok none) s h k = grind (arith, set_condition_frame, but_conditions_fields)
    unserved (err e) s h k = grind (arith, set_condition_frame, but_conditions_fields)
    unserved panic s h k = k
    unserved (ok (some server)) s h k = ground arith

    started_unserved :
        (machine : Machine) (s : Machines W)
        → s.object.status.ready ≡ false
        → ((attempt (start_server kube client before machine)
              >>= Reconcile.provision_step kube client)
            s).1.object.status.ready
          ≡ false
    unfolding start_server
    started_unserved machine s h =
        let (r, s') = start_server kube client before machine s in
        unserved r s' (ground arith) (
          ground (
            arith,
            start_server_frame kube client before machine s,
            but_ids_fields s'.object s.object,
          ))

    -- The state once Latitude.sh has answered, and the one in which the code starts again.
    abbrev asked : Machines W → Machines W
    asked s = record s {
      outside = (client.get_server s.object.status.server_id s.outside).1;
      trace = Call.get_server s.object.status.server_id ∷ s.trace;
    }

    abbrev forgotten : Machines W → Machines W
    forgotten s = record (asked s) { object = with_server_id "" s.object }

    reconcile_server-err :
        (machine : Machine) (s : Machines W) (e : Error)
        → (s.object.status.server_id == "") ≡ false
        → (client.get_server s.object.status.server_id s.outside).0 ≡ err e
        → reconcile_server kube client before machine s
          ≡ start_server kube client before machine (forgotten s)
    unfolding reconcile_server
    reconcile_server-err machine s e known h = ground arith

    reconcile_server-running :
        (machine : Machine) (s : Machines W) (server : Server)
        → (s.object.status.server_id == "") ≡ false
        → (client.get_server s.object.status.server_id s.outside).0 ≡ ok server
        → is_running server.status ≡ true
        → reconcile_server kube client before machine s ≡ (ok (some server), asked s)
    unfolding reconcile_server
    reconcile_server-running machine s server known h running = ground arith

    answered-IsBacked :
        (machine : Machine) (s : Machines W) (r : Outcome Server)
        → s.object.status.ready ≡ false
        → (s.object.status.server_id == "") ≡ false
        → (client.get_server s.object.status.server_id s.outside).0 ≡ r
        → IsBacked s.object.status.server_id (serve before machine s).object
    unfolding reconcile_server Reconcile.provision_step
    answered-IsBacked machine s (ok server) h known k =
        elim (Bool-cases (is_running server.status)) [
          | inl running ↦
              subst (λ p. IsBacked s.object.status.server_id (rest p).object)
                (sym (reconcile_server-running machine s server known k running))
                (inr (
                  mark_ready-IsServed s.object.status.server_id server s.outside (asked s) k
                    running))
          | inr halted ↦ ground (arith, unserved (ok none) (asked s) refl h)
        ]
    answered-IsBacked machine s (err e) h known k =
        subst (λ p. IsBacked s.object.status.server_id (rest p).object)
          (sym (reconcile_server-err machine s e known k))
          (inl (started_unserved machine (forgotten s) h))
    answered-IsBacked machine s panic h known k = ground arith

    unknown-IsBacked :
        (machine : Machine) (s : Machines W)
        → s.object.status.ready ≡ false
        → (s.object.status.server_id == "") ≡ true
        → IsBacked s.object.status.server_id (serve before machine s).object
    unfolding reconcile_server
    unknown-IsBacked machine s h unknown = ground (arith, started_unserved machine s h)

    serve-IsBacked :
        (machine : Machine) (s : Machines W)
        → s.object.status.ready ≡ false
        → IsBacked s.object.status.server_id (serve before machine s).object
    serve-IsBacked machine s h = elim (Bool-cases (s.object.status.server_id == "")) [
      | inl unknown ↦ unknown-IsBacked machine s h unknown
      | inr known ↦
          answered-IsBacked machine s (client.get_server s.object.status.server_id s.outside).0 h
            known refl
    ]

    validated-IsBacked :
        (machine : Machine) (s : Machines W)
        → s.object.status.ready ≡ false
        → IsBacked s.object.status.server_id
            (Reconcile.validated kube client before machine s).1.object
    unfolding Reconcile.validated
    validated-IsBacked machine s h =
        let t : Machines W = record s {
          outside = (validate_machine_spec kube s.object s.outside).1;
        } in
        grind (arith, set_condition_frame, but_conditions_fields, serve-IsBacked machine t h)

    with_owner-IsBacked :
        (machine : Machine) (s : Machines W)
        → s.object.status.ready ≡ false
        → IsBacked s.object.status.server_id
            (Reconcile.with_owner kube client before machine s).1.object
    unfolding Reconcile.with_owner Reconcile.blocked_by_control_plane Reconcile.fail_worker
        new_machine_scope set_machine_failed
    with_owner-IsBacked machine s h =
        let t : Machines W = record s {
          outside = (kube.new_machine_helper s.object s.outside).1;
        } in
        let t' : Machines W = record s {
          outside = (check_control_plane_failed kube s.object t.outside).1;
        } in
        grind (
          arith,
          set_condition_frame,
          but_conditions_fields,
          validated-IsBacked machine t h,
          validated-IsBacked machine t' h,
        )

    find_owner-IsBacked :
        (s : Machines W)
        → s.object.status.ready ≡ false
        → IsBacked s.object.status.server_id (Reconcile.find_owner kube client before s).1.object
    unfolding Reconcile.find_owner
    find_owner-IsBacked s h =
        let t : Machines W = record s {
          outside = (kube.get_owner_machine s.object.meta s.outside).1;
        } in
        grind (arith, λ (machine : Machine). with_owner-IsBacked machine t h)

    -- A machine that was not ready is still not ready after a run, or it is ready with the id and
    -- the addresses of a server that Latitude.sh has answered to run, when it was asked for the id
    -- that the machine had recorded before the run.
    pub dispatch-IsServed :
        (s : Machines W)
        → s.object.status.ready ≡ false
        → let m = (Reconcile.dispatch kube client before s).1.object in
          (m.status.ready ≡ false) ⊎ IsServed client s.object.status.server_id m
    unfolding Reconcile.dispatch Reconcile.reconcile_normal
    dispatch-IsServed s h = ground (arith, find_owner-IsBacked s h, reconcile_delete_ready s)
