-- ===== src/MachineController/Failure.antt =====
-- Permanent and passing failures of the creation of a server.
use cluster_api_provider_lat.Base.{
  String, ◌<>◌, ◌≡◌, ◌⊎◌, arith, true, false, ◌==◌, string_eq, some, refl, ap, ◌∙◌,
}
use cluster_api_provider_lat.Go.Errors.{Error, wrapped, error_text}
use cluster_api_provider_lat.Go.TextLaws.{contains_text-append}
use cluster_api_provider_lat.Action.{ok, err}
use cluster_api_provider_lat.Api.{LatitudeMachine, is_deleted}
use cluster_api_provider_lat.Kube.{Kube}
use cluster_api_provider_lat.Latitude.{ServerSpec, ClientInterface}
use cluster_api_provider_lat.Latitude.Sdk.{Sdk}
use cluster_api_provider_lat.Latitude.Client.{client, create_attributes, validate_server_spec}
use cluster_api_provider_lat.Latitude.Client
use cluster_api_provider_lat.MachineController.Conditions.{is_permanent_error, set_machine_failed}
use cluster_api_provider_lat.MachineController.Server.{Machines}
use cluster_api_provider_lat.MachineController.Server
use cluster_api_provider_lat.MachineController.Frames.{but_conditions_fields, set_condition_frame}
use cluster_api_provider_lat.MachineController.Reconcile.{
  requeue, finalizer_name, provision_failed, dispatch, reconcile_normal,
}

-- A permanent error stays permanent however often it is wrapped.
pub is_permanent_error-wrapped :
    (prefix : String) (e : Error)
    → is_permanent_error e ≡ true
    → is_permanent_error (wrapped prefix e) ≡ true
unfolding is_permanent_error error_text
is_permanent_error-wrapped prefix e h = ground (
  arith,
  contains_text-append ": " (error_text e) "SERVERS_OUT_OF_STOCK",
  contains_text-append prefix (": " <> error_text e) "SERVERS_OUT_OF_STOCK",
  contains_text-append ": " (error_text e) "No stock availability",
  contains_text-append prefix (": " <> error_text e) "No stock availability",
)

-- A server can be asked for: the four required fields are there.
abbrev pub IsComplete : ServerSpec → Type 0
IsComplete spec =
    ((spec.project == "") ≡ false)
    × ((spec.plan == "") ≡ false)
    × ((spec.operating_system == "") ≡ false)
    × ((spec.site == "") ≡ false)

-- Where the SDK answers the request for a server with a permanent error, the controller's step over
-- the real client ends with an error that is permanent too, if the required fields are there.
create_server_permanent :
    {W : Type 0} (kube : Kube W) (sdk : Sdk W) (before : LatitudeMachine) (spec : ServerSpec)
    (s : Machines W) (e : Error)
    → IsComplete spec
    → (sdk.servers_create (create_attributes spec) s.outside).0 ≡ err e
    → is_permanent_error e ≡ true
    → (e' : Error) × ((Server.create_server kube (client sdk) before spec s).0 ≡ err e')
      × (is_permanent_error e' ≡ true)
unfolding Server.create_server Client.create_server validate_server_spec
create_server_permanent kube sdk before spec s e complete answer permanent = (
  wrapped "failed to create server" (wrapped "failed to create server" e),
  ground arith,
  is_permanent_error-wrapped _ _ (is_permanent_error-wrapped _ e permanent),
)

module _ {W : Type 0} (kube : Kube W) (client' : ClientInterface W) where
  provision_failed_meta :
      (e : Error) (s : Machines W)
      → (provision_failed kube client' e s).1.object.meta ≡ s.object.meta
  unfolding provision_failed set_machine_failed
  provision_failed_meta e s = grind (arith, set_condition_frame, but_conditions_fields)

  -- Where the error is permanent, the machine is marked as failed, with the error's text, it is not
  -- ready, and it is looked at again in five minutes. Any other error is returned, and then the
  -- machine's readiness and failure stay as they were.
  pub provision_failed_lem :
      (e : Error) (s : Machines W)
      → let (r, s') = provision_failed kube client' e s in
        ((is_permanent_error e ≡ true)
          × (r ≡ ok (requeue 300))
          × (s'.object.status.ready ≡ false)
          × (s'.object.status.failure_reason ≡ some "CreateError")
          × (s'.object.status.failure_message ≡ some (error_text e)))
        ⊎ ((is_permanent_error e ≡ false)
            × (r ≡ err e)
            × (s'.object.status.ready ≡ s.object.status.ready)
            × (s'.object.status.failure_reason ≡ s.object.status.failure_reason)
            × (s'.object.status.failure_message ≡ s.object.status.failure_message))
  unfolding provision_failed set_machine_failed
  provision_failed_lem e s = grind (arith, set_condition_frame, but_conditions_fields)

  -- What a failed machine needs to be left alone.
  abbrev IsFinal : LatitudeMachine → Type 0
  IsFinal m =
      (m.status.failure_reason ≡ some "CreateError")
      × (kube.contains_finalizer m.meta.finalizers finalizer_name ≡ true)
      × (is_deleted m.meta ≡ false)

  -- A machine and what may become of it: the controller runs on it, in any world and with any calls
  -- before, or somebody changes its specification or its metadata, but leaves the finalizer there and
  -- does not delete it.
  pub data Later (m : LatitudeMachine) : LatitudeMachine → Type 0 where
    here : Later m m
    a_run :
        (before : LatitudeMachine) (s : Machines W)
        → Later m s.object
        → Later m (dispatch kube client' before s).1.object
    an_edit :
        {n n' : LatitudeMachine}
        → Later m n
        → n'.status ≡ n.status
        → kube.contains_finalizer n'.meta.finalizers finalizer_name ≡ true
        → is_deleted n'.meta ≡ false
        → Later m n'

  final_run_rests :
      (before : LatitudeMachine) (s : Machines W)
      → IsFinal s.object
      → dispatch kube client' before s ≡ (ok (requeue 0), s)
  unfolding dispatch reconcile_normal
  final_run_rests before s h = ground arith

  Later-IsFinal :
      {m n : LatitudeMachine} → IsFinal m → Later m n → (n.status ≡ m.status) × IsFinal n
  Later-IsFinal h here = (refl, h)
  Later-IsFinal h (a_run before s steps) =
      let (same, final) = Later-IsFinal h steps in ground (arith, final_run_rests before s final)
  Later-IsFinal h (an_edit {n} {n'} steps kept taken stays) =
      let (same, final) = Later-IsFinal h steps in
      (kept ∙ same, (ap (λ t. t.failure_reason) kept ∙ final.0, taken, stays))

  -- A machine with the finalizer that a permanent error has marked as failed, and that is not being
  -- deleted, stays so: over any sequence of runs, in any worlds, and of changes of its specification
  -- and metadata that neither take the finalizer away nor delete it, its status is as the failure
  -- left it. What each run does between reading the machine and its last patch, in any world and
  -- after any calls, leaves the machine and the world as they are, asks for nothing, and demands no
  -- other run.
  pub permanent_failure_is_final :
      (e : Error) (s : Machines W)
      → is_permanent_error e ≡ true
      → kube.contains_finalizer s.object.meta.finalizers finalizer_name ≡ true
      → is_deleted s.object.meta ≡ false
      → (before : LatitudeMachine) (t : Machines W)
      → Later (provision_failed kube client' e s).1.object t.object
      → (t.object.status ≡ (provision_failed kube client' e s).1.object.status)
        × (dispatch kube client' before t ≡ (ok (requeue 0), t))
  permanent_failure_is_final e s permanent taken kept before t steps =
      let failed : IsFinal (provision_failed kube client' e s).1.object =
        ground (arith, provision_failed_lem e s, provision_failed_meta e s) in
      let (same, final) = Later-IsFinal failed steps in (same, final_run_rests before t final)
