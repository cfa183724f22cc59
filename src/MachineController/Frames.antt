-- ===== src/MachineController/Frames.antt =====
-- What the steps of the machine controller leave alone.
use cluster_api_provider_lat.Base.{ap, ℕ, suc, ◌+◌, ◌≤◌, String, List, [], ◌∷◌, ◌≡◌, arith}
use cluster_api_provider_lat.Base.{string_eq}
use cluster_api_provider_lat.Api.{LatitudeMachine, Machine}
use cluster_api_provider_lat.Kube.{Kube}
use cluster_api_provider_lat.Latitude.{ServerSpec, ClientInterface}
use cluster_api_provider_lat.Scope.{get_bootstrap_data, get_raw_bootstrap_data, bootstrap_value}
use cluster_api_provider_lat.World.{Call}
use cluster_api_provider_lat.Action.{ok}
use cluster_api_provider_lat.MachineController.Conditions.{set_condition}
use cluster_api_provider_lat.MachineController.Server.{
  Machines, persist, ensure_user_data, server_spec, create_server, attach_server_to_vlan, attach,
  provision_with, provision, start_server,
}

-- How many servers were asked for.
abbrev pub creations : List Call → ℕ
creations [] = 0
creations (Call.create_server spec ∷ calls) = suc (creations calls)
creations (call ∷ calls) = creations calls

-- The machine but for the ids of its server and its user data.
abbrev pub but_ids : LatitudeMachine → LatitudeMachine
but_ids m = record m { status = record m.status { server_id = ""; user_data_id = "" } }

pub but_ids_fields :
    (m n : LatitudeMachine)
    → but_ids m ≡ but_ids n
    → (m.status.ready ≡ n.status.ready)
      × (m.status.failure_reason ≡ n.status.failure_reason)
      × (m.meta ≡ n.meta)
but_ids_fields m n e =
    (ap (λ o. o.status.ready) e, ap (λ o. o.status.failure_reason) e, ap (λ o. o.meta) e)

-- The machine but for its conditions.
abbrev pub but_conditions : LatitudeMachine → LatitudeMachine
but_conditions m = record m { status = record m.status { conditions = [] } }

pub but_conditions_fields :
    (m n : LatitudeMachine)
    → but_conditions m ≡ but_conditions n
    → (m.status.ready ≡ n.status.ready)
      × (m.status.failure_reason ≡ n.status.failure_reason)
      × (m.status.failure_message ≡ n.status.failure_message)
      × (m.status.provider_id ≡ n.status.provider_id)
      × (m.status.server_id ≡ n.status.server_id)
      × (m.status.addresses ≡ n.status.addresses)
      × (m.status.user_data_id ≡ n.status.user_data_id)
      × (m.spec ≡ n.spec)
      × (m.meta ≡ n.meta)
but_conditions_fields m n e = (
  ap (λ o. o.status.ready) e,
  ap (λ o. o.status.failure_reason) e,
  ap (λ o. o.status.failure_message) e,
  ap (λ o. o.status.provider_id) e,
  ap (λ o. o.status.server_id) e,
  ap (λ o. o.status.addresses) e,
  ap (λ o. o.status.user_data_id) e,
  ap (λ o. o.spec) e,
  ap (λ o. o.meta) e,
)

pub set_condition_frame :
    {W : Type 0} (kube : Kube W) (type status reason message : String) (s : Machines W)
    → let (r, s') = set_condition kube type status reason message s in
      (r ≡ ok tt) × (but_conditions s'.object ≡ but_conditions s.object) × (s'.trace ≡ s.trace)
unfolding set_condition
set_condition_frame kube type status reason message s = ground arith

module _ {W : Type 0} (kube : Kube W) (client : ClientInterface W) (before : LatitudeMachine) where
  pub persist_frame :
      (s : Machines W)
      → let s' = (persist kube client before s).1 in
        (s'.object ≡ s.object) × (creations s'.trace ≡ creations s.trace)
  unfolding persist
  persist_frame s = ground arith

  pub ensure_user_data_frame :
      (user_data : String) (s : Machines W)
      → let s' = (ensure_user_data kube client before user_data s).1 in
        (but_ids s'.object ≡ but_ids s.object) × (creations s'.trace ≡ creations s.trace)
  unfolding ensure_user_data
  ensure_user_data_frame user_data s = grind (arith, persist_frame)

  pub attach_frame :
      (s : Machines W)
      → let s' = (attach_server_to_vlan kube client s).1 in
        (s'.object ≡ s.object) × (creations s'.trace ≡ creations s.trace)
  unfolding attach_server_to_vlan attach
  attach_frame s = ground arith

  pub server_spec_frame :
      (m : LatitudeMachine) (keys : List String) (id : String) (s : Machines W)
      → let s' = (server_spec kube client before m keys id s).1 in
        (s'.object ≡ s.object) × (s'.trace ≡ s.trace)
  unfolding server_spec
  server_spec_frame m keys id s = ground arith

  pub create_server_frame :
      (spec : ServerSpec) (s : Machines W)
      → let s' = (create_server kube client before spec s).1 in
        (but_ids s'.object ≡ but_ids s.object) × (creations s'.trace ≡ creations s.trace + 1)
  unfolding create_server
  create_server_frame spec s = grind (arith, persist_frame, attach_frame)

  provision_with_frame :
      (text : String) (s : Machines W)
      → let s' = (provision_with kube client before text s).1 in
        (but_ids s'.object ≡ but_ids s.object) × (creations s'.trace ≤ creations s.trace + 1)
  unfolding provision_with
  provision_with_frame text s =
      grind (arith, ensure_user_data_frame, server_spec_frame, create_server_frame)

  provision_frame :
      (text : String) (s : Machines W)
      → let s' = (provision kube client before text s).1 in
        (but_ids s'.object ≡ but_ids s.object) × (creations s'.trace ≤ creations s.trace + 1)
  unfolding provision
  provision_frame text s = grind (arith, provision_with_frame)

  pub get_bootstrap_data_frame :
      (machine : Machine) (s : Machines W)
      → let s' = (get_bootstrap_data kube machine s).1 in
        (s'.object ≡ s.object) × (s'.trace ≡ s.trace)
  unfolding get_bootstrap_data get_raw_bootstrap_data bootstrap_value
  get_bootstrap_data_frame machine s = ground arith

  pub start_server_frame :
      (machine : Machine) (s : Machines W)
      → let s' = (start_server kube client before machine s).1 in
        (but_ids s'.object ≡ but_ids s.object) × (creations s'.trace ≤ creations s.trace + 1)
  unfolding start_server
  start_server_frame machine s = grind (arith, get_bootstrap_data_frame, provision_frame)
