-- ===== src/MachineController/Custody/Provision.antt =====
-- `reconcileServer` and the creation of a server keep the ids of the servers.
use cluster_api_provider_lat.Base.{
  String, Bool, true, false, Option, none, some, [], ◌∷◌, ◌≡◌, inl, inr, arith, ◌==◌, string_eq,
  Bool-cases, List, ap, ◌<>◌,
}
use cluster_api_provider_lat.Go.Errors.{Error}
use cluster_api_provider_lat.World.{Call}
use cluster_api_provider_lat.Action.{Outcome, ok, err, panic, is_err, Outcome-cases}
use cluster_api_provider_lat.Api.{Machine, LatitudeMachine}
use cluster_api_provider_lat.Kube.{Kube}
use cluster_api_provider_lat.Latitude.{ServerSpec, Server, ClientInterface}
use cluster_api_provider_lat.MachineController.Cloud.{Cloud, held, held-without, held_empty}
use cluster_api_provider_lat.MachineController.Server.{
  Machines, with_server_id, inject_vlan_config, ensure_user_data, provision_with, provision,
  start_server, reconcile_server, server_spec,
}
use cluster_api_provider_lat.MachineController.Lookup.{get_hostname}
use cluster_api_provider_lat.MachineController.Frames.{but_ids, ensure_user_data_frame}
use cluster_api_provider_lat.Scope.{get_bootstrap_data, get_raw_bootstrap_data, bootstrap_value}
use cluster_api_provider_lat.MachineController.Cloud.Reads.{get_ssh_keys_servers, inject_servers}
use cluster_api_provider_lat.MachineController.Custody.{
  create_server-IsCustody, IsCustody, IsUnmoved, get_bootstrap_data-IsUnmoved,
  ensure_user_data-IsUnmoved, server_spec-IsUnmoved,
}

-- The server that a run finds is the one whose id the machine has.
abbrev pub found_id : Outcome (Option Server) → String → Bool
found_id (ok (some server)) id = server.id == id
found_id (ok none) id = true
found_id (err e) id = true
found_id panic id = true

-- The specification that is made asks for this host.
abbrev spec_hostname : Outcome ServerSpec → String → Bool
spec_hostname (ok spec) host = spec.hostname == host
spec_hostname (err e) host = true
spec_hostname panic host = true

get_hostname-but_ids :
    (m n : LatitudeMachine) → but_ids m ≡ but_ids n → get_hostname m ≡ get_hostname n
unfolding get_hostname
get_hostname-but_ids m n e = ap (λ o. o.meta.namespace <> ("-" <> o.meta.name)) e

module _ {W : Type 0} (kube : Kube W) (client : ClientInterface W) (before : LatitudeMachine) where
  server_spec_hostname :
      (m : LatitudeMachine) (keys : List String) (id host : String) (s : Machines W)
      → (get_hostname m == host) ≡ true
      → spec_hostname (server_spec kube client before m keys id s).0 host ≡ true
  unfolding server_spec
  server_spec_hostname m keys id host s h = ground arith

get_bootstrap_data_object :
    {W : Type 0} (kube : Kube W) (machine : Machine) (s : Machines W)
    → (get_bootstrap_data kube machine s).1.object ≡ s.object
unfolding get_bootstrap_data get_raw_bootstrap_data bootstrap_value
get_bootstrap_data_object kube machine s = ground arith

module _ {W : Type 0} (kube : Kube W) (client : ClientInterface W) (cloud : Cloud kube client) where
  module _ (before : LatitudeMachine) where
    provision_with-IsCustody :
        (text : String) (s : Machines W)
        → (get_hostname s.object == cloud.host) ≡ true
        → cloud.servers s.outside ≡ []
        → IsCustody kube client cloud (provision_with kube client before text s).1
    unfolding provision_with held
    provision_with-IsCustody text s named h =
        let t = (ensure_user_data kube client before text s).1 in
        grind (
          arith,
          ensure_user_data-IsUnmoved kube client cloud before text s,
          get_ssh_keys_servers kube client cloud t.object t.outside,
          get_hostname-but_ids t.object s.object
              (ensure_user_data_frame kube client before text s).0,
          λ (keys : List String) (id : String) (u : Machines W).
              server_spec_hostname kube client before t.object keys id cloud.host u,
          server_spec-IsUnmoved kube client cloud before,
          create_server-IsCustody kube client cloud before,
        )

    provision-IsCustody :
        (text : String) (s : Machines W)
        → (get_hostname s.object == cloud.host) ≡ true
        → cloud.servers s.outside ≡ []
        → IsCustody kube client cloud (provision kube client before text s).1
    unfolding provision held
    provision-IsCustody text s named h =
        let t : Machines W = record s {
          outside = (inject_vlan_config kube s.object text s.outside).1;
        } in
        grind (
          arith,
          inject_servers kube client cloud s.object text s.outside,
          λ (text' : String). provision_with-IsCustody text' t named,
        )

    start_server-IsCustody :
        (machine : Machine) (s : Machines W)
        → (get_hostname s.object == cloud.host) ≡ true
        → cloud.servers s.outside ≡ []
        → IsCustody kube client cloud (start_server kube client before machine s).1
    unfolding start_server held
    start_server-IsCustody machine s named h = grind (
      arith,
      get_bootstrap_data-IsUnmoved kube client cloud,
      get_bootstrap_data_object kube machine s,
      provision-IsCustody,
    )

    -- A server that is known still runs, and has the id of the machine.
    reconcile_server_known :
        (machine : Machine) (s : Machines W)
        → (s.object.status.server_id == "") ≡ false
        → is_err (client.get_server s.object.status.server_id s.outside).0 ≡ false
        → IsUnmoved kube client cloud s (reconcile_server kube client before machine s).1
    unfolding reconcile_server
    reconcile_server_known machine s h k =
        ground (arith, cloud.get s.object.status.server_id s.outside)

    reconcile_server_new :
        (machine : Machine) (s : Machines W)
        → (s.object.status.server_id == "") ≡ true
        → reconcile_server kube client before machine s ≡ start_server kube client before machine s
    unfolding reconcile_server
    reconcile_server_new machine s h = ground arith

    -- The state in which the code starts again when the server was not found.
    abbrev lost : Machines W → Machines W
    lost s = record {
      outside = (client.get_server s.object.status.server_id s.outside).1;
      object = with_server_id "" s.object;
      trace = Call.get_server s.object.status.server_id ∷ s.trace;
    }

    reconcile_server-lost :
        (machine : Machine) (s : Machines W) (e : Error)
        → (s.object.status.server_id == "") ≡ false
        → (client.get_server s.object.status.server_id s.outside).0 ≡ err e
        → reconcile_server kube client before machine s
          ≡ start_server kube client before machine (lost s)
    unfolding reconcile_server
    reconcile_server-lost machine s e h k = ground arith

    lost_hostname :
        (s : Machines W)
        → (get_hostname s.object == cloud.host) ≡ true
        → (get_hostname (lost s).object == cloud.host) ≡ true
    unfolding get_hostname
    lost_hostname s named = named

    lost_servers :
        (s : Machines W) (e : Error)
        → IsCustody kube client cloud s
        → (client.get_server s.object.status.server_id s.outside).0 ≡ err e
        → cloud.servers (lost s).outside ≡ []
    lost_servers s e h k = ground (
      arith,
      held-without (cloud.servers s.outside) s.object.status.server_id h,
      cloud.get s.object.status.server_id s.outside,
    )

    pub reconcile_server-IsCustody :
        (machine : Machine) (s : Machines W)
        → (get_hostname s.object == cloud.host) ≡ true
        → IsCustody kube client cloud s
        → IsCustody kube client cloud (reconcile_server kube client before machine s).1
    reconcile_server-IsCustody machine s named h =
        elim (Bool-cases (s.object.status.server_id == "")) [
          | inl unknown ↦ rw (reconcile_server_new machine s unknown) (
              start_server-IsCustody machine s named
                (held_empty (cloud.servers s.outside) s.object.status.server_id unknown h))
          | inr known ↦
              elim (Outcome-cases (client.get_server s.object.status.server_id s.outside).0) [
                | inl (e, missing) ↦ rw (reconcile_server-lost machine s e known missing) (
                    start_server-IsCustody machine (lost s) (lost_hostname s named)
                      (lost_servers s e h missing))
                | inr found ↦ ground (arith, reconcile_server_known machine s known found)
              ]
        ]

    start_server_found :
        (machine : Machine) (s : Machines W) (id : String)
        → found_id (start_server kube client before machine s).0 id ≡ true
    unfolding start_server
    start_server_found machine s id = ground arith

    pub reconcile_server_found :
        (machine : Machine) (s : Machines W)
        → let (r, s') = reconcile_server kube client before machine s in
          found_id r s'.object.status.server_id ≡ true
    unfolding reconcile_server
    reconcile_server_found machine s = ground (
      arith,
      cloud.get s.object.status.server_id s.outside,
      start_server_found machine s
          (start_server kube client before machine s).1.object.status.server_id,
      start_server_found machine (lost s)
          (start_server kube client before machine (lost s)).1.object.status.server_id,
    )
