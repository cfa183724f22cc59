-- ===== src/MachineController/Liveness/Provision.antt =====
-- In a world that answers, a machine without a server gets one.
use cluster_api_provider_lat.Base.{
  String, true, false, none, List, [], inl, inr, ◌≡◌, ◌==◌, string_eq, arith, ap,
}
use cluster_api_provider_lat.Action.{Outcome, ok, is_ok, Outcome-ok_cases, ◌>>=◌}
use cluster_api_provider_lat.Api.{LatitudeMachine}
use cluster_api_provider_lat.Kube.{Kube}
use cluster_api_provider_lat.Latitude.{ServerSpec, ClientInterface}
use cluster_api_provider_lat.Scope.{get_bootstrap_data}
use cluster_api_provider_lat.MachineController.Lookup.{get_latitude_cluster, get_project_id}
use cluster_api_provider_lat.MachineController.SshKeys.{get_ssh_keys}
use cluster_api_provider_lat.MachineController.Server.{
  Machines, injected, inject_vlan_config, attach, attach_server_to_vlan, persist, ensure_user_data,
  server_spec, create_server, provision_with, provision, start_server,
}
use cluster_api_provider_lat.MachineController.Frames.{
  but_ids, but_ids_fields, persist_frame, attach_frame, ensure_user_data_frame, server_spec_frame,
  get_bootstrap_data_frame,
}
use cluster_api_provider_lat.MachineController.Liveness.{
  IsWilling, IsOwn, panics, get_latitude_cluster_found, get_project_id_found, get_site_found,
  get_bootstrap_data_found,
}

pub but_ids_spec : (m n : LatitudeMachine) → but_ids m ≡ but_ids n → m.spec ≡ n.spec
but_ids_spec m n e = ap (λ o. o.spec) e

module _ {W : Type 0} (kube : Kube W) (client : ClientInterface W)
    (willing : IsWilling kube client) where
  attach_returns :
      (id vlan : String) (s : Machines W) → panics (attach kube client id vlan s).0 ≡ false
  unfolding attach
  attach_returns id vlan s = ground (arith, willing.attachment_returns id vlan s.outside)

  attach_server_to_vlan_returns :
      (s : Machines W)
      → IsOwn kube client willing s.object
      → panics (attach_server_to_vlan kube client s).0 ≡ false
  unfolding attach_server_to_vlan
  attach_server_to_vlan_returns s own =
      let t : Machines W = record s {
        outside = (get_latitude_cluster kube s.object s.outside).1;
      } in
      grind (
        arith,
        get_latitude_cluster_found kube client willing s.object s.outside own,
        λ (vlan : String). attach_returns s.object.status.server_id vlan t,
      )

  inject_vlan_config_returns :
      (m : LatitudeMachine) (text : String) (w : W)
      → IsOwn kube client willing m
      → panics (inject_vlan_config kube m text w).0 ≡ false
  unfolding inject_vlan_config injected
  inject_vlan_config_returns m text w own =
      grind (arith, get_latitude_cluster_found kube client willing m w own)

  module _ (before : LatitudeMachine) where
    persist_done : (s : Machines W) → (persist kube client before s).0 ≡ ok tt
    unfolding persist
    persist_done s = ground (arith, willing.patch_returns before s.object s.outside)

    ensure_user_data_done :
        (text : String) (s : Machines W)
        → is_ok (ensure_user_data kube client before text s).0 ≡ true
    unfolding ensure_user_data
    ensure_user_data_done text s = grind (arith, persist_done, willing.user_data_made)

    server_spec_done :
        (m : LatitudeMachine) (keys : List String) (id : String) (s : Machines W)
        → IsOwn kube client willing m
        → is_ok (server_spec kube client before m keys id s).0 ≡ true
    unfolding server_spec
    server_spec_done m keys id s own = ground (
      arith,
      get_project_id_found kube client willing m s.outside own,
      get_site_found kube client willing m (get_project_id kube m s.outside).1 own,
    )

    -- The call has returned, and the machine has a server.
    abbrev IsMade : {A : Type 0} → Outcome A × Machines W → Type 0
    IsMade (r, s) = (is_ok r ≡ true) × ((s.object.status.server_id == "") ≡ false)

    create_server-IsMade :
        (spec : ServerSpec) (s : Machines W)
        → IsOwn kube client willing s.object
        → IsMade (create_server kube client before spec s)
    unfolding create_server
    create_server-IsMade spec s own = grind (
      arith,
      willing.server_made spec s.outside,
      persist_done,
      persist_frame kube client before,
      attach_server_to_vlan_returns,
      attach_frame kube client before,
    )

    -- From the keys on.
    spec_to_server-IsMade :
        (keys : List String) (id : String) (s : Machines W)
        → IsOwn kube client willing s.object
        → IsMade (
            (server_spec kube client before s.object keys id >>= create_server kube client before)
              s)
    spec_to_server-IsMade keys id s own =
        let t = (server_spec kube client before s.object keys id s).1 in
        let same = (server_spec_frame kube client before s.object keys id s).0 in
        elim (Outcome-ok_cases (server_spec kube client before s.object keys id s).0) [
          | inl (spec, e) ↦ ground (arith, create_server-IsMade spec t (rw same own))
          | inr e ↦ ground (arith, server_spec_done s.object keys id s own)
        ]

    provision_with-IsMade :
        (text : String) (s : Machines W)
        → IsOwn kube client willing s.object
        → s.object.spec.ssh_key_secret_ref ≡ none
        → IsMade (provision_with kube client before text s)
    unfolding provision_with get_ssh_keys
    provision_with-IsMade text s own h =
        let t = (ensure_user_data kube client before text s).1 in
        let frame = (ensure_user_data_frame kube client before text s).0 in
        let (_, _, same) = but_ids_fields t.object s.object frame in
        let own' : IsOwn kube client willing t.object = rw same own in
        let same_spec = but_ids_spec t.object s.object frame in
        elim (Outcome-ok_cases (ensure_user_data kube client before text s).0) [
          | inl (id, e) ↦ ground (arith, same_spec, spec_to_server-IsMade [] id t own')
          | inr e ↦ ground (arith, ensure_user_data_done text s)
        ]

    provision-IsMade :
        (text : String) (s : Machines W)
        → IsOwn kube client willing s.object
        → s.object.spec.ssh_key_secret_ref ≡ none
        → IsMade (provision kube client before text s)
    unfolding provision
    provision-IsMade text s own h =
        let t : Machines W = record s {
          outside = (inject_vlan_config kube s.object text s.outside).1;
        } in
        grind (
          arith,
          inject_vlan_config_returns s.object text s.outside own,
          λ (text' : String). provision_with-IsMade text' t own h,
        )

    pub start_server_makes :
        (s : Machines W)
        → IsOwn kube client willing s.object
        → s.object.spec.ssh_key_secret_ref ≡ none
        → let (r, s') = start_server kube client before willing.machine s in
          (r ≡ ok none) × ((s'.object.status.server_id == "") ≡ false)
    unfolding start_server
    start_server_makes s own h =
        let t = (get_bootstrap_data kube willing.machine s).1 in
        grind (
          arith,
          get_bootstrap_data_found kube client willing s,
          get_bootstrap_data_frame kube client before willing.machine s,
          provision-IsMade willing.text t,
        )
