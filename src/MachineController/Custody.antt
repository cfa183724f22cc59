-- ===== src/MachineController/Custody.antt =====
-- What it is that no server of a machine is lost, and the steps that change neither its servers nor
-- the id in its status.
pub mod Provision
pub mod Runs
pub mod Names
pub mod Clearing
pub mod Steps
use text.Mathlib.TextEquality.{eq_iff}
use cluster_api_provider_lat.Base.{
  String, Bool, true, false, Option, none, some, List, [], ◌∷◌, ◌≡◌, ◌⊎◌, inl, inr, arith, ◌==◌,
  string_eq, if◌then◌else◌, refl, Bool-cases,
}
use cluster_api_provider_lat.Go.Errors.{Error}
use cluster_api_provider_lat.World.{Call}
use cluster_api_provider_lat.Action.{
  Outcome, ok, err, panic, Result, value, error, is_ok, is_err, attempt, Outcome-cases,
}
use cluster_api_provider_lat.Api.{NamespacedName, Machine, LatitudeMachine}
use cluster_api_provider_lat.Kube.{Kube}
use cluster_api_provider_lat.Latitude.{ServerSpec, Server, ClientInterface}
use cluster_api_provider_lat.Scope.{
  new_machine_scope, set_ready, set_provider_id, get_bootstrap_data, get_raw_bootstrap_data,
  bootstrap_value,
}
use cluster_api_provider_lat.MachineController.Cloud.{
  Cloud, held, without, after_create, after_delete, named, held-without, held_empty, answered,
}
use cluster_api_provider_lat.MachineController.Conditions.{set_condition, set_machine_failed}
use cluster_api_provider_lat.MachineController.Lookup.{
  get_latitude_cluster, infrastructure_of, get_project_id, get_site, validate_machine_spec,
  any_failed_control_plane, check_control_plane_failed,
}
use cluster_api_provider_lat.MachineController.SshKeys.{get_ssh_keys}
use cluster_api_provider_lat.MachineController.Server.{
  Machines, with_server_id, injected, inject_vlan_config, attach, attach_server_to_vlan, persist,
  ensure_user_data, server_spec, create_server, provision_with, provision, start_server,
  reconcile_server,
}
use cluster_api_provider_lat.MachineController.Reconcile
use cluster_api_provider_lat.MachineController.Cloud.Reads.{
  get_latitude_cluster_servers, validate_machine_spec_servers, check_servers,
  get_project_id_servers, get_site_servers, get_ssh_keys_servers, inject_servers,
}

module _ {W : Type 0} (kube : Kube W) (client : ClientInterface W) (cloud : Cloud kube client) where
  -- A machine records the id of each of its servers.
  abbrev pub IsCustody : Machines W → Type 0
  IsCustody s = held (cloud.servers s.outside) s.object.status.server_id ≡ true

  -- Neither the servers nor the id has changed.
  abbrev pub IsUnmoved : Machines W → Machines W → Type 0
  IsUnmoved s s' =
      (cloud.servers s'.outside ≡ cloud.servers s.outside)
      × (s'.object.status.server_id ≡ s.object.status.server_id)

  pub set_condition-IsUnmoved :
      (type status reason message : String) (s : Machines W)
      → IsUnmoved s (set_condition kube type status reason message s).1
  unfolding set_condition
  set_condition-IsUnmoved type status reason message s = grind (arith, cloud.clock)

  pub get_bootstrap_data-IsUnmoved :
      (machine : Machine) (s : Machines W) → IsUnmoved s (get_bootstrap_data kube machine s).1
  unfolding get_bootstrap_data get_raw_bootstrap_data bootstrap_value
  get_bootstrap_data-IsUnmoved machine s = grind (arith, cloud.secret)

  attach_call-IsUnmoved :
      (id vlan : String) (s : Machines W) → IsUnmoved s (attach kube client id vlan s).1
  unfolding attach
  attach_call-IsUnmoved id vlan s = ground (arith, cloud.attach id vlan s.outside)

  pub attach-IsUnmoved : (s : Machines W) → IsUnmoved s (attach_server_to_vlan kube client s).1
  unfolding attach_server_to_vlan
  attach-IsUnmoved s =
      let t : Machines W = record s {
        outside = (get_latitude_cluster kube s.object s.outside).1;
      } in
      grind (
        arith,
        get_latitude_cluster_servers kube client cloud s.object s.outside,
        λ (vlan : String). attach_call-IsUnmoved s.object.status.server_id vlan t,
      )

  module _ (before : LatitudeMachine) where
    pub persist-IsUnmoved : (s : Machines W) → IsUnmoved s (persist kube client before s).1
    unfolding persist
    persist-IsUnmoved s = grind (arith, cloud.patch)

    pub ensure_user_data-IsUnmoved :
        (text : String) (s : Machines W)
        → IsUnmoved s (ensure_user_data kube client before text s).1
    unfolding ensure_user_data
    ensure_user_data-IsUnmoved text s = grind (arith, persist-IsUnmoved, cloud.create_user_data)

    pub server_spec-IsUnmoved :
        (m : LatitudeMachine) (keys : List String) (id : String) (s : Machines W)
        → IsUnmoved s (server_spec kube client before m keys id s).1
    unfolding server_spec
    server_spec-IsUnmoved m keys id s = ground (
      arith,
      get_project_id_servers kube client cloud m s.outside,
      get_site_servers kube client cloud m (get_project_id kube m s.outside).1,
    )

    pub create_server-IsCustody :
        (spec : ServerSpec) (s : Machines W)
        → (spec.hostname == cloud.host) ≡ true
        → cloud.servers s.outside ≡ []
        → IsCustody (create_server kube client before spec s).1
    unfolding create_server held
    create_server-IsCustody spec s named h =
        grind
          (arith, cloud.create spec s.outside named, persist-IsUnmoved, attach-IsUnmoved, eq_iff)
