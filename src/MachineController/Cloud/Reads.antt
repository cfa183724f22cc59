-- ===== src/MachineController/Cloud/Reads.antt =====
-- The reads of the machine controller leave the servers alone.
use cluster_api_provider_lat.Base.{String, List, [], ◌∷◌, ◌≡◌, arith, string_eq, refl}
use cluster_api_provider_lat.Api.{LatitudeMachine}
use cluster_api_provider_lat.Kube.{Kube}
use cluster_api_provider_lat.Latitude.{ClientInterface}
use cluster_api_provider_lat.MachineController.Cloud.{Cloud}
use cluster_api_provider_lat.MachineController.Lookup.{
  get_latitude_cluster, infrastructure_of, get_project_id, get_site, validate_machine_spec,
  any_failed_control_plane, check_control_plane_failed,
}
use cluster_api_provider_lat.MachineController.SshKeys.{get_ssh_keys}
use cluster_api_provider_lat.MachineController.Server.{injected, inject_vlan_config}

module _ {W : Type 0} (kube : Kube W) (client : ClientInterface W) (cloud : Cloud kube client) where
  -- The reads leave the servers alone.
  pub get_latitude_cluster_servers :
      (m : LatitudeMachine) (w : W)
      → cloud.servers (get_latitude_cluster kube m w).1 ≡ cloud.servers w
  unfolding get_latitude_cluster infrastructure_of
  get_latitude_cluster_servers m w = grind (arith, cloud.owner, cloud.capi_cluster, cloud.cluster)

  pub get_project_id_servers :
      (m : LatitudeMachine) (w : W) → cloud.servers (get_project_id kube m w).1 ≡ cloud.servers w
  unfolding get_project_id
  get_project_id_servers m w = grind (arith, get_latitude_cluster_servers)

  pub get_site_servers :
      (m : LatitudeMachine) (w : W) → cloud.servers (get_site kube m w).1 ≡ cloud.servers w
  unfolding get_site
  get_site_servers m w = grind (arith, cloud.owner, get_latitude_cluster_servers)

  pub validate_machine_spec_servers :
      (m : LatitudeMachine) (w : W)
      → cloud.servers (validate_machine_spec kube m w).1 ≡ cloud.servers w
  unfolding validate_machine_spec
  validate_machine_spec_servers m w = grind (arith, get_project_id_servers, get_site_servers)

  pub any_failed_servers :
      (ms : List LatitudeMachine) (w : W)
      → cloud.servers (any_failed_control_plane kube ms w).1 ≡ cloud.servers w
  unfolding any_failed_control_plane
  any_failed_servers [] w = refl
  any_failed_servers (m ∷ ms) w = grind (arith, cloud.owner, any_failed_servers ms)

  pub check_servers :
      (m : LatitudeMachine) (w : W)
      → cloud.servers (check_control_plane_failed kube m w).1 ≡ cloud.servers w
  unfolding check_control_plane_failed
  check_servers m w = grind (arith, get_latitude_cluster_servers, cloud.list, any_failed_servers)

  pub get_ssh_keys_servers :
      (m : LatitudeMachine) (w : W) → cloud.servers (get_ssh_keys kube m w).1 ≡ cloud.servers w
  unfolding get_ssh_keys
  get_ssh_keys_servers m w = grind (arith, cloud.secret)

  pub inject_servers :
      (m : LatitudeMachine) (text : String) (w : W)
      → cloud.servers (inject_vlan_config kube m text w).1 ≡ cloud.servers w
  unfolding inject_vlan_config injected
  inject_servers m text w = grind (arith, get_latitude_cluster_servers)
