-- ===== src/MachineController/Server.antt =====
-- `reconcileServer`, `injectVLANConfig` and `attachServerToVLAN` of latitudemachine_controller.go.
use cluster_api_provider_lat.Base.{String, ◌<>◌, Bool, ◌||◌, not, Option, none, some}
use cluster_api_provider_lat.Base.{List, ◌==◌, string_eq, if◌then◌else◌}
use cluster_api_provider_lat.Base.Int.{ℤ}
use cluster_api_provider_lat.Go.Base64.{encode_to_string}
use cluster_api_provider_lat.Go.Errors.{plain, wrapped, is_bootstrap_data_not_ready}
use cluster_api_provider_lat.Go.Strings.{equal_fold}
use cluster_api_provider_lat.Action.{
  Action, Result, value, error, pure, fail, deref, attempt, wrapping, ◌>>=◌, when◌then◌else◌, ◌>>◌,
}
use cluster_api_provider_lat.Api.{Machine, LatitudeMachine, VlanConfig}
use cluster_api_provider_lat.Kube.{Kube}
use cluster_api_provider_lat.Latitude.{ServerSpec, Server, CreateUserDataRequest, ClientInterface}
use cluster_api_provider_lat.World.{World, Call, external, perform, emit, the_object, update}
use cluster_api_provider_lat.Vlan.{
  default_vlan_interface, get_machine_index, calculate_vlan_ip_address,
  inject_vlan_config_into_cloud_init,
}
use cluster_api_provider_lat.Scope.{get_bootstrap_data}
use cluster_api_provider_lat.MachineController.Lookup.{
  get_latitude_cluster, get_project_id, get_site, get_hostname,
}
use cluster_api_provider_lat.MachineController.SshKeys.{get_ssh_keys}

abbrev pub Machines : Type 0 → Type 0
Machines W = World W LatitudeMachine

unfoldable pub is_running : String → Bool
is_running status =
    equal_fold status "on" || equal_fold status "active" || equal_fold status "running"

abbrev pub with_server_id : String → LatitudeMachine → LatitudeMachine
with_server_id id m = record m { status = record m.status { server_id = id } }

abbrev pub with_user_data_id : String → LatitudeMachine → LatitudeMachine
with_user_data_id id m = record m { status = record m.status { user_data_id = id } }

-- The error is logged, and the code goes on.
abbrev pub log_error : {S : Type 0} → Action S (Unit {0}) → Action S (Unit {0})
log_error m = attempt m >>= λ _. pure tt

-- The user data with the configuration for an interface of the VLAN.
unfoldable pub injected : {S : Type 0} → LatitudeMachine → VlanConfig → ℤ → String → Action S String
injected m config vid user_data =
    elim (calculate_vlan_ip_address config.subnet (get_machine_index m.meta.name)) [
      | error e ↦ fail (wrapped "failed to calculate VLAN IP address" e)
      | value ip ↦ pure (
          inject_vlan_config_into_cloud_init user_data (record {
            vid = vid;
            subnet = config.subnet;
            ip_address = ip;
            interface =
                if config.network_interface == ""
                then default_vlan_interface
                else config.network_interface;
          }))
    ]

-- Beside an error, the code returns the user data that it was given.
abbrev pub or_unchanged : {S : Type 0} → String → Result String → Action S String
or_unchanged user_data (value text) = pure text
or_unchanged user_data (error e) = pure user_data

module _ {W : Type 0} (kube : Kube W) where
  -- The cluster that was found is used without a test for nil.
  unfoldable pub inject_vlan_config : LatitudeMachine → String → Action W String
  inject_vlan_config m user_data = do
    found ← wrapping "failed to get LatitudeCluster" (get_latitude_cluster kube m)
    cluster ← deref found
    elim (cluster.spec.vlan_config) [
      | none ↦ pure user_data
      | some config ↦ elim (cluster.status.vlan_vid) [
        | none ↦ pure user_data
        | some vid ↦ injected m config vid user_data
      ]
    ]

  module _ (client : ClientInterface W) where
    unfoldable pub attach : String → String → Action (Machines W) (Unit {0})
    attach server_id vlan_id = do
      wrapping "failed to attach server to VLAN" (
          perform (Call.attach_server_to_vlan server_id vlan_id)
            (client.attach_server_to_vlan server_id vlan_id))
      emit "Normal" "ServerAttachedToVLAN"
          ("Attached server " <> (server_id <> (" to VLAN " <> vlan_id)))

    unfoldable pub attach_server_to_vlan : Action (Machines W) (Unit {0})
    attach_server_to_vlan = the_object >>= λ m.
        when m.status.server_id == ""
        then fail (plain "serverID not set")
        else wrapping "failed to get LatitudeCluster" (external (get_latitude_cluster kube m))
          >>= λ found. deref found >>= λ cluster. elim (cluster.spec.vlan_config) [
            | none ↦ pure tt
            | some config ↦ elim (cluster.status.vlan_id) [
              | none ↦ pure tt
              | some vlan_id ↦ attach m.status.server_id vlan_id
            ]
          ]

    module _ (before : LatitudeMachine) where
      -- `patchHelper.Patch` in the middle of a reconciliation, whose error is logged.
      unfoldable pub persist : Action (Machines W) (Unit {0})
      persist = the_object >>= λ m.
          log_error (perform (Call.patch_machine m) (kube.patch_machine before m))

      -- The user data of the machine: the one that it has, or a new one, recorded at once.
      unfoldable pub ensure_user_data : String → Action (Machines W) String
      ensure_user_data user_data = the_object >>= λ m.
          when not (m.status.user_data_id == "")
          then pure m.status.user_data_id
          else let request : CreateUserDataRequest = record {
            name = m.meta.name <> ("-" <> m.meta.uid);
            content = encode_to_string user_data;
          } in
            wrapping "create user-data"
              (perform (Call.create_user_data request) (client.create_user_data request))
            >>= λ id. update (with_user_data_id id) >> persist >> pure id

      unfoldable pub server_spec :
          LatitudeMachine → List String → String → Action (Machines W) ServerSpec
      server_spec m ssh_keys user_data_id = do
        project ← external (get_project_id kube m)
        site ← external (get_site kube m)
        pure (record {
          project = project;
          plan = m.spec.plan;
          operating_system = m.spec.operating_system;
          site = site;
          hostname = get_hostname m;
          ssh_keys = ssh_keys;
          user_data = user_data_id;
        })

      unfoldable pub create_server : ServerSpec → Action (Machines W) (Unit {0})
      create_server spec = do
        server ←
            wrapping "failed to create server"
              (perform (Call.create_server spec) (client.create_server spec))
        update (with_server_id server.id)
        persist
        log_error attach_server_to_vlan

      -- What follows when the user data has its final text.
      unfoldable pub provision_with : String → Action (Machines W) (Unit {0})
      provision_with user_data = do
        user_data_id ← ensure_user_data user_data
        m ← the_object
        ssh_keys ← wrapping "failed to get SSH keys" (external (get_ssh_keys kube m))
        spec ← server_spec m ssh_keys user_data_id
        create_server spec

      -- From the user data on: what follows when the machine has no server.
      unfoldable pub provision : String → Action (Machines W) (Unit {0})
      provision text = do
        m ← the_object
        injection ← attempt (external (inject_vlan_config m text))
        user_data ← or_unchanged text injection
        provision_with user_data

      -- `none` is the nil server: not ready yet.
      unfoldable pub start_server : Machine → Action (Machines W) (Option Server)
      start_server machine = attempt (get_bootstrap_data kube machine) >>= elim [
        | error e ↦
            when is_bootstrap_data_not_ready e
            then pure none
            else fail (wrapped "failed to get bootstrap data" e)
        | value text ↦ provision text >> pure none
      ]

      -- Any error of `GetServer` makes the code forget the server.
      unfoldable pub reconcile_server : Machine → Action (Machines W) (Option Server)
      reconcile_server machine = the_object >>= λ m.
          when m.status.server_id == ""
          then start_server machine
          else attempt
              (perform (Call.get_server m.status.server_id) (client.get_server m.status.server_id))
            >>= elim [
              | error e ↦ update (with_server_id "") >> start_server machine
              | value server ↦ when is_running server.status then pure (some server) else pure none
            ]
