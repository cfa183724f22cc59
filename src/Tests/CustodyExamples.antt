-- ===== src/Tests/CustodyExamples.antt =====
-- The theorems on the servers of a machine, in a small cloud.
use cluster_api_provider_lat.Base.{
  String, true, false, none, some, List, [], ◌∷◌, ◌≡◌, ◌⊎◌, arith, ◌==◌, string_eq, if◌then◌else◌,
  refl,
}
use text.Mathlib.TextEquality.{eq_iff}
use cluster_api_provider_lat.Go.Errors.{plain}
use cluster_api_provider_lat.Go.Strings.{equal_fold}
use cluster_api_provider_lat.Action.{ok, err, is_ok}
use cluster_api_provider_lat.Api.{NamespacedName, LatitudeMachine}
use cluster_api_provider_lat.Kube.{Kube}
use cluster_api_provider_lat.Latitude.{ServerSpec, ClientInterface}
use cluster_api_provider_lat.MachineController.Cloud.{
  Cloud, after_create, named, after_get, answered, without, held, gone, none_left,
}
use cluster_api_provider_lat.MachineController.Server.{Machines}
use cluster_api_provider_lat.MachineController.Reconcile
use cluster_api_provider_lat.MachineController.Reconcile.{dispatch}
use cluster_api_provider_lat.MachineController.Server.{
  is_running, create_server, provision, provision_with, start_server, reconcile_server,
  inject_vlan_config, injected, ensure_user_data, persist, server_spec, attach_server_to_vlan,
  attach,
}
use cluster_api_provider_lat.MachineController.Lookup.{
  get_latitude_cluster, infrastructure_of, get_project_id, get_site, validate_machine_spec,
  get_hostname,
}
use cluster_api_provider_lat.MachineController.SshKeys.{get_ssh_keys}
use cluster_api_provider_lat.MachineController.Conditions.{
  set_condition, merge_condition, reads_clock,
}
use cluster_api_provider_lat.Scope.{
  new_machine_scope, set_ready, set_provider_id, get_bootstrap_data, get_raw_bootstrap_data,
  bootstrap_value,
}
use cluster_api_provider_lat.MachineController.Custody.Clearing.{settled, dispatch_clears}
use cluster_api_provider_lat.MachineController.Custody.Steps.{
  ends_patched, IsRecorded, Steps, done, later, a_run, outside_change, Steps-IsRecorded,
}
use cluster_api_provider_lat.Tests.Fixtures.{
  kube_over, client_over, a_server, has, machine_with, meta_of,
}

-- The servers that run for the machine cp-0, and the id in its status. There is another machine,
-- cp-1, whose server and status are not looked at.
abbrev pub SmallCloud : Type 0
SmallCloud = List String × String

abbrev pub small_host : String
small_host = "default-cp-0"

abbrev other_machine : LatitudeMachine
other_machine = record (machine_with "sv_9" none) { meta = meta_of "cp-1" [] none }

abbrev pub small_kube : Kube SmallCloud
small_kube = record (kube_over SmallCloud) {
  get_latitude_machine = λ key (ids, id).
      (ok (if key.name == "cp-1" then other_machine else machine_with id none), (ids, id));
  patch_machine = λ before after (ids, id).
      (ok tt, (ids, if get_hostname after == small_host then after.status.server_id else id));
}

pub small_patch :
    (m n : LatitudeMachine) (w : SmallCloud)
    → ((small_kube.patch_machine m n w).1.0 ≡ w.0)
      × (((get_hostname n == small_host) ≡ false)
          ⊎ (is_ok (small_kube.patch_machine m n w).0 ≡ false)
          ⊎ ((small_kube.patch_machine m n w).1.1 ≡ n.status.server_id))
small_patch m n w = ground arith

abbrev small_client : ClientInterface SmallCloud
small_client = record (client_over SmallCloud) {
  create_server = λ spec (ids, id).
      if spec.hostname == small_host
      then (ok a_server, ("sv_1" ∷ ids, id))
      else (ok (record a_server { id = "sv_9" }), (ids, id));
  get_server = λ server_id (ids, id).
      if has ids server_id
      then (ok (record a_server { id = server_id }), (ids, id))
      else (err (plain "not found"), (without ids server_id, id));
  delete_server = λ server_id (ids, id). (ok tt, (without ids server_id, id));
}

small_create :
    (spec : ServerSpec) (w : SmallCloud)
    → (spec.hostname == small_host) ≡ true
    → ((small_client.create_server spec w).1.0
        ≡ after_create (small_client.create_server spec w).0 w.0)
      × (named (small_client.create_server spec w).0 ≡ true)
small_create spec w h = ground arith

small_get :
    (id : String) (w : SmallCloud)
    → ((small_client.get_server id w).1.0 ≡ after_get (small_client.get_server id w).0 id w.0)
      × (answered id (small_client.get_server id w).0 ≡ true)
small_get id w = ground (arith, eq_iff id id)

abbrev small_cloud : Cloud small_kube small_client
small_cloud = record {
  host = small_host;
  servers = λ (ids, id). ids;
  recorded = λ (ids, id). id;
  create = small_create;
  delete = λ id w. refl;
  get = λ id w. small_get id w;
  create_user_data = λ req w. refl;
  delete_user_data = λ id w. refl;
  attach = λ id vlan w. refl;
  patch = small_patch;
  read = λ key w. (refl, refl);
  helper = λ m w. (refl, refl);
  secret = λ key w. refl;
  cluster = λ key w. refl;
  list = λ namespace w. refl;
  owner = λ m w. refl;
  capi_cluster = λ m w. refl;
  clock = λ w. refl;
}

abbrev a_request : NamespacedName
a_request = record { namespace = "default"; name = "cp-0" }

-- A run creates a server, another finds it, and then it goes.
two_runs : Steps small_kube small_client small_cloud ([], "") ([], "sv_1")
unfolding Reconcile.reconcile Reconcile.with_deferred_patch Reconcile.dispatch
    Reconcile.reconcile_normal Reconcile.find_owner Reconcile.with_owner
    Reconcile.blocked_by_control_plane Reconcile.validated Reconcile.provision_step
    Reconcile.mark_ready Reconcile.wait_for_provisioning Reconcile.addresses_of ends_patched
    new_machine_scope set_ready set_provider_id get_bootstrap_data get_raw_bootstrap_data
    bootstrap_value validate_machine_spec get_project_id get_latitude_cluster infrastructure_of
    get_site reconcile_server start_server provision provision_with inject_vlan_config injected
    ensure_user_data persist get_ssh_keys server_spec create_server attach_server_to_vlan attach
    set_condition merge_condition reads_clock held is_running equal_fold get_hostname
two_runs =
    later
      (later (later done (a_run a_request ([], "") refl refl))
        (a_run a_request ("sv_1" ∷ [], "sv_1") refl refl))
      (outside_change (gone none_left) refl)

Steps-IsRecorded_example : IsRecorded small_kube small_client small_cloud ([], "sv_1")
unfolding held
Steps-IsRecorded_example =
    Steps-IsRecorded small_kube small_client small_cloud {w = ([], "")} refl two_runs

-- A run of the other machine makes a server of its own and does not touch the account of the first.
other_run :
    (Reconcile.reconcile small_kube small_client
      (record { namespace = "default"; name = "cp-1" })
      ("sv_1" ∷ [], "sv_1")).1.outside
    ≡ ("sv_1" ∷ [], "sv_1")
unfolding Reconcile.reconcile Reconcile.with_deferred_patch Reconcile.dispatch
    Reconcile.reconcile_normal Reconcile.find_owner Reconcile.with_owner
    Reconcile.blocked_by_control_plane Reconcile.validated Reconcile.provision_step
    Reconcile.mark_ready Reconcile.wait_for_provisioning Reconcile.addresses_of new_machine_scope
    set_ready set_provider_id get_bootstrap_data get_raw_bootstrap_data bootstrap_value
    validate_machine_spec get_project_id get_latitude_cluster infrastructure_of get_site
    reconcile_server start_server provision provision_with inject_vlan_config injected
    ensure_user_data persist get_ssh_keys server_spec create_server attach_server_to_vlan attach
    set_condition merge_condition reads_clock is_running equal_fold get_hostname without
other_run = refl

-- A client whose questions fail, though the server runs.
abbrev flaky_client : ClientInterface SmallCloud
flaky_client = record small_client {
  create_server = λ spec (ids, id). (ok (record a_server { id = "sv_2" }), ("sv_2" ∷ ids, id));
  get_server = λ server_id (ids, id). (err (plain "timeout"), (ids, id));
}

-- A run makes a second server beside the first, which is not recorded any more.
forgotten_server :
    (Reconcile.reconcile small_kube flaky_client a_request ("sv_1" ∷ [], "sv_1")).1.outside
    ≡ ("sv_2" ∷ "sv_1" ∷ [], "sv_2")
unfolding Reconcile.reconcile Reconcile.with_deferred_patch Reconcile.dispatch
    Reconcile.reconcile_normal Reconcile.find_owner Reconcile.with_owner
    Reconcile.blocked_by_control_plane Reconcile.validated Reconcile.provision_step
    Reconcile.mark_ready Reconcile.wait_for_provisioning Reconcile.addresses_of new_machine_scope
    set_ready set_provider_id get_bootstrap_data get_raw_bootstrap_data bootstrap_value
    validate_machine_spec get_project_id get_latitude_cluster infrastructure_of get_site
    reconcile_server start_server provision provision_with inject_vlan_config injected
    ensure_user_data persist get_ssh_keys server_spec create_server attach_server_to_vlan attach
    set_condition merge_condition reads_clock is_running equal_fold get_hostname
forgotten_server = refl

abbrev deleted_machine : Machines SmallCloud
deleted_machine = record {
  outside = ("sv_1" ∷ [], "sv_1");
  object = machine_with "sv_1" (some 5);
  trace = [];
}

dispatch_clears_example :
    let (r, s') = dispatch small_kube small_client deleted_machine.object deleted_machine in
    (s'.outside.0 ≡ []) ⊎ ((settled r ≡ false) × (s'.object.meta ≡ deleted_machine.object.meta))
unfolding held
dispatch_clears_example =
    dispatch_clears small_kube small_client small_cloud deleted_machine.object deleted_machine refl
      refl refl
