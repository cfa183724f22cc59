-- ===== src/Tests/LivenessExamples.antt =====
-- A machine gets ready in a small world.
use cluster_api_provider_lat.Base.{
  true, false, none, [], ◌∷◌, ◌≡◌, ◌⊎◌, refl, ap, ◌==◌, string_eq, if◌then◌else◌, some,
}
use cluster_api_provider_lat.Go.Strings.{equal_fold}
use cluster_api_provider_lat.Api.{NamespacedName, LatitudeMachine, Machine, ObjectMeta}
use cluster_api_provider_lat.Kube.{Kube, IsLawful}
use cluster_api_provider_lat.MachineController.Server.{is_running}
use cluster_api_provider_lat.MachineController.Liveness.{IsWilling, but_finalizers, runs}
use cluster_api_provider_lat.MachineController.Liveness.Runs.{
  after_run, gets_ready, fourth_run_rests,
}
use cluster_api_provider_lat.MachineController.Reconcile.{reconcile, requeue}
use cluster_api_provider_lat.Action.{ok, is_ok, pure}
use cluster_api_provider_lat.World.{Call}
use cluster_api_provider_lat.Latitude.{ClientInterface}
use cluster_api_provider_lat.Tests.Fixtures.{
  Nothing, kube_over, client_over, a_server, a_kube, a_client, a_kube-IsLawful, owner, capi_cluster,
  cluster_with, machine_with,
}

server_runs : runs (ok a_server) ≡ true
unfolding is_running equal_fold
server_runs = refl

-- A world that is the machine as the API server has it.
abbrev memory_kube : Kube LatitudeMachine
memory_kube = record (kube_over LatitudeMachine) {
  get_latitude_machine = λ key stored. (ok stored, stored);
  patch_machine = λ before after stored. (ok tt, after);
}

memory_kube-IsLawful : IsLawful memory_kube
memory_kube-IsLawful = record {
  contains-add = a_kube-IsLawful.contains-add;
  contains-remove = a_kube-IsLawful.contains-remove;
  contains-remove_ne = a_kube-IsLawful.contains-remove_ne;
}

abbrev memory_client : ClientInterface LatitudeMachine
memory_client = client_over LatitudeMachine

abbrev memory_willing : IsWilling memory_kube memory_client
memory_willing = record {
  meta = but_finalizers (machine_with "" none).meta;
  machine = owner;
  cluster = capi_cluster;
  latitude_cluster = cluster_with none;
  secret = ("value", "#cloud-config\nruncmd:\n  - 'true'\n") ∷ [];
  owner_found = λ m w own. refl;
  owner_returns = λ m w. refl;
  none_failed = λ worker namespace w. refl;
  site = "SAO2";
  site_given = (refl, refl);
  secret_name = "cp-0-bootstrap";
  secret_named = refl;
  secret_found = λ key w. refl;
  text = "#cloud-config\nruncmd:\n  - 'true'\n";
  text_given = (refl, refl);
  cluster_found = λ w. refl;
  reference = record { namespace = "default"; name = "demo" };
  reference_given = refl;
  latitude_cluster_found = λ key w. refl;
  project = "proj_1";
  project_given = (refl, refl);
  helper_made = λ m w. refl;
  patch_returns = λ m n w. refl;
  user_data_made = λ req w. refl;
  server_made = λ spec w. refl;
  attachment_returns = λ id vlan w. refl;
  server_runs = λ id w. server_runs;
}

-- A worker beside the machine of the control plane, which has not failed.
abbrev worker_owner : Machine
worker_owner = record owner { meta = record owner.meta { name = "md-0"; labels = [] } }

abbrev worker_kube : Kube Nothing
worker_kube = record a_kube {
  get_owner_machine = λ meta. pure (some (if meta.name == "md-0" then worker_owner else owner));
}

abbrev worker : LatitudeMachine
worker = record (machine_with "" none) {
  meta = record ((machine_with "" none).meta) { name = "md-0"; finalizers = [] };
}

worker_found :
    (m : ObjectMeta) (w : Nothing)
    → but_finalizers m ≡ but_finalizers worker.meta
    → (worker_kube.get_owner_machine m w).0 ≡ ok (some worker_owner)
worker_found m w own = rw (ap (λ o. o.name) own) refl

worker_kube-IsLawful : IsLawful worker_kube
worker_kube-IsLawful = record {
  contains-add = a_kube-IsLawful.contains-add;
  contains-remove = a_kube-IsLawful.contains-remove;
  contains-remove_ne = a_kube-IsLawful.contains-remove_ne;
}

abbrev worker_willing : IsWilling worker_kube a_client
worker_willing = record {
  meta = but_finalizers worker.meta;
  machine = worker_owner;
  cluster = capi_cluster;
  latitude_cluster = cluster_with none;
  secret = ("value", "#cloud-config\nruncmd:\n  - 'true'\n") ∷ [];
  owner_found = worker_found;
  owner_returns = λ m w. refl;
  none_failed = λ worker namespace w. refl;
  site = "SAO2";
  site_given = (refl, refl);
  secret_name = "cp-0-bootstrap";
  secret_named = refl;
  secret_found = λ key w. refl;
  text = "#cloud-config\nruncmd:\n  - 'true'\n";
  text_given = (refl, refl);
  cluster_found = λ w. refl;
  reference = record { namespace = "default"; name = "demo" };
  reference_given = refl;
  latitude_cluster_found = λ key w. refl;
  project = "proj_1";
  project_given = (refl, refl);
  helper_made = λ m w. refl;
  patch_returns = λ m n w. refl;
  user_data_made = λ req w. refl;
  server_made = λ spec w. refl;
  attachment_returns = λ id vlan w. refl;
  server_runs = λ id w. server_runs;
}

abbrev new_machine : LatitudeMachine
new_machine = record (machine_with "" none) {
  meta = record ((machine_with "" none).meta) { finalizers = [] };
}

gets_ready_example :
    (after_run worker_kube a_client tt
      (after_run worker_kube a_client tt (after_run worker_kube a_client tt worker))).status.ready
    ≡ true
gets_ready_example =
    gets_ready worker_kube a_client worker_willing worker_kube-IsLawful worker tt tt tt refl
      ((refl, refl, refl), refl, refl, refl, refl) refl refl

abbrev a_request : NamespacedName
a_request = record { namespace = "default"; name = "cp-0" }

abbrev rested : LatitudeMachine
rested = after_run memory_kube memory_client new_machine (
    after_run memory_kube memory_client new_machine
      (after_run memory_kube memory_client new_machine new_machine))

fourth_run_rests_example :
    let (r, s') = reconcile memory_kube memory_client a_request rested in
    (s'.object ≡ some rested)
    × (s'.trace ≡ Call.patch_machine rested ∷ [])
    × (s'.outside ≡ rested)
    × ((r ≡ ok (requeue 0)) ⊎ (is_ok (memory_kube.patch_machine rested rested rested).0 ≡ false))
fourth_run_rests_example =
    fourth_run_rests memory_kube memory_client memory_willing memory_kube-IsLawful new_machine
      new_machine new_machine new_machine rested refl ((refl, refl, refl), refl, refl, refl, refl)
      refl refl a_request refl
