-- ===== src/Tests/LifetimeExamples.antt =====
-- The whole life of a machine in a small cloud, in which every question is answered.
use cluster_api_provider_lat.Base.{
  String, true, false, none, some, List, [], ◌∷◌, ◌≡◌, string_eq, refl,
}
use text.Mathlib.TextEquality.{eq_iff}
use cluster_api_provider_lat.Go.Strings.{equal_fold}
use cluster_api_provider_lat.Action.{ok}
use cluster_api_provider_lat.Api.{LatitudeMachine}
use cluster_api_provider_lat.Kube.{IsLawful}
use cluster_api_provider_lat.Latitude.{ClientInterface}
use cluster_api_provider_lat.MachineController.Cloud.{Cloud, IsKept, none_left, keep, without, held}
use cluster_api_provider_lat.MachineController.Lookup.{get_hostname}
use cluster_api_provider_lat.MachineController.Server.{Machines, is_running}
use cluster_api_provider_lat.MachineController.Reconcile.{dispatch, requeue}
use cluster_api_provider_lat.MachineController.Liveness.{IsWilling, but_finalizers, runs}
use cluster_api_provider_lat.MachineController.Liveness.Runs.{after_run, start, is_finalized}
use cluster_api_provider_lat.MachineController.Lifetime.{
  IsObliging, deleted_at, world_after, gets_released, lives_and_leaves_nothing,
}
use cluster_api_provider_lat.Tests.Fixtures.{
  a_kube-IsLawful, client_over, a_server, owner, capi_cluster, cluster_with, machine_with,
}
use cluster_api_provider_lat.Tests.CustodyExamples.{SmallCloud, small_host, small_kube, small_patch}

-- A server is there whenever it is asked for.
abbrev steady_client : ClientInterface SmallCloud
steady_client = record (client_over SmallCloud) {
  create_server = λ spec (ids, id). (ok a_server, ("sv_1" ∷ ids, id));
  get_server = λ server_id w. (ok (record a_server { id = server_id }), w);
  delete_server = λ server_id (ids, id). (ok tt, (without ids server_id, id));
}

abbrev steady_cloud : Cloud small_kube steady_client
steady_cloud = record {
  host = small_host;
  servers = λ (ids, id). ids;
  recorded = λ (ids, id). id;
  create = λ spec w named. (refl, refl);
  delete = λ id w. refl;
  get = λ id w. (refl, (eq_iff id id).1 refl);
  create_user_data = λ req w. refl;
  delete_user_data = λ id w. refl;
  attach = λ id vlan w. refl;
  patch = small_patch;
  read = λ key w. (refl, refl);
  helper = λ m w. (refl, refl);
  secret = λ key w. refl;
  cluster = λ key w. refl;
  list = λ namespace w. refl;
  owner = λ m w. refl;
  capi_cluster = λ m w. refl;
  clock = λ w. refl;
}

steady_runs : (id : String) (w : SmallCloud) → runs (steady_client.get_server id w).0 ≡ true
unfolding is_running equal_fold
steady_runs id w = refl

abbrev steady_willing : IsWilling small_kube steady_client
steady_willing = record {
  meta = but_finalizers (machine_with "" none).meta;
  machine = owner;
  cluster = capi_cluster;
  latitude_cluster = cluster_with none;
  secret = ("value", "#cloud-config\nruncmd:\n  - 'true'\n") ∷ [];
  owner_found = λ m w own. refl;
  owner_returns = λ m w. refl;
  none_failed = λ worker namespace w. refl;
  site = "SAO2";
  site_given = (refl, refl);
  secret_name = "cp-0-bootstrap";
  secret_named = refl;
  secret_found = λ key w. refl;
  text = "#cloud-config\nruncmd:\n  - 'true'\n";
  text_given = (refl, refl);
  cluster_found = λ w. refl;
  reference = record { namespace = "default"; name = "demo" };
  reference_given = refl;
  latitude_cluster_found = λ key w. refl;
  project = "proj_1";
  project_given = (refl, refl);
  helper_made = λ m w. refl;
  patch_returns = λ m n w. refl;
  user_data_made = λ req w. refl;
  server_made = λ spec w. refl;
  attachment_returns = λ id vlan w. refl;
  server_runs = λ id w. steady_runs id w;
}

small_kube-IsLawful : IsLawful small_kube
small_kube-IsLawful = record {
  contains-add = a_kube-IsLawful.contains-add;
  contains-remove = a_kube-IsLawful.contains-remove;
  contains-remove_ne = a_kube-IsLawful.contains-remove_ne;
}

steady-IsObliging : IsObliging steady_client
steady-IsObliging = record { server_deleted = λ id w. refl; user_data_returns = λ id w. refl }

IsKept-all : (ids : List String) → IsKept ids ids
IsKept-all [] = none_left
IsKept-all (x ∷ xs) = keep (IsKept-all xs)

abbrev going : Machines SmallCloud
going = record {
  outside = ("sv_1" ∷ [], "sv_1");
  object = machine_with "sv_1" (some 5);
  trace = [];
}

gets_released_example :
    let (r, s') = dispatch small_kube steady_client going.object going in
    (r ≡ ok (requeue 0)) × (is_finalized small_kube s'.object ≡ false) × (s'.outside.0 ≡ [])
unfolding held
gets_released_example =
    gets_released small_kube steady_client steady-IsObliging small_kube-IsLawful steady_cloud
      going.object going refl refl refl

abbrev newborn : LatitudeMachine
newborn = record (machine_with "" none) {
  meta = record ((machine_with "" none).meta) { finalizers = [] };
}

-- The machine and the world after each of its runs.
abbrev once : LatitudeMachine
once = after_run small_kube steady_client ([], "") newborn

abbrev then_world : SmallCloud
then_world = world_after small_kube steady_client ([], "") newborn

abbrev twice : LatitudeMachine
twice = after_run small_kube steady_client then_world once

abbrev later_world : SmallCloud
later_world = world_after small_kube steady_client then_world once

abbrev grown : LatitudeMachine
grown = after_run small_kube steady_client later_world twice

abbrev last_world : SmallCloud
last_world = world_after small_kube steady_client later_world twice

lives_and_leaves_nothing_example :
    let (r, s') =
      dispatch small_kube steady_client
        (deleted_at 5 grown)
        (start last_world (deleted_at 5 grown)) in
    (grown.status.ready ≡ true)
    × (r ≡ ok (requeue 0))
    × (is_finalized small_kube s'.object ≡ false)
    × (s'.outside.0 ≡ [])
unfolding get_hostname
lives_and_leaves_nothing_example =
    lives_and_leaves_nothing small_kube steady_client steady_cloud steady_willing steady-IsObliging
      small_kube-IsLawful newborn ([], "") then_world later_world last_world 5 refl
      ((refl, refl, refl), refl, refl, refl, refl) refl refl refl refl (IsKept-all _) (IsKept-all _)
      (IsKept-all _) refl
