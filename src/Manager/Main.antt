-- ===== src/Manager/Main.antt =====
-- cmd/main.go, and the `SetupWithManager` of the three controllers.
use cluster_api_provider_lat.Base.{
  String, true, none, some, [], ◌∷◌, ◌==◌, string_eq, if◌then◌else◌,
}
use cluster_api_provider_lat.Action.{Action, ok, err, panic}
use cluster_api_provider_lat.Latitude.Client.Setup.{new_client}
use cluster_api_provider_lat.Manager.{
  exited, panicked, Flags, ManagerOptions, latitude_machine, latitude_cluster,
  latitude_machine_template, Registration, client_go, infrastructure, cluster_api, Runtime, Request,
  Boot, Process, ◌>>=◌, ◌>>◌, or_exit, must, outright,
}

abbrev pub default_flags : Flags
default_flags = record {
  metrics_addr = ":8443";
  probe_addr = ":8081";
  enable_leader_election = true;
  watch_namespace = "";
}

abbrev pub env_or : (String → String) → String → String → String
env_or getenv key fallback = let v = getenv key in if v == "" then fallback else v

unfoldable pub manager_options : Flags → String → ManagerOptions
manager_options flags namespace = record {
  metrics_bind_address = flags.metrics_addr;
  health_probe_bind_address = flags.probe_addr;
  leader_election = flags.enable_leader_election;
  leader_election_id = "eb05f637.cluster.x-k8s.io";
  default_namespaces = if namespace == "" then [] else namespace ∷ [];
}

module _ {Sdk : Type 0} where
  abbrev pub machine_registration : Sdk → Registration Sdk
  machine_registration client = record {
    kind = latitude_machine;
    latitude_client = some client;
    recorder = some "capl-latitudemachine";
    max_concurrent_reconciles = 1;
  }

  abbrev pub cluster_registration : Sdk → Registration Sdk
  cluster_registration client = record {
    kind = latitude_cluster;
    latitude_client = some client;
    recorder = some "capl-latitudecluster";
    max_concurrent_reconciles = 0;
  }

  abbrev pub template_registration : Registration Sdk
  template_registration = record {
    kind = latitude_machine_template;
    latitude_client = none;
    recorder = none;
    max_concurrent_reconciles = 0;
  }

module _ {W Config Manager Sdk : Type 0} (runtime : Runtime W Config Manager Sdk) where
  unfoldable pub init : Process (Boot W Sdk) (Unit {0})
  init = do
    must (Request.add_scheme client_go) (runtime.add_to_scheme client_go)
    must (Request.add_scheme infrastructure) (runtime.add_to_scheme infrastructure)
    must (Request.add_scheme cluster_api) (runtime.add_to_scheme cluster_api)

  abbrev pub setup : Registration Sdk → Manager → Action W (Unit {0})
  setup registration manager = runtime.complete manager registration

  -- From the checks on.
  unfoldable pub serve : Manager → Process (Boot W Sdk) (Unit {0})
  serve manager = do
    or_exit (Request.healthz_check "healthz") (runtime.add_healthz_check manager "healthz")
    or_exit (Request.readyz_check "readyz") (runtime.add_readyz_check manager "readyz")
    or_exit Request.start_manager (runtime.start manager)

  unfoldable pub register_controllers : Manager → Sdk → Process (Boot W Sdk) (Unit {0})
  register_controllers manager client = do
    or_exit (Request.register (machine_registration client))
        (setup (machine_registration client) manager)
    or_exit (Request.register (cluster_registration client))
        (setup (cluster_registration client) manager)
    serve manager

  -- What follows when there is a manager.
  unfoldable pub with_manager : Manager → Process (Boot W Sdk) (Unit {0})
  with_manager manager s = elim (new_client runtime.getenv runtime.sdk_new) [
    | ok client ↦ register_controllers manager client s
    | err e ↦ (exited 1, s)
    | panic ↦ (panicked, s)
  ]

  unfoldable pub main : Process (Boot W Sdk) (Unit {0})
  main = do
    flags ← outright (runtime.parse_flags default_flags)
    config ← outright runtime.get_config_or_die
    let options =
        manager_options flags (env_or runtime.getenv "WATCH_NAMESPACE" flags.watch_namespace)
    manager ← or_exit (Request.new_manager options) (runtime.new_manager config options)
    with_manager manager
