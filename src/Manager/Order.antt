-- ===== src/Manager/Order.antt =====
-- The order in which the process starts its parts.
use cluster_api_provider_lat.Base.{
  String, Bool, true, false, List, [], ◌∷◌, ◌≡◌, ◌⊎◌, arith, ◌==◌, string_eq, nat_eq, if◌then◌else◌,
}
use cluster_api_provider_lat.Action.{Outcome, ok, err, panic}
use cluster_api_provider_lat.Latitude.Client.Setup.{new_client}
use cluster_api_provider_lat.Manager.{
  Ended, ◌>>◌, going, exited, panicked, Flags, ManagerOptions, Runtime, Request, Boot, ◌>>=◌,
  or_exit,
}
use cluster_api_provider_lat.Manager.Main.{
  default_flags, manager_options, machine_registration, cluster_registration, env_or, serve,
  register_controllers, with_manager, setup, main,
}

-- The first list is the second without its newest elements, at least one.
abbrev pub IsCut : {A : Type 0} → List A → List A → Type 0
IsCut xs [] = ⊥
IsCut xs (y ∷ ys) = (xs ≡ ys) ⊎ IsCut xs ys

abbrev pub has_stopped : {A : Type 0} → Ended A → Bool
has_stopped (going a) = false
has_stopped (exited n) = n == 1
has_stopped panicked = true

-- The requests of a process that has done all of its work, newest first.
abbrev pub all_requests : {Sdk : Type 0} → Sdk → ManagerOptions → List (Request Sdk)
all_requests client options =
    Request.start_manager
    ∷ Request.readyz_check "readyz"
    ∷ Request.healthz_check "healthz"
    ∷ Request.register (cluster_registration client)
    ∷ Request.register (machine_registration client)
    ∷ Request.new_manager options
    ∷ []

module _ {W Config Manager Sdk : Type 0} (runtime : Runtime W Config Manager Sdk) where
  abbrev pub boot : W → Boot W Sdk
  boot w = record { outside = w; requests = [] }

  abbrev pub key : String
  key = runtime.getenv "LATITUDE_API_KEY"

  -- All of the plan was asked for, and there was a key; or the process has ended before.
  abbrev pub IsOrderly : List (Request Sdk) → Ended (Unit {0}) × Boot W Sdk → Type 0
  IsOrderly plan (r, s) =
      ((s.requests ≡ plan) × ((key == "") ≡ false))
      ⊎ (IsCut s.requests plan × (has_stopped r ≡ true))

  module _ (manager : Manager) (options : ManagerOptions) where
    abbrev client : Sdk
    client = runtime.sdk_new key 60

    abbrev plan : List (Request Sdk)
    plan = all_requests client options

    -- The state once the first requests of the plan were made.
    abbrev asked : List (Request Sdk) → W → Boot W Sdk
    asked requests w = record { outside = w; requests = requests }

    abbrev made : List (Request Sdk)
    made = Request.new_manager options ∷ []

    abbrev machines_set_up : List (Request Sdk)
    machines_set_up = Request.register (machine_registration client) ∷ made

    abbrev clusters_set_up : List (Request Sdk)
    clusters_set_up = Request.register (cluster_registration client) ∷ machines_set_up

    abbrev health_added : List (Request Sdk)
    health_added = Request.healthz_check "healthz" ∷ clusters_set_up

    abbrev ready_added : List (Request Sdk)
    ready_added = Request.readyz_check "readyz" ∷ health_added

    started-IsOrderly :
        (w : W)
        → (key == "") ≡ false
        → IsOrderly plan
            (or_exit Request.start_manager (runtime.start manager) (asked ready_added w))
    started-IsOrderly w keyed = ground (arith, keyed)

    health-IsOrderly :
        (w : W)
        → (key == "") ≡ false
        → IsOrderly plan (
            (or_exit (Request.readyz_check "readyz") (runtime.add_readyz_check manager "readyz")
                >> or_exit Request.start_manager (runtime.start manager))
              (asked health_added w))
    health-IsOrderly w keyed =
        ground (arith, started-IsOrderly (runtime.add_readyz_check manager "readyz" w).1 keyed)

    serve-IsOrderly :
        (w : W)
        → (key == "") ≡ false
        → IsOrderly plan (serve runtime manager (asked clusters_set_up w))
    unfolding serve
    serve-IsOrderly w keyed =
        ground (arith, health-IsOrderly (runtime.add_healthz_check manager "healthz" w).1 keyed)

    clusters-IsOrderly :
        (w : W)
        → (key == "") ≡ false
        → IsOrderly plan (
            (or_exit
                  (Request.register (cluster_registration client))
                  (setup runtime (cluster_registration client) manager)
                >> serve runtime manager)
              (asked machines_set_up w))
    clusters-IsOrderly w keyed =
        ground (
          arith,
          serve-IsOrderly (runtime.complete manager (cluster_registration client) w).1 keyed,
        )

    machines-IsOrderly :
        (w : W)
        → (key == "") ≡ false
        → IsOrderly plan (register_controllers runtime manager client (asked made w))
    unfolding register_controllers
    machines-IsOrderly w keyed = ground (
      arith,
      clusters-IsOrderly (runtime.complete manager (machine_registration client) w).1 keyed,
    )

    with_manager-IsOrderly : (w : W) → IsOrderly plan (with_manager runtime manager (asked made w))
    unfolding with_manager new_client
    with_manager-IsOrderly w = ground (arith, machines-IsOrderly w)

  -- The namespaces that the manager's cache is kept to: the one of the environment, or else that of
  -- the flag, or else all.
  abbrev pub watched : Flags → List String
  watched flags =
      let ns = runtime.getenv "WATCH_NAMESPACE" in
      if ns == ""
      then if flags.watch_namespace == "" then [] else flags.watch_namespace ∷ []
      else ns ∷ []

  abbrev pub expected_options : Flags → ManagerOptions
  expected_options flags = record {
    metrics_bind_address = flags.metrics_addr;
    health_probe_bind_address = flags.probe_addr;
    leader_election = flags.enable_leader_election;
    leader_election_id = "eb05f637.cluster.x-k8s.io";
    default_namespaces = watched flags;
  }

  manager_options_env :
      (flags : Flags)
      → manager_options flags (env_or runtime.getenv "WATCH_NAMESPACE" flags.watch_namespace)
        ≡ expected_options flags
  unfolding manager_options
  manager_options_env flags = ground arith

  made-IsOrderly :
      (options : ManagerOptions) (r : Outcome Manager) (w : W)
      → IsOrderly (all_requests (runtime.sdk_new key 60) options) (
          (or_exit (Request.new_manager options) (λ (v : W). (r, w)) >>= with_manager runtime)
            (boot w))
  made-IsOrderly options (ok manager) w = with_manager-IsOrderly manager options w
  made-IsOrderly options (err e) w = ground arith
  made-IsOrderly options panic w = ground arith

  main_made :
      (w : W) (flags : Flags) (config : Config)
      → (runtime.parse_flags default_flags w).0 ≡ going flags
      → (runtime.get_config_or_die (runtime.parse_flags default_flags w).1).0 ≡ going config
      → main runtime (boot w)
        ≡ (or_exit
                (Request.new_manager (expected_options flags))
                (runtime.new_manager config (expected_options flags))
              >>= with_manager runtime)
            (boot (runtime.get_config_or_die (runtime.parse_flags default_flags w).1).1)
  unfolding main
  main_made w flags config parsed found = ground (arith, manager_options_env flags)

  -- If the flags are read and there is a configuration of the API server, the process asks for a
  -- manager with the options of the flags, whose cache is kept to the namespace of WATCH_NAMESPACE
  -- or else of the flag or else to none, registers the controllers for machines and for clusters
  -- with a client that has the key of LATITUDE_API_KEY and a timeout of 60 seconds, adds the two
  -- checks, and starts the manager: in this order and no other. It stops early only by exit code 1
  -- or a panic, and without a key it always does.
  pub main_order :
      (w : W) (flags : Flags) (config : Config)
      → (runtime.parse_flags default_flags w).0 ≡ going flags
      → (runtime.get_config_or_die (runtime.parse_flags default_flags w).1).0 ≡ going config
      → IsOrderly
          (all_requests (runtime.sdk_new key 60) (expected_options flags))
          (main runtime (boot w))
  main_order w flags config parsed found =
      let w' = (runtime.get_config_or_die (runtime.parse_flags default_flags w).1).1 in
      let (r, w'') = runtime.new_manager config (expected_options flags) w' in
      rw (main_made w flags config parsed found) (made-IsOrderly (expected_options flags) r w'')
