-- ===== src/Manager.antt =====
-- The process of cmd/main.go: what it takes from controller-runtime, the environment and the SDK,
-- and how it runs until it ends.
pub mod Main
pub mod Order
use cluster_api_provider_lat.Base.{ℕ, String, Bool, List, [], ◌∷◌, Option}
use cluster_api_provider_lat.Action.{Action, Outcome, ok, err, panic}

-- The process goes on, or it has called `os.Exit`, or it has panicked.
pub data Ended (A : Type 0) : Type 0 where
  going : A → Ended A
  exited : ℕ → Ended A
  panicked : Ended A

-- The flags; the logger's are left out.
pub record Flags : Type 0 where
  pub metrics_addr : String
  pub probe_addr : String
  pub enable_leader_election : Bool
  pub watch_namespace : String

-- `ctrl.Options`; no namespaces stand for all of them.
pub record ManagerOptions : Type 0 where
  pub metrics_bind_address : String
  pub health_probe_bind_address : String
  pub leader_election : Bool
  pub leader_election_id : String
  pub default_namespaces : List String

pub data Kind : Type 0 where
  latitude_machine : Kind
  latitude_cluster : Kind
  latitude_machine_template : Kind

-- A controller as it is completed by the builder; 0 stands for the default of concurrent runs.
pub record Registration (C : Type 0) : Type 0 where
  pub kind : Kind
  pub latitude_client : Option C
  pub recorder : Option String
  pub max_concurrent_reconciles : ℕ

-- The packages whose types the scheme gets.
pub data SchemePart : Type 0 where
  client_go : SchemePart
  infrastructure : SchemePart
  cluster_api : SchemePart

-- What comes from outside: `utilruntime` and the builders of the schemes, `flag`, `os`,
-- controller-runtime, and `latitudeshsdk.New` with a key and a timeout in seconds.
pub record Runtime (W Config Manager Sdk : Type 0) : Type 0 where
  pub getenv : String → String
  pub add_to_scheme : SchemePart → Action W (Unit {0})
  pub parse_flags : Flags → W → Ended Flags × W
  pub get_config_or_die : W → Ended Config × W
  pub new_manager : Config → ManagerOptions → Action W Manager
  pub sdk_new : String → ℕ → Sdk
  pub complete : Manager → Registration Sdk → Action W (Unit {0})
  pub add_healthz_check : Manager → String → Action W (Unit {0})
  pub add_readyz_check : Manager → String → Action W (Unit {0})
  pub start : Manager → Action W (Unit {0})

-- What the process asks of controller-runtime.
pub data Request (Sdk : Type 0) : Type 0 where
  add_scheme : SchemePart → Request Sdk
  new_manager : ManagerOptions → Request Sdk
  register : Registration Sdk → Request Sdk
  healthz_check : String → Request Sdk
  readyz_check : String → Request Sdk
  start_manager : Request Sdk

-- The requests are newest first; no definition reads them.
pub record Boot (W Sdk : Type 0) : Type 0 where
  pub outside : W
  pub requests : List (Request Sdk)

abbrev pub Process : Type 0 → Type 0 → Type 0
Process S A = S → Ended A × S

infixl 5 ◌>>=◌ ◌>>◌
abbrev pub ◌>>=◌ : {S A B : Type 0} → Process S A → (A → Process S B) → Process S B
◌>>=◌ m f s =
    let (r, s') = m s in
    elim r [ going a ↦ f a s' | exited n ↦ (exited n, s') | panicked ↦ (panicked, s') ]

abbrev pub ◌>>◌ : {S A B : Type 0} → Process S A → Process S B → Process S B
m >> k = m >>= λ _. k

module _ {W Sdk A : Type 0} where
  -- `if err != nil { os.Exit(1) }`
  abbrev pub or_exit : Request Sdk → Action W A → Process (Boot W Sdk) A
  or_exit request m s =
      let (r, w) = m s.outside in
      let s' : Boot W Sdk = record { outside = w; requests = request ∷ s.requests } in
      elim r [ ok a ↦ (going a, s') | err e ↦ (exited 1, s') | panic ↦ (panicked, s') ]

  -- `utilruntime.Must`
  abbrev pub must : Request Sdk → Action W A → Process (Boot W Sdk) A
  must request m s =
      let (r, w) = m s.outside in
      let s' : Boot W Sdk = record { outside = w; requests = request ∷ s.requests } in
      elim r [ ok a ↦ (going a, s') | err e ↦ (panicked, s') | panic ↦ (panicked, s') ]

  -- A call that ends the process itself when it fails.
  abbrev pub outright : (W → Ended A × W) → Process (Boot W Sdk) A
  outright m s = let (r, w) = m s.outside in (r, record s { outside = w })
