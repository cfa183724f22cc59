-- ===== src/Latitude/Client/Servers.antt =====
-- internal/latitude/client.go: servers, plans, regions and user data.
use cluster_api_provider_lat.Base.{ℕ, zero, suc, String, ◌<>◌, Option, none, some}
use cluster_api_provider_lat.Base.{List, [], ◌∷◌, ◌==◌, string_eq, if◌then◌else◌}
use cluster_api_provider_lat.Go.Errors.{Error, plain}
use cluster_api_provider_lat.Go.Strings.{equal_fold}
use cluster_api_provider_lat.Action.{
  Action, pure, fail, deref, wrapping, fail_if, ◌>>=◌, when◌then◌else◌, ◌>>◌,
}
use cluster_api_provider_lat.Latitude.Types.{ServerSpec, Server, CreateUserDataRequest}
use cluster_api_provider_lat.Latitude.Sdk.{
  Sdk, CreateServerAttributes, ServerAttributes, ServerBody, UserDataBody, Attributes,
}

-- `*p` where `p` is not nil, and the empty text otherwise.
abbrev pub or_empty : Option String → String
or_empty none = ""
or_empty (some s) = s

unfoldable pub validate_server_spec : {W : Type 0} → ServerSpec → Action W (Unit {0})
validate_server_spec spec = do
  fail_if (spec.project == "") (plain "project is required")
  fail_if (spec.plan == "") (plain "plan is required")
  fail_if (spec.operating_system == "") (plain "operatingSystem is required")
  fail_if (spec.site == "") (plain "site is required")

abbrev pub create_attributes : ServerSpec → CreateServerAttributes
create_attributes spec = record {
  project = spec.project;
  plan = spec.plan;
  operating_system = spec.operating_system;
  site = spec.site;
  hostname = spec.hostname;
  ssh_keys = spec.ssh_keys;
  billing = "monthly";
  user_data = if spec.user_data == "" then none else some spec.user_data;
}

abbrev status_of : Option ServerAttributes → String
status_of none = ""
status_of (some attrs) = or_empty attrs.status

abbrev invalid_response : Error
invalid_response = plain "invalid response from server creation"

-- The answer of a creation, taken apart.
unfoldable pub created_server : {W : Type 0} → ServerSpec → Option ServerBody → Action W Server
created_server spec none = fail invalid_response
created_server spec (some body) = elim (body.contents) [
  | none ↦ fail invalid_response
  | some contents ↦ elim (contents.attributes) [
    | none ↦ fail invalid_response
    | some attrs ↦ deref contents.id >>= λ id. pure (record {
      id = id;
      status = or_empty attrs.status;
      hostname = spec.hostname;
      ip_address = [];
    })
  ]
]

-- The address is read from the attributes after the test for nil has ended.
unfoldable pub found_server : {W : Type 0} → String → Option ServerBody → Action W Server
found_server server_id none = fail (plain ("server " <> (server_id <> " not found")))
found_server server_id (some body) = elim (body.contents) [
  | none ↦ fail (plain ("server " <> (server_id <> " not found")))
  | some contents ↦ deref contents.attributes >>= λ attrs. pure (record {
    id = server_id;
    status = or_empty attrs.status;
    hostname = or_empty attrs.hostname;
    ip_address = elim (attrs.primary_ipv4) [ none ↦ [] | some ip ↦ ip ∷ [] ];
  })
]

-- The slugs of the items that have one.
unfoldable pub slugs : List (Option Attributes) → List String
slugs [] = []
slugs (none ∷ items) = slugs items
slugs (some attrs ∷ items) = elim (attrs.slug) [ none ↦ slugs items | some s ↦ s ∷ slugs items ]

abbrev slugs_of : Option (List (Option Attributes)) → List String
slugs_of none = []
slugs_of (some items) = slugs items

abbrev user_data_id_of : {W : Type 0} → Option UserDataBody → Action W String
user_data_id_of none = pure ""
user_data_id_of (some body) = deref body.id

module _ {W : Type 0} (sdk : Sdk W) where
  unfoldable pub create_user_data : CreateUserDataRequest → Action W String
  create_user_data req = sdk.user_data_create req.name req.content >>= user_data_id_of

  unfoldable pub delete_user_data : String → Action W (Unit {0})
  delete_user_data id = wrapping "failed to delete user data" (sdk.user_data_delete id)

  unfoldable pub create_server : ServerSpec → Action W Server
  create_server spec = do
    wrapping "invalid server spec" (validate_server_spec spec)
    body ← wrapping "failed to create server" (sdk.servers_create (create_attributes spec))
    created_server spec body

  unfoldable pub get_server : String → Action W Server
  get_server server_id = do
    body ← wrapping "failed to get server" (sdk.servers_get server_id)
    found_server server_id body

  unfoldable pub delete_server : String → Action W (Unit {0})
  delete_server server_id = wrapping "failed to delete server" (sdk.servers_delete server_id)

  -- One round for each tick that comes before the context is done.
  unfoldable pub wait_rounds : ℕ → String → String → Action W Server
  wait_rounds zero server_id target =
      fail (plain ("timeout waiting for server " <> (server_id <> (" to reach " <> target))))
  wait_rounds (suc ticks) server_id target = do
    server ← wrapping "failed to get server" (get_server server_id)
    let rest = wait_rounds ticks server_id target
    when equal_fold server.status target then pure server else rest

  unfoldable pub wait_for_server : String → String → ℕ → Action W Server
  wait_for_server server_id target timeout w =
      let (ticks, w') = sdk.ticks_within timeout w in wait_rounds ticks server_id target w'

  unfoldable pub get_available_plans : Action W (List String)
  get_available_plans = do
    items ← wrapping "failed to get available plans" sdk.plans_list
    pure (slugs_of items)

  unfoldable pub get_available_regions : Action W (List String)
  get_available_regions = do
    items ← wrapping "failed to get available regions" sdk.regions_get
    pure (slugs_of items)
