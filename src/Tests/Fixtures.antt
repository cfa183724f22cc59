-- ===== src/Tests/Fixtures.antt =====
-- A small world to run the controllers in: an API server with one control-plane machine and its
-- cluster, a Latitude.sh API that answers everything, and finalizers as lists.
use cluster_api_provider_lat.Base.{
  ℕ, zero, suc, String, Bool, true, false, Option, none, some, List, [], ◌∷◌, ◌≡◌, ◌≢◌, arith, ◌==◌,
  string_eq, if◌then◌else◌,
}
use text.Mathlib.TextEquality.{eq_iff}
use cluster_api_provider_lat.Base.Int.{pos}
use cluster_api_provider_lat.Go.Errors.{plain}
use cluster_api_provider_lat.Action.{pure, fail}
use cluster_api_provider_lat.Api.{
  ObjectMeta, Machine, Cluster, LatitudeMachine, LatitudeCluster, VlanConfig, machine_external_ip,
}
use cluster_api_provider_lat.Kube.{Kube, IsLawful}
use cluster_api_provider_lat.Latitude.{Server, Vlan}
use cluster_api_provider_lat.Latitude.{ClientInterface}
use cluster_api_provider_lat.Latitude.Sdk.{Sdk, VlanData, ServerAttributes}
use cluster_api_provider_lat.World.{World}

abbrev pub Nothing : Type 0
Nothing = Unit {0}

abbrev pub meta_of : String → List String → Option ℕ → ObjectMeta
meta_of name finalizers deleted = record {
  name = name;
  namespace = "default";
  uid = "u-1";
  generation = 1;
  labels = ("cluster.x-k8s.io/control-plane", "") ∷ [];
  annotations = [];
  owner_references = [];
  finalizers = finalizers;
  deletion_timestamp = deleted;
}

abbrev pub machine_finalizer : String
machine_finalizer = "latitudemachine.infrastructure.cluster.x-k8s.io"

abbrev pub cluster_finalizer : String
cluster_finalizer = "latitudecluster.infrastructure.cluster.x-k8s.io"

abbrev pub machine_with : String → Option ℕ → LatitudeMachine
machine_with server_id deleted = record {
  meta = meta_of "cp-0" (machine_finalizer ∷ []) deleted;
  spec = record {
    provider_id = none;
    operating_system = "ubuntu_24_04_x64_lts";
    plan = "c2-small-x86";
    ssh_key_secret_ref = none;
  };
  status = record {
    ready = false;
    provider_id = "";
    server_id = server_id;
    user_data_id = "";
    addresses = [];
    failure_reason = none;
    failure_message = none;
    conditions = [];
  };
}

abbrev pub owner : Machine
owner = record {
  meta = meta_of "cp-0" [] none;
  failure_domain = some "SAO2";
  data_secret_name = some "cp-0-bootstrap";
  infrastructure_ref = record { namespace = "default"; name = "cp-0" };
}

abbrev pub capi_cluster : Cluster
capi_cluster = record {
  meta = meta_of "demo" [] none;
  infrastructure_ref = some (record { namespace = "default"; name = "demo" });
}

abbrev pub existing_config : VlanConfig
existing_config = record {
  subnet = "10.8.0.0/24";
  vid = none;
  existing_vlan_id = some "vlan_7";
  network_interface = "";
}

abbrev pub cluster_with : Option ℕ → LatitudeCluster
cluster_with deleted = record {
  meta = meta_of "demo" (cluster_finalizer ∷ []) deleted;
  spec = record {
    location = "SAO2";
    project_ref = some (record { project_id = "proj_1" });
    control_plane_endpoint = record { host = ""; port = 0 };
    vlan_config = some existing_config;
  };
  status = record {
    ready = false;
    control_plane_endpoint = record { host = ""; port = 0 };
    vlan_id = none;
    vlan_vid = none;
    conditions = [];
  };
}

abbrev pub running_machine : LatitudeMachine
running_machine = record (machine_with "sv_1" none) {
  status = record ((machine_with "sv_1" none).status) {
    ready = true;
    addresses = record { type = machine_external_ip; address = "203.0.113.9" } ∷ [];
  };
}

abbrev pub add : List String → String → List String
add [] f = f ∷ []
add (g ∷ gs) f = g ∷ (if g == f then gs else add gs f)

abbrev pub remove : List String → String → List String
remove [] f = []
remove (g ∷ gs) f = if g == f then remove gs f else g ∷ remove gs f

abbrev pub has : List String → String → Bool
has [] f = false
has (g ∷ gs) f = if g == f then true else has gs f

-- The objects are there, and every patch succeeds.
abbrev pub kube_over : (W : Type 0) → Kube W
kube_over W = record {
  get_latitude_machine =
      λ key. pure (if key.name == "cp-1" then running_machine else machine_with "" none);
  get_latitude_cluster = λ key. pure (cluster_with none);
  get_secret = λ key. pure (("value", "#cloud-config\nruncmd:\n  - 'true'\n") ∷ []);
  list_latitude_machines = λ namespace. pure (machine_with "sv_2" none ∷ []);
  list_machines = λ namespace cluster.
      pure (
        record owner { infrastructure_ref = record { namespace = "default"; name = "cp-1" } } ∷ []);
  get_owner_machine = λ meta. pure (some owner);
  get_cluster_from_metadata = λ meta. pure (some capi_cluster);
  get_owner_cluster = λ meta. pure (some capi_cluster);
  is_control_plane_machine = λ m. true;
  new_machine_helper = λ m. pure tt;
  patch_machine = λ before after. pure tt;
  new_cluster_helper = λ c. pure tt;
  patch_cluster = λ before after. pure tt;
  contains_finalizer = has;
  add_finalizer = add;
  remove_finalizer = remove;
  now = λ w. (1700000000, w);
}

abbrev pub a_kube : Kube Nothing
a_kube = kube_over Nothing

abbrev pub a_counting_kube : Kube ℕ
a_counting_kube = kube_over ℕ

has-add : (fs : List String) (f : String) → has (add fs f) f ≡ true
has-add [] f = ground (arith, eq_iff f f)
has-add (g ∷ gs) f = ground (arith, has-add gs f)

has-remove : (fs : List String) (f : String) → has (remove fs f) f ≡ false
has-remove [] f = ground arith
has-remove (g ∷ gs) f = ground (arith, has-remove gs f)

has-remove_ne : (fs : List String) (f g : String) → g ≢ f → has (remove fs f) g ≡ has fs g
has-remove_ne [] f g h = ground arith
has-remove_ne (e ∷ es) f g h = ground (arith, has-remove_ne es f g h, eq_iff e f, eq_iff e g)

pub a_kube-IsLawful : IsLawful a_kube
a_kube-IsLawful = record {
  contains-add = has-add;
  contains-remove = has-remove;
  contains-remove_ne = has-remove_ne;
}

abbrev pub a_server : Server
a_server = record {
  id = "sv_1";
  status = "on";
  hostname = "default-cp-0";
  ip_address = "203.0.113.9" ∷ [];
}

abbrev pub a_vlan : Vlan
a_vlan = record {
  id = "vlan_7";
  vid = pos 2007;
  subnet = "capl-demo-10.8.0.0/24";
  project = "proj_1";
}

abbrev pub client_over : (W : Type 0) → ClientInterface W
client_over W = record {
  create_server = λ spec. pure a_server;
  get_server = λ id. pure a_server;
  delete_server = λ id. pure tt;
  wait_for_server = λ id target timeout. pure a_server;
  get_available_plans = pure ("c2-small-x86" ∷ []);
  get_available_regions = pure ("SAO2" ∷ []);
  create_user_data = λ req. pure "ud_1";
  delete_user_data = λ id. pure tt;
  create_vlan = λ req. pure a_vlan;
  get_vlan = λ id. pure a_vlan;
  list_vlans = λ project. pure (a_vlan ∷ []);
  delete_vlan = λ id. pure tt;
  attach_server_to_vlan = λ server vlan. pure tt;
  detach_server_from_vlan = λ server vlan. pure tt;
}

abbrev pub a_client : ClientInterface Nothing
a_client = client_over Nothing

abbrev pub world_of : {O : Type 0} → O → World Nothing O
world_of o = record { outside = tt; object = o; trace = [] }

-- An SDK that is out of stock, and whose world counts the reads of the server.
abbrev pub a_sdk : Sdk ℕ
a_sdk = record {
  servers_create = λ req. fail (plain "422: SERVERS_OUT_OF_STOCK");
  servers_get = λ id w.
      let attrs : ServerAttributes = record {
        hostname = some "default-cp-0";
        status = some (if two_reads w then "on" else "deploying");
        primary_ipv4 = some "203.0.113.9";
      } in
      pure (some (record { contents = some (record { id = some id; attributes = some attrs }) }))
        (suc w);
  servers_delete = λ id. pure tt;
  plans_list = pure none;
  regions_get = pure none;
  user_data_create = λ name content. pure (some (record { id = some "ud_1" }));
  user_data_delete = λ id. pure tt;
  private_networks_create = λ req. fail (plain "unavailable");
  private_networks_get = λ id. pure none;
  private_networks_list = pure (some (listed_network ∷ []));
  virtual_networks_delete = λ id. pure tt;
  private_networks_assign = λ server vlan. pure tt;
  private_networks_delete_assignment = λ id. pure tt;
  ticks_within = λ timeout w. (10, w);
}
  where
    two_reads : ℕ → Bool
    two_reads zero = false
    two_reads (suc zero) = false
    two_reads (suc (suc n)) = true

    listed_network : VlanData
    listed_network = record {
      id = some "vlan_7";
      attributes =
          some (record { description = some "capl-demo-10.8.0.0/24"; vid = some (pos 2007) });
    }
