-- ===== src/MachineController/Cloud.antt =====
-- The servers of a machine, as Latitude.sh has them, beside the id that the machine records.
pub mod Reads
use cluster_api_provider_lat.Base.{
  String, Bool, true, false, Option, none, some, List, [], ◌∷◌, ◌≡◌, ◌==◌, string_eq, if◌then◌else◌,
  arith, refl, ◌⊎◌,
}
use cluster_api_provider_lat.Action.{Outcome, ok, err, panic, is_ok, is_err}
use cluster_api_provider_lat.Api.{NamespacedName, ObjectMeta, LatitudeMachine}
use cluster_api_provider_lat.Kube.{Kube}
use cluster_api_provider_lat.MachineController.Lookup.{get_hostname}
use cluster_api_provider_lat.Latitude.{ServerSpec, Server, CreateUserDataRequest, ClientInterface}

-- Every one of the servers is the one with this id, and if there is one the id is not empty.
unfoldable pub held : List String → String → Bool
held [] id = true
held (x ∷ xs) id = if id == "" then false else if x == id then held xs id else false

unfoldable pub without : List String → String → List String
without [] id = []
without (x ∷ xs) id = let rest = without xs id in if x == id then rest else x ∷ rest

abbrev pub after_create : Outcome Server → List String → List String
after_create (ok server) ids = server.id ∷ ids
after_create (err e) ids = ids
after_create panic ids = ids

abbrev pub after_delete : Outcome (Unit {0}) → String → List String → List String
after_delete (ok u) id ids = without ids id
after_delete (err e) id ids = ids
after_delete panic id ids = ids

-- The servers of which no question was answered with an error, after one more question.
abbrev pub after_get : Outcome Server → String → List String → List String
after_get (ok server) id ids = ids
after_get (err e) id ids = without ids id
after_get panic id ids = ids

abbrev pub named : Outcome Server → Bool
named (ok server) = if server.id == "" then false else true
named (err e) = true
named panic = true

-- A server that is found is the one that was asked for.
abbrev pub answered : String → Outcome Server → Bool
answered id (ok server) = server.id == id
answered id (err e) = true
answered id panic = true

-- The first list has the servers of the second, but for some that are gone.
pub data IsKept : List String → List String → Type 0 where
  none_left : IsKept [] []
  keep : {x : String} {xs ys : List String} → IsKept xs ys → IsKept (x ∷ xs) (x ∷ ys)
  gone : {y : String} {xs ys : List String} → IsKept xs ys → IsKept xs (y ∷ ys)

pub held-without : (ids : List String) (id : String) → held ids id ≡ true → without ids id ≡ []
unfolding held without
held-without [] id h = refl
held-without (x ∷ xs) id h = ground (arith, held-without xs id)

pub held_empty :
    (ids : List String) (id : String) → (id == "") ≡ true → held ids id ≡ true → ids ≡ []
unfolding held
held_empty [] id h k = refl
held_empty (x ∷ xs) id h k = ground arith

pub held-IsKept :
    (id : String) {ids ids' : List String}
    → IsKept ids' ids
    → held ids id ≡ true
    → held ids' id ≡ true
unfolding held
held-IsKept id none_left h = refl
held-IsKept id (keep {ys = ys} k) h = ground (arith, λ (p : held ys id ≡ true). held-IsKept id k p)
held-IsKept id (gone {ys = ys} k) h = held-IsKept id k (ground arith)

-- What the code relies on, in an account of one machine, which is known by its host name: `host` is
-- its namespace and name, as `getHostname` joins them. `servers` are the servers that Latitude.sh has
-- answered to have made for the host, that no successful deletion has taken away, and of which no
-- question was answered with an error, of any kind, also a timeout: those are meant by the servers
-- that were never reported as missing. A server that was made although its creation was answered with
-- an error is not counted, as the controller never learns its id. `recorded` is the id in the status
-- of the machine, as the API server has it. A creation for the host that succeeds answers with an id
-- that is not empty; a server that is found is the one asked for; a patch of the machine that succeeds
-- records the id; nothing else that the code calls for the machine changes the account or the record.
-- Nothing is said of creations for other hosts, of the record after a patch of another machine, or of
-- what a read gives, which may be an old state.
pub record Cloud {W : Type 0} (kube : Kube W) (client : ClientInterface W) : Type 0 where
  pub host : String
  pub servers : W → List String
  pub recorded : W → String
  pub create :
      (spec : ServerSpec) (w : W)
      → (spec.hostname == host) ≡ true
      → (servers (client.create_server spec w).1
          ≡ after_create (client.create_server spec w).0 (servers w))
        × (named (client.create_server spec w).0 ≡ true)
  pub delete :
      (id : String) (w : W)
      → servers (client.delete_server id w).1
        ≡ after_delete (client.delete_server id w).0 id (servers w)
  pub get :
      (id : String) (w : W)
      → (servers (client.get_server id w).1 ≡ after_get (client.get_server id w).0 id (servers w))
        × (answered id (client.get_server id w).0 ≡ true)
  pub create_user_data :
      (req : CreateUserDataRequest) (w : W) → servers (client.create_user_data req w).1 ≡ servers w
  pub delete_user_data :
      (id : String) (w : W) → servers (client.delete_user_data id w).1 ≡ servers w
  pub attach :
      (id vlan : String) (w : W) → servers (client.attach_server_to_vlan id vlan w).1 ≡ servers w
  pub patch :
      (m n : LatitudeMachine) (w : W)
      → (servers (kube.patch_machine m n w).1 ≡ servers w)
        × (((get_hostname n == host) ≡ false)
            ⊎ (is_ok (kube.patch_machine m n w).0 ≡ false)
            ⊎ (recorded (kube.patch_machine m n w).1 ≡ n.status.server_id))
  pub read :
      (key : NamespacedName) (w : W)
      → (servers (kube.get_latitude_machine key w).1 ≡ servers w)
        × (recorded (kube.get_latitude_machine key w).1 ≡ recorded w)
  pub helper :
      (m : LatitudeMachine) (w : W)
      → (servers (kube.new_machine_helper m w).1 ≡ servers w)
        × (recorded (kube.new_machine_helper m w).1 ≡ recorded w)
  pub secret : (key : NamespacedName) (w : W) → servers (kube.get_secret key w).1 ≡ servers w
  pub cluster :
      (key : NamespacedName) (w : W) → servers (kube.get_latitude_cluster key w).1 ≡ servers w
  pub list :
      (namespace : String) (w : W) → servers (kube.list_latitude_machines namespace w).1 ≡ servers w
  pub owner : (m : ObjectMeta) (w : W) → servers (kube.get_owner_machine m w).1 ≡ servers w
  pub capi_cluster :
      (m : ObjectMeta) (w : W) → servers (kube.get_cluster_from_metadata m w).1 ≡ servers w
  pub clock : (w : W) → servers (kube.now w).1 ≡ servers w
