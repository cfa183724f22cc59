-- ===== src/ClusterController/AddressLaws.antt =====
-- Where the endpoint of the control plane comes from.
use text.Mathlib.TextEquality.{eq_iff}
use cluster_api_provider_lat.Base.{
  String, Bool, true, false, ◌&&◌, none, some, List, [], ◌∷◌, ◌≡◌, ◌≢◌, ◌⊎◌, inl, inr, refl, arith,
  ◌==◌, string_eq, if◌then◌else◌, Bool-cases, Option-cases, sym,
}
use mathlib.Core.Path.{subst}
use cluster_api_provider_lat.Action.{Outcome, ok, is_ok, Outcome-ok_cases}
use cluster_api_provider_lat.Api.{NamespacedName, Machine, Cluster, MachineAddress, LatitudeMachine}
use cluster_api_provider_lat.Kube.{Kube}
use cluster_api_provider_lat.ClusterController.ConditionLaws.{set_condition_frame}
use cluster_api_provider_lat.ClusterController.Networks.{Clusters}
use cluster_api_provider_lat.ClusterController.Endpoint.{
  first_address, internal_or_external, internal, endpoint_address, first_control_plane,
  publish_endpoint, endpoint_from, endpoint_from_machine, search_endpoint,
  setup_control_plane_endpoint,
}
use cluster_api_provider_lat.ClusterController.EndpointLaws.{has_host}

-- An entry of this address is in the list, with a type that passes the test.
abbrev pub lists_address : (String → Bool) → List MachineAddress → String → Bool
lists_address test [] host = false
lists_address test (a ∷ as') host =
    if test a.type && a.address == host then true else lists_address test as' host

first_address_lem :
    (test : String → Bool) (as' : List MachineAddress)
    → (first_address test as' ≡ "") ⊎ (lists_address test as' (first_address test as') ≡ true)
unfolding first_address
first_address_lem test [] = inl refl
first_address_lem test (a ∷ as') =
    ground (arith, first_address_lem test as', eq_iff a.address a.address)

lists_internal :
    (as' : List MachineAddress) (host : String)
    → lists_address internal as' host ≡ true
    → lists_address internal_or_external as' host ≡ true
lists_internal [] host h = ground arith
lists_internal (a ∷ as') host h = ground (arith, lists_internal as' host)

endpoint_address_lem :
    (as' : List MachineAddress)
    → (endpoint_address as' ≡ "")
      ⊎ (lists_address internal_or_external as' (endpoint_address as') ≡ true)
unfolding endpoint_address
endpoint_address_lem as' = ground (
  arith,
  first_address_lem internal_or_external as',
  first_address_lem internal as',
  lists_internal as' (first_address internal as'),
  eq_iff (first_address internal_or_external as') "",
)

-- The host is an internal or external address of a ready machine, which the API server has given.
abbrev pub IsFromMachine : {W : Type 0} → Kube W → String → Type 0
IsFromMachine {W} kube host =
    (ref : NamespacedName) × (w : W) × (m : LatitudeMachine) × ((kube.get_latitude_machine ref w).0
      ≡ ok m)
    × (m.status.ready ≡ true)
    × (lists_address internal_or_external m.status.addresses host ≡ true)

module _ {W : Type 0} (kube : Kube W) where
  endpoint_from_lem :
      (m : LatitudeMachine) (s : Clusters W)
      → let (r, s') = endpoint_from kube m s in
        (r ≢ ok true)
        ⊎ ((m.status.ready ≡ true)
            × (lists_address internal_or_external m.status.addresses
                  s'.object.status.control_plane_endpoint.host
                ≡ true))
  unfolding endpoint_from publish_endpoint
  endpoint_from_lem m s = grind (
    arith,
    set_condition_frame,
    endpoint_address_lem m.status.addresses,
    eq_iff (endpoint_address m.status.addresses) "",
  )

  -- The endpoint is not set by this part of a run, or it is that of a machine.
  abbrev IsSound : Outcome Bool × Clusters W → Type 0
  IsSound (r, s') = (r ≢ ok true) ⊎ IsFromMachine kube s'.object.status.control_plane_endpoint.host

  pub endpoint_from_machine_ok :
      (machine : Machine) (m : LatitudeMachine) (s : Clusters W)
      → (machine.infrastructure_ref.name == "") ≡ false
      → (kube.get_latitude_machine machine.infrastructure_ref s.outside).0 ≡ ok m
      → endpoint_from_machine kube machine s
        ≡ endpoint_from kube m (record s {
          outside = (kube.get_latitude_machine machine.infrastructure_ref s.outside).1;
        })
  unfolding endpoint_from_machine
  endpoint_from_machine_ok machine m s named found = ground arith

  endpoint_from_machine_not :
      (machine : Machine) (s : Clusters W)
      → ((machine.infrastructure_ref.name == "") ≡ true)
        ⊎ (is_ok (kube.get_latitude_machine machine.infrastructure_ref s.outside).0 ≡ false)
      → (endpoint_from_machine kube machine s).0 ≢ ok true
  unfolding endpoint_from_machine
  endpoint_from_machine_not machine s h = ground arith

  endpoint_from_machine-IsSound :
      (machine : Machine) (s : Clusters W) → IsSound (endpoint_from_machine kube machine s)
  endpoint_from_machine-IsSound machine s =
      let ref = machine.infrastructure_ref in
      elim (Bool-cases (ref.name == "")) [
        | inl unnamed ↦ inl (endpoint_from_machine_not machine s (inl unnamed))
        | inr named ↦ elim (Outcome-ok_cases (kube.get_latitude_machine ref s.outside).0) [
          | inr missing ↦ inl (endpoint_from_machine_not machine s (inr missing))
          | inl (m, found) ↦
              let t : Clusters W = record s {
                outside = (kube.get_latitude_machine ref s.outside).1;
              } in
              subst IsSound (sym (endpoint_from_machine_ok machine m s named found))
                (elim (endpoint_from_lem m t) [
                  | inl unset ↦ inl unset
                  | inr (is_ready, listed) ↦ inr (ref, s.outside, m, found, is_ready, listed)
                ])
        ]
      ]

  pub search_endpoint_ok :
      (cluster : Cluster) (ms : List Machine) (machine : Machine) (s : Clusters W)
      → (kube.list_machines cluster.meta.namespace cluster.meta.name s.outside).0 ≡ ok ms
      → first_control_plane kube.is_control_plane_machine ms ≡ some machine
      → search_endpoint kube cluster s
        ≡ endpoint_from_machine kube machine (record s {
          outside = (kube.list_machines cluster.meta.namespace cluster.meta.name s.outside).1;
        })
  unfolding search_endpoint
  search_endpoint_ok cluster ms machine s listed first = ground arith

  search_endpoint-none :
      (cluster : Cluster) (ms : List Machine) (s : Clusters W)
      → (kube.list_machines cluster.meta.namespace cluster.meta.name s.outside).0 ≡ ok ms
      → first_control_plane kube.is_control_plane_machine ms ≡ none
      → (search_endpoint kube cluster s).0 ≢ ok true
  unfolding search_endpoint
  search_endpoint-none cluster ms s listed first = ground arith

  search_endpoint_not :
      (cluster : Cluster) (s : Clusters W)
      → is_ok (kube.list_machines cluster.meta.namespace cluster.meta.name s.outside).0 ≡ false
      → (search_endpoint kube cluster s).0 ≢ ok true
  unfolding search_endpoint
  search_endpoint_not cluster s h = ground arith

  search_endpoint-IsSound :
      (cluster : Cluster) (s : Clusters W) → IsSound (search_endpoint kube cluster s)
  search_endpoint-IsSound cluster s =
      let list = kube.list_machines cluster.meta.namespace cluster.meta.name s.outside in
      elim (Outcome-ok_cases list.0) [
        | inr failed ↦ inl (search_endpoint_not cluster s failed)
        | inl (ms, listed) ↦
            elim (Option-cases (first_control_plane kube.is_control_plane_machine ms)) [
              | inl first ↦ inl (search_endpoint-none cluster ms s listed first)
              | inr (machine, first) ↦
                  let t : Clusters W = record s { outside = list.1 } in
                  subst IsSound (sym (search_endpoint_ok cluster ms machine s listed first))
                    (endpoint_from_machine-IsSound machine t)
            ]
      ]

  -- Where the endpoint is not set yet and the search says that it has set it, its host is an
  -- internal or external address of a machine that is ready, as the API server has given it.
  pub setup_control_plane_endpoint-IsFromMachine :
      (cluster : Cluster) (s : Clusters W)
      → has_host s.object ≡ false
      → let (r, s') = setup_control_plane_endpoint kube cluster s in
        (r ≢ ok true) ⊎ IsFromMachine kube s'.object.status.control_plane_endpoint.host
  unfolding setup_control_plane_endpoint
  setup_control_plane_endpoint-IsFromMachine cluster s unset =
      let empty : (s.object.status.control_plane_endpoint.host == "") ≡ true = ground arith in
      rw empty (search_endpoint-IsSound cluster s)
