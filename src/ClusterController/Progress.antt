-- ===== src/ClusterController/Progress.antt =====
-- What one run does to the network of a cluster that has none.
use cluster_api_provider_lat.Base.{
  String, false, Option, none, some, List, ◌∷◌, ◌≡◌, ◌⊎◌, inl, inr, arith, Option-cases, nat_eq,
}
use cluster_api_provider_lat.Action.{ok, is_ok, Outcome-ok_cases}
use cluster_api_provider_lat.Api.{Cluster, LatitudeCluster, VlanConfig, ProjectRef, is_deleted}
use cluster_api_provider_lat.Kube.{Kube}
use cluster_api_provider_lat.Latitude.{CreateVlanRequest, Vlan, ClientInterface}
use cluster_api_provider_lat.World.{Call}
use cluster_api_provider_lat.ClusterController.ConditionLaws.{set_condition_frame}
use cluster_api_provider_lat.ClusterController.Networks.{
  Clusters, vlan_description, uses_existing, reconcile_vlan, ensure_vlan, create_new_vlan,
  check_location, reconcile_infrastructure, use_existing_vlan,
}
use cluster_api_provider_lat.ClusterController.NetworkLaws.{
  vlan_writes, validate_cluster_spec_frame, with_infrastructure_frame, infrastructure_failed_frame,
}
use cluster_api_provider_lat.ClusterController.Reconcile

abbrev vlan_request : LatitudeCluster → VlanConfig → ProjectRef → CreateVlanRequest
vlan_request c config ref = record {
  project_id = ref.project_id;
  site = c.spec.location;
  subnet = vlan_description c config;
  vid = config.vid;
}

module _ {W : Type 0} (client : ClientInterface W) where
  -- The network that is recorded, and the writes to networks, before a part of a run and after it:
  -- as they were, with a request for a network that was not answered with one, or with one network
  -- that was made and recorded.
  pub data Progress (id : Option String) (writes : List Call)
      : Option String → List Call → Type 0 where
    as_before :
        {id' : Option String} {writes' : List Call}
        → id' ≡ id
        → writes' ≡ writes
        → Progress id writes id' writes'
    failed :
        (req : CreateVlanRequest) (w : W)
        → is_ok (client.create_vlan req w).0 ≡ false
        → {id' : Option String} {writes' : List Call} → id' ≡ id
        → writes' ≡ Call.create_vlan req ∷ writes
        → Progress id writes id' writes'
    made_one :
        (req : CreateVlanRequest) (w : W) (vlan : Vlan)
        → (client.create_vlan req w).0 ≡ ok vlan
        → {id' : Option String} {writes' : List Call} → id' ≡ some vlan.id
        → writes' ≡ Call.create_vlan req ∷ writes
        → Progress id writes id' writes'

  abbrev pub IsProgress : Clusters W → Clusters W → Type 0
  IsProgress s t =
      Progress s.object.status.vlan_id (vlan_writes s.trace) t.object.status.vlan_id
        (vlan_writes t.trace)

  pub reconcile_vlan-IsProgress :
      (s : Clusters W)
      → uses_existing s.object ≡ false
      → s.object.status.vlan_id ≡ none
      → IsProgress s (reconcile_vlan client s).1
  unfolding reconcile_vlan ensure_vlan create_new_vlan
  reconcile_vlan-IsProgress s own unmade = elim (Option-cases s.object.spec.vlan_config) [
    | inl e ↦ as_before (ground arith) (ground arith)
    | inr (config, e) ↦ elim (Option-cases s.object.spec.project_ref) [
      | inl e' ↦ as_before (ground arith) (ground arith)
      | inr (ref, e') ↦
          let req = vlan_request s.object config ref in
          elim (Outcome-ok_cases (client.create_vlan req s.outside).0) [
            | inl (vlan, e'') ↦ made_one req s.outside vlan e'' (ground arith) (ground arith)
            | inr e'' ↦ failed req s.outside e'' (ground arith) (ground arith)
          ]
    ]
  ]

  -- The state in which a run comes to the network.
  abbrev pub located : Clusters W → Clusters W
  located s = record {
    outside = (client.get_available_regions s.outside).1;
    object = s.object;
    trace = Call.get_available_regions ∷ s.trace;
  }

  reconcile_infrastructure_network :
      (s : Clusters W)
      → let s' = (reconcile_infrastructure client s).1 in
        ((s'.object ≡ s.object) × (vlan_writes s'.trace ≡ vlan_writes s.trace))
        ⊎ (s' ≡ (reconcile_vlan client (located s)).1)
  unfolding reconcile_infrastructure check_location
  reconcile_infrastructure_network s = ground arith

module _ {W : Type 0} (kube : Kube W) (client : ClientInterface W) (cluster : Cluster) where
  -- What a run leaves of a cluster's specification and its deletion.
  abbrev pub IsFramed : Clusters W → Clusters W → Type 0
  IsFramed s t =
      (t.object.spec ≡ s.object.spec)
      × (t.object.meta.deletion_timestamp ≡ s.object.meta.deletion_timestamp)

  -- The network and the writes to networks are those of the other state.
  abbrev pub IsAlike : Clusters W → Clusters W → Type 0
  IsAlike s t =
      (t.object.status.vlan_id ≡ s.object.status.vlan_id)
      × (vlan_writes t.trace ≡ vlan_writes s.trace)

  reconcile_vlan_kept : (s : Clusters W) → IsFramed s (reconcile_vlan client s).1
  unfolding reconcile_vlan ensure_vlan create_new_vlan use_existing_vlan
  reconcile_vlan_kept s = ground arith

  reconcile_infrastructure_kept :
      (s : Clusters W) → IsFramed s (reconcile_infrastructure client s).1
  unfolding reconcile_infrastructure check_location
  reconcile_infrastructure_kept s = grind (arith, reconcile_vlan_kept)

  reconcile_spec_network :
      (s : Clusters W)
      → let s' = (Reconcile.reconcile_spec kube client cluster s).1 in
        IsFramed s s' × (IsAlike s s' ⊎ IsAlike (reconcile_infrastructure client s).1 s')
  unfolding Reconcile.reconcile_spec
  reconcile_spec_network s = grind (
    arith,
    set_condition_frame,
    validate_cluster_spec_frame s.object s,
    with_infrastructure_frame kube client cluster (reconcile_infrastructure client s).1,
    infrastructure_failed_frame kube client cluster,
    reconcile_infrastructure_kept s,
  )

  pub dispatch_network :
      (s : Clusters W)
      → is_deleted s.object.meta ≡ false
      → let s' = (Reconcile.dispatch kube client cluster s).1 in
        IsFramed s s' × (IsAlike s s' ⊎ IsAlike (reconcile_vlan client (located client s)).1 s')
  unfolding Reconcile.dispatch Reconcile.reconcile_normal
  dispatch_network s kept =
      ground (arith, reconcile_spec_network s, reconcile_infrastructure_network client s)
