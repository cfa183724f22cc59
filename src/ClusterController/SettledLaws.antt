-- ===== src/ClusterController/SettledLaws.antt =====
-- The network of a cluster over two runs.
use text.Mathlib.TextEquality.{eq_iff}
use cluster_api_provider_lat.Base.{Bool, true, false, none, some, ◌≡◌, ◌⊎◌, arith, ◌==◌, string_eq}
use cluster_api_provider_lat.Action.{ok, is_ok}
use cluster_api_provider_lat.Api.{LatitudeCluster}
use cluster_api_provider_lat.Latitude.{ClientInterface}
use cluster_api_provider_lat.ClusterController.Networks.{
  Clusters, use_existing_vlan, ensure_vlan, create_new_vlan, reconcile_vlan,
}
use cluster_api_provider_lat.ClusterController.NetworkLaws.{vlan_writes}

-- The network's id and VID are recorded, and the id is that of the specification if it has one.
abbrev is_settled : LatitudeCluster → Bool
is_settled c = elim (c.spec.vlan_config) [
  | none ↦ true
  | some config ↦ elim (c.status.vlan_id) [
    | none ↦ false
    | some id ↦ elim (c.status.vlan_vid) [
      | none ↦ false
      | some vid ↦ elim (config.existing_vlan_id) [ none ↦ true | some e ↦ e == id ]
    ]
  ]
]

module _ {W : Type 0} (client : ClientInterface W) where
  -- The API finds the recorded network.
  abbrev finds_network : Clusters W → Bool
  finds_network s = elim (s.object.status.vlan_id) [
    | none ↦ true
    | some id ↦ is_ok (client.get_vlan id s.outside).0
  ]

  reconcile_vlan-is_settled :
      (s : Clusters W)
      → (is_ok (reconcile_vlan client s).0 ≡ false)
        ⊎ (is_settled (reconcile_vlan client s).1.object ≡ true)
  unfolding reconcile_vlan use_existing_vlan ensure_vlan create_new_vlan
  reconcile_vlan-is_settled s = grind (arith, eq_iff)

  settled_frame :
      (t : Clusters W)
      → is_settled t.object ≡ true
      → finds_network t ≡ true
      → let (r, t') = reconcile_vlan client t in
        (r ≡ ok tt) × (t'.object ≡ t.object) × (vlan_writes t'.trace ≡ vlan_writes t.trace)
  unfolding reconcile_vlan use_existing_vlan ensure_vlan create_new_vlan
  settled_frame t h k = grind (arith, eq_iff)

  -- After a run over the network without an error, the next one, in whatever state of the world,
  -- leaves the cluster as it is and asks for no network to be made or deleted, if the API finds the
  -- network that the first has recorded.
  reconcile_vlan_settles :
      (s t : Clusters W)
      → (reconcile_vlan client s).0 ≡ ok tt
      → t.object ≡ (reconcile_vlan client s).1.object
      → finds_network t ≡ true
      → let (r, t') = reconcile_vlan client t in
        (r ≡ ok tt) × (t'.object ≡ t.object) × (vlan_writes t'.trace ≡ vlan_writes t.trace)
  reconcile_vlan_settles s t first same found =
      ground (arith, reconcile_vlan-is_settled s, settled_frame t)
