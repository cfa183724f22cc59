-- ===== src/ClusterController/Lifetime.antt =====
-- The network of a cluster over its whole life.
use cluster_api_provider_lat.Base.{
  String, false, Option, none, some, List, [], ◌∷◌, ◌≡◌, ◌⊎◌, inl, inr, arith, ℕ, refl, ◌==◌,
  nat_eq, ◌∙◌,
}
use cluster_api_provider_lat.Action.{ok, is_ok, is_err}
use cluster_api_provider_lat.Api.{Cluster, LatitudeCluster, is_deleted}
use cluster_api_provider_lat.Kube.{Kube, IsLawful}
use cluster_api_provider_lat.Latitude.{CreateVlanRequest, Vlan, ClientInterface}
use cluster_api_provider_lat.World.{Call}
use cluster_api_provider_lat.ClusterController.Networks.{
  cleanup_vlan, cleanup_infrastructure, Clusters, uses_existing,
}
use cluster_api_provider_lat.ClusterController.NetworkLaws.{vlan_writes}
use cluster_api_provider_lat.ClusterController.NetworkRuns.{
  HasOwn, Runs, done, later, dispatch-IsQuiet, quiet-HasOwn,
}
use cluster_api_provider_lat.ClusterController.Liveness.{is_finalized}
use cluster_api_provider_lat.MachineController.Liveness.{panics}
use cluster_api_provider_lat.MachineController.Reconcile.{requeue}
use cluster_api_provider_lat.ClusterController.Reconcile
use cluster_api_provider_lat.ClusterController.Progress.{
  Progress, as_before, failed, made_one, located, reconcile_vlan-IsProgress, dispatch_network,
}

-- Latitude.sh finds a network whenever it is asked for one. Creations and deletions may fail.
pub record IsSteady {W : Type 0} (client : ClientInterface W) : Type 0 where
  pub network_found : (id : String) (w : W) → is_err (client.get_vlan id w).0 ≡ false
  pub deletion_returns : (id : String) (w : W) → panics (client.delete_vlan id w).0 ≡ false

-- A cluster that is not going, and was not told to use a network, with no network made for it.
abbrev pub IsUnbuilt : LatitudeCluster → Type 0
IsUnbuilt c = (is_deleted c.meta ≡ false) × (uses_existing c ≡ false) × (c.status.vlan_id ≡ none)

-- The cluster once the API server has taken a request to delete it.
abbrev pub deleted_at : ℕ → LatitudeCluster → LatitudeCluster
deleted_at t c = record c { meta = record c.meta { deletion_timestamp = some t } }

module _ {W : Type 0} (kube : Kube W) (client : ClientInterface W) (steady : IsSteady client) where
  -- Requests for networks that were not answered with one.
  pub data Failures : List Call → Type 0 where
    never : Failures []
    again :
        (req : CreateVlanRequest) (w : W)
        → is_ok (client.create_vlan req w).0 ≡ false
        → {calls : List Call} → Failures calls
        → Failures (Call.create_vlan req ∷ calls)

  -- No network was made, or one, which is recorded.
  data Stage (c : LatitudeCluster) (calls : List Call) : Type 0 where
    unbuilt :
        (tries : List Call)
        → Failures tries
        → IsUnbuilt c
        → vlan_writes calls ≡ tries
        → Stage c calls
    built :
        (req : CreateVlanRequest) (w : W) (vlan : Vlan)
        → (client.create_vlan req w).0 ≡ ok vlan
        → HasOwn vlan.id c
        → (tries : List Call) → Failures tries
        → vlan_writes calls ≡ Call.create_vlan req ∷ tries
        → Stage c calls

  Progress-Stage :
      (s t : Clusters W) (tries : List Call) {id : Option String} {writes : List Call}
      → Failures tries
      → IsUnbuilt s.object
      → vlan_writes s.trace ≡ tries
      → (t.object.spec ≡ s.object.spec)
        × (t.object.meta.deletion_timestamp ≡ s.object.meta.deletion_timestamp)
      → (t.object.status.vlan_id ≡ id) × (vlan_writes t.trace ≡ writes)
      → Progress client s.object.status.vlan_id (vlan_writes s.trace) id writes
      → Stage t.object t.trace
  Progress-Stage s t tries f h k framed alike (as_before e e') =
      unbuilt tries f (ground arith) (ground arith)
  Progress-Stage s t tries f h k framed alike (failed req w refused e e') =
      unbuilt (Call.create_vlan req ∷ tries) (again req w refused f) (ground arith) (ground arith)
  Progress-Stage s t tries f h k framed alike (made_one req w vlan made e e') =
      built req w vlan made (ground arith) tries f (ground arith)

  module _ (cluster : Cluster) where
    unbuilt_run-Stage :
        (s : Clusters W) (tries : List Call)
        → Failures tries
        → IsUnbuilt s.object
        → vlan_writes s.trace ≡ tries
        → let s' = (Reconcile.dispatch kube client cluster s).1 in Stage s'.object s'.trace
    unbuilt_run-Stage s tries f h k =
        let s' = (Reconcile.dispatch kube client cluster s).1 in
        let (framed, alike) = dispatch_network kube client cluster s h.0 in
        elim alike [
          | inl same ↦ Progress-Stage s s' tries f h k framed same (as_before refl refl)
          | inr same ↦
              Progress-Stage s s' tries f h k framed same
                (reconcile_vlan-IsProgress client (located client s) h.1 h.2)
        ]

    run-Stage :
        (s : Clusters W)
        → Stage s.object s.trace
        → let s' = (Reconcile.dispatch kube client cluster s).1 in Stage s'.object s'.trace
    run-Stage s (unbuilt tries f h k) = unbuilt_run-Stage s tries f h k
    run-Stage s (built req w vlan made h tries f k) =
        let finds = steady.network_found vlan.id in
        let quiet = dispatch-IsQuiet kube client vlan.id finds cluster s h in
        built req w vlan made
          (quiet-HasOwn kube client vlan.id finds s (Reconcile.dispatch kube client cluster s).1 h
            quiet)
          tries f (quiet.3 ∙ k)

  Runs-Stage :
      {c d : LatitudeCluster} {calls calls' : List Call}
      → Stage c calls
      → Runs kube client c calls d calls'
      → Stage d calls'
  Runs-Stage h done = h
  Runs-Stage h (later {d = d} {calls' = calls'} cluster w runs) =
      run-Stage cluster (record { outside = w; object = d; trace = calls' }) (Runs-Stage h runs)

  -- The calls on networks over a whole life: requests that have failed, and then either no other or
  -- those that make one network and delete it.
  abbrev pub IsBalanced : List Call → Type 0
  IsBalanced calls =
      (tries : List Call) × Failures tries
      × ((vlan_writes calls ≡ tries)
          ⊎ ((vlan : Vlan) × (req : CreateVlanRequest) × (w : W) × ((client.create_vlan req w).0
                ≡ ok vlan)
              × (vlan_writes calls ≡ Call.delete_vlan vlan.id ∷ Call.create_vlan req ∷ tries)))

  last_run :
      IsLawful kube
      → (cluster : Cluster) (d : LatitudeCluster) (calls : List Call) (v : W) (t : ℕ)
      → (t == 0) ≡ false
      → Stage d calls
      → let (r, s') =
          Reconcile.dispatch kube client cluster
            (record { outside = v; object = deleted_at t d; trace = calls }) in
        (r ≡ ok (requeue 0)) × (is_finalized kube s'.object ≡ false) × IsBalanced s'.trace
  unfolding Reconcile.dispatch Reconcile.reconcile_delete cleanup_infrastructure cleanup_vlan
  last_run lawful cluster d calls v t set (unbuilt tries f h k) = (
    ground arith,
    ground (arith, lawful.contains-remove d.meta.finalizers Reconcile.cluster_finalizer_name),
    (tries, f, inl (ground arith)),
  )
  last_run lawful cluster d calls v t set (built req w vlan made h tries f k) = (
    ground (arith, steady.deletion_returns vlan.id v),
    ground (
      arith,
      steady.deletion_returns vlan.id v,
      lawful.contains-remove d.meta.finalizers Reconcile.cluster_finalizer_name,
    ),
    (tries, f, inr (vlan, req, w, made, ground (arith, steady.deletion_returns vlan.id v))),
  )

  -- The network of a cluster over its whole life, where Latitude.sh finds a network whenever it is
  -- asked for one, no deletion panics, and finalizers behave as controller-runtime documents. After
  -- any number of runs, each in a world of its own, of a cluster without a network and not told to
  -- use one, a run of the cluster while it is being deleted lets it go. Then the calls on networks
  -- of all runs together are requests for a network that were not answered with one, and after them
  -- either no other, or the creation of one network and the request to delete that one.
  pub makes_and_deletes_one_network :
      IsLawful kube
      → {c d : LatitudeCluster} {calls : List Call} → IsUnbuilt c
      → Runs kube client c [] d calls
      → (cluster : Cluster) (v : W) (t : ℕ) → (t == 0) ≡ false
      → let (r, s') =
          Reconcile.dispatch kube client cluster
            (record { outside = v; object = deleted_at t d; trace = calls }) in
        (r ≡ ok (requeue 0)) × (is_finalized kube s'.object ≡ false) × IsBalanced s'.trace
  makes_and_deletes_one_network lawful {d = d} {calls = calls} h runs cluster v t set =
      last_run lawful cluster d calls v t set (Runs-Stage (unbuilt [] never h refl) runs)
