-- ===== src/MachineController/Lifetime.antt =====
-- The whole life of a machine, from a new one to its deletion.
use cluster_api_provider_lat.Base.{
  String, true, false, some, [], ◌≡◌, ◌==◌, string_eq, nat_eq, arith, ℕ, refl,
}
use cluster_api_provider_lat.Action.{ok, is_ok}
use cluster_api_provider_lat.Api.{LatitudeMachine, has_key, is_deleted}
use cluster_api_provider_lat.Kube.{Kube, IsLawful}
use cluster_api_provider_lat.Latitude.{ClientInterface}
use cluster_api_provider_lat.MachineController.Lookup.{get_hostname}
use cluster_api_provider_lat.MachineController.Custody.Names.{get_hostname-dispatch}
use cluster_api_provider_lat.MachineController.Cloud.{Cloud, held, IsKept, held-IsKept}
use cluster_api_provider_lat.MachineController.Custody.{IsCustody}
use cluster_api_provider_lat.MachineController.Custody.Clearing.{
  dispatch-IsCustody, dispatch_clears,
}
use cluster_api_provider_lat.MachineController.Deletion.{reconcile_delete_lem}
use cluster_api_provider_lat.MachineController.Server.{Machines}
use cluster_api_provider_lat.MachineController.Reconcile.{
  requeue, dispatch, reconcile_delete, finish_delete, delete_user_data,
}
use cluster_api_provider_lat.MachineController.Liveness.{IsWilling, IsOwn, panics}
use cluster_api_provider_lat.MachineController.Liveness.Runs.{
  IsActive, is_finalized, start, after_run, three_runs,
}

-- Latitude.sh deletes every server that it is asked to delete. The deletion of user data may fail.
pub record IsObliging {W : Type 0} (client : ClientInterface W) : Type 0 where
  pub server_deleted : (id : String) (w : W) → is_ok (client.delete_server id w).0 ≡ true
  pub user_data_returns : (id : String) (w : W) → panics (client.delete_user_data id w).0 ≡ false

module _ {W : Type 0} (kube : Kube W) (client : ClientInterface W)
    (obliging : IsObliging client) where
  finish_delete_returns : (s : Machines W) → (finish_delete kube client s).0 ≡ ok (requeue 0)
  unfolding finish_delete delete_user_data
  finish_delete_returns s =
      ground (arith, obliging.user_data_returns s.object.status.user_data_id s.outside)

  reconcile_delete_returns : (s : Machines W) → (reconcile_delete kube client s).0 ≡ ok (requeue 0)
  unfolding reconcile_delete
  reconcile_delete_returns s =
      grind
        (arith, obliging.server_deleted s.object.status.server_id s.outside, finish_delete_returns)

  reconcile_delete_releases :
      IsLawful kube
      → (s : Machines W) → is_finalized kube (reconcile_delete kube client s).1.object ≡ false
  reconcile_delete_releases lawful s =
      ground (arith, reconcile_delete_lem kube client lawful s, reconcile_delete_returns s)

  -- Where Latitude.sh deletes every server that it is asked to, and it and the API server keep the
  -- laws of `Cloud`, one run is enough for a machine that is being deleted and not paused, and whose
  -- servers all have the id in its status: no server is left but such as were reported missing, the
  -- finalizer is gone, and no other run is asked for.
  pub gets_released :
      IsLawful kube
      → (cloud : Cloud kube client) (before : LatitudeMachine) (s : Machines W)
      → IsCustody kube client cloud s
      → is_deleted s.object.meta ≡ true
      → has_key "cluster.x-k8s.io/paused" s.object.meta.annotations ≡ false
      → let (r, s') = dispatch kube client before s in
        (r ≡ ok (requeue 0))
        × (is_finalized kube s'.object ≡ false)
        × (cloud.servers s'.outside ≡ [])
  unfolding dispatch
  gets_released lawful cloud before s custody deleted running = ground (
    arith,
    reconcile_delete_returns s,
    reconcile_delete_releases lawful s,
    dispatch_clears kube client cloud before s custody deleted running,
  )

-- The machine once the API server has taken a request to delete it.
abbrev pub deleted_at : ℕ → LatitudeMachine → LatitudeMachine
deleted_at t m = record m { meta = record m.meta { deletion_timestamp = some t } }

module _ {W : Type 0} (kube : Kube W) (client : ClientInterface W) where
  -- The world that a run leaves.
  abbrev pub world_after : W → LatitudeMachine → W
  world_after w m = (dispatch kube client m (start w m)).1.outside

module _ {W : Type 0} (kube : Kube W) (client : ClientInterface W) (cloud : Cloud kube client) where
  -- What happens between two runs takes servers away at most.
  abbrev pub IsFollowed : W → LatitudeMachine → W → Type 0
  IsFollowed w m w' = IsKept (cloud.servers w') (cloud.servers (world_after kube client w m))

  followed-IsCustody :
      (w w' : W) (m : LatitudeMachine)
      → (get_hostname m == cloud.host) ≡ true
      → IsCustody kube client cloud (start w m)
      → IsFollowed w m w'
      → IsCustody kube client cloud (start w' (after_run kube client w m))
  followed-IsCustody w w' m named h kept =
      held-IsKept _ kept (dispatch-IsCustody kube client cloud m (start w m) named h)

  after_run_hostname :
      (w : W) (m : LatitudeMachine)
      → (get_hostname m == cloud.host) ≡ true
      → (get_hostname (after_run kube client w m) == cloud.host) ≡ true
  after_run_hostname w m named = rw (get_hostname-dispatch kube client m (start w m)) named

  -- The whole life of a machine. In a world that answers every question about it, in which
  -- Latitude.sh deletes every server that it is asked to, where finalizers behave as
  -- controller-runtime documents, and where the laws of `Cloud` are kept in the account of this
  -- machine: a new machine without a server, well specified, neither paused nor being deleted, and
  -- without a secret of keys, is ready after three runs, for a control plane or for a worker beside
  -- which no machine that is listed has failed; and if it is deleted then, the next run lets it go:
  -- the finalizer is gone, no other run is asked for, and of all servers that were made for it none
  -- is left, but such as were reported missing. Between the runs servers may be taken away from
  -- outside, but none is added.
  pub lives_and_leaves_nothing :
      (willing : IsWilling kube client)
      → IsObliging client
      → IsLawful kube
      → (m : LatitudeMachine) (w w' w'' v : W) (t : ℕ) → IsOwn kube client willing m
      → IsActive m
      → is_finalized kube m ≡ false
      → (m.status.server_id == "") ≡ true
      → (get_hostname m == cloud.host) ≡ true
      → cloud.servers w ≡ []
      → IsFollowed w m w'
      → IsFollowed w' (after_run kube client w m) w''
      → IsFollowed w'' (after_run kube client w' (after_run kube client w m)) v
      → (t == 0) ≡ false
      → let o = after_run kube client w'' (after_run kube client w' (after_run kube client w m)) in
        let (r, s') = dispatch kube client (deleted_at t o) (start v (deleted_at t o)) in
        (o.status.ready ≡ true)
        × (r ≡ ok (requeue 0))
        × (is_finalized kube s'.object ≡ false)
        × (cloud.servers s'.outside ≡ [])
  unfolding held
  lives_and_leaves_nothing willing obliging lawful m w w' w'' v t own active fresh unknown named
        none_yet kept kept' kept'' set =
      let n = after_run kube client w m in
      let n' = after_run kube client w' n in
      let o = after_run kube client w'' n' in
      let named' = after_run_hostname w m named in
      let custody = followed-IsCustody w w' m named (rw none_yet refl) kept in
      let custody' = followed-IsCustody w' w'' n named' custody kept' in
      let custody'' =
        followed-IsCustody w'' v n' (after_run_hostname w' n named') custody' kept'' in
      let (is_ready, _, _, running) =
        three_runs kube client willing lawful m w w' w'' own active fresh unknown in
      let (r, released, cleared) =
        gets_released kube client obliging lawful cloud (deleted_at t o) (start v (deleted_at t o))
          custody'' (rw set refl) running in
      (is_ready, r, released, cleared)
