-- ===== src/MachineController/LookupLaws.antt =====
-- What the check for a failed control plane finds.
use mathlib.Core.List.{Memᴰ}
use mathlib.Core.List.Memᴰ.{head, tail}
use cluster_api_provider_lat.Base.{
  String, Bool, true, false, ◌||◌, Option, none, some, List, [], ◌∷◌, ◌≡◌, ◌⊎◌, ◌↔◌, arith, inl,
  inr, refl, ap, Bool-cases,
}
use cluster_api_provider_lat.Action.{Outcome, ok, err, panic, Result, value, error, is_ok}
use cluster_api_provider_lat.Api.{LatitudeMachine, LatitudeCluster, Machine, ObjectMeta, has_key}
use cluster_api_provider_lat.Kube.{Kube}
use cluster_api_provider_lat.MachineController.Lookup.{
  get_latitude_cluster, any_failed_control_plane, check_control_plane_failed,
}

-- A machine that has failed, and whose owner is found and has the label of control planes.
abbrev pub IsFailedControlPlane : (ObjectMeta → Result (Option Machine)) → LatitudeMachine → Type 0
IsFailedControlPlane owner m =
    (machine : Machine) × (reason : String) × (owner m.meta ≡ value (some machine))
    × (has_key "cluster.x-k8s.io/control-plane" machine.meta.labels ≡ true)
    × (m.status.failure_reason ≡ some reason)

abbrev pub HasFailed : (ObjectMeta → Result (Option Machine)) → List LatitudeMachine → Type 0
HasFailed owner ms = (m : LatitudeMachine) × Memᴰ m ms × IsFailedControlPlane owner m

-- An answer of the API as the code looks at it.
abbrev pub outcome : {A : Type 0} → Result A → Outcome A
outcome (value a) = ok a
outcome (error e) = err e

-- The same as a test.
abbrev failed_by : Result (Option Machine) → Option String → Bool
failed_by (error e) reason = false
failed_by (value none) reason = false
failed_by (value (some machine)) none = false
failed_by (value (some machine)) (some reason) =
    has_key "cluster.x-k8s.io/control-plane" machine.meta.labels

unfoldable any_failed : (ObjectMeta → Result (Option Machine)) → List LatitudeMachine → Bool
any_failed owner [] = false
any_failed owner (m ∷ ms) = failed_by (owner m.meta) m.status.failure_reason || any_failed owner ms

failed_by-IsFailedControlPlane :
    (found : Result (Option Machine)) (failure : Option String)
    → failed_by found failure ≡ true
    → (machine : Machine) × (reason : String) × (found ≡ value (some machine))
      × (has_key "cluster.x-k8s.io/control-plane" machine.meta.labels ≡ true)
      × (failure ≡ some reason)
failed_by-IsFailedControlPlane (error e) failure h = ground arith
failed_by-IsFailedControlPlane (value none) failure h = ground arith
failed_by-IsFailedControlPlane (value (some machine)) none h = ground arith
failed_by-IsFailedControlPlane (value (some machine)) (some reason) h =
    (machine, reason, refl, h, refl)

any_failed-HasFailed :
    (owner : ObjectMeta → Result (Option Machine)) (ms : List LatitudeMachine)
    → any_failed owner ms ≡ true
    → HasFailed owner ms
unfolding any_failed
any_failed-HasFailed owner [] h = ground arith
any_failed-HasFailed owner (m ∷ ms) h =
    elim (Bool-cases (failed_by (owner m.meta) m.status.failure_reason)) [
      | inl failed ↦ (m, head refl, failed_by-IsFailedControlPlane _ _ failed)
      | inr fine ↦
          let (x, member, failed) = any_failed-HasFailed owner ms (ground arith) in
          (x, tail member, failed)
    ]

IsFailedControlPlane-any_failed :
    (owner : ObjectMeta → Result (Option Machine)) (ms : List LatitudeMachine) (m : LatitudeMachine)
    → Memᴰ m ms
    → failed_by (owner m.meta) m.status.failure_reason ≡ true
    → any_failed owner ms ≡ true
unfolding any_failed
IsFailedControlPlane-any_failed owner [] m member h = elim member [ ]
IsFailedControlPlane-any_failed owner (x ∷ xs) m (head same) h =
    let same' =
      ap (λ (y : LatitudeMachine). failed_by (owner y.meta) y.status.failure_reason) same in
    ground arith
IsFailedControlPlane-any_failed owner (x ∷ xs) m (tail member) h =
    ground (arith, IsFailedControlPlane-any_failed owner xs m member h)

HasFailed-any_failed :
    (owner : ObjectMeta → Result (Option Machine)) (ms : List LatitudeMachine)
    → HasFailed owner ms
    → any_failed owner ms ≡ true
HasFailed-any_failed owner ms (m, member, (machine, reason, found, label, failed)) =
    IsFailedControlPlane-any_failed owner ms m member (ground arith)

module _ {W : Type 0} (kube : Kube W) (owner : ObjectMeta → Result (Option Machine)) where
  any_failed_control_plane_lem :
      (ms : List LatitudeMachine) (w : W)
      → ((meta : ObjectMeta) → kube.get_owner_machine meta w ≡ (outcome (owner meta), w))
      → any_failed_control_plane kube ms w ≡ (ok (any_failed owner ms), w)
  unfolding any_failed_control_plane any_failed
  any_failed_control_plane_lem [] w reads = ground arith
  any_failed_control_plane_lem (m ∷ ms) w reads =
      ground (arith, reads m.meta, any_failed_control_plane_lem ms w reads)

  -- The check answers by the fold where the cluster and the machines are there.
  check_found :
      (m : LatitudeMachine) (cluster : LatitudeCluster) (ms : List LatitudeMachine) (w : W)
      → ((meta : ObjectMeta) → kube.get_owner_machine meta w ≡ (outcome (owner meta), w))
      → get_latitude_cluster kube m w ≡ (ok (some cluster), w)
      → kube.list_latitude_machines m.meta.namespace w ≡ (ok ms, w)
      → check_control_plane_failed kube m w ≡ (ok (any_failed owner ms), w)
  unfolding check_control_plane_failed
  check_found m cluster ms w reads found listed =
      ground (arith, any_failed_control_plane_lem ms w reads)

  -- Where the reads leave the world as it is, the check answers yes exactly if the cluster of the
  -- machine is found, the machines of its namespace are listed, and one of those has failed and is
  -- owned by a machine that is found and has the label of control planes; the cluster of that one has
  -- no influence. Otherwise it answers no, or the read of the cluster or the listing has failed.
  pub check_control_plane_failed_lem :
      (m : LatitudeMachine) (cluster : Outcome (Option LatitudeCluster))
      (listed : Outcome (List LatitudeMachine)) (w : W)
      → ((meta : ObjectMeta) → kube.get_owner_machine meta w ≡ (outcome (owner meta), w))
      → get_latitude_cluster kube m w ≡ (cluster, w)
      → kube.list_latitude_machines m.meta.namespace w ≡ (listed, w)
      → ((check_control_plane_failed kube m w ≡ (ok true, w)) ↔ (
          (c : LatitudeCluster) × (ms : List LatitudeMachine) × (cluster ≡ ok (some c))
          × (listed ≡ ok ms)
          × HasFailed owner ms))
        × ((check_control_plane_failed kube m w ≡ (ok true, w))
            ⊎ (check_control_plane_failed kube m w ≡ (ok false, w))
            ⊎ (is_ok cluster ≡ false)
            ⊎ (is_ok listed ≡ false))
  unfolding check_control_plane_failed
  check_control_plane_failed_lem m (err e) listed w reads found list = ground arith
  check_control_plane_failed_lem m panic listed w reads found list = ground arith
  check_control_plane_failed_lem m (ok none) listed w reads found list = ground arith
  check_control_plane_failed_lem m (ok (some c)) (err e) w reads found list = ground arith
  check_control_plane_failed_lem m (ok (some c)) panic w reads found list = ground arith
  check_control_plane_failed_lem m (ok (some c)) (ok ms) w reads found list =
      let answer = check_found m c ms w reads found list in
      (
        (
          λ yes. (c, ms, refl, refl, any_failed-HasFailed owner ms (ground arith)),
          λ (c', ms', same, same', failed).
              let yes = HasFailed-any_failed owner ms' failed in ground arith,
        ),
        ground (arith, Bool-cases (any_failed owner ms)),
      )
