-- ===== src/Tests/LookupExamples.antt =====
-- The check for a failed control plane at concrete inputs.
use cluster_api_provider_lat.Base.{
  String, true, false, Option, none, some, List, [], ◌∷◌, ◌≡◌, ◌⊎◌, ◌↔◌, ◌==◌, string_eq,
  if◌then◌else◌, refl,
}
use cluster_api_provider_lat.Action.{Result, value, ok, is_ok}
use cluster_api_provider_lat.Api.{LatitudeMachine, LatitudeCluster, Machine, ObjectMeta}
use cluster_api_provider_lat.Kube.{Kube}
use cluster_api_provider_lat.MachineController.Lookup.{
  check_control_plane_failed, any_failed_control_plane, get_latitude_cluster, infrastructure_of,
}
use cluster_api_provider_lat.MachineController.LookupLaws.{
  HasFailed, outcome, check_control_plane_failed_lem,
}
use cluster_api_provider_lat.Tests.Fixtures.{
  Nothing, a_kube, owner, machine_with, meta_of, cluster_with,
}

abbrev failed_machine : String → LatitudeMachine
failed_machine name = record (machine_with "" none) {
  meta = meta_of name [] none;
  status = record ((machine_with "" none).status) { failure_reason = some "CreateError" };
}

-- The owner of the worker has no label.
abbrev owner_of : ObjectMeta → Result (Option Machine)
owner_of meta = value (
    some
      (if meta.name == "md-0" then record owner { meta = record meta { labels = [] } } else owner))

abbrev listing : List LatitudeMachine → Kube Nothing
listing ms = record a_kube {
  get_owner_machine = λ meta w. (outcome (owner_of meta), w);
  list_latitude_machines = λ namespace w. (ok ms, w);
}

-- A failed worker does not count.
failed_worker :
    check_control_plane_failed (listing (failed_machine "md-0" ∷ [])) (machine_with "" none) tt
    ≡ (ok false, tt)
unfolding check_control_plane_failed any_failed_control_plane get_latitude_cluster infrastructure_of
failed_worker = refl

failed_control_plane :
    check_control_plane_failed
      (listing (failed_machine "md-0" ∷ failed_machine "cp-1" ∷ []))
      (machine_with "" none)
      tt
    ≡ (ok true, tt)
unfolding check_control_plane_failed any_failed_control_plane get_latitude_cluster infrastructure_of
failed_control_plane = refl

check_control_plane_failed_lem_example :
    let listed = failed_machine "md-0" ∷ failed_machine "cp-1" ∷ [] in
    let answer = check_control_plane_failed (listing listed) (machine_with "" none) tt in
    ((answer ≡ (ok true, tt)) ↔ (
      (c : LatitudeCluster) × (ms : List LatitudeMachine) × (ok (some (cluster_with none))
        ≡ ok (some c))
      × (ok listed ≡ ok ms)
      × HasFailed owner_of ms))
    × ((answer ≡ (ok true, tt))
        ⊎ (answer ≡ (ok false, tt))
        ⊎ (is_ok (ok (some (cluster_with none))) ≡ false)
        ⊎ (is_ok (ok listed) ≡ false))
unfolding get_latitude_cluster infrastructure_of
check_control_plane_failed_lem_example =
    check_control_plane_failed_lem (listing (failed_machine "md-0" ∷ failed_machine "cp-1" ∷ []))
      owner_of (machine_with "" none) (ok (some (cluster_with none)))
      (ok (failed_machine "md-0" ∷ failed_machine "cp-1" ∷ [])) tt (λ meta. refl) refl refl
