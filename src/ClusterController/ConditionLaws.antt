-- ===== src/ClusterController/ConditionLaws.antt =====
-- What `setCondition` of the cluster controller does to the list of conditions.
use text.Mathlib.TextEquality.{eq_iff}
use cluster_api_provider_lat.Base.{String, Option, none, some, List, [], ◌∷◌, ◌≡◌, arith, not, ◌||◌}
use cluster_api_provider_lat.Base.{◌==◌, string_eq, if◌then◌else◌}
use cluster_api_provider_lat.Action.{ok}
use cluster_api_provider_lat.Api.{Condition, LatitudeCluster}
use cluster_api_provider_lat.Kube.{Kube}
use cluster_api_provider_lat.MachineController.ConditionLaws.{find_condition}
use cluster_api_provider_lat.ClusterController.Conditions.{replace_condition, set_condition}
use cluster_api_provider_lat.ClusterController.Networks.{Clusters}

-- An old condition with the new status and reason stays, with its message and its time.
abbrev pub kept_or_new : Option Condition → Condition → Condition
kept_or_new none new = new
kept_or_new (some old) new =
    if not (old.status == new.status) || not (old.reason == new.reason) then new else old

find_condition-replace_condition :
    (type : String) (new : Condition) (cs : List Condition)
    → find_condition type (replace_condition new cs) ≡ (
        if new.type == type
        then some (kept_or_new (find_condition new.type cs) new)
        else find_condition type cs)
unfolding replace_condition
find_condition-replace_condition type new [] = ground arith
find_condition-replace_condition type new (c ∷ cs) = ground (
  arith,
  find_condition-replace_condition type new cs,
  eq_iff c.type new.type,
  eq_iff c.type type,
  eq_iff new.type type,
)

-- The cluster but for its conditions.
abbrev pub but_conditions : LatitudeCluster → LatitudeCluster
but_conditions c = record c { status = record c.status { conditions = [] } }

pub set_condition_frame :
    {W : Type 0} (kube : Kube W) (type status reason message : String) (s : Clusters W)
    → let (r, s') = set_condition kube type status reason message s in
      (r ≡ ok tt)
      × (but_conditions s'.object ≡ but_conditions s.object)
      × (s'.object.meta ≡ s.object.meta)
      × (s'.object.spec ≡ s.object.spec)
      × (s'.object.status.ready ≡ s.object.status.ready)
      × (s'.object.status.vlan_id ≡ s.object.status.vlan_id)
      × (s'.object.status.vlan_vid ≡ s.object.status.vlan_vid)
      × (s'.object.status.control_plane_endpoint ≡ s.object.status.control_plane_endpoint)
      × (s'.trace ≡ s.trace)
unfolding set_condition
set_condition_frame kube type status reason message s = ground arith

-- After `setCondition` the condition of the type that was set is a new one of the time of the
-- clock, unless there was one with the same status and reason, which then stays as it is, its
-- message included. The condition of each other type is as before.
set_cluster_condition_lem :
    {W : Type 0} (kube : Kube W) (type status reason message : String) (s : Clusters W)
    (type' : String)
    → let new : Condition = record {
      type = type;
      status = status;
      reason = reason;
      message = message;
      observed_generation = 0;
      last_transition_time = (kube.now s.outside).0;
    } in
      let old = s.object.status.conditions in
      find_condition type'
        (set_condition kube type status reason message s).1.object.status.conditions
      ≡ (if type == type'
          then some (kept_or_new (find_condition type old) new)
          else find_condition type' old)
unfolding set_condition
set_cluster_condition_lem kube type status reason message s type' =
    find_condition-replace_condition type'
      (record {
        type = type;
        status = status;
        reason = reason;
        message = message;
        observed_generation = 0;
        last_transition_time = (kube.now s.outside).0;
      })
      s.object.status.conditions
