-- ===== src/MachineController/ConditionLaws.antt =====
-- What `setCondition` of the machine controller does to the list of conditions.
use text.Mathlib.TextEquality.{eq_iff}
use cluster_api_provider_lat.Base.{ℕ, String, Option, none, some, List, [], ◌∷◌, ◌≡◌, arith}
use cluster_api_provider_lat.Base.{◌==◌, string_eq, if◌then◌else◌}
use cluster_api_provider_lat.Api.{Condition}
use cluster_api_provider_lat.MachineController.Conditions.{
  set_condition, condition_of, reads_clock, merge_condition,
}
use cluster_api_provider_lat.Base.{ap, ◌∙◌, false}
use cluster_api_provider_lat.Kube.{Kube}
use cluster_api_provider_lat.MachineController.Server.{Machines}

-- The first condition of a type.
abbrev pub find_condition : String → List Condition → Option Condition
find_condition type [] = none
find_condition type (c ∷ cs) = if c.type == type then some c else find_condition type cs

-- When the condition last changed: the old time if status, reason and message are all as before.
abbrev pub transition_time : Option Condition → String → String → String → ℕ → ℕ
transition_time none status reason message time = time
transition_time (some old) status reason message time =
    if old.status == status
    then if old.reason == reason
      then if old.message == message then old.last_transition_time else time
      else time
    else time

find_condition-merge_condition :
    (type : String) (new : Condition) (time : ℕ) (cs : List Condition)
    → find_condition type (merge_condition new time cs) ≡ (
        if new.type == type
        then some (record new {
          last_transition_time =
              transition_time (find_condition new.type cs) new.status new.reason new.message time;
        })
        else find_condition type cs)
unfolding merge_condition
find_condition-merge_condition type new time [] = ground arith
find_condition-merge_condition type new time (c ∷ cs) = ground (
  arith,
  find_condition-merge_condition type new time cs,
  eq_iff c.type new.type,
  eq_iff c.type type,
  eq_iff new.type type,
)

-- Where the code does not read the clock, the time does not matter.
merge_condition_unread :
    (new : Condition) (time time' : ℕ) (cs : List Condition)
    → reads_clock new cs ≡ false
    → merge_condition new time cs ≡ merge_condition new time' cs
unfolding reads_clock merge_condition
merge_condition_unread new time time' [] h = ground arith
merge_condition_unread new time time' (c ∷ cs) h =
    ground (arith, merge_condition_unread new time time' cs)

set_condition-merge_condition :
    {W : Type 0} (kube : Kube W) (type status reason message : String) (s : Machines W)
    → (set_condition kube type status reason message s).1.object.status.conditions
      ≡ merge_condition
          (condition_of s.object type status reason message)
          (kube.now s.outside).0
          s.object.status.conditions
unfolding set_condition
set_condition-merge_condition kube type status reason message s =
    let new = condition_of s.object type status reason message in
    ground (arith, merge_condition_unread new 0 (kube.now s.outside).0 s.object.status.conditions)

-- After `setCondition` the condition of the type that was set has the new status, reason and
-- message and the machine's generation, and its time is that of the clock exactly if there was none
-- or one of the first three has changed, and the old one otherwise. The condition of each other
-- type is as before.
pub set_condition_lem :
    {W : Type 0} (kube : Kube W) (type status reason message : String) (s : Machines W)
    (type' : String)
    → let old = s.object.status.conditions in
      find_condition type'
        (set_condition kube type status reason message s).1.object.status.conditions
      ≡ (if type == type'
          then some (record {
            type = type;
            status = status;
            reason = reason;
            message = message;
            observed_generation = s.object.meta.generation;
            last_transition_time =
                transition_time
                  (find_condition type old)
                  status
                  reason
                  message
                  (kube.now s.outside).0;
          })
          else find_condition type' old)
set_condition_lem kube type status reason message s type' =
    ap (find_condition type') (set_condition-merge_condition kube type status reason message s)
    ∙ find_condition-merge_condition type' (condition_of s.object type status reason message)
        (kube.now s.outside).0 s.object.status.conditions
