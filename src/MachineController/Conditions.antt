-- ===== src/MachineController/Conditions.antt =====
-- `setCondition`, `setMachineFailed` and `isPermanentError` of latitudemachine_controller.go.
use cluster_api_provider_lat.Base.{ℕ, String, Bool, true, false, not, ◌||◌, some, List, [], ◌∷◌}
use cluster_api_provider_lat.Base.{◌==◌, string_eq, if◌then◌else◌}
use cluster_api_provider_lat.Go.Errors.{Error, error_text}
use cluster_api_provider_lat.Go.Strings.{contains_text}
use cluster_api_provider_lat.Action.{Action, ◌>>=◌}
use cluster_api_provider_lat.Api.{Condition, LatitudeMachine}
use cluster_api_provider_lat.Kube.{Kube}
use cluster_api_provider_lat.World.{World, the_object, update}

abbrev pub changed : Condition → Condition → Bool
changed old new =
    not (old.status == new.status)
    || not (old.reason == new.reason)
    || not (old.message == new.message)

-- Whether the loop, or the code behind it, reads the clock.
unfoldable pub reads_clock : Condition → List Condition → Bool
reads_clock new [] = true
reads_clock new (c ∷ cs) = if c.type == new.type then changed c new else reads_clock new cs

-- The first condition of the type is overwritten, and its time kept if nothing changed; a new type
-- comes last.
unfoldable pub merge_condition : Condition → ℕ → List Condition → List Condition
merge_condition new time [] = record new { last_transition_time = time } ∷ []
merge_condition new time (c ∷ cs) =
    if c.type == new.type
    then record c {
      status = new.status;
      reason = new.reason;
      message = new.message;
      observed_generation = new.observed_generation;
      last_transition_time = if changed c new then time else c.last_transition_time;
    }
      ∷ cs
    else c ∷ merge_condition new time cs

abbrev with_conditions : List Condition → LatitudeMachine → LatitudeMachine
with_conditions cs m = record m { status = record m.status { conditions = cs } }

abbrev pub condition_of : LatitudeMachine → String → String → String → String → Condition
condition_of m type status reason message = record {
  type = type;
  status = status;
  reason = reason;
  message = message;
  observed_generation = m.meta.generation;
  last_transition_time = 0;
}

unfoldable pub set_machine_failed :
    {W : Type 0} → String → Action (World W LatitudeMachine) (Unit {0})
set_machine_failed message = update (λ m. record m {
  status = record m.status {
    ready = false;
    failure_reason = some "CreateError";
    failure_message = some message;
  };
})

unfoldable pub is_permanent_error : Error → Bool
is_permanent_error e =
    contains_text (error_text e) "SERVERS_OUT_OF_STOCK"
    || contains_text (error_text e) "No stock availability"

module _ {W : Type 0} (kube : Kube W) where
  abbrev merge_now : Condition → Bool → Action (World W LatitudeMachine) (Unit {0})
  merge_now new false s =
      update (λ m. with_conditions (merge_condition new 0 m.status.conditions) m) s
  merge_now new true s =
      let (time, w) = kube.now s.outside in
      update (λ m. with_conditions (merge_condition new time m.status.conditions) m)
        (record s { outside = w })

  unfoldable pub set_condition :
      String → String → String → String → Action (World W LatitudeMachine) (Unit {0})
  set_condition type status reason message = the_object >>= λ m.
      let new = condition_of m type status reason message in
      merge_now new (reads_clock new m.status.conditions)
