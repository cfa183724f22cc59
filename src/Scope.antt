-- ===== src/Scope.antt =====
-- internal/scope/machine.go. A scope holds pointers to the two machines and a client; its methods
-- act on the LatitudeMachine that the reconciliation holds.
use cluster_api_provider_lat.Base.{
  String, Bool, Option, not, none, some, true, false, ◌==◌, string_eq, if◌then◌else◌,
}
use cluster_api_provider_lat.Go.Errors.{plain, wrapped, bootstrap_data_not_ready, is_not_found}
use cluster_api_provider_lat.Action.{
  Action, fail_if, ◌>>◌, value, error, pure, fail, attempt, wrapping, ◌>>=◌, when◌then◌else◌,
}
use cluster_api_provider_lat.Api.{LatitudeMachine, Machine, Secret, lookup}
use cluster_api_provider_lat.Kube.{Kube}
use cluster_api_provider_lat.World.{World, Call, external, perform, the_object, update}

abbrev is_none : Option Machine → Bool
is_none none = true
is_none (some m) = false

-- `len(value) == 0` of `secret.Data["value"]`
unfoldable pub bootstrap_value : {S : Type 0} → Secret → Action S String
bootstrap_value secret = elim (lookup "value" secret) [
  | none ↦ fail (plain "error retrieving bootstrap data: secret value key is missing")
  | some text ↦
      when text == ""
      then fail (plain "error retrieving bootstrap data: secret value is empty")
      else pure text
]

unfoldable pub set_ready : {W : Type 0} → Action (World W LatitudeMachine) (Unit {0})
set_ready = update (λ m. record m { status = record m.status { ready = true } })

unfoldable pub set_provider_id : {W : Type 0} → String → Action (World W LatitudeMachine) (Unit {0})
set_provider_id provider_id = update (λ m. record m {
  spec = record m.spec { provider_id = some provider_id };
  status = record m.status { provider_id = provider_id };
})

unfoldable pub set_not_ready : {W : Type 0} → Action (World W LatitudeMachine) (Unit {0})
set_not_ready = update (λ m. record m { status = record m.status { ready = false } })

abbrev pub is_ready : LatitudeMachine → Bool
is_ready m = m.status.ready

abbrev pub get_provider_id : LatitudeMachine → String
get_provider_id m = m.status.provider_id

abbrev pub namespace_of : LatitudeMachine → String
namespace_of m = m.meta.namespace

abbrev pub name_of : LatitudeMachine → String
name_of m = m.meta.name

-- The client is that of the run, and the LatitudeMachine the one that it holds: whether they are
-- not nil.
pub record MachineScopeParams : Type 0 where
  pub client : Bool
  pub machine : Option Machine
  pub latitude_machine : Bool

abbrev pub params_of : Machine → MachineScopeParams
params_of machine = record { client = true; machine = some machine; latitude_machine = true }

module _ {W : Type 0} (kube : Kube W) where
  unfoldable pub new_machine_scope :
      MachineScopeParams → Action (World W LatitudeMachine) (Unit {0})
  new_machine_scope params =
      fail_if (not params.client) (plain "client is required when creating a MachineScope")
      >> fail_if (is_none params.machine) (plain "machine is required when creating a MachineScope")
      >> fail_if (not params.latitude_machine)
          (plain "latitudeMachine is required when creating a MachineScope")
      >> (the_object >>= λ m.
          wrapping "failed to create patch helper" (external (kube.new_machine_helper m)))

  -- The patch is from the object that the scope's helper was made with.
  unfoldable pub close : LatitudeMachine → Action (World W LatitudeMachine) (Unit {0})
  close before = the_object >>= λ m. perform (Call.patch_machine m) (kube.patch_machine before m)

  unfoldable pub get_raw_bootstrap_data : Machine → Action (World W LatitudeMachine) String
  get_raw_bootstrap_data machine = elim (machine.data_secret_name) [
    | none ↦ fail bootstrap_data_not_ready
    | some name ↦ do
      m ← the_object
      found ←
          attempt (external (kube.get_secret (record { namespace = namespace_of m; name = name })))
      elim found [
        | error e ↦
            when is_not_found e
            then fail bootstrap_data_not_ready
            else fail (wrapped "failed to get bootstrap data secret" e)
        | value secret ↦ bootstrap_value secret
      ]
  ]

  unfoldable pub get_bootstrap_data : Machine → Action (World W LatitudeMachine) String
  get_bootstrap_data machine = get_raw_bootstrap_data machine
