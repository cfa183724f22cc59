-- ===== src/World.antt =====
-- The state of one reconciliation: the outside world, the object that the code holds and changes
-- through its pointer, and a ghost list of what it asked of the outside, newest first.
use cluster_api_provider_lat.Base.{String, List, ◌∷◌}
use cluster_api_provider_lat.Action.{Action, ok}
use cluster_api_provider_lat.Api.{LatitudeMachine, LatitudeCluster}
use cluster_api_provider_lat.Latitude.{ServerSpec, CreateUserDataRequest, CreateVlanRequest}

-- Calls of the Latitude.sh interface, writes to the API server, and `recorder.Eventf`.
pub data Call : Type 0 where
  create_server : ServerSpec → Call
  get_server : String → Call
  delete_server : String → Call
  create_user_data : CreateUserDataRequest → Call
  delete_user_data : String → Call
  get_available_regions : Call
  create_vlan : CreateVlanRequest → Call
  get_vlan : String → Call
  delete_vlan : String → Call
  attach_server_to_vlan : String → String → Call
  patch_machine : LatitudeMachine → Call
  patch_cluster : LatitudeCluster → Call
  event : String → String → String → Call

pub record World (W O : Type 0) : Type 0 where
  pub outside : W
  pub object : O
  pub trace : List Call

module _ {W O : Type 0} where
  -- A read of the outside world.
  abbrev pub external : {A : Type 0} → Action W A → Action (World W O) A
  external m s = let (r, w) = m s.outside in (r, record s { outside = w })

  -- A call that the trace keeps.
  abbrev pub perform : {A : Type 0} → Call → Action W A → Action (World W O) A
  perform c m s = let (r, w) = m s.outside in (r, record s { outside = w; trace = c ∷ s.trace })

  -- `recorder.Eventf(object, type, reason, message)`
  abbrev pub emit : String → String → String → Action (World W O) (Unit {0})
  emit type reason message s = (ok tt, record s { trace = event type reason message ∷ s.trace })

  abbrev pub the_object : Action (World W O) O
  the_object s = (ok s.object, s)

  abbrev pub update : (O → O) → Action (World W O) (Unit {0})
  update f s = (ok tt, record s { object = f s.object })
