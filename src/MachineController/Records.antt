-- ===== src/MachineController/Records.antt =====
-- What is recorded when a server or its user data are made.
use cluster_api_provider_lat.Base.{
  String, true, false, List, ◌∷◌, ◌≡◌, ◌⊎◌, arith, ◌==◌, string_eq, ◌<>◌,
}
use cluster_api_provider_lat.Action.{ok, panic, is_err}
use cluster_api_provider_lat.Api.{LatitudeMachine}
use cluster_api_provider_lat.Kube.{Kube}
use cluster_api_provider_lat.Go.Base64.{encode_to_string}
use cluster_api_provider_lat.Latitude.{ServerSpec, Server, CreateUserDataRequest, ClientInterface}
use cluster_api_provider_lat.World.{Call}
use cluster_api_provider_lat.MachineController.Server.{
  Machines, with_server_id, with_user_data_id, persist, create_server, ensure_user_data,
  attach_server_to_vlan, attach,
}

-- The calls up to the last one that is neither the attachment to a network nor an event.
abbrev pub but_attachment : List Call → List Call
but_attachment (Call.attach_server_to_vlan server vlan ∷ calls) = but_attachment calls
but_attachment (Call.event type reason message ∷ calls) = but_attachment calls
but_attachment calls = calls

module _ {W : Type 0} (kube : Kube W) (client : ClientInterface W) (before : LatitudeMachine) where
  attach_calls :
      (s : Machines W)
      → let s' = (attach_server_to_vlan kube client s).1 in
        (s'.object ≡ s.object) × (but_attachment s'.trace ≡ but_attachment s.trace)
  unfolding attach_server_to_vlan attach
  attach_calls s = ground arith

  -- When the API has made a server, its id is recorded in the machine and the machine is patched
  -- with it at once, before the server is attached to a network. No error of the patch or of the
  -- attachment is returned.
  pub create_server_records :
      (spec : ServerSpec) (server : Server) (s : Machines W)
      → (client.create_server spec s.outside).0 ≡ ok server
      → let (r, s') = create_server kube client before spec s in
        (s'.object ≡ with_server_id server.id s.object)
        × (but_attachment s'.trace
            ≡ Call.patch_machine (with_server_id server.id s.object)
              ∷ Call.create_server spec
              ∷ s.trace)
        × (is_err r ≡ false)
  unfolding create_server persist
  create_server_records spec server s answer = grind (arith, attach_calls)

  abbrev pub user_data_request : LatitudeMachine → String → CreateUserDataRequest
  user_data_request m user_data = record {
    name = m.meta.name <> ("-" <> m.meta.uid);
    content = encode_to_string user_data;
  }

  -- A machine that has user data keeps it: its id is answered, and nothing is asked for. For a
  -- machine without user data, if the API makes some, the id is recorded, patched at once and
  -- answered, unless the patch panics.
  pub ensure_user_data_records :
      (user_data id : String) (s : Machines W)
      → ((s.object.status.user_data_id == "") ≡ false)
        ⊎ ((client.create_user_data (user_data_request s.object user_data) s.outside).0 ≡ ok id)
      → let (r, s') = ensure_user_data kube client before user_data s in
        (((s.object.status.user_data_id == "") ≡ false)
          × (r ≡ ok s.object.status.user_data_id)
          × (s' ≡ s))
        ⊎ (((s.object.status.user_data_id == "") ≡ true)
            × ((r ≡ ok id) ⊎ (r ≡ panic))
            × (s'.object ≡ with_user_data_id id s.object)
            × (s'.trace
                ≡ Call.patch_machine (with_user_data_id id s.object)
                  ∷ Call.create_user_data (user_data_request s.object user_data)
                  ∷ s.trace))
  unfolding ensure_user_data persist
  ensure_user_data_records user_data id s answer = ground arith
