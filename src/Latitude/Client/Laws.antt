-- ===== src/Latitude/Client/Laws.antt =====
-- What the client promises over the SDK.
use cluster_api_provider_lat.Base.{
  ℕ, zero, suc, String, Bool, true, false, ◌||◌, Option, some, List, [], ◌∷◌, ◌++◌, ◌≡◌, ◌<◌, ◌↔◌,
  arith, inl, inr, refl, ap, Bool-cases, ◌==◌, string_eq,
}
use text.Mathlib.TextEquality.{eq_iff}
use cluster_api_provider_lat.Base.Int.{ℤ}
use cluster_api_provider_lat.Go.Strings.{equal_fold}
use cluster_api_provider_lat.Action.{ok, Outcome-ok_cases}
use cluster_api_provider_lat.Latitude.Types.{Server, Vlan, CreateVlanRequest}
use cluster_api_provider_lat.Latitude.Sdk.{Sdk}
use cluster_api_provider_lat.Latitude.Client

-- One of the networks has this description.
abbrev pub is_described : String → List Vlan → Bool
is_described subnet [] = false
is_described subnet (v ∷ vs) = (v.subnet == subnet) || is_described subnet vs

-- The network stands in the list, has the description, and is the first that has it.
abbrev pub IsFirst : String → Vlan → List Vlan → Type 0
IsFirst subnet found vlans =
    (before : List Vlan) × (after : List Vlan) × (vlans ≡ before ++ found ∷ after)
    × (found.subnet ≡ subnet)
    × (is_described subnet before ≡ false)

find_by_subnet-IsFirst :
    (subnet : String) (vlans : List Vlan)
    → is_described subnet vlans ≡ true
    → (found : Vlan) × (Client.find_by_subnet subnet vlans ≡ some found)
      × IsFirst subnet found vlans
unfolding Client.find_by_subnet
find_by_subnet-IsFirst subnet [] h = ground arith
find_by_subnet-IsFirst subnet (v ∷ vs) h = elim (Bool-cases (v.subnet == subnet)) [
  | inl same ↦ (v, ground arith, ([], vs, refl, (eq_iff _ _).0 same, refl))
  | inr other ↦
      let (found, answer, (before, after, parts, same, none_before)) =
        find_by_subnet-IsFirst subnet vs (ground arith) in
      (found, ground arith, (v ∷ before, after, ap (λ rest. v ∷ rest) parts, same, ground arith))
]

module _ {W : Type 0} (sdk : Sdk W) where
  -- The server reaches the target, but for case, at the poll with this number: the polls before it
  -- answer with servers in other states.
  pub data IsReached (server_id target : String) (server : Server) (end : W) : ℕ → W → Type 0 where
    now :
        {w : W}
        → Client.get_server sdk server_id w ≡ (ok server, end)
        → equal_fold server.status target ≡ true
        → IsReached server_id target server end 0 w
    later :
        {w w' : W} {other : Server} {k : ℕ}
        → Client.get_server sdk server_id w ≡ (ok other, w')
        → equal_fold other.status target ≡ false
        → IsReached server_id target server end k w'
        → IsReached server_id target server end (suc k) w

  wait_rounds-IsReached :
      {server_id target : String} {server : Server} {end : W} (ticks k : ℕ) (w : W)
      → IsReached server_id target server end k w
      → k < ticks
      → Client.wait_rounds sdk ticks server_id target w ≡ (ok server, end)
  unfolding Client.wait_rounds
  wait_rounds-IsReached zero k w r h = ground arith
  wait_rounds-IsReached (suc ticks) zero w (now answer same) h = ground arith
  wait_rounds-IsReached (suc ticks) (suc k) w (later {w' = w'} answer other r) h =
      ground (arith, wait_rounds-IsReached ticks k w' r (omega arith))

  IsReached-wait_rounds :
      {server_id target : String} {server : Server} {end : W} (ticks : ℕ) (w : W)
      → Client.wait_rounds sdk ticks server_id target w ≡ (ok server, end)
      → (k : ℕ) × (k < ticks) × IsReached server_id target server end k w
  unfolding Client.wait_rounds
  IsReached-wait_rounds zero w h = ground arith
  IsReached-wait_rounds {server_id} {target} {server} {end} (suc ticks) w h =
      let w' = (Client.get_server sdk server_id w).1 in
      elim (Outcome-ok_cases (Client.get_server sdk server_id w).0) [
        | inr missing ↦ ground arith
        | inl (other, answer) ↦ elim (Bool-cases (equal_fold other.status target)) [
          | inl same ↦ (0, omega arith, now (ground arith) (ground arith))
          | inr different ↦
              let rest : Client.wait_rounds sdk ticks server_id target w' ≡ (ok server, end) =
                ground arith in
              let (k, h', r) = IsReached-wait_rounds ticks w' rest in
              (suc k, omega arith, later {other = other} (ground arith) different r)
        ]
      ]

  -- The wait for a server answers with it exactly if it reaches the target, but for case, at a poll
  -- that comes before the timeout, and the polls before that one answered with other states.
  pub wait_for_server_lem :
      (server_id target : String) (timeout : ℕ) (w : W) (server : Server) (end : W)
      → let (ticks, w') = sdk.ticks_within timeout w in
        (Client.wait_for_server sdk server_id target timeout w ≡ (ok server, end))
        ↔ ((k : ℕ) × (k < ticks) × IsReached server_id target server end k w')
  unfolding Client.wait_for_server
  wait_for_server_lem server_id target timeout w server end =
      let (ticks, w') = sdk.ticks_within timeout w in
      (IsReached-wait_rounds ticks w', λ (k, h, r). wait_rounds-IsReached ticks k w' r h)

  -- A request with a project, a description and a site, whose description a listed network has, is
  -- answered with the first listed network of that description, and nothing more is asked of the
  -- SDK: the world is as the listing left it.
  pub create_vlan_reuses :
      (req : CreateVlanRequest) (vlans : List Vlan) (w : W)
      → ((req.project_id == "") ≡ false)
      → ((req.subnet == "") ≡ false)
      → ((req.site == "") ≡ false)
      → (Client.list_vlans sdk req.project_id w).0 ≡ ok vlans
      → is_described req.subnet vlans ≡ true
      → (found : Vlan) × IsFirst req.subnet found vlans
        × (Client.create_vlan sdk req w ≡ (ok found, (Client.list_vlans sdk req.project_id w).1))
  unfolding Client.create_vlan
  create_vlan_reuses req vlans w p q r listed h =
      let (found, answer, first) = find_by_subnet-IsFirst req.subnet vlans h in
      (found, first, ground arith)

  -- The VID that a request asks for has no influence on what is made.
  create_vlan_ignores_vid :
      (req : CreateVlanRequest) (vid : Option ℤ) (w : W)
      → Client.create_vlan sdk (record req { vid = vid }) w ≡ Client.create_vlan sdk req w
  unfolding Client.create_vlan Client.created_vlan
  create_vlan_ignores_vid req vid w = ground arith
