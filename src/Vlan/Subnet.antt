-- ===== src/Vlan/Subnet.antt =====
-- That a machine's address lies in the subnet.
use native.Mathlib.Nat.{mul-mod_right, mod-add-div}
use cluster_api_provider_lat.Base.{
  ℕ, ◌*◌, ◌-◌, ◌%◌, ◌/◌, ◌^◌, ◌≤◌, ◌<◌, String, ◌≡◌, inl, inr, List, [], ◌∷◌, none, some, arith, ap,
  sym, ◌∙◌, refl,
}
use cluster_api_provider_lat.Base.{leb, if◌then◌else◌, Bool-cases}
use cluster_api_provider_lat.Go.Net.{
  IpNet, parse_cidr, cut_slash, parse_addr, to4, apply_mask, mask_byte, show_ipv4,
}
use cluster_api_provider_lat.Action.{value}
use cluster_api_provider_lat.Vlan.{calculate_vlan_ip_address, get_machine_index}
use cluster_api_provider_lat.Vlan.Address.{machine_address_range}

-- A byte under the part of a mask that begins with this many ones.
abbrev masked : ℕ → ℕ → ℕ
masked b ones = if leb 8 ones then b else mask_byte b ones

multiple : (b p : ℕ) → b - b % p ≡ p * (b / p)
multiple b p = omega (arith, mod-add-div b p)

remainder : (b p : ℕ) → (b - b % p) % p ≡ 0
remainder b p = ap (λ x. x % p) (multiple b p) ∙ mul-mod_right p (b / p)

mask_byte_twice : (b k : ℕ) → mask_byte (mask_byte b k) k ≡ mask_byte b k
unfolding mask_byte
mask_byte_twice b k = rw (remainder b (2 ^ (8 - k))) (omega arith)

masked_twice : (b ones : ℕ) → masked (masked b ones) ones ≡ masked b ones
masked_twice b ones = elim (Bool-cases (leb 8 ones)) [
  | inl all ↦ rw all refl
  | inr part ↦ rw part (mask_byte_twice b ones)
]

no_mask : (b ones : ℕ) → ones ≡ 0 → masked b ones ≡ b - b % 256
unfolding mask_byte
no_mask b ones h = ground arith

-- Four bytes under a mask, the last of them another one that the mask hides.
apply_mask_host :
    (bs : List ℕ) (a b c d host ones : ℕ)
    → apply_mask bs ones ≡ a ∷ b ∷ c ∷ d ∷ []
    → ones ≤ 24
    → d < 256
    → host < 256
    → apply_mask (a ∷ b ∷ c ∷ host ∷ []) ones ≡ a ∷ b ∷ c ∷ d ∷ []
unfolding apply_mask
apply_mask_host (w ∷ x ∷ y ∷ z ∷ []) a b c d host ones h small byte byte' = ground (
  arith,
  masked_twice w ones,
  masked_twice x (ones - 8),
  masked_twice y (ones - 8 - 8),
  no_mask z (ones - 8 - 8 - 8),
  no_mask host (ones - 8 - 8 - 8),
)
apply_mask_host [] a b c d host ones h small byte byte' = ground arith
apply_mask_host (w ∷ []) a b c d host ones h small byte byte' = ground arith
apply_mask_host (w ∷ x ∷ []) a b c d host ones h small byte byte' = ground arith
apply_mask_host (w ∷ x ∷ y ∷ []) a b c d host ones h small byte byte' = ground arith
apply_mask_host (w ∷ x ∷ y ∷ z ∷ v ∷ bs) a b c d host ones h small byte byte' = ground arith

-- The bytes of the address before the slash.
abbrev address_of : String → List ℕ
address_of s = elim (cut_slash s) [
  | none ↦ []
  | some (addr, mask) ↦ elim (parse_addr addr) [ none ↦ [] | some bs ↦ bs ]
]

parse_cidr_masked :
    (s : String) (net : IpNet)
    → parse_cidr s ≡ some net
    → net.ip ≡ apply_mask (address_of s) net.ones
unfolding parse_cidr
parse_cidr_masked s net h = ground arith

-- In an IPv4 subnet with a prefix of at most 24, and whose last byte is a byte, a machine's address
-- is one of the subnet: the subnet's mask leaves of it the subnet's own address.
pub machine_address_in_subnet :
    (subnet name : String) (net : IpNet) (a b c d : ℕ)
    → parse_cidr subnet ≡ some net
    → net.ip ≡ a ∷ b ∷ c ∷ d ∷ []
    → d < 256
    → net.ones ≤ 24
    → (host : ℕ) × (calculate_vlan_ip_address subnet (get_machine_index name)
        ≡ value (show_ipv4 (a, b, c, host)))
      × (apply_mask (a ∷ b ∷ c ∷ host ∷ []) net.ones ≡ net.ip)
unfolding to4
machine_address_in_subnet subnet name net a b c d parsed four byte small =
    let (host, address, at, low, high) = machine_address_range subnet name parsed (ap to4 four) in
    let hidden : apply_mask (a ∷ b ∷ c ∷ host ∷ []) net.ones ≡ a ∷ b ∷ c ∷ d ∷ [] =
      apply_mask_host (address_of subnet) a b c d host net.ones
        (sym (parse_cidr_masked subnet net parsed) ∙ four) small byte (omega arith) in
    (host, address, hidden ∙ sym four)
