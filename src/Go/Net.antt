-- ===== src/Go/Net.antt =====
-- `net.ParseCIDR`, `net.IP.To4` and `net.IP.String` at four bytes. An address is its list of bytes.
mod Address
unfoldable pub use Address.{parse_addr, octet, parse_ipv4}
use cluster_api_provider_lat.Base.{ℕ, zero, suc, ◌+◌, ◌-◌, ◌*◌, ◌%◌, ◌^◌, code, String, ◌<>◌}
use cluster_api_provider_lat.Base.{Bool, true, false, ◌&&◌, Option, none, some, List, [], ◌∷◌}
use cluster_api_provider_lat.Base.{◌==◌, nat_eq, leb, if◌then◌else◌}
use cluster_api_provider_lat.Go.Strings.{decimal}

-- `*net.IPNet`: the masked address, and the length that `Mask.Size` gives.
pub record IpNet : Type 0 where
  pub ip : List ℕ
  pub ones : ℕ

-- The text before and after the first slash.
unfoldable pub cut_slash : String → Option (String × String)
cut_slash String.[] = none
cut_slash (String.◌∷◌ c s) =
    let rest = cut_slash s in
    if code c == b'/'
    then some ("", s)
    else elim rest [ none ↦ none | some (a, b) ↦ some (String.◌∷◌ c a, b) ]

-- Decimal digits to the end of the text.
unfoldable pub digits_onto : String → ℕ → Option ℕ
digits_onto String.[] n = some n
digits_onto (String.◌∷◌ c s) n =
    let rest = digits_onto s (n * 10 + (code c - b'0')) in
    if leb b'0' (code c) && leb (code c) b'9' then rest else none

unfoldable pub parse_ones : String → Option ℕ
unfolding digits_onto
parse_ones String.[] = none
parse_ones (String.◌∷◌ c s) = digits_onto (String.◌∷◌ c s) 0

-- A byte under a mask byte with `k` leading ones, `k` at most 8.
unfoldable pub mask_byte : ℕ → ℕ → ℕ
mask_byte b k = b - b % 2 ^ (8 - k)

-- `ip.Mask(net.CIDRMask(ones, 8 * len(ip)))`
unfoldable pub apply_mask : List ℕ → ℕ → List ℕ
unfolding mask_byte
apply_mask [] ones = []
apply_mask (b ∷ bs) ones = (if leb 8 ones then b else mask_byte b ones) ∷ apply_mask bs (ones - 8)

abbrev bit_count : List ℕ → ℕ
bit_count [] = 0
bit_count (b ∷ bs) = 8 + bit_count bs

abbrev pub net_of : List ℕ → ℕ → Option IpNet
net_of addr ones =
    if leb ones (bit_count addr)
    then some (record { ip = apply_mask addr ones; ones = ones })
    else none

-- The second result of `net.ParseCIDR`; `none` is its error.
unfoldable pub parse_cidr : String → Option IpNet
unfolding cut_slash parse_ones parse_addr apply_mask
parse_cidr s = elim (cut_slash s) [
  | none ↦ none
  | some (addr, mask) ↦ elim (parse_addr addr) [
    | none ↦ none
    | some bs ↦ elim (parse_ones mask) [ none ↦ none | some n ↦ net_of bs n ]
  ]
]

-- The text of the error.
abbrev pub parse_cidr_error : String → String
parse_cidr_error s = "invalid CIDR address: " <> s

abbrev pub Ipv4 : Type 0
Ipv4 = ℕ × ℕ × ℕ × ℕ

abbrev mapped_ipv4 : List ℕ → Option Ipv4
mapped_ipv4 (a ∷ b ∷ c ∷ d ∷ e ∷ f ∷ g ∷ h ∷ i ∷ j ∷ k ∷ l ∷ w ∷ x ∷ y ∷ z ∷ []) =
    if a == 0
      && b == 0
      && c == 0
      && d == 0
      && e == 0
      && f == 0
      && g == 0
      && h == 0
      && i == 0
      && j == 0
      && k == 255
      && l == 255
    then some (w, x, y, z)
    else none
mapped_ipv4 _ = none

-- `ip.To4()`: four bytes are themselves, and a mapped IPv4 address loses its prefix.
unfoldable pub to4 : List ℕ → Option Ipv4
to4 (a ∷ b ∷ c ∷ d ∷ []) = some (a, b, c, d)
to4 bs = mapped_ipv4 bs

-- `ip.String()` at four bytes.
unfoldable pub show_ipv4 : Ipv4 → String
unfolding decimal
show_ipv4 (a, b, c, d) =
    decimal a <> ("." <> (decimal b <> ("." <> (decimal c <> ("." <> decimal d)))))
