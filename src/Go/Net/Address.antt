-- ===== src/Go/Net/Address.antt =====
-- `netip.ParseAddr`, less addresses with a zone, which `net.ParseCIDR` refuses.
use cluster_api_provider_lat.Base.{ℕ, zero, suc, ◌+◌, ◌-◌, ◌*◌, ◌/◌, ◌%◌, code, String}
use cluster_api_provider_lat.Base.{
  Bool, true, false, not, ◌&&◌, ◌||◌, Option, none, some, List, [], ◌∷◌,
}
use cluster_api_provider_lat.Base.{◌++◌, ◌==◌, nat_eq, string_eq, ltb, leb, if◌then◌else◌}
use cluster_api_provider_lat.Go.Strings.{split}

abbrev is_digit : ℕ → Bool
is_digit c = leb b'0' c && leb c b'9'

-- The digits of one field of an IPv4 address, from the value of those before; at most 255.
octet_onto : String → ℕ → Option ℕ
octet_onto String.[] n = some n
octet_onto (String.◌∷◌ c s) n =
    let m = n * 10 + (code c - b'0') in
    let rest = octet_onto s m in if is_digit (code c) && leb m 255 then rest else none

-- A field: at least one digit, and no leading zero.
unfoldable pub octet : String → Option ℕ
unfolding octet_onto
octet String.[] = none
octet (String.◌∷◌ c String.[]) = octet_onto (String.◌∷◌ c "") 0
octet (String.◌∷◌ c (String.◌∷◌ d s)) =
    if code c == b'0' then none else octet_onto (String.◌∷◌ c (String.◌∷◌ d s)) 0

abbrev all_some : List (Option ℕ) → Option (List ℕ)
all_some [] = some []
all_some (none ∷ os) = none
all_some (some n ∷ os) = elim (all_some os) [ none ↦ none | some ns ↦ some (n ∷ ns) ]

abbrev octets : List String → Option (List ℕ)
octets (a ∷ b ∷ c ∷ d ∷ []) = all_some (octet a ∷ octet b ∷ octet c ∷ octet d ∷ [])
octets _ = none

unfoldable pub parse_ipv4 : String → Option (List ℕ)
unfolding octet split
parse_ipv4 s = octets (split s b'.')

abbrev hex_digit : ℕ → Option ℕ
hex_digit c =
    if is_digit c
    then some (c - b'0')
    else if leb b'a' c && leb c b'f'
    then some (c - b'a' + 10)
    else if leb b'A' c && leb c b'F'
    then some (c - b'A' + 10)
    else none

-- The hex digits at the head: how many, their value, and the rest. More than four fail.
hex_run : String → ℕ → ℕ → Option (ℕ × ℕ × String)
hex_run String.[] count value = some (count, value, "")
hex_run (String.◌∷◌ c s) count value = elim (hex_digit (code c)) [
  | none ↦ some (count, value, String.◌∷◌ c s)
  | some d ↦ let rest = hex_run s (count + 1) (value * 16 + d) in if leb 4 count then none else rest
]

-- The bytes so far, and where `::` stood among them.
abbrev Fields : Type 0
Fields = List ℕ × Option ℕ

abbrev count_of : List ℕ → ℕ
count_of [] = 0
count_of (b ∷ bs) = suc (count_of bs)

abbrev is_none : Option ℕ → Bool
is_none none = true
is_none (some n) = false

-- An IPv4 address in the place of the last two groups.
abbrev embedded : String → Fields → Option Fields
embedded s (bs, ellipsis) =
    if (is_none ellipsis && not (count_of bs == 12)) || ltb 12 (count_of bs)
    then none
    else elim (parse_ipv4 s) [ none ↦ none | some v ↦ some (bs ++ v, ellipsis) ]

-- What follows a group: the end, or a colon and more, where a second colon is the ellipsis. The
-- result is the text that the next round reads, empty at the end.
abbrev after_group : String → Fields → Option (String × Fields)
after_group String.[] fields = some ("", fields)
after_group (String.◌∷◌ c String.[]) fields = none
after_group (String.◌∷◌ c (String.◌∷◌ d s)) (bs, ellipsis) =
    if not (code c == b':')
    then none
    else if not (code d == b':')
    then some (String.◌∷◌ d s, (bs, ellipsis))
    else if is_none ellipsis
    then some (s, (bs, some (count_of bs)))
    else none

abbrev starts_with_dot : String → Bool
starts_with_dot String.[] = false
starts_with_dot (String.◌∷◌ c s) = code c == b'.'

-- One round reads a group at the head of the text, which is not empty.
abbrev read_group : String → Fields → Option (String × Fields)
read_group s (bs, ellipsis) = elim (hex_run s 0 0) [
  | none ↦ none
  | some (count, value, rest) ↦
      if count == 0
      then none
      else if starts_with_dot rest
      then elim (embedded s (bs, ellipsis)) [ none ↦ none | some fields ↦ some ("", fields) ]
      else after_group rest (bs ++ ((value / 256) ∷ (value % 256) ∷ []), ellipsis)
]

-- At most eight groups; text that is left then is refused.
read_groups : ℕ → String → Fields → Option Fields
read_groups zero s fields = if s == "" then some fields else none
read_groups (suc rounds) s fields = elim (read_group s fields) [
  | none ↦ none
  | some (rest, more) ↦
      let result = read_groups rounds rest more in if rest == "" then some more else result
]

abbrev zeros : ℕ → List ℕ
zeros zero = []
zeros (suc n) = 0 ∷ zeros n

abbrev insert_zeros : ℕ → ℕ → List ℕ → List ℕ
insert_zeros n zero bs = zeros n ++ bs
insert_zeros n (suc at) [] = zeros n
insert_zeros n (suc at) (b ∷ bs) = b ∷ insert_zeros n at bs

-- An ellipsis stands for at least one group of zeros.
abbrev expand : Fields → Option (List ℕ)
expand (bs, none) = if count_of bs == 16 then some bs else none
expand (bs, some at) =
    if ltb (count_of bs) 16 then some (insert_zeros (16 - count_of bs) at bs) else none

abbrev expanded : Option Fields → Option (List ℕ)
expanded none = none
expanded (some fields) = expand fields

parse_ipv6 : String → Option (List ℕ)
unfolding read_groups hex_run parse_ipv4
parse_ipv6 (String.◌∷◌ c (String.◌∷◌ d s)) =
    if code c == b':' && code d == b':'
    then (if s == "" then some (zeros 16) else expanded (read_groups 8 s ([], some 0)))
    else expanded (read_groups 8 (String.◌∷◌ c (String.◌∷◌ d s)) ([], none))
parse_ipv6 s = expanded (read_groups 8 s ([], none))

-- The first dot, colon or percent sign decides. A percent sign begins a zone.
pub data Family : Type 0 where
  ipv4 ipv6 unknown : Family

family : String → Family
family String.[] = unknown
family (String.◌∷◌ c s) =
    let rest = family s in
    if code c == b'.'
    then ipv4
    else if code c == b':'
    then ipv6
    else if code c == b'%'
    then unknown
    else rest

unfoldable pub parse_addr : String → Option (List ℕ)
unfolding family parse_ipv4 parse_ipv6
parse_addr s = elim (family s) [ ipv4 ↦ parse_ipv4 s | ipv6 ↦ parse_ipv6 s | unknown ↦ none ]
