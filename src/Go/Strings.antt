-- ===== src/Go/Strings.antt =====
-- `strings` and the verbs `%s`, `%d` and `%v` of `fmt`.
use Prim.Native.String.{slice}
use text.Mathlib.Text.{find?}
use cluster_api_provider_lat.Base.{ℕ, zero, suc, ◌+◌, ◌-◌, ◌/◌, ◌%◌, Char, code, String, ◌<>◌}
use cluster_api_provider_lat.Base.{Bool, true, false, ◌&&◌, ◌||◌, Option, none, some, List, [], ◌∷◌}
use cluster_api_provider_lat.Base.{◌==◌, nat_eq, string_eq, ltb, leb, if◌then◌else◌}
use cluster_api_provider_lat.Base.Int.{ℤ, pos, negsuc}

-- `strings.Index`: the byte position of the first occurrence; `none` is Go's -1.
unfoldable pub index : String → String → Option ℕ
index s t = find? s t

-- `strings.Contains`
abbrev pub contains_text : String → String → Bool
contains_text s t = elim (index s t) [ none ↦ false | some _ ↦ true ]

-- `strings.Join`
unfoldable pub join : List String → String → String
join [] sep = ""
join (s ∷ []) sep = s
join (s ∷ t ∷ rest) sep = s <> (sep <> join (t ∷ rest) sep)

-- The verb `%v` at a list of texts.
unfoldable pub show_list : List String → String
unfolding join
show_list xs = "[" <> (join xs " " <> "]")

-- Unicode's White_Space, as `unicode.IsSpace`.
unfoldable pub is_space : ℕ → Bool
is_space c =
    (leb 9 c && leb c 13)
    || c == 32
    || c == 0x85
    || c == 0xa0
    || c == 0x1680
    || (leb 0x2000 c && leb c 0x200a)
    || c == 0x2028
    || c == 0x2029
    || c == 0x202f
    || c == 0x205f
    || c == 0x3000

unfoldable pub trim_left : String → String
unfolding is_space
trim_left String.[] = ""
trim_left (String.◌∷◌ c s) =
    let rest = trim_left s in if is_space (code c) then rest else String.◌∷◌ c s

abbrev pub keep_unless_blank : Char → String → String
keep_unless_blank c String.[] = if is_space (code c) then "" else String.◌∷◌ c ""
keep_unless_blank c (String.◌∷◌ d s) = String.◌∷◌ c (String.◌∷◌ d s)

unfoldable pub trim_right : String → String
unfolding is_space
trim_right String.[] = ""
trim_right (String.◌∷◌ c s) = keep_unless_blank c (trim_right s)

-- `strings.TrimSpace`
unfoldable pub trim_space : String → String
unfolding trim_left trim_right
trim_space s = trim_right (trim_left s)

abbrev pub onto_first : Char → List String → List String
onto_first c [] = String.◌∷◌ c "" ∷ []
onto_first c (s ∷ rest) = String.◌∷◌ c s ∷ rest

-- `strings.Split` at a separator of one character, given by its code point.
unfoldable pub split : String → ℕ → List String
split String.[] sep = "" ∷ []
split (String.◌∷◌ c s) sep =
    let rest = split s sep in if code c == sep then "" ∷ rest else onto_first c rest

-- `strings.ReplaceAll` of one character, given by its code point, by a text.
unfoldable pub replace_all : String → ℕ → String → String
replace_all String.[] old new = ""
replace_all (String.◌∷◌ c s) old new =
    (if code c == old then new else String.◌∷◌ c "") <> replace_all s old new

-- One representative for each class of simple case folding that has an ASCII letter; the Kelvin
-- sign folds with `k` and the long s with `s`. Other characters stand for themselves.
unfoldable pub fold_case : ℕ → ℕ
fold_case c =
    if leb b'A' c && leb c b'Z'
    then c + 32
    else if c == 0x212a
    then b'k'
    else if c == 0x17f
    then b's'
    else c

-- `strings.ToLower`, on the ASCII letters; other characters stay as they are.
unfoldable pub to_lower : String → String
to_lower String.[] = ""
to_lower (String.◌∷◌ c s) =
    (if leb b'A' (code c) && leb (code c) b'Z'
      then slice "abcdefghijklmnopqrstuvwxyz" (code c - b'A') (code c - b'A' + 1)
      else String.◌∷◌ c "")
    <> to_lower s

-- `strings.EqualFold`
unfoldable pub equal_fold : String → String → Bool
unfolding fold_case
equal_fold String.[] String.[] = true
equal_fold String.[] (String.◌∷◌ d t) = false
equal_fold (String.◌∷◌ c s) String.[] = false
equal_fold (String.◌∷◌ c s) (String.◌∷◌ d t) =
    fold_case (code c) == fold_case (code d) && equal_fold s t

unfoldable pub digit : ℕ → String
digit d = slice "0123456789" d (d + 1)

decimal_onto : ℕ → ℕ → String → String
unfolding digit
decimal_onto zero n acc = acc
decimal_onto (suc fuel) n acc =
    let rest = decimal_onto fuel (n / 10) (digit (n % 10) <> acc) in
    if ltb n 10 then digit n <> acc else rest

-- The verb `%d` at a number that is not negative; a number has fewer digits than its successor.
unfoldable pub decimal : ℕ → String
unfolding decimal_onto
decimal n = decimal_onto (suc n) n ""

-- The verb `%d`.
unfoldable pub show_int : ℤ → String
unfolding decimal
show_int (pos n) = decimal n
show_int (negsuc n) = "-" <> decimal (n + 1)
