-- ===== src/Go/TrimLaws.antt =====
-- What `trim_space` and `split` of Strings do to texts.
use text.Mathlib.TextEquality.{eq_iff}
use text.Mathlib.TextLemmas.{cons-append, nil-append}
use cluster_api_provider_lat.Base.{
  ◌<>◌, ℕ, nat_eq, String, Char, code, Bool, true, false, List, [], ◌∷◌, ◌≡◌, inl, inr, refl, arith,
  ◌==◌, string_eq, Bool-cases, if◌then◌else◌, ap, sym, ◌∙◌,
}
use cluster_api_provider_lat.Go.Strings.{
  is_space, trim_left, trim_right, trim_space, keep_unless_blank, onto_first, split,
}

-- The text does not begin with white space.
abbrev pub begins_well : String → Bool
begins_well String.[] = true
begins_well (String.◌∷◌ c s) = if is_space (code c) then false else true

pub trim_left-begins_well : (s : String) → begins_well (trim_left s) ≡ true
unfolding trim_left
trim_left-begins_well String.[] = refl
trim_left-begins_well (String.◌∷◌ c s) = elim (Bool-cases (is_space (code c))) [
  | inl space ↦ rw space (trim_left-begins_well s)
  | inr other ↦ rw other (rw other refl)
]

pub trim_left_well : (s : String) → begins_well s ≡ true → trim_left s ≡ s
unfolding trim_left
trim_left_well String.[] h = refl
trim_left_well (String.◌∷◌ c s) h = elim (Bool-cases (is_space (code c))) [
  | inl space ↦ ground arith
  | inr other ↦ rw other refl
]

pub keep_twice :
    (c : Char) (t : String)
    → trim_right t ≡ t
    → trim_right (keep_unless_blank c t) ≡ keep_unless_blank c t
unfolding trim_right
keep_twice c String.[] h = elim (Bool-cases (is_space (code c))) [
  | inl space ↦ rw space refl
  | inr other ↦ rw other (rw other refl)
]
keep_twice c (String.◌∷◌ d t) h = rw h refl

pub trim_right_twice : (s : String) → trim_right (trim_right s) ≡ trim_right s
unfolding trim_right
trim_right_twice String.[] = refl
trim_right_twice (String.◌∷◌ c s) = keep_twice c (trim_right s) (trim_right_twice s)

pub keep-begins_well :
    (c : Char) (t : String) → is_space (code c) ≡ false → begins_well (keep_unless_blank c t) ≡ true
keep-begins_well c String.[] h = rw h (rw h refl)
keep-begins_well c (String.◌∷◌ d t) h = rw h refl

pub trim_right-begins_well : (s : String) → begins_well s ≡ true → begins_well (trim_right s) ≡ true
unfolding trim_right
trim_right-begins_well String.[] h = refl
trim_right-begins_well (String.◌∷◌ c s) h = keep-begins_well c (trim_right s) (ground arith)

pub trim_space_twice : (s : String) → trim_space (trim_space s) ≡ trim_space s
unfolding trim_space
trim_space_twice s =
    ap trim_right (
      trim_left_well (trim_right (trim_left s))
        (trim_right-begins_well (trim_left s) (trim_left-begins_well s)))
    ∙ trim_right_twice (trim_left s)

-- No character of the text has this code.
abbrev pub lacks : ℕ → String → Bool
lacks n String.[] = true
lacks n (String.◌∷◌ c s) = if code c == n then false else lacks n s

pub trim_left-lacks : (n : ℕ) (s : String) → lacks n s ≡ true → lacks n (trim_left s) ≡ true
unfolding trim_left
trim_left-lacks n String.[] h = refl
trim_left-lacks n (String.◌∷◌ c s) h = ground (arith, trim_left-lacks n s)

pub keep-lacks :
    (n : ℕ) (c : Char) (t : String)
    → (code c == n) ≡ false
    → lacks n t ≡ true
    → lacks n (keep_unless_blank c t) ≡ true
keep-lacks n c String.[] h k = elim (Bool-cases (is_space (code c))) [
  | inl space ↦ rw space refl
  | inr other ↦ rw other (rw h refl)
]
keep-lacks n c (String.◌∷◌ d t) h k = ground arith

pub trim_right-lacks : (n : ℕ) (s : String) → lacks n s ≡ true → lacks n (trim_right s) ≡ true
unfolding trim_right
trim_right-lacks n String.[] h = refl
trim_right-lacks n (String.◌∷◌ c s) h =
    keep-lacks n c (trim_right s) (ground arith) (trim_right-lacks n s (ground arith))

pub trim_space-lacks : (n : ℕ) (s : String) → lacks n s ≡ true → lacks n (trim_space s) ≡ true
unfolding trim_space
trim_space-lacks n s h = trim_right-lacks n (trim_left s) (trim_left-lacks n s h)

abbrev pub all_lack : ℕ → List String → Bool
all_lack n [] = true
all_lack n (s ∷ rest) = if lacks n s then all_lack n rest else false

pub onto_first-all_lack :
    (n : ℕ) (c : Char) (parts : List String)
    → (code c == n) ≡ false
    → all_lack n parts ≡ true
    → all_lack n (onto_first c parts) ≡ true
onto_first-all_lack n c [] h k = ground arith
onto_first-all_lack n c (s ∷ rest) h k = ground arith

pub split-all_lack : (s : String) (n : ℕ) → all_lack n (split s n) ≡ true
unfolding split
split-all_lack String.[] n = refl
split-all_lack (String.◌∷◌ c s) n = elim (Bool-cases (code c == n)) [
  | inl same ↦ rw same (split-all_lack s n)
  | inr other ↦ rw other (onto_first-all_lack n c (split s n) other (split-all_lack s n))
]

-- There is a character.
abbrev pub filled : String → Bool
filled String.[] = false
filled (String.◌∷◌ c s) = true

pub filled-append : (p t : String) → filled t ≡ true → filled (p <> t) ≡ true
filled-append String.[] t h = rw nil-append h
filled-append (String.◌∷◌ c p) t h = rw cons-append refl

pub keep_filled : (c : Char) (t : String) → filled t ≡ true → keep_unless_blank c t ≡ String.◌∷◌ c t
keep_filled c String.[] h = ground arith
keep_filled c (String.◌∷◌ d t) h = refl

-- A text that ends well is not cut by what stands before it.
pub trim_right-append :
    (p t : String) → trim_right t ≡ t → filled t ≡ true → trim_right (p <> t) ≡ p <> t
unfolding trim_right
trim_right-append String.[] t h f = rw nil-append h
trim_right-append (String.◌∷◌ c p) t h f = rw cons-append (
    ap (keep_unless_blank c) (trim_right-append p t h f)
    ∙ keep_filled c (p <> t) (filled-append p t f))

pub begins_well-append :
    (p t : String) → begins_well p ≡ true → filled p ≡ true → begins_well (p <> t) ≡ true
begins_well-append String.[] t h f = ground arith
begins_well-append (String.◌∷◌ c p) t h f = rw cons-append h

pub split-append :
    (k t : String) (n : ℕ) (c : Char)
    → code c ≡ n
    → lacks n k ≡ true
    → split (k <> String.◌∷◌ c t) n ≡ k ∷ split t n
unfolding split
split-append String.[] t n c same h = rw nil-append (ground arith)
split-append (String.◌∷◌ d k) t n c same h =
    rw cons-append (ground (arith, split-append k t n c same))

pub split_alone : (k : String) (n : ℕ) → lacks n k ≡ true → split k n ≡ k ∷ []
unfolding split
split_alone String.[] n h = refl
split_alone (String.◌∷◌ d k) n h = ground (arith, split_alone k n)

pub filled_lem : (k : String) → (k == "") ≡ false → filled k ≡ true
filled_lem String.[] h = ground arith
filled_lem (String.◌∷◌ c k) h = refl

pub not_empty : (k : String) → filled k ≡ true → (k == "") ≡ false
not_empty k h = elim (Bool-cases (k == "")) [
  | inl same ↦ let unfilled : filled k ≡ false = ap filled ((eq_iff k "").0 same) in ground arith
  | inr other ↦ other
]

-- What is true of the keys' text, and of a key: nothing is trimmed, and there is something.
abbrev pub IsWell : String → Type 0
IsWell s = (begins_well s ≡ true) × (trim_right s ≡ s) × (filled s ≡ true)

pub trim_space-IsWell : (s : String) → IsWell s → trim_space s ≡ s
unfolding trim_space
trim_space-IsWell s (begins, ends, some_text) = ap trim_right (trim_left_well s begins) ∙ ends

pub key-IsWell : (k : String) → trim_space k ≡ k → (k == "") ≡ false → IsWell k
unfolding trim_space
key-IsWell k h f =
    let begins : begins_well k ≡ true =
      ap begins_well (sym h) ∙ trim_right-begins_well (trim_left k) (trim_left-begins_well k) in
    (begins, ap trim_right (sym (trim_left_well k begins)) ∙ h, filled_lem k f)
