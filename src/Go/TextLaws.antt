-- ===== src/Go/TextLaws.antt =====
-- Laws of the text functions that the theorems about the code use.
use Prim.Native.Char.{len_utf8}
use Prim.Native.String.append
use Prim.Native.String.find
use Prim.Native.String.len
use Prim.Native.String.{len, slice, find}
use text.Mathlib.TextFind.{begins_cases, find_cases}
use text.Mathlib.TextPositions.{len-append, slice-append_left, slice-append_right}
use cluster_api_provider_lat.Base.{ℕ, ◌+◌, ◌≤◌, Char, String, ◌<>◌, ◌≡◌, ◌∙◌}
use cluster_api_provider_lat.Base.{inl, inr, true, some, arith}
use cluster_api_provider_lat.Go.Strings.{index, contains_text}

pub find-le_of_contains_text : (s t : String) → contains_text s t ≡ true → find s t ≤ len s
unfolding index
find-le_of_contains_text s t h = ground arith

pub contains_text_of_le : (s t : String) → find s t ≤ len s → contains_text s t ≡ true
unfolding index
contains_text_of_le s t h = ground arith

find-cons-le :
    (c : Char) (s t : String) → find s t ≤ len s → find (String.◌∷◌ c s) t ≤ len (String.◌∷◌ c s)
find-cons-le c s t h = elim (begins_cases (String.◌∷◌ c s) t 0 (len_utf8 c + find s t)) [
  | inl hit ↦ omega (arith, find.cons c s t, hit.0)
  | inr miss ↦ omega (arith, find.cons c s t, miss, len.cons c s)
]

find-append-le : (p s t : String) → find s t ≤ len s → find (p <> s) t ≤ len (p <> s)
find-append-le String.[] s t h = rw append.nil h
find-append-le (String.◌∷◌ c p) s t h =
    rw append.cons (find-cons-le c (p <> s) t (find-append-le p s t h))

-- What a text contains, it contains behind any prefix.
pub contains_text-append :
    (p s t : String) → contains_text s t ≡ true → contains_text (p <> s) t ≡ true
contains_text-append p s t h =
    contains_text_of_le (p <> s) t (find-append-le p s t (find-le_of_contains_text s t h))

index-eq-find : (s t : String) {i : ℕ} → index s t ≡ some i → (find s t ≤ len s) × (i ≡ find s t)
unfolding index
index-eq-find s t h = ground arith

-- A hit of `index` splits the text there.
pub index_split :
    (s t : String) {i : ℕ}
    → index s t ≡ some i
    → (u : String) × (v : String) × (s ≡ u <> (t <> v)) × (i ≡ len u)
index_split s t h = elim (find_cases s t) [
  | inl hit ↦ (hit.0, hit.1, hit.2, (index-eq-find s t h).1 ∙ hit.3)
  | inr miss ↦ absurd (omega (arith, (index-eq-find s t h).0, miss))
]

-- The two slices at the end of a prefix.
pub slice_left : (s u v : String) → s ≡ u <> v → slice s 0 (len u) ≡ u
slice_left s u v e = rw e (slice-append_left u v)

pub slice_right : (s u v : String) → s ≡ u <> v → slice s (len u) (len s) ≡ v
slice_right s u v e = rw e (rw len-append (slice-append_right u v))
