-- ===== src/MachineController/SshKeyLaws.antt =====
-- What the keys of a secret look like after they are read.
use text.Mathlib.TextEquality.{eq_iff}
use text.Mathlib.TextLemmas.{cons-append, nil-append}
use cluster_api_provider_lat.Base.{
  ◌<>◌, ℕ, nat_eq, String, Char, Bool, true, false, List, [], ◌∷◌, ◌≡◌, refl, arith, ◌==◌,
  string_eq, if◌then◌else◌, ap, ◌∙◌,
}
use cluster_api_provider_lat.Go.Strings.{trim_space, join, split}
use cluster_api_provider_lat.MachineController.SshKeys.{trimmed_parts, parse_ssh_keys}
use cluster_api_provider_lat.Go.TrimLaws.{
  trim_space-lacks, trim_space_twice, lacks, all_lack, split-all_lack, filled-append,
  trim_right-append, begins_well-append, split-append, split_alone, not_empty, IsWell,
  trim_space-IsWell, key-IsWell,
}

-- Each key has a character, no white space around it, and no character with this code in it.
abbrev pub all_clean : ℕ → List String → Bool
all_clean n [] = true
all_clean n (k ∷ ks) =
    if k == ""
    then false
    else if trim_space k == k
    then (if lacks n k then all_clean n ks else false)
    else false

trimmed_parts-all_clean :
    (n : ℕ) (parts : List String)
    → all_lack n parts ≡ true
    → all_clean n (trimmed_parts parts) ≡ true
unfolding trimmed_parts
trimmed_parts-all_clean n [] h = refl
trimmed_parts-all_clean n (part ∷ parts) h = ground (
  arith,
  trimmed_parts-all_clean n parts,
  trim_space-lacks n part,
  (eq_iff (trim_space (trim_space part)) (trim_space part)).1 (trim_space_twice part),
)

abbrev comma : Char
comma = ","

comma_append : (t : String) → "," <> t ≡ String.◌∷◌ comma t
comma_append t = cons-append comma "" t ∙ ap (λ z. String.◌∷◌ comma z) (nil-append t)

IsWell-append : (k t : String) → IsWell k → IsWell t → IsWell (k <> ("," <> t))
IsWell-append k t (b, e, f) (b', e', f') = (
  begins_well-append k ("," <> t) b f,
  trim_right-append k ("," <> t) (trim_right-append "," t e' f') (filled-append "," t f'),
  filled-append k ("," <> t) (filled-append "," t f'),
)

split-join :
    (k : String) (ks : List String)
    → all_clean b',' (k ∷ ks) ≡ true
    → IsWell (join (k ∷ ks) ",") × (split (join (k ∷ ks) ",") b',' ≡ k ∷ ks)
unfolding join
split-join k [] h =
    (key-IsWell k ((eq_iff _ _).0 (ground arith)) (ground arith), split_alone k b',' (ground arith))
split-join k (k' ∷ ks) h =
    let (well, parts) = split-join k' ks (ground arith) in
    (
      IsWell-append k (join (k' ∷ ks) ",")
          (key-IsWell k ((eq_iff _ _).0 (ground arith)) (ground arith)) well,
      rw (comma_append (join (k' ∷ ks) ",")) (
          split-append k (join (k' ∷ ks) ",") b',' comma refl (ground arith)
          ∙ ap (λ ps. k ∷ ps) parts),
    )

trimmed_parts_clean : (ks : List String) → all_clean b',' ks ≡ true → trimmed_parts ks ≡ ks
unfolding trimmed_parts
trimmed_parts_clean [] h = refl
trimmed_parts_clean (k ∷ ks) h =
    let same : trim_space k ≡ k = (eq_iff _ _).0 (ground arith) in
    ground (arith, trimmed_parts_clean ks, same)

-- Keys that have a character each, no white space around them and no comma in them, joined by
-- commas in a secret, are read back as they are.
pub parse_ssh_keys-join :
    (ks : List String) → all_clean b',' ks ≡ true → parse_ssh_keys (join ks ",") ≡ ks
unfolding parse_ssh_keys
parse_ssh_keys-join [] h = unfold join trim_space in refl
parse_ssh_keys-join (k ∷ ks) h =
    let ((begins, ends, some_text), parts) = split-join k ks h in
    let text = join (k ∷ ks) "," in
    rw (trim_space-IsWell text (begins, ends, some_text), not_empty text some_text, parts)
      (trimmed_parts_clean (k ∷ ks) h)

-- Whatever the secret holds, each key that is read from it has a character, has no white space
-- around it, and has no comma in it.
parse_ssh_keys-all_clean : (text : String) → all_clean b',' (parse_ssh_keys text) ≡ true
unfolding parse_ssh_keys
parse_ssh_keys-all_clean text = ground (
  arith,
  trimmed_parts-all_clean b',' (split (trim_space text) b',')
      (split-all_lack (trim_space text) b','),
)
