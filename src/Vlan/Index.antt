-- ===== src/Vlan/Index.antt =====
-- The index that `getMachineIndex` gives to a machine's name.
use text.Mathlib.TextLemmas.{cons-append, nil-append}
use cluster_api_provider_lat.Base.{
  ℕ, ◌+◌, ◌*◌, ◌%◌, ◌^◌, ◌<◌, Char, code, String, ◌<>◌, ◌≡◌, arith, ap, sym, ◌∙◌,
}
use cluster_api_provider_lat.Vlan.{hash_onto, get_machine_index}

-- The index of every name is below 241, also where the hash has wrapped to a negative number.
pub get_machine_index_bound : (name : String) → get_machine_index name < 241
unfolding get_machine_index
get_machine_index_bound name = ground arith

hash_onto-append : (p s : String) (h : ℕ) → hash_onto (p <> s) h ≡ hash_onto s (hash_onto p h)
unfolding hash_onto
hash_onto-append String.[] s h = rw nil-append
hash_onto-append (String.◌∷◌ c p) s h = rw cons-append (hash_onto-append p s _)

-- Two names that differ in two neighbouring characters alone have one index whenever 31 times the
-- first of the two characters plus the second is the same number in both names.
pub get_machine_index_collision :
    (p s : String) (c d c' d' : Char)
    → code c * 31 + code d ≡ code c' * 31 + code d'
    → get_machine_index (p <> String.◌∷◌ c (String.◌∷◌ d s))
      ≡ get_machine_index (p <> String.◌∷◌ c' (String.◌∷◌ d' s))
unfolding get_machine_index
get_machine_index_collision p s c d c' d' e = rw same
  where
    h : ℕ
    h = hash_onto p 0

    two_steps :
        ((h * 31 + code c) % 2 ^ 64 * 31 + code d) % 2 ^ 64
        ≡ ((h * 31 + code c') % 2 ^ 64 * 31 + code d') % 2 ^ 64
    two_steps = omega arith

    same :
        hash_onto (p <> String.◌∷◌ c (String.◌∷◌ d s)) 0
        ≡ hash_onto (p <> String.◌∷◌ c' (String.◌∷◌ d' s)) 0
    same =
        hash_onto-append p (String.◌∷◌ c (String.◌∷◌ d s)) 0
        ∙ ap (hash_onto s) two_steps
        ∙ sym (hash_onto-append p (String.◌∷◌ c' (String.◌∷◌ d' s)) 0)
