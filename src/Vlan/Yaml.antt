-- ===== src/Vlan/Yaml.antt =====
-- The shell command inside a single-quoted scalar of YAML.
use text.Mathlib.TextLemmas.{cons-append, nil-append, append_assoc}
use text.Mathlib.TextEquality.{Char-path}
use cluster_api_provider_lat.Base.{
  Char, code, String, ◌<>◌, ◌≡◌, Option, none, some, Bool, true, false,
}
use cluster_api_provider_lat.Base.{
  ◌==◌, nat_eq, if◌then◌else◌, Bool-cases, refl, inl, inr, ap, sym, ◌∙◌, ==_iff,
}
use cluster_api_provider_lat.Vlan.{escape_for_yaml}

abbrev is_quote : Char → Bool
is_quote c = code c == b'\''

abbrev put_first : Char → Option (String × String) → Option (String × String)
put_first c none = none
put_first c (some (text, rest)) = some (String.◌∷◌ c text, rest)

-- A reader of YAML's single-quoted scalars, from behind the opening quote, or from behind a quote
-- in the text: two quotes stand for one, and a quote with no other behind it ends the scalar. It
-- gives the value and what follows.
unfoldable pub read_quoted : Bool → String → Option (String × String)
read_quoted true String.[] = some ("", "")
read_quoted false String.[] = none
read_quoted true (String.◌∷◌ c s) =
    let doubled = put_first c (read_quoted false s) in
    if is_quote c then doubled else some ("", String.◌∷◌ c s)
read_quoted false (String.◌∷◌ c s) =
    let ended = read_quoted true s in
    let more = put_first c (read_quoted false s) in if is_quote c then ended else more

abbrev pub begins_with_quote : String → Bool
begins_with_quote String.[] = false
begins_with_quote (String.◌∷◌ c s) = is_quote c

read_quoted-end :
    (rest : String) → begins_with_quote rest ≡ false → read_quoted true rest ≡ some ("", rest)
unfolding read_quoted
read_quoted-end String.[] h = refl
read_quoted-end (String.◌∷◌ c s) h = rw h

abbrev quote : Char
quote = "'"

is_quote-path : (c : Char) → is_quote c ≡ true → c ≡ quote
is_quote-path c h = Char-path c quote ((==_iff (code c) b'\'').0 h)

one_append : (c : Char) (y : String) → String.◌∷◌ c "" <> y ≡ String.◌∷◌ c y
one_append c y = cons-append c "" y ∙ ap (λ z. String.◌∷◌ c z) (nil-append y)

two_append : (y : String) → "''" <> y ≡ String.◌∷◌ quote (String.◌∷◌ quote y)
two_append y = cons-append quote "'" y ∙ ap (λ z. String.◌∷◌ quote z) (one_append quote y)

-- One character of the text, as the reader meets it.
read_one :
    (c : Char) (s t : String) {text rest : String}
    → read_quoted false (escape_for_yaml s <> t) ≡ some (text, rest)
    → read_quoted false (escape_for_yaml (String.◌∷◌ c s) <> t) ≡ some (String.◌∷◌ c text, rest)
unfolding read_quoted escape_for_yaml
read_one c s t {text} {rest} ih = elim (Bool-cases (is_quote c)) [
  | inl q ↦ rw q (
      rw append_assoc (
        rw two_append (rw ih (ap (λ d. some (String.◌∷◌ d text, rest)) (sym (is_quote-path c q))))))
  | inr n ↦ rw n (rw append_assoc (rw one_append (rw n (rw ih))))
]

-- The escaped text between single quotes is read back as the text, and the reader stops at the
-- closing quote, whatever the text holds, if what follows the closing quote is not a quote.
pub read_quoted-escape_for_yaml :
    (s rest : String)
    → begins_with_quote rest ≡ false
    → read_quoted false (escape_for_yaml s <> ("'" <> rest)) ≡ some (s, rest)
read_quoted-escape_for_yaml String.[] rest h =
    unfold escape_for_yaml read_quoted in rw nil-append (rw one_append (read_quoted-end rest h))
read_quoted-escape_for_yaml (String.◌∷◌ c s) rest h =
    read_one c s ("'" <> rest) (read_quoted-escape_for_yaml s rest h)
