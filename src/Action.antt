-- ===== src/Action.antt =====
-- How a Go function runs: on a state that it changes, to a value, to an error, or to a panic. What
-- was written before an error or a panic stays written.
use cluster_api_provider_lat.Base.{
  String, Bool, true, false, Option, none, some, if◌then◌else◌, ◌≡◌, refl, ◌⊎◌, inl, inr,
}
use cluster_api_provider_lat.Go.Errors.{Error, wrapped}

pub data Outcome (A : Type 0) : Type 0 where
  ok : A → Outcome A
  err : Error → Outcome A
  panic : Outcome A

-- An error as a value, `x, err := f()`.
pub data Result (A : Type 0) : Type 0 where
  value : A → Result A
  error : Error → Result A

abbrev pub Action : Type 0 → Type 0 → Type 0
Action S A = S → Outcome A × S

module _ {S A : Type 0} where
  abbrev pub pure : A → Action S A
  pure a s = (ok a, s)

  -- `return ..., err`
  abbrev pub fail : Error → Action S A
  fail e s = (err e, s)

  -- `*p`, or a field of `p`: a panic at nil.
  abbrev pub deref : Option A → Action S A
  deref none s = (panic, s)
  deref (some a) s = (ok a, s)

  -- The error is kept for the code to look at; a panic goes on.
  abbrev pub attempt : Action S A → Action S (Result A)
  attempt m s =
      let (r, s') = m s in
      elim r [ ok a ↦ (ok (value a), s') | err e ↦ (ok (error e), s') | panic ↦ (panic, s') ]

  -- `if err != nil { return fmt.Errorf("<prefix>: %w", err) }`
  abbrev pub wrapping : String → Action S A → Action S A
  wrapping prefix m s =
      let (r, s') = m s in
      elim r [ ok a ↦ (ok a, s') | err e ↦ (err (wrapped prefix e), s') | panic ↦ (panic, s') ]

  abbrev pub gets : (S → A) → Action S A
  gets f s = (ok (f s), s)

infixl 5 ◌>>=◌ ◌>>◌
abbrev pub ◌>>=◌ : {S A B : Type 0} → Action S A → (A → Action S B) → Action S B
◌>>=◌ m f s =
    let (r, s') = m s in elim r [ ok a ↦ f a s' | err e ↦ (err e, s') | panic ↦ (panic, s') ]

abbrev pub ◌>>◌ : {S A B : Type 0} → Action S A → Action S B → Action S B
m >> k = m >>= λ _. k

module _ {S : Type 0} where
  abbrev pub modify : (S → S) → Action S (Unit {0})
  modify f s = (ok tt, f s)

  -- `if test { return ..., err }`
  abbrev pub fail_if : Bool → Error → Action S (Unit {0})
  fail_if test e s = (if test then err e else ok tt, s)

-- `if test { ... } else { ... }` between actions.
infix 1 when◌then◌else◌
abbrev pub when◌then◌else◌ : {S A : Type 0} → Bool → Action S A → Action S A → Action S A
when◌then◌else◌ true m k s = m s
when◌then◌else◌ false m k s = k s

-- A call either answers with an error or it does not.
abbrev pub is_err : {A : Type 0} → Outcome A → Bool
is_err (err e) = true
is_err (ok a) = false
is_err panic = false

pub Outcome-cases : {A : Type 0} (r : Outcome A) → ((e : Error) × (r ≡ err e)) ⊎ (is_err r ≡ false)
Outcome-cases (err e) = inl (e, refl)
Outcome-cases (ok a) = inr refl
Outcome-cases panic = inr refl

abbrev pub is_ok : {A : Type 0} → Outcome A → Bool
is_ok (err e) = false
is_ok (ok a) = true
is_ok panic = false

pub Outcome-ok_cases : {A : Type 0} (r : Outcome A) → ((a : A) × (r ≡ ok a)) ⊎ (is_ok r ≡ false)
Outcome-ok_cases (err e) = inr refl
Outcome-ok_cases (ok a) = inl (a, refl)
Outcome-ok_cases panic = inr refl
