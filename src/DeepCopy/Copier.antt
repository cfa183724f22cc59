-- ===== src/DeepCopy/Copier.antt =====
-- What a copying method has to do, and the steps by which the methods do it: one field after
-- another, a pointer with what it leads to, an array item by item.
use cluster_api_provider_lat.Base.{
  ℕ, List, [], ◌∷◌, Option, none, some, ◌≡◌, refl, ◌≤◌, arith, sym, Option-cases, inl, inr, ◌∙◌,
}
use mathlib.Core.Path.{subst}
use cluster_api_provider_lat.Action.{Action, Outcome, ok, pure, ◌>>=◌}
use cluster_api_provider_lat.DeepCopy.Layout.{Ref, Cell}
use cluster_api_provider_lat.DeepCopy.Memory.{
  Memory, Store, next, read, above, Kind, fetch, load, new, copy_pointer, copy_each,
}
use cluster_api_provider_lat.DeepCopy.Views.{View, plain, at, each}
use cluster_api_provider_lat.DeepCopy.Views
use cluster_api_provider_lat.DeepCopy.MemoryLaws.{
  Extends, same, more, Within, Extends-trans, next-le, read-Within, above-Within, above-next,
}

-- A run that returns, adds cells and changes none, and ends in `Q`.
pub data Made {T : Type 0} (m : Memory) (Q : Memory → T → Type 0)
    : Outcome T × Memory → Type 0 where
  made : (t : T) (k : Memory) → Extends m k → Q k t → Made m Q (ok t, k)

-- `copy` turns a struct that stands for a value into one that stands for the same value, and does
-- so in the cells that are new, or at least as new as some `n`.
abbrev pub Copies : {T V : Type 0} → View T V → (T → Action Memory T) → Type 0
Copies {T} {V} v copy =
    (n : ℕ) (m : Memory)
    → n ≤ next m
    → (s : T) (x : V) → v (read m) s ≡ some x
    → Made m (λ k t. v (above n k) t ≡ some x) (copy s m)

-- A struct stands for the same in a store that holds more.
abbrev pub Grows : {T V : Type 0} → View T V → Type 0
Grows {T} {V} v = (f g : Store) → Within f g → (s : T) (x : V) → v f s ≡ some x → v g s ≡ some x

pub record IsCopier {T V : Type 0} (v : View T V) (copy : T → Action Memory T) : Type 0 where
  pub grows : Grows v
  pub copies : Copies v copy

pub bind-grows :
    {A B : Type 0} {x y : Option A} {f g : A → Option B}
    → ((a : A) → x ≡ some a → y ≡ some a)
    → ((a : A) (b : B) → f a ≡ some b → g a ≡ some b)
    → (b : B) → (Views.◌>>=◌ x f) ≡ some b
    → (Views.◌>>=◌ y g) ≡ some b
bind-grows {x = none} h i b e = cc
bind-grows {x = some a} h i b e = rw (h a refl) (i a b e)

bind-inv :
    {A B : Type 0} (x : Option A) (f : A → Option B) {b : B}
    → (Views.◌>>=◌ x f) ≡ some b
    → (a : A) × (x ≡ some a) × (f a ≡ some b)
bind-inv none f e = cc
bind-inv (some a) f e = (a, refl, e)

pub bind-some :
    {A B : Type 0} (x : Option A) (f : A → Option B) {a : A} {b : B}
    → x ≡ some a
    → f a ≡ some b
    → (Views.◌>>=◌ x f) ≡ some b
bind-some x f e h = rw e h

Made-Extends :
    {T : Type 0} {l m : Memory} {Q : Memory → T → Type 0} {r : Outcome T × Memory}
    → Extends l m
    → Made m Q r
    → Made l Q r
Made-Extends e (made t k d q) = made t k (Extends-trans e d) q

bind-Made :
    {A B : Type 0} {m : Memory} {Q : Memory → A → Type 0} {R : Memory → B → Type 0}
    {r : Outcome A × Memory} {f : A → Action Memory B}
    → Made m Q r
    → ((t : A) (k : Memory) → Extends m k → Q k t → Made k R (f t k))
    → Made m R (((λ _. r) >>= f) m)
bind-Made (made t k e q) h = Made-Extends e (h t k e q)

run-Made :
    {A B : Type 0} {m k : Memory} {Q : Memory → B → Type 0} (a : Action Memory A) {t : A}
    (f : A → Action Memory B)
    → a m ≡ (ok t, k)
    → Made m Q (f t k)
    → Made m Q ((a >>= f) m)
run-Made {m = m} {Q = Q} a f e h = subst (λ r. Made m Q (((λ _. r) >>= f) m)) (sym e) h

-- One field of a struct: what it stands for in `m`, its copy stands for from then on.
pub copy_field :
    {T V S W : Type 0} {v : View T V} {copy : T → Action Memory T} (c : IsCopier v copy) (n : ℕ)
    {m₀ m : Memory} (e : Extends m₀ m)
    → n ≤ next m₀
    → (s : T) {rest : V → Option W} {w : W} → (Views.◌>>=◌ (v (read m₀) s) rest) ≡ some w
    → {f : T → Action Memory S} {R : Memory → S → Type 0}
    → ((x : V)
        → rest x ≡ some w
        → (t : T) (k : Memory) → Extends m₀ k
        → Extends m k
        → ((l : Memory) → Extends k l → v (above n l) t ≡ some x)
        → Made k R (f t k))
    → Made m R ((copy s >>= f) m)
copy_field c n {m₀} {m} e le s {rest} h then_ =
    let (x, hx, hr) = bind-inv _ rest h in
    bind-Made (c.copies n m (omega (arith, next-le e)) s x (c.grows _ _ (read-Within e) s x hx))
      λ t k d q. then_ x hr t k (Extends-trans e d) d (λ l b. c.grows _ _ (above-Within n b) t x q)

pub plain-IsCopier : {T : Type 0} → IsCopier {T = T} plain pure
plain-IsCopier = record { grows = λ f g w s x h. h; copies = λ n m le s x h. made s m same h }

module _ {T V : Type 0} {v : View T V} {copy : T → Action Memory T} (c : IsCopier v copy) where
  each_grows :
      (f g : Store)
      → Within f g
      → (ss : List T) (xs : List V) → each v f ss ≡ some xs
      → each v g ss ≡ some xs
  unfolding each
  each_grows f g w [] xs h = h
  each_grows f g w (s ∷ ss) xs h =
      bind-grows (c.grows f g w s) (λ x. bind-grows (each_grows f g w ss) (λ _ _ e. e)) xs h

  each_copies :
      (n : ℕ) (m : Memory)
      → n ≤ next m
      → (ss : List T) (xs : List V) → each v (read m) ss ≡ some xs
      → Made m (λ k ts. each v (above n k) ts ≡ some xs) (copy_each copy ss m)
  unfolding each copy_each
  each_copies n m le [] xs h = made [] m same h
  each_copies n m le (s ∷ ss) xs h = copy_field c n same le s h λ x hr t k e d q.
      let (ys, hys, hxs) = bind-inv (each v (read m) ss) _ hr in
      bind-Made
        (each_copies n k (omega (arith, next-le e)) ss ys
          (each_grows _ _ (read-Within e) ss ys hys))
        λ ts l b qs. made (t ∷ ts) l same (rw (q l b, qs) hxs)

  pub each-IsCopier : IsCopier (each v) (copy_each copy)
  each-IsCopier = record { grows = each_grows; copies = each_copies }

  module _ ⦃k : Kind T⦄ where
    fetch-grows :
        (f g : Store) → Within f g → (p : ℕ) (t : T) → fetch f p ≡ some t → fetch g p ≡ some t
    fetch-grows f g w p t h = elim (Option-cases (f p)) [
      | inl e ↦ ground arith
      | inr (c, e) ↦ ground (arith, w p c e)
    ]

    project-fetch :
        (f : Store) (p : ℕ) (t : T) {c : Cell}
        → f p ≡ some c
        → k.project c ≡ some t
        → fetch f p ≡ some t
    project-fetch f p t e h = ground arith

    load_lem : (p : ℕ) (m : Memory) (t : T) → fetch (read m) p ≡ some t → load p m ≡ (ok t, m)
    unfolding load
    load_lem p m t h = rw h

    new-at :
        (n : ℕ) (m : Memory) (t : T) (x : V)
        → n ≤ next m
        → v (above n (k.inject t ∷ m)) t ≡ some x
        → at v (above n (k.inject t ∷ m)) (some (next m)) ≡ some (some x)
    unfolding at
    new-at n m t x le h =
        bind-some _ _
          (project-fetch (above n _) (next m) t (above-next n m (k.inject t) le)
            (k.project_inject t))
          (bind-some _ _ h refl)

    at_grows :
        (f g : Store)
        → Within f g
        → (r : Ref) (x : Option V) → at v f r ≡ some x
        → at v g r ≡ some x
    unfolding at
    at_grows f g w none x h = h
    at_grows f g w (some p) x h =
        bind-grows (fetch-grows f g w p) (λ t. bind-grows (c.grows f g w t) (λ _ _ e. e)) x h

    at_copies :
        (n : ℕ) (m : Memory)
        → n ≤ next m
        → (r : Ref) (x : Option V) → at v (read m) r ≡ some x
        → Made m (λ k q. at v (above n k) q ≡ some x) (copy_pointer copy r m)
    unfolding at copy_pointer new
    at_copies n m le none x h = made none m same h
    at_copies n m le (some p) x h =
        let (t, ht, h') = bind-inv (fetch (read m) p) _ h in
        let (y, hy, hx) = bind-inv (v (read m) t) _ h' in
        run-Made (load p) (λ t. do t' ← copy t; q ← new t'; pure (some q)) (load_lem p m t ht)
          (bind-Made (c.copies n m le t y hy) λ t' l e q.
            (made (some (next l)) (k.inject t' ∷ l) (more _ same) (
              new-at n l t' y (omega (arith, next-le e))
                (c.grows _ _ (above-Within n (more _ same)) t' y q)
              ∙ hx)))

    pub at-IsCopier : IsCopier (at v) (copy_pointer copy)
    at-IsCopier = record { grows = at_grows; copies = at_copies }
