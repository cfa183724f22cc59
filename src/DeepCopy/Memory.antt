-- ===== src/DeepCopy/Memory.antt =====
-- Memory, and what Go's types say about it: a pointer to a `T` leads to a `T`. Cells are only added
-- by `new(T)` and `make([]T, n)`; an address is the number of the cells that are older.
use cluster_api_provider_lat.Base.{
  ℕ, suc, List, [], ◌∷◌, Option, none, some, ◌==◌, nat_eq, if◌then◌else◌, ltb, ◌≡◌,
}
use cluster_api_provider_lat.Action.{Action, ok, panic, pure, ◌>>=◌}
use cluster_api_provider_lat.DeepCopy.Layout.{Cell, Ref}

-- The cells, newest first.
abbrev pub Memory : Type 0
Memory = List Cell

-- The address of the next cell.
abbrev pub next : Memory → ℕ
next [] = 0
next (c ∷ m) = suc (next m)

-- What a reader finds at each address.
abbrev pub Store : Type 0
Store = ℕ → Option Cell

unfoldable pub read : Memory → Store
read [] p = none
read (c ∷ m) p = if p == next m then some c else read m p

-- Memory without the cells older than `n`.
abbrev pub above : ℕ → Memory → Store
above n m p = if ltb p n then none else read m p

-- The cells that hold a `T`.
pub record Kind (T : Type 0) : Type 0 where
  pub inject : T → Cell
  pub project : Cell → Option T
  pub project_inject : (t : T) → project (inject t) ≡ some t

module _ {T : Type 0} ⦃k : Kind T⦄ where
  -- The `T` at an address.
  abbrev pub fetch : Store → ℕ → Option T
  fetch f p = elim (f p) [ none ↦ none | some c ↦ k.project c ]

  -- `*p`, a panic where no `T` lies
  unfoldable pub load : ℕ → Action Memory T
  load p m = (elim (fetch (read m) p) [ none ↦ panic | some t ↦ ok t ], m)

  -- `new(T)`, filled with its content: only who allocated it can see it.
  unfoldable pub new : T → Action Memory ℕ
  new t m = (ok (next m), k.inject t ∷ m)

  -- `if in == nil { return nil }; out := new(T); in.DeepCopyInto(out); return out`, which is also
  -- what a struct's `DeepCopyInto` does for each of its pointers and slices.
  unfoldable pub copy_pointer : (T → Action Memory T) → Ref → Action Memory Ref
  copy_pointer into none = pure none
  copy_pointer into (some p) = do s ← load p; t ← into s; q ← new t; pure (some q)

-- `for i := range *in { (*in)[i].DeepCopyInto(&(*out)[i]) }`
unfoldable pub copy_each : {T : Type 0} → (T → Action Memory T) → List T → Action Memory (List T)
copy_each into [] = pure []
copy_each into (s ∷ ss) = do t ← into s; ts ← copy_each into ss; pure (t ∷ ts)
