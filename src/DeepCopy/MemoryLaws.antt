-- ===== src/DeepCopy/MemoryLaws.antt =====
-- Memory grows at its end, and what a reader finds there stays.
use cluster_api_provider_lat.Base.{ℕ, [], ◌∷◌, some, ◌≡◌, ◌≤◌, ◌<◌, arith}
use cluster_api_provider_lat.DeepCopy.Layout.{Cell}
use cluster_api_provider_lat.DeepCopy.Memory.{Memory, Store, next, read, above}

pub data Extends (m : Memory) : Memory → Type 0 where
  same : Extends m m
  more : (c : Cell) → {k : Memory} → Extends m k → Extends m (c ∷ k)

-- Whatever `f` holds, `g` holds.
abbrev pub Within : Store → Store → Type 0
Within f g = (p : ℕ) (c : Cell) → f p ≡ some c → g p ≡ some c

pub Extends-trans : {l m k : Memory} → Extends l m → Extends m k → Extends l k
Extends-trans e same = e
Extends-trans e (more c d) = more c (Extends-trans e d)

pub next-le : {m k : Memory} → Extends m k → next m ≤ next k
next-le same = omega arith
next-le (more c e) = omega (arith, next-le e)

-- Only addresses that were given out are read.
pub read-lt-next : (m : Memory) (p : ℕ) (c : Cell) → read m p ≡ some c → p < next m
unfolding read
read-lt-next [] p c h = cc
read-lt-next (d ∷ m) p c h = ground (arith, read-lt-next m p c)

pub read-Within : {m k : Memory} → Extends m k → Within (read m) (read k)
unfolding read
read-Within same p c h = h
read-Within {m} (more d {k} e) p c h =
    ground (arith, read-Within e p c h, read-lt-next m p c h, next-le e)

pub above-Within : (n : ℕ) {m k : Memory} → Extends m k → Within (above n m) (above n k)
above-Within n e p c h = ground (arith, read-Within e p c)

pub above-Within_read : (n : ℕ) (m : Memory) → Within (above n m) (read m)
above-Within_read n m p c h = ground arith

pub above-Within_new :
    (n : ℕ) (m : Memory) (g : Store) → ((p : ℕ) → n ≤ p → g p ≡ read m p) → Within (above n m) g
above-Within_new n m g new p c h = ground (arith, new p)

-- A cell that was just added lies above the older ones, with its content.
pub above-next : (n : ℕ) (m : Memory) (c : Cell) → n ≤ next m → above n (c ∷ m) (next m) ≡ some c
unfolding read
above-next n m c h = ground arith
