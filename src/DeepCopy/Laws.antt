-- ===== src/DeepCopy/Laws.antt =====
-- What a caller of `DeepCopyObject` and of `DeepCopy` may rely on.
use cluster_api_provider_lat.Base.{ℕ, Option, some, ◌≡◌, refl, ◌<◌, ◌≤◌, arith, ap, sym, ◌∙◌}
use cluster_api_provider_lat.Action.{Outcome, ok}
use cluster_api_provider_lat.DeepCopy.Layout.{Ref}
use cluster_api_provider_lat.DeepCopy.Memory.{Memory, Store, next, read, above}
use cluster_api_provider_lat.DeepCopy.Views.{object_value, part_value, Content, PartContent}
use cluster_api_provider_lat.DeepCopy.Copy.{
  Apimachinery, ObjectType, Object, as_object, deep_copy_object, PartType, deep_copy_part,
}
use cluster_api_provider_lat.DeepCopy.MemoryLaws.{
  Extends, read-Within, above-Within_read, above-Within_new, read-lt-next,
}
use cluster_api_provider_lat.DeepCopy.Copier.{Made, made}
use cluster_api_provider_lat.DeepCopy.ObjectCopiers.{IsApimachinery}
use cluster_api_provider_lat.DeepCopy.Methods.{
  as_object_inj, part-IsCopier, object-Grows, object-Made,
}

-- What a run that is known to have returned has made.
Made-inv :
    {T : Type 0} {m : Memory} {Q : Memory → T → Type 0} {r : Outcome T × Memory}
    → Made m Q r
    → (t : T) × (k : Memory) × (r ≡ (ok t, k)) × Extends m k × Q k t
Made-inv (made t k e q) = (t, k, refl, e, q)

module _ (a : Apimachinery) (deep : IsApimachinery a) where
  -- `DeepCopyObject` of an object of any of the six types, whose pointers all lead somewhere, or of
  -- a nil pointer, returns an object of that type, or the nil interface. In the memory that it
  -- leaves, the object given still stands for what it stood for, and the copy stands for the same,
  -- if the copies that k8s.io/apimachinery makes of metadata and conditions are deep.
  pub deep_copy_object_copies :
      (t : ObjectType) (m : Memory) (r : Ref) (x : Option (Content t))
      → object_value t (read m) r ≡ some x
      → (q : Ref) × (k : Memory) × (deep_copy_object a t r m ≡ (ok (as_object t q), k))
        × (object_value t (read k) r ≡ some x)
        × (object_value t (read k) q ≡ some x)
  deep_copy_object_copies t m r x h =
      let (o, k, run, e, (q, eo, hq)) = Made-inv (object-Made a deep t m r x h) in
      let grows = object-Grows a deep t in
      (
        q,
        k,
        run ∙ ap (λ o. (ok o, k)) eo,
        grows _ _ (read-Within e) r x h,
        grows _ _ (above-Within_read (next m) k) q x hq,
      )

  apart :
      (t : ObjectType) (m : Memory) (r : Ref) (x : Option (Content t))
      → object_value t (read m) r ≡ some x
      → (q : Ref) (k : Memory) → Extends m k
      → object_value t (above (next m) k) q ≡ some x
      → (f g : Store) → ((p : ℕ) → p < next m → f p ≡ read k p)
      → ((p : ℕ) → next m ≤ p → g p ≡ read k p)
      → (object_value t f r ≡ some x) × (object_value t g q ≡ some x)
  apart t m r x h q k e hq f g old new = (
    object-Grows a deep t (read m) f (λ p c s. old p (read-lt-next m p c s) ∙ read-Within e p c s) r
        x h,
    object-Grows a deep t (above (next m) k) g (above-Within_new (next m) k g new) q x hq,
  )

  -- Once `DeepCopyObject` has returned, of any of the six types, the copy and the object given share
  -- no memory: whatever is done to the cells that are new, the object given stands for what it
  -- stood for, and whatever is done to the cells that were there before, the copy stands for the
  -- same, if all pointers of the object led somewhere and the copies that k8s.io/apimachinery makes
  -- of metadata and conditions are deep.
  pub deep_copy_object_isolates :
      (t : ObjectType) (m : Memory) (r : Ref) (x : Option (Content t))
      → object_value t (read m) r ≡ some x
      → (q : Ref) (k : Memory) → deep_copy_object a t r m ≡ (ok (as_object t q), k)
      → (f g : Store) → ((p : ℕ) → p < next m → f p ≡ read k p)
      → ((p : ℕ) → next m ≤ p → g p ≡ read k p)
      → (object_value t f r ≡ some x) × (object_value t g q ≡ some x)
  deep_copy_object_isolates t m r x h q k run f g old new =
      let (o, k', run', e, (q', eo, hq)) = Made-inv (object-Made a deep t m r x h) in
      let same_run = ◌∙◌ {A = Outcome (Option Object) × Memory} (sym run') run in
      let same_memory : k' ≡ k = cc in
      let same_object : o ≡ as_object t q = cc in
      let same_pointer : q' ≡ q = as_object_inj t q' q (sym eo ∙ same_object) in
      apart t m r x h q k (rw (← same_memory) e) (rw (← same_memory, ← same_pointer) hq) f g old new

  -- `DeepCopy` of a part of an object, with a type of its own, whose pointers all lead somewhere, or
  -- of a nil pointer, returns a pointer that stands for the same, by the cells alone that are new;
  -- what was given still stands for what it stood for, if the copies that k8s.io/apimachinery makes
  -- of conditions are deep.
  pub deep_copy_part_copies :
      (t : PartType) (m : Memory) (r : Ref) (x : Option (PartContent t))
      → part_value t (read m) r ≡ some x
      → (q : Ref) × (k : Memory) × (deep_copy_part a t r m ≡ (ok q, k))
        × (part_value t (read k) r ≡ some x)
        × (part_value t (above (next m) k) q ≡ some x)
  deep_copy_part_copies t m r x h =
      let c = part-IsCopier a deep t in
      let (q, k, run, e, hq) = Made-inv (c.copies (next m) m (omega arith) r x h) in
      (q, k, run, c.grows _ _ (read-Within e) r x h, hq)
