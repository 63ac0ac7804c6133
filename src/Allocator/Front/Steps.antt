-- ===== src/Allocator/Front/Steps.antt =====
-- One access to the slab of the CPU, and one to a transfer cache, by a thread that nothing disturbs.
use allocator.Prelude.{
  ℕ, ◌+◌, ◌≤◌, ◌<◌, ◌≡◌, ◌≢◌, refl, ap, ◌∙◌, Bool, true, false, Option, none, some, List, [], ◌∷◌,
  Ptr, null, length, lt→ltb, le→ltb,
}
use mathlib.Core.Path.{subst, subst₂}
use allocator.Config.{size_class_capacity}
use allocator.Slabs.{fallback_allocate, fallback_deallocate}
use allocator.Slabs.Spec
use allocator.Slabs.Rseq.{SlabArray}
use allocator.Slabs.Fallback.{fallback_allocate_refines, fallback_deallocate_refines}
use allocator.Slabs.Access.{Thread}
use allocator.Slabs.Access.Alone.{Alone, slab_push-Alone, slab_pop-Alone}
use allocator.PageHeap.State.{System}
use allocator.Allocator.{Allocator, pop_slab, push_slab}
use allocator.Allocator.Front.{
  in_slab, in_cache, NoNull, FrontOk, Holds, Holds-trans, SameCentral, SameCentral-trans, accessed,
  accessed-Holds, accessed-SameCentral,
}

-- A step that ends with `r`, and leaves the two lists of the class `i`.
abbrev pub Ends :
    {R : Type 0}
    → (a : Allocator) (c i : ℕ) → Option (R × Allocator)
    → R
    → (in_hand behind : List Ptr) → Type 0
Ends a c i o r in_hand behind =
    (a' : Allocator) × (o ≡ some (r, a')) × Holds a a' c i in_hand behind × SameCentral a a'

-- A step, and what comes after it.
pub Ends-after :
    {R : Type 0} (a b : Allocator) (c i : ℕ) (xs ys zs zs' ws ws' : List Ptr)
    (o o' : Option (R × Allocator)) (r : R)
    → Holds a b c i xs ys
    → SameCentral a b
    → o ≡ o'
    → Ends b c i o' r zs ws
    → zs ≡ zs'
    → ws ≡ ws'
    → Ends a c i o r zs' ws'
Ends-after a b c i xs ys zs zs' ws ws' o o' r h same e (d, run, k, same') p q = (
  d,
  e ∙ run,
  subst₂ (Holds a d c i) p q (Holds-trans a b d c i xs ys zs ws h k),
  SameCentral-trans a b d same same',
)

module _ (sys : System) (threads : ℕ → Thread) (fuel c : ℕ) (alone : (n : ℕ) → Alone c (threads n))
    (i : ℕ) (lt : i < 48) (a : Allocator) (v : FrontOk a c) where
  pop_slab-eq :
      pop_slab sys threads fuel i a
      ≡ some (
        (fallback_allocate (a.per_cpu_caches c) i).0,
        accessed a c (fallback_allocate (a.per_cpu_caches c) i).1,
      )
  unfolding pop_slab
  pop_slab-eq =
      ap
        (λ (o : Option (Ptr × SlabArray)). elim o [
          | none ↦ none
          | some (p, slabs) ↦
              some (p, record a { per_cpu_caches = slabs; slab_calls = a.slab_calls + 1 })
        ])
        (slab_pop-Alone a.slab_count i lt c (threads a.slab_calls) a.per_cpu_caches v.slabs
          v.in_range (alone a.slab_calls))

  push_slab-eq :
      (p : Ptr)
      → push_slab sys threads fuel i p a
        ≡ some (
          (fallback_deallocate (a.per_cpu_caches c) p i).0,
          accessed a c (fallback_deallocate (a.per_cpu_caches c) p i).1,
        )
  unfolding push_slab
  push_slab-eq p =
      ap
        (λ (o : Option (Bool × SlabArray)). elim o [
          | none ↦ none
          | some (ok, slabs) ↦
              some (ok, record a { per_cpu_caches = slabs; slab_calls = a.slab_calls + 1 })
        ])
        (slab_push-Alone a.slab_count i lt c (threads a.slab_calls) a.per_cpu_caches v.slabs
          v.in_range p (alone a.slab_calls))

  pop_slab-Ends :
      (q : Ptr) (xs : List Ptr)
      → Spec.pop (in_slab a c i) ≡ (q, xs)
      → NoNull xs
      → Ends a c i (pop_slab sys threads fuel i a) q xs (in_cache a i)
  pop_slab-Ends q xs e live =
      let (r, k) = fallback_allocate_refines (a.per_cpu_caches c) i (v.slabs c) lt in
      let slab = (fallback_allocate (a.per_cpu_caches c) i).1 in
      let e' = r ∙ e in
      (
        accessed a c slab,
        pop_slab-eq ∙ ap (λ (w : Ptr × List Ptr). some (w.0, accessed a c slab)) e',
        accessed-Holds a c i slab xs v k (ap (λ w. w.1) e') live,
        accessed-SameCentral a c slab,
      )

  -- An empty slab has nothing to hand out.
  pub pop_slab-nil :
      in_slab a c i ≡ [] → Ends a c i (pop_slab sys threads fuel i a) null [] (in_cache a i)
  unfolding Spec.pop
  pop_slab-nil e = pop_slab-Ends null [] (ap Spec.pop e) tt

  pub pop_slab-cons :
      (p : Ptr) (xs : List Ptr)
      → in_slab a c i ≡ p ∷ xs
      → Ends a c i (pop_slab sys threads fuel i a) p xs (in_cache a i)
  unfolding Spec.pop
  pop_slab-cons p xs e = pop_slab-Ends p xs (ap Spec.pop e) (subst NoNull e (v.slab_live i lt)).1

  push_slab-Ends :
      (p : Ptr) (ok : Bool) (xs : List Ptr)
      → Spec.push (size_class_capacity i) p (in_slab a c i) ≡ (ok, xs)
      → NoNull xs
      → Ends a c i (push_slab sys threads fuel i p a) ok xs (in_cache a i)
  push_slab-Ends p ok xs e live =
      let (r, k) = fallback_deallocate_refines (a.per_cpu_caches c) i (v.slabs c) lt p in
      let slab = (fallback_deallocate (a.per_cpu_caches c) p i).1 in
      let e' = r ∙ e in
      (
        accessed a c slab,
        push_slab-eq p ∙ ap (λ (w : Bool × List Ptr). some (w.0, accessed a c slab)) e',
        accessed-Holds a c i slab xs v k (ap (λ w. w.1) e') live,
        accessed-SameCentral a c slab,
      )

  pub push_slab-room :
      (p : Ptr)
      → p ≢ null
      → length (in_slab a c i) < size_class_capacity i
      → Ends a c i (push_slab sys threads fuel i p a) true (p ∷ in_slab a c i) (in_cache a i)
  unfolding Spec.push
  push_slab-room p live room =
      push_slab-Ends p true (p ∷ in_slab a c i)
        (rw (lt→ltb (length (in_slab a c i)) (size_class_capacity i) room) refl)
        (live, v.slab_live i lt)

  pub push_slab-full :
      (p : Ptr)
      → size_class_capacity i ≤ length (in_slab a c i)
      → Ends a c i (push_slab sys threads fuel i p a) false (in_slab a c i) (in_cache a i)
  unfolding Spec.push
  push_slab-full p full =
      push_slab-Ends p false (in_slab a c i)
        (rw (le→ltb (length (in_slab a c i)) (size_class_capacity i) full) refl) (v.slab_live i lt)
