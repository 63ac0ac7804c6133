-- ===== src/Allocator/Front/RoundTrip.antt =====
-- `allocate` after `deallocate`, in a thread that nothing disturbs.
use allocator.Prelude.{
  ℕ, ◌+◌, ◌/◌, ◌≤◌, ◌<◌, ◌≡◌, ◌≢◌, sym, ap, ◌∙◌, ◌⊎◌, inl, inr, some, List, ◌∷◌, Ptr, null, length,
}
use mathlib.Core.Path.{subst, subst₂}
use allocator.Config.{page_size, size_class_capacity, transfer_cache_capacity}
use allocator.SizeClasses.{size_class, round_size_class}
use allocator.Slabs.Access.{Thread}
use allocator.Slabs.Access.Alone.{Alone}
use allocator.PageHeap.State.{Span, System}
use allocator.SizeClasses.Rounding.{round_size_class-BestFit}
use allocator.Allocator.{Allocator, allocate, deallocate}
use allocator.Allocator.Front.{
  in_slab, in_cache, FrontOk, Holds, Holds-trans, SameCentral, SameCentral-trans,
}
use allocator.Allocator.Front.Served.{allocate-Served}
use allocator.Allocator.Front.Returned.{Returned, deallocate-Returned}

module _ (sys : System) (threads : ℕ → Thread) (fuel c : ℕ)
    (alone : (n : ℕ) → Alone c (threads n)) where
  -- `allocate` takes what is in front of the slab.
  allocate_front :
      (n : ℕ) (p : Ptr) (a : Allocator) (xs ys : List Ptr)
      → FrontOk a c
      → n ≤ 262144
      → in_slab a c (round_size_class n).1 ≡ p ∷ xs
      → in_cache a (round_size_class n).1 ≡ ys
      → (a' : Allocator) × (allocate sys threads fuel n a ≡ some (p, a'))
        × Holds a a' c (round_size_class n).1 xs ys
        × SameCentral a a'
  allocate_front n p a xs ys v small top rest =
      let (p', a', run, s) =
        allocate-Served sys threads fuel c alone n a v small
          (inl (λ e. absurd (cc (sym top ∙ e)))) in
      elim s.source [
        | inr (e, e', len) ↦ absurd (cc (sym top ∙ e))
        | inl (e, e') ↦
            let same = sym e ∙ top in
            (
              a',
              run ∙ ap (λ x. some (x, a')) (cc same),
              subst₂ (Holds a a' c (round_size_class n).1) (cc same) (sym e' ∙ rest) s.holds,
              s.central,
            )
      ]

  -- After a `deallocate` that the front serves, the next `allocate` of a size of the class by the
  -- thread returns the object that was freed, if nothing disturbs the thread. The slab and the
  -- cache of the class are then as before, except that a batch has gone from a slab that was full
  -- to the cache.
  pub deallocate-allocate :
      (i n : ℕ) (p : Ptr) (a : Allocator) (q : Ptr) (s : Span)
      → n ≤ 262144
      → (round_size_class n).1 ≡ i
      → p ≢ null
      → FrontOk a c
      → q ≢ null
      → a.page_heap.page_map (p / page_size) ≡ some q
      → a.page_heap.spans q ≡ some s
      → s.size ≡ (size_class i).size
      → (length (in_slab a c i) < size_class_capacity i)
        ⊎ (length (in_cache a i) + (size_class i).batch_size ≤ transfer_cache_capacity)
      → (a' : Allocator) × (a'' : Allocator) × (deallocate sys threads fuel p a ≡ some (tt, a'))
        × (allocate sys threads fuel n a' ≡ some (p, a''))
        × (r : Returned a a' c i p) × Holds a a'' c i r.in_hand r.behind
        × SameCentral a a''
  deallocate-allocate i n p a q s small class live v q_live mapped at size room =
      let b = round_size_class-BestFit n small in
      let pos : 0 < i = subst (λ j. 0 < j) class b.first in
      let lt : i < 48 = subst (λ j. j < 48) class b.last in
      let (a', run, r) =
        deallocate-Returned sys threads fuel c i alone pos lt p live a q s v q_live mapped at size
          room in
      let (a'', run', h, same) =
        allocate_front n p a' r.in_hand r.behind r.holds.ok small
          (ap (in_slab a' c) class ∙ r.holds.slab) (ap (in_cache a') class ∙ r.holds.cache) in
      let h' = subst (λ j. Holds a' a'' c j r.in_hand r.behind) class h in
      (
        a',
        a'',
        run,
        run',
        r,
        Holds-trans a a' a'' c i _ _ _ _ r.holds h',
        SameCentral-trans a a' a'' r.central same,
      )
