-- ===== src/Allocator/Front/Returned.antt =====
-- `deallocate` where the front of the allocator takes the object back, in a thread that nothing
-- disturbs.
use allocator.Prelude.{
  ℕ, ◌+◌, ◌/◌, ◌≤◌, ◌<◌, ◌≡◌, ◌≢◌, refl, sym, ap, ◌∙◌, ◌⊎◌, inl, inr, true, false, some, List, ◌∷◌,
  ◌++◌, arith, ltb, ◌==◌, Ptr, null, length, length-append, take, drop, take-append-drop,
  length-take, if◌then◌else◌,
}
use mathlib.Core.Path.{subst, subst₂}
use native.Mathlib.Decide.{dec_lt}
use allocator.Slabs.Stack.{length-cells}
use allocator.Config.{page_size, size_class_offset, size_class_capacity, transfer_cache_capacity}
use allocator.Config.Offsets.{batch-le-capacity}
use allocator.SizeClasses.{size_class, size_class_to_idx}
use allocator.SizeClasses.Rounding.{size_class_to_idx-size}
use allocator.SizeClasses.Table.{size_class-IsClass}
use allocator.Slabs.Access.{Thread}
use allocator.Slabs.Access.Alone.{Alone}
use allocator.PageHeap.State.{Span, System, PageHeap}
use allocator.PageHeap.Steps.{load-ok}
use allocator.PageHeap.State
use allocator.PageHeap.Pages
use allocator.Allocator.{
  Allocator, in_heap, Cmd, ◌>>=◌, and_then, pure, deallocate, make_room, push_slab, drain,
}
use allocator.Allocator.Front.{
  in_slab, in_cache, NoNull, FrontOk, Holds, SameCentral, SameCentral-trans, Holds-trans,
}
use allocator.Allocator.Front.Steps.{Ends, push_slab-room, push_slab-full}
use allocator.Allocator.Front.Batches.{NoNull-left, release_batch-Ends, drain-Ends}

-- Where the object goes: in front of the slab; or, if that is full, in front of what is left of it
-- after a batch has gone to the transfer cache.
pub record Returned (a a' : Allocator) (c i : ℕ) (p : Ptr) : Type 0 where
  pub in_hand : List Ptr
  pub behind : List Ptr
  pub holds : Holds a a' c i (p ∷ in_hand) behind
  pub central : SameCentral a a'
  pub target :
      ((length (in_slab a c i) < size_class_capacity i)
        × (in_hand ≡ in_slab a c i)
        × (behind ≡ in_cache a i))
      ⊎ ((batch : List Ptr) × (length (in_slab a c i) ≡ size_class_capacity i)
          × (length batch ≡ (size_class i).batch_size)
          × (in_slab a c i ≡ batch ++ in_hand)
          × (behind ≡ in_cache a i ++ batch))

module _ (sys : System) (threads : ℕ → Thread) (fuel c i : ℕ)
    (alone : (n : ℕ) → Alone c (threads n)) (pos : 0 < i) (lt : i < 48) (p : Ptr)
    (live : p ≢ null) where
  -- `deallocate` once the class is known.
  abbrev deallocate_class : Cmd (Unit {0})
  deallocate_class = do
    ok ← push_slab sys threads fuel i p
    if ok then pure tt else make_room sys threads fuel i (size_class i).batch_size p

  span_for-ok :
      (a : Allocator) (q : Ptr)
      → a.page_heap.page_map (p / page_size) ≡ some q
      → in_heap (Pages.span_for p) a ≡ some (q, a)
  unfolding Pages.span_for
  span_for-ok a q mapped = rw mapped refl

  load_span-ok :
      (a : Allocator) (q : Ptr) (s : Span)
      → q ≢ null
      → a.page_heap.spans q ≡ some s
      → in_heap (State.load q) a ≡ some (s, a)
  load_span-ok a q s q_live at = rw (load-ok a.page_heap q s q_live at, in_heap) refl

  -- The rest of `deallocate`, once the span is read, and once its pointer is known.
  abbrev with_span : Span → Cmd (Unit {0})
  with_span s =
      let sc_idx = size_class_to_idx s.size in
      if (size_class sc_idx).size == 0 then pure tt else do
        ok ← push_slab sys threads fuel sc_idx p
        if ok then pure tt else make_room sys threads fuel sc_idx (size_class sc_idx).batch_size p

  abbrev at_span : Ptr → Cmd (Unit {0})
  at_span q = if q == null then pure tt else do s ← in_heap (State.load q); with_span s

  unfold_class :
      (a : Allocator) (s : Span)
      → size_class_to_idx s.size ≡ i
      → ((size_class i).size == 0) ≡ false
      → with_span s a ≡ deallocate_class a
  unfold_class a s idx some_size = rw (idx, some_size) refl

  deallocate-eq :
      (a : Allocator) (q : Ptr) (s : Span)
      → q ≢ null
      → a.page_heap.page_map (p / page_size) ≡ some q
      → a.page_heap.spans q ≡ some s
      → s.size ≡ (size_class i).size
      → deallocate sys threads fuel p a ≡ deallocate_class a
  unfolding deallocate
  deallocate-eq a q s q_live mapped at size =
      let k = size_class-IsClass i pos lt in
      let some_size : ((size_class i).size == 0) ≡ false = ground (arith, k.size_pos) in
      let nn : (q == null) ≡ false = ground arith in
      let idx : size_class_to_idx s.size ≡ i =
        ap size_class_to_idx size ∙ size_class_to_idx-size i lt in
      ap (λ o. and_then o at_span) (span_for-ok a q mapped)
      ∙ ap (λ b. (if b then pure tt else do t ← in_heap (State.load q); with_span t) a) nn
      ∙ ap (λ o. and_then o with_span) (load_span-ok a q s q_live at)
      ∙ unfold_class a s idx some_size

  make_room-Ends :
      (a : Allocator)
      → FrontOk a c
      → length (in_slab a c i) ≡ size_class_capacity i
      → length (in_cache a i) + (size_class i).batch_size ≤ transfer_cache_capacity
      → (in_hand : List Ptr) × (batch : List Ptr) × (length batch ≡ (size_class i).batch_size)
        × (in_slab a c i ≡ batch ++ in_hand)
        × Ends a c i
            (make_room sys threads fuel i (size_class i).batch_size p a)
            tt
            (p ∷ in_hand)
            (in_cache a i ++ batch)
  unfolding make_room
  make_room-Ends a v full room =
      let n = (size_class i).batch_size in
      let k = size_class-IsClass i pos lt in
      let xs = take n (in_slab a c i) in
      let ys = drop n (in_slab a c i) in
      let split = take-append-drop n (in_slab a c i) in
      let len : length xs ≡ n =
        omega (arith, length-take n (in_slab a c i), batch-le-capacity i pos lt) in
      let (b, run, h, same) = drain-Ends sys threads fuel c i alone lt xs ys a v (sym split) in
      let run1 = subst (λ m. drain sys threads fuel i m a ≡ some (xs, b)) len run in
      let some_batch : ltb 0 (length xs) ≡ true = ground (arith, len, k.batch_pos) in
      let batch_live = NoNull-left xs ys (subst NoNull (sym split) (v.slab_live i lt)) in
      let room' : length (in_cache b i) + length xs ≤ transfer_cache_capacity =
        omega (arith, len, ap length h.cache) in
      let (d, run2, h2, same2) =
        release_batch-Ends sys threads fuel c i alone lt xs b h.ok batch_live room' in
      let space : length (in_slab d c i) < size_class_capacity i = omega (
        arith,
        ap length (h2.slab ∙ h.slab),
        length-append xs ys,
        ap length split,
        len,
        k.batch_pos,
      ) in
      let (e, run3, h3, same3) =
        push_slab-room sys threads fuel c alone i lt d h2.ok p live space in
      (
        ys,
        xs,
        len,
        sym split,
        (
          e,
          rw (run1, some_batch, run2, run3) refl,
          subst₂ (Holds a e c i) (ap (λ zs. p ∷ zs) (h2.slab ∙ h.slab))
              (h2.cache ∙ ap (λ zs. zs ++ xs) h.cache)
              (Holds-trans a d e c i _ _ _ _ (Holds-trans a b d c i _ _ _ _ h h2) h3),
          SameCentral-trans a d e (SameCentral-trans a b d same same2) same3,
        ),
      )

  -- In a thread that nothing disturbs, on a front in order, `deallocate` of an address that is not
  -- null and that the page map leads to a live span, of the size of the class `i` from 1 to 47,
  -- ends if the slab of the CPU has room, or if it holds as many objects as its capacity and the
  -- transfer cache has room for a batch. The object is then in front of the slab, from which a
  -- batch has first gone to the cache in its order if it was full. The front is in order again, and
  -- nothing else has changed.
  pub deallocate-Returned :
      (a : Allocator) (q : Ptr) (s : Span)
      → FrontOk a c
      → q ≢ null
      → a.page_heap.page_map (p / page_size) ≡ some q
      → a.page_heap.spans q ≡ some s
      → s.size ≡ (size_class i).size
      → (length (in_slab a c i) < size_class_capacity i)
        ⊎ (length (in_cache a i) + (size_class i).batch_size ≤ transfer_cache_capacity)
      → (a' : Allocator) × (deallocate sys threads fuel p a ≡ some (tt, a')) × Returned a a' c i p
  deallocate-Returned a q s v q_live mapped at size room =
      elim (dec_lt (length (in_slab a c i)) (size_class_capacity i)) [
        | yes open_slab ↦
            let (b, run, h, same) =
              push_slab-room sys threads fuel c alone i lt a v p live open_slab in
            (
              b,
              deallocate-eq a q s q_live mapped at size ∙ rw run refl,
              record {
                in_hand = in_slab a c i;
                behind = in_cache a i;
                holds = h;
                central = same;
                target = inl (open_slab, refl, refl);
              },
            )
        | no full ↦
            let full' : length (in_slab a c i) ≡ size_class_capacity i = omega (
              arith,
              length-cells (a.per_cpu_caches c).pointers (size_class_offset i)
                  ((a.per_cpu_caches c).currents i),
              v.slabs c i lt,
            ) in
            let space : length (in_cache a i) + (size_class i).batch_size
                ≤ transfer_cache_capacity =
              elim room [ inl open_slab ↦ absurd (full open_slab) | inr space ↦ space ] in
            let (d, run, h, same) =
              push_slab-full sys threads fuel c alone i lt a v p (omega arith) in
            let (in_hand, batch, len, split, made) =
              make_room-Ends d h.ok (ap length h.slab ∙ full') (omega (arith, ap length h.cache)) in
            let (b, run', h', same') = made in
            (
              b,
              deallocate-eq a q s q_live mapped at size ∙ rw (run, run') refl,
              record {
                in_hand = in_hand;
                behind = in_cache a i ++ batch;
                holds =
                    Holds-trans a d b c i _ _ _ _ h
                      (subst (Holds d b c i (p ∷ in_hand)) (ap (λ zs. zs ++ batch) h.cache) h');
                central = SameCentral-trans a d b same same';
                target = inr (batch, full', len, sym h.slab ∙ split, refl);
              },
            )
      ]
