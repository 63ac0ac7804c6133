-- ===== src/CentralFreeList/Release/LastObject.antt =====
-- `deallocate` of the last object of a span that is in use.
use allocator.Prelude.{
  ℕ, suc, ◌+◌, ◌*◌, ◌/◌, ◌<◌, ◌≡◌, ◌≢◌, refl, sym, ap, ap₂, ◌∙◌, true, false, ◌||◌, Option, some,
  List, [], ◌∷◌, ◌++◌, arith, ◌==◌, Ptr, null, update, update_self, length,
}
use allocator.Config.{page_size, sub32, add32}
use allocator.PageHeap.State.{Span, System}
use allocator.PageHeap.Dll.{Cells, head_of, linked, Dll, has, has-append, Distinct, frame-update}
use allocator.PageHeap.Invariant.{WellFormed, nothing}
use allocator.CentralFreeList.{Central, deallocate}
use allocator.CentralFreeList.Nodes.{index_to_ptr}
use allocator.CentralFreeList.Objects.{in_use, SpanOk}
use allocator.CentralFreeList.Objects.Put.{put_span, put, put-counted, deallocate-put}
use allocator.CentralFreeList.Fetch.{write-WellFormed}
use allocator.CentralFreeList.Release.{AllUsed}
use allocator.CentralFreeList.Release.Outcome.{GivenBack, release-GivenBack}
use allocator.CentralFreeList.Release.Members.{AllUsed-without}

-- The fields of one cell change, but for its links.
module _ (p : Ptr) (s s1 : Span) (ys : Cells) where
  has-swap : (a : Ptr) (xs : Cells) → has a (xs ++ (p, s1) ∷ ys) ≡ has a (xs ++ (p, s) ∷ ys)
  has-swap a [] = refl
  has-swap a ((q, u) ∷ xs) = ap (λ b. (a == q) || b) (has-swap a xs)

  head-swap : (xs : Cells) → head_of (xs ++ (p, s) ∷ ys) ≡ head_of (xs ++ (p, s1) ∷ ys)
  head-swap [] = refl
  head-swap ((q, u) ∷ xs) = refl

  Distinct-swap : (xs : Cells) → Distinct (xs ++ (p, s) ∷ ys) → Distinct (xs ++ (p, s1) ∷ ys)
  Distinct-swap [] d = d
  Distinct-swap ((q, u) ∷ xs) d = (has-swap q xs ∙ d.0, Distinct-swap xs d.1)

  AllUsed-swap :
      (xs : Cells)
      → s1.is_free ≡ s.is_free
      → AllUsed (xs ++ (p, s) ∷ ys)
      → AllUsed (xs ++ (p, s1) ∷ ys)
  AllUsed-swap [] e d = (e ∙ d.0, d.1)
  AllUsed-swap ((q, u) ∷ xs) e d = (d.0, AllUsed-swap xs e d.1)

  Dll-swap :
      (spans : Ptr → Option Span) (prev : Ptr) (xs : Cells)
      → Dll spans prev (xs ++ (p, s) ∷ ys)
      → Distinct (xs ++ (p, s) ∷ ys)
      → spans p ≡ some s
      → (s1.next ≡ s.next) × (s1.prev ≡ s.prev)
      → Dll (update spans p (some s1)) prev (xs ++ (p, s1) ∷ ys)
  Dll-swap spans prev [] d dis at (next, before) =
      let links : s ≡ linked s prev (head_of ys) = cc (sym at ∙ d.1) in
      let next' : s1.next ≡ head_of ys = next ∙ ap (λ (u : Span). u.next) links in
      let before' : s1.prev ≡ prev = before ∙ ap (λ (u : Span). u.prev) links in
      (
        d.0,
        update_self spans p (some s1) ∙ ap₂ (λ a b. some (linked s1 a b)) before' next',
        frame-update spans p ys p (some s1) d.2 dis.0,
      )
  Dll-swap spans prev ((q, u) ∷ xs) d dis at same =
      let ne : (p == q) ≡ false = ground (arith, has-append q xs ((p, s) ∷ ys), dis.0) in
      (
        d.0,
        rw ne (d.1 ∙ ap (λ a. some (linked u prev a)) (head-swap xs)),
        Dll-swap spans q xs d.2 dis.1 at same,
      )

module _ (sys : System) (fuel : ℕ) where
  -- Let a span be in order, with one object in use, and let it stand in the list of its class, which
  -- is doubly linked, without repetitions, and of spans in use, over a well-formed page heap, with
  -- fuel for at least five more spans than any free list has. If the page map leads to the span from
  -- the address of the object, not null, `deallocate` of that address ends, and gives the span back
  -- to the page heap: it is free, as is every page of it, and the page heap is well-formed. The list
  -- of the class is the one from before without the span, wherever it stood; the span is no longer
  -- the current one, and its free objects are no longer counted. Other spans in use, outside the
  -- list, are as before.
  pub deallocate-GivenBack :
      (c : Central) (lists : ℕ → Cells) (p : Ptr) (s : Span) (free : List ℕ) (k : ℕ) (xs ys : Cells)
      → SpanOk c p s free
      → in_use s free k ≡ true
      → index_to_ptr k (s.start * page_size) c.cfl.size ≢ null
      → c.heap.page_map (index_to_ptr k (s.start * page_size) c.cfl.size / page_size) ≡ some p
      → suc (length free) ≡ s.total_objects
      → WellFormed sys c.heap lists nothing
      → Dll c.heap.spans null (xs ++ (p, s) ∷ ys)
      → Distinct (xs ++ (p, s) ∷ ys)
      → AllUsed (xs ++ (p, s) ∷ ys)
      → c.cfl.span_list ≡ head_of (xs ++ (p, s) ∷ ys)
      → ((m : ℕ) → length (lists m) + 5 < fuel)
      → (c' : Central) × (deallocate sys fuel (index_to_ptr k (s.start * page_size) c.cfl.size) c
          ≡ some (tt, c'))
        × GivenBack sys c c' lists p s xs ys
  deallocate-GivenBack c lists p s free k xs ys v used live mapped last w d dis busy head enough =
      let s1 = put_span c.cfl.size c.mem s k in
      let c1 = put c p s k in
      let mine = (AllUsed-without p s xs ys busy).1 in
      let w1 = write-WellFormed sys c.heap lists p s s1 w v.at mine (refl, refl) mine in
      let counted = put-counted c p s free k v used in
      let full : (s1.num_free_objects == s.total_objects) ≡ true = ground (arith, counted, last) in
      let num : sub32 (add32 c.cfl.num_free 1) s1.num_free_objects
          ≡ sub32 c.cfl.num_free s.num_free_objects =
        omega (arith, counted, v.counted, v.class_counted, v.class_small, last, v.small) in
      let (c', run, g) =
        release-GivenBack sys fuel c1 lists p s1 xs ys w1
          (Dll-swap p s s1 ys c.heap.spans null xs d dis v.at (refl, refl))
          (Distinct-swap p s s1 ys xs dis) (AllUsed-swap p s s1 ys xs refl busy)
          (head ∙ head-swap p s s1 ys xs) enough in
      (
        c',
        deallocate-put c p s free k v used sys fuel live mapped ∙ rw full run,
        record {
          lists' = g.lists';
          ok = g.ok;
          lengths = g.lengths;
          free = g.free;
          pages_free = g.pages_free;
          chain = g.chain;
          distinct = g.distinct;
          used = g.used;
          head = g.head;
          current = g.current;
          num_free = g.num_free ∙ num;
          others = λ a u o not_free.
              let ne : (p == a) ≡ false = ground (arith, has-append a xs ((p, s) ∷ ys), o) in
              let (to, from) = g.others a u (has-swap p s s1 ys a xs ∙ o) not_free in
              ((λ e. to (rw ne e)), (λ e. ground (arith, from e, ne)));
        },
      )
