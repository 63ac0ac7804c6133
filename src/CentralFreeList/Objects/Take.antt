-- ===== src/CentralFreeList/Objects/Take.antt =====
-- `allocate` hands out an object of its current span that no client holds.
use allocator.Prelude.{
  ℕ, ◌+◌, ◌-◌, ◌*◌, ◌≤◌, ◌<◌, ◌≡◌, ◌≢◌, ◌⊎◌, refl, sym, ap, ap₂, ◌∙◌, true, false, not, ◌&&◌, ◌||◌,
  List, [], ◌∷◌, arith, ltb, leb, ◌==◌, Ptr, null, length, Option, some, Bool-cases, lt→ltb, ==→eq,
  inl, inr, update, update_self,
}
use mathlib.Core.Path.{fun_ext}
use allocator.Config.{page_size, sub32}
use allocator.PageHeap.State.{Span, invalid_index}
use allocator.PageHeap.State.{System, PageHeap}
use allocator.CentralFreeList.{Central, CentralFreeList, populate_span, take_from}
use allocator.CentralFreeList.Nodes.{take_object, index_to_ptr}
use allocator.CentralFreeList.Nodes.Chain.{contains}
use allocator.CentralFreeList.Nodes.Objects.{take_object-IsChain}
use allocator.CentralFreeList.Objects.{in_use, SpanOk, base-eq, empty_of_head, head_of_empty}
use allocator.CentralFreeList.Objects.Count.{length-Distinct}
use allocator.CentralFreeList.Objects.Populate.{
  central_load-ok, central_modify-ok, SameSpan, populate_span-Populated,
}

-- What a caller gets: an object that was in nobody's hands, and is now in the caller's.
pub record Taken (c : Central) (p : Ptr) (s : Span) (free : List ℕ) (ptr : Ptr) (c' : Central)
    : Type 0 where
  pub k : ℕ
  pub rest : List ℕ
  pub s' : Span
  pub address : ptr ≡ index_to_ptr k (s.start * page_size) c.cfl.size
  pub order : (free ≡ []) ⊎ (free ≡ k ∷ rest)
  pub inside : k < s.total_objects
  pub unused : in_use s free k ≡ false
  pub ok : SpanOk c' p s' rest
  pub same_start : s'.start ≡ s.start
  pub same_total : s'.total_objects ≡ s.total_objects
  pub kept : SameSpan s' s
  pub heap : c'.heap ≡ record c.heap { spans = update c.heap.spans p (some s') }
  pub cfl : c'.cfl ≡ record c.cfl { num_free = c'.cfl.num_free }
  pub class_count : c'.cfl.num_free + length free ≡ c.cfl.num_free + length rest
  pub now : (j : ℕ) → in_use s' rest j ≡ ((j == k) || in_use s free j)

update_twice :
    (spans : Ptr → Option Span) (p : Ptr) (a b : Option Span)
    → update (update spans p a) p b ≡ update spans p b
update_twice spans p a b = fun_ext λ q. ground arith

head_valid :
    (c : Central) (p : Ptr) (s : Span) (k : ℕ) (rest : List ℕ)
    → SpanOk c p s (k ∷ rest)
    → (s.freelist_head == invalid_index) ≡ false
head_valid c p s k rest v = elim (Bool-cases (s.freelist_head == invalid_index)) [
  | inl t ↦ absurd (cc (empty_of_head c p s (k ∷ rest) v t))
  | inr f ↦ f
]

later : (j k : ℕ) (rest : List ℕ) → contains j rest ≡ true → contains j (k ∷ rest) ≡ true
unfolding contains
later j k rest h = ground arith

head_unused : (s : Span) (k : ℕ) (rest : List ℕ) → in_use s (k ∷ rest) k ≡ false
unfolding in_use contains
head_unused s k rest = ground arith

now_used :
    (n k j : ℕ) (rest : List ℕ)
    → k < n
    → contains k rest ≡ false
    → (ltb j n && not (contains j rest)) ≡ ((j == k) || (ltb j n && not (contains j (k ∷ rest))))
unfolding contains
now_used n k j rest lt out = elim (Bool-cases (j == k)) [
  | inl t ↦
      let e = ==→eq j k t in
      let below : ltb j n ≡ true = lt→ltb _ _ (omega arith) in
      let fresh : contains j rest ≡ false = ap (λ m. contains m rest) e ∙ out in
      rw (t, below, fresh) refl
  | inr f ↦ rw f refl
]

module _ (sys : System) (fuel : ℕ) where
  take_head :
      (c : Central) (p : Ptr) (s : Span) (k : ℕ) (rest : List ℕ)
      → SpanOk c p s (k ∷ rest)
      → (ptr : Ptr) × (c' : Central) × (take_from sys fuel p c ≡ some (ptr, c'))
        × Taken c p s (k ∷ rest) ptr c'
  unfolding take_from take_object index_to_ptr in_use contains
  take_head c p s k rest v =
      let base = s.start * page_size in
      let size = c.cfl.size in
      let out = take_object base size s.freelist_head c.mem in
      let r = take_object-IsChain base size v.room v.fits c.mem s.freelist_head k rest v.chain in
      let s1 = record s { freelist_head = out.1; num_free_objects = sub32 s.num_free_objects 1 } in
      let c1 : Central = record c { mem = out.2 } in
      let c2 : Central = record c1 {
        heap = record c.heap { spans = update c.heap.spans p (some s1) };
        cfl = record c.cfl { num_free = sub32 c.cfl.num_free 1 };
      } in
      let few = length-Distinct s.next_uninitialized (k ∷ rest) v.distinct v.started in
      let here = v.started k (ground arith) in
      let base_ok = base-eq s.start size (omega (arith, v.room)) v.fits in
      (
        out.0,
        c2,
        rw
            (
              central_load-ok c p s v.live v.at,
              head_valid c p s k rest v,
              central_load-ok c p s v.live v.at,
              head_valid c p s k rest v,
              base_ok,
              central_modify-ok c1 p s
                  (λ t. record t {
                    freelist_head = out.1;
                    num_free_objects = sub32 t.num_free_objects 1;
                  })
                  v.live v.at,
            )
            refl,
        record {
          k = k;
          rest = rest;
          s' = s1;
          address = r.0;
          order = inr refl;
          inside = omega (arith, here, v.upto);
          unused = head_unused s k rest;
          ok = record {
            live = v.live;
            at = update_self c.heap.spans p (some s1);
            room = v.room;
            fits = v.fits;
            chain = r.1;
            distinct = v.distinct.1;
            started = λ j h. v.started j (later j k rest h);
            upto = v.upto;
            small = v.small;
            counted = omega (arith, few, v.counted, v.upto, v.small);
            class_counted = omega (arith, few, v.upto, v.small);
            class_small = omega (arith, few, v.upto, v.small);
          };
          same_start = refl;
          same_total = refl;
          kept = (refl, refl, refl, refl);
          heap = refl;
          cfl = refl;
          class_count = omega (arith, few, v.upto, v.small, v.class_counted, v.class_small);
          now = λ j. now_used s.next_uninitialized k j rest here v.distinct.0;
        },
      )

  after_populate :
      (c c1 : Central) (p : Ptr) (s s1 : Span) (k : ℕ) (rest : List ℕ)
      → SpanOk c p s []
      → SpanOk c1 p s1 (k ∷ rest)
      → populate_span p c ≡ some (tt, c1)
      → take_from sys fuel p c ≡ take_from sys fuel p c1
  unfolding take_from
  after_populate c c1 p s s1 k rest v w run =
      let here = central_load-ok c1 p s1 w.live w.at in
      let valid = head_valid c1 p s1 k rest w in
      rw (central_load-ok c p s v.live v.at, head_of_empty c p s v, run, here, valid, here, valid)
        refl

  -- Let a span of a central free list be in order: its packed nodes hold the given free objects,
  -- none twice and all below `next_uninitialized`, and the counts of the span and of the class
  -- agree with them. If an object is free or was never used, the second half of `allocate` on this
  -- span ends and returns the address of an object of the span which no client holds: the first
  -- free one, or one that `populate_span` made free. After it the span is in order, and the objects
  -- in use are those from before and this one.
  pub take_from-Taken :
      (c : Central) (p : Ptr) (s : Span) (free : List ℕ)
      → SpanOk c p s free
      → 0 < length free + (s.total_objects - s.next_uninitialized)
      → (ptr : Ptr) × (c' : Central) × (take_from sys fuel p c ≡ some (ptr, c'))
        × Taken c p s free ptr c'
  take_from-Taken c p s (k ∷ rest) v more = take_head c p s k rest v
  take_from-Taken c p s [] v more =
      let (c1, run, r) = populate_span-Populated c p s v (omega (arith, v.upto)) in
      let (ptr, c2, e, t) = take_head c1 p r.s' r.k r.rest r.ok in
      let same = after_populate c c1 p s r.s' r.k r.rest v r.ok run in
      (
        ptr,
        c2,
        same ∙ e,
        record {
          k = t.k;
          rest = t.rest;
          s' = t.s';
          order = inl refl;
          address =
              t.address ∙ ap₂ (λ a b. index_to_ptr t.k (a * page_size) b) r.same_start r.same_size;
          inside = omega (arith, t.inside, r.same_total);
          unused = sym (r.same t.k) ∙ t.unused;
          ok = t.ok;
          same_start = t.same_start ∙ r.same_start;
          same_total = t.same_total ∙ r.same_total;
          kept =
              (t.kept.0 ∙ r.kept.0, t.kept.1 ∙ r.kept.1, t.kept.2 ∙ r.kept.2, t.kept.3 ∙ r.kept.3);
          heap =
              t.heap
              ∙ ap (λ (h : PageHeap). record h { spans = update h.spans p (some t.s') }) r.heap
              ∙ ap (λ m. record c.heap { spans = m }) (update_twice c.heap.spans p _ _);
          cfl = t.cfl ∙ ap (λ (l : CentralFreeList). record l { num_free = c2.cfl.num_free }) r.cfl;
          class_count = omega (arith, t.class_count, r.class_count);
          now = λ j. t.now j ∙ ap (λ b. (j == t.k) || b) (r.same j);
        },
      )

  -- A span without a node and without objects that were never used.
  pub take_from-empty :
      (c : Central) (p : Ptr) (s : Span)
      → p ≢ null
      → c.heap.spans p ≡ some s
      → (s.freelist_head == invalid_index) ≡ true
      → s.total_objects ≤ s.next_uninitialized
      → take_from sys fuel p c ≡ some (null, c)
  unfolding take_from populate_span
  take_from-empty c p s live at no_node all =
      let nn : (p == null) ≡ false = ground (arith, live) in
      let full : leb s.total_objects s.next_uninitialized ≡ true = ground arith in
      let here = central_load-ok c p s live at in
      rw (here, no_node, nn, here, full, here, no_node) refl

  -- On a span in order that has no free object and none that was never used, the second half of
  -- `allocate` returns `nullptr` and changes nothing.
  take_from-null :
      (c : Central) (p : Ptr) (s : Span)
      → SpanOk c p s []
      → s.next_uninitialized ≡ s.total_objects
      → take_from sys fuel p c ≡ some (null, c)
  take_from-null c p s v all =
      take_from-empty c p s v.live v.at (head_of_empty c p s v) (omega arith)
