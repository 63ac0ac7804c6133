-- ===== src/CentralFreeList/Fetch/Outcome.antt =====
-- What `allocate` returns when no span of the class has an object left.
use allocator.Prelude.{
  Bool-cases, ==→eq, update, none, Bool, ℕ, ◌+◌, ◌*◌, ◌/◌, ◌^◌, ◌≤◌, ◌<◌, ◌≡◌, ◌≢◌, refl, sym, ap,
  ◌∙◌, inl, inr, true, false, Option, some, List, [], ◌∷◌, arith, ◌==◌, ◌⊎◌, if◌then◌else◌, Ptr,
  null,
}
use mathlib.Core.Path.{subst}
use allocator.Config.{page_size}
use allocator.PageHeap
use allocator.PageHeap.State.{Span, System, PageHeap, invalid_index}
use allocator.PageHeap.Dll.{Cells}
use allocator.CentralFreeList.{
  Central, CentralFreeList, pure, and_then, choose_span, take_from, allocate,
}
use allocator.CentralFreeList.Nodes.Chain.{contains, free_objects}
use allocator.CentralFreeList.Objects.{SpanOk, in_use}
use allocator.CentralFreeList.Objects.Take.{Taken, take_from-Taken, take_from-empty}
use allocator.CentralFreeList.Fetch.{Exhausted}
use allocator.CentralFreeList.Fetch.Chosen.{Ready, Fetched}
use allocator.PageHeap.Invariant.{WellFormed, nothing}
use allocator.CentralFreeList.{has_objects}
use allocator.CentralFreeList.Fetch.{write-WellFormed}
use allocator.CentralFreeList.Fetch.Choice.{StartsAs, Unserved, choose_span-Chosen}

div-small : (a b : ℕ) → a < b → a / b ≡ 0
div-small a b h = grind arith

div-pos : (a b : ℕ) → 0 < b → b ≤ a → 0 < a / b
div-pos a b pos h = grind arith

not_used : (s : Span) (j : ℕ) → s.next_uninitialized ≡ 0 → in_use s [] j ≡ false
unfolding in_use
not_used s j e = ground arith

-- A new span is in order.
Fetched-SpanOk :
    (sys : System) (c c' : Central) (ps : List Ptr) (p : Ptr) (f : Fetched sys c c' ps p)
    → 4 ≤ c.cfl.size
    → f.t.start * page_size + 65536 * c.cfl.size ≤ 2 ^ 64
    → c.cfl.pages * page_size / c.cfl.size ≤ invalid_index
    → c.cfl.num_free + c.cfl.pages * page_size / c.cfl.size < 2 ^ 32
    → SpanOk c' p f.t []
unfolding free_objects contains
Fetched-SpanOk sys c c' ps p f room low few count =
    let size : c'.cfl.size ≡ c.cfl.size = ap (λ (l : CentralFreeList). l.size) f.cfl in
    let free : c'.cfl.num_free ≡ c.cfl.num_free = ap (λ (l : CentralFreeList). l.num_free) f.cfl in
    record {
      live = ground (arith, f.ok.lists_ok.null_dead, f.at);
      at = f.at;
      room = omega arith;
      fits = omega arith;
      chain = record { nodes = []; at_head = f.no_node; objects = refl; chain = tt };
      distinct = tt;
      started = λ k h. absurd (cc h);
      upto = omega (arith, f.no_used);
      small = omega (arith, f.total);
      counted = f.no_free;
      class_counted = omega arith;
      class_small = omega (arith, f.total, free);
    }

-- The span is the current one and the first of the class, in front of the others.
pub record Installed (sys : System) (c c' : Central) (ps : List Ptr) (p : Ptr) (t : Span)
    : Type 0 where
  pub lists : ℕ → Cells
  pub ok : WellFormed sys c'.heap lists nothing
  pub at : c'.heap.spans p ≡ some t
  pub used : t.is_free ≡ false
  pub pages : t.num_pages ≡ c.cfl.pages
  pub total : t.total_objects ≡ c.cfl.pages * page_size / c.cfl.size
  pub cfl : c'.cfl ≡ record c.cfl { span_list = p; current_span = p; num_free = c'.cfl.num_free }
  pub behind : Exhausted c'.heap.spans t.next ps

-- A span with objects is not among those without.
Exhausted-update :
    (spans : Ptr → Option Span) (p : Ptr) (s t : Span) (head : Ptr) (ps : List Ptr)
    → spans p ≡ some s
    → has_objects s ≡ true
    → Exhausted spans head ps
    → Exhausted (update spans p (some t)) head ps
Exhausted-update spans p s t head [] at more e = e
Exhausted-update spans p s t head (q ∷ ps) at more (here, live, u, u_at, used, no_more, rest) =
    let ne : (p == q) ≡ false = elim (Bool-cases (p == q)) [
      | inr f ↦ f
      | inl same ↦
          let both : some s ≡ some u = sym at ∙ ap spans (==→eq p q same) ∙ u_at in
          absurd (cc (sym more ∙ ap has_some both ∙ no_more))
    ] in
    (here, live, u, rw ne u_at, used, no_more, Exhausted-update spans p s t u.next ps at more rest)
  where
    has_some : Option Span → Bool
    has_some none = false
    has_some (some w) = has_objects w

Fetched-Installed :
    (sys : System) (c c1 c' : Central) (ps : List Ptr) (p ptr : Ptr) (f : Fetched sys c c1 ps p)
    (t : Taken c1 p f.t [] ptr c')
    → 0 < c.cfl.pages * page_size / c.cfl.size
    → Installed sys c c' ps p t.s'
Fetched-Installed sys c c1 c' ps p ptr f t pos =
    let more : has_objects f.t ≡ true = ground (arith, f.total, f.no_used) in
    let spans = ap (λ (h : PageHeap). h.spans) t.heap in
    record {
      lists = f.lists;
      ok =
          subst (λ h. WellFormed sys h f.lists nothing) (sym t.heap)
            (write-WellFormed sys c1.heap f.lists p f.t t.s' f.ok f.at f.used
              (t.same_start, t.kept.0) (t.kept.1 ∙ f.used));
      at = t.ok.at;
      used = t.kept.1 ∙ f.used;
      pages = t.kept.0 ∙ f.pages;
      total = t.same_total ∙ f.total;
      cfl = t.cfl ∙ ap (λ (l : CentralFreeList). record l { num_free = c'.cfl.num_free }) f.cfl;
      behind =
          subst (λ m. Exhausted m t.s'.next ps) (sym spans)
            (subst (λ q. Exhausted (update c1.heap.spans p (some t.s')) q ps) (sym t.kept.2)
              (Exhausted-update c1.heap.spans p f.t t.s' f.t.next ps f.at more f.behind));
    }

module _ (sys : System) (fuel : ℕ) (c : Central) (lists : ℕ → Cells) (ps : List Ptr)
    (r : Ready sys fuel c lists ps) where
  -- `allocate` goes on with the span that was chosen.
  allocate-take_from :
      (c' : Central) (p : Ptr)
      → choose_span sys fuel c ≡ some (tt, c')
      → c'.cfl.current_span ≡ p
      → p ≢ null
      → allocate sys fuel c ≡ take_from sys fuel p c'
  unfolding allocate
  allocate-take_from c' p run here live =
      let nn : (p == null) ≡ false = ground arith in
      ap
        (λ (o : Option (Unit {0} × Central)). and_then o (λ _ d.
          (if d.cfl.current_span == null then pure null else take_from sys fuel d.cfl.current_span)
            d))
        run
      ∙ ap (λ q. (if q == null then pure null else take_from sys fuel q) c') here
      ∙ ap (λ b. (if b then pure null else take_from sys fuel p) c') nn

  -- No object fits a span of a class whose objects are larger than its pages.
  no_objects : c.cfl.pages * page_size < c.cfl.size → c.cfl.pages * page_size / c.cfl.size ≡ 0
  no_objects large = div-small (c.cfl.pages * page_size) c.cfl.size large

  -- On a class whose objects are larger than its pages, over a well-formed page heap, if no span of
  -- the class has an object left, `allocate` ends and returns `nullptr`, whatever `allocate_span`
  -- returns. If that is `nullptr`, no span has changed and none is current. If it is a span, this
  -- span, which was not in use before, is in use from then on, in front of the class's list and its
  -- current one, and again no span of the list has an object.
  pub allocate-Oversized :
      c.cfl.pages * page_size < c.cfl.size
      → (c' : Central) × (allocate sys fuel c ≡ some (null, c'))
        × (Unserved sys fuel c c'
            ⊎ ((p : Ptr) × (f : Fetched sys c c' ps p) × StartsAs sys fuel c p f.t
                × Exhausted c'.heap.spans p (p ∷ ps)))
  unfolding allocate
  allocate-Oversized large =
      let (c', run, a) = choose_span-Chosen sys fuel c lists ps r in
      elim a [
        | inl u ↦
            let no_span = ap (λ (l : CentralFreeList). l.current_span) u.cfl in
            (c', rw (run, no_span) refl, inl u)
        | inr (p, f, starts) ↦
            let live : p ≢ null = ground (arith, f.ok.lists_ok.null_dead, f.at) in
            let here = ap (λ (l : CentralFreeList). l.current_span) f.cfl in
            let none_left : f.t.total_objects ≤ f.t.next_uninitialized =
              omega (arith, f.total, no_objects large) in
            let no_node : (f.t.freelist_head == invalid_index) ≡ true = ground (arith, f.no_node) in
            (
              c',
              allocate-take_from c' p run here live
                  ∙ take_from-empty sys fuel c' p f.t live f.at no_node none_left,
              inr (
                p,
                f,
                starts,
                (refl, live, f.t, f.at, f.used, ground (arith, f.no_node, none_left), f.behind),
              ),
            )
      ]

  -- On a class whose objects have at least 4 bytes and no more than its pages, over a well-formed
  -- page heap, if no span of the class has an object left, and if the span that `allocate_span`
  -- gives lies so that its memory does not wrap, `allocate` ends. If `allocate_span` returns
  -- `nullptr`, so does `allocate`, and the spans and the memory are as before. If it returns a span,
  -- which was not in use before, this span of the class's pages is then the current one and the
  -- first of the class, with the others behind it, over a well-formed page heap; the result is the
  -- address of an object of this span, the span is in order, as many objects are counted in it as
  -- fit, and no other object of it is in use.
  pub allocate-Fetched :
      4 ≤ c.cfl.size
      → c.cfl.size ≤ c.cfl.pages * page_size
      → c.cfl.num_free + c.cfl.pages * page_size / c.cfl.size < 2 ^ 32
      → ((h : PageHeap) (p : Ptr) (s : Span)
          → PageHeap.allocate_span sys fuel c.cfl.pages c.cfl.size c.heap ≡ some (p, h)
          → h.spans p ≡ some s
          → s.start * page_size + 65536 * c.cfl.size ≤ 2 ^ 64)
      → (ptr : Ptr) × (c' : Central) × (allocate sys fuel c ≡ some (ptr, c'))
        × (((ptr ≡ null) × Unserved sys fuel c c')
            ⊎ ((p : Ptr) × (c1 : Central) × (f : Fetched sys c c1 ps p) × StartsAs sys fuel c p f.t
                × (t : Taken c1 p f.t [] ptr c') × Installed sys c c' ps p t.s'
                × ((j : ℕ) → in_use t.s' t.rest j ≡ (j == t.k))))
  unfolding allocate
  allocate-Fetched room fits few low =
      let (c1, run, a) = choose_span-Chosen sys fuel c lists ps r in
      elim a [
        | inl u ↦
            let no_span = ap (λ (l : CentralFreeList). l.current_span) u.cfl in
            (null, c1, rw (run, no_span) refl, inl (refl, u))
        | inr (p, f, starts) ↦
            let live : p ≢ null = ground (arith, f.ok.lists_ok.null_dead, f.at) in
            let here = ap (λ (l : CentralFreeList). l.current_span) f.cfl in
            let (h, s, ran, at, start) = starts in
            let some_object = div-pos (c.cfl.pages * page_size) c.cfl.size r.size_pos fits in
            let v : SpanOk c1 p f.t [] =
              Fetched-SpanOk sys c c1 ps p f room
                (subst (λ x. x * page_size + 65536 * c.cfl.size ≤ 2 ^ 64) (sym start)
                  (low h p s ran at))
                r.few few in
            let (ptr, c', run', t) =
              take_from-Taken sys fuel c1 p f.t [] v
                (omega (arith, f.total, f.no_used, some_object)) in
            (
              ptr,
              c',
              allocate-take_from c1 p run here live ∙ run',
              inr (
                p,
                c1,
                f,
                starts,
                t,
                Fetched-Installed sys c c1 c' ps p ptr f t
                    (div-pos (c.cfl.pages * page_size) c.cfl.size r.size_pos fits),
                λ j. t.now j ∙ ground (arith, not_used f.t j f.no_used),
              ),
            )
      ]
