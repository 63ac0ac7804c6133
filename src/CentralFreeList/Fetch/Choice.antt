-- ===== src/CentralFreeList/Fetch/Choice.antt =====
-- The span that `choose_span` makes the current one when no span of the class has an object left.
use allocator.Prelude.{
  ℕ, ◌≡◌, refl, ap, ◌∙◌, inl, inr, false, Option, none, some, List, arith, ◌==◌, ◌||◌, ◌⊎◌, Ptr,
  null,
}
use allocator.PageHeap
use allocator.PageHeap.State.{Span, System, PageHeap}
use allocator.PageHeap.Dll.{Cells}
use allocator.PageHeap.Invariant.{WellFormed, nothing}
use allocator.PageHeap.Invariant.Allocate.{allocate_span-WellFormed}
use allocator.CentralFreeList.{
  Central, span_has_available_objects, in_heap, fetch_from_page_heap, choose_span,
  find_available_span,
}
use allocator.CentralFreeList.Objects.Populate.{central_load-ok}
use allocator.CentralFreeList.Fetch.{find_loop-Exhausted}
use allocator.CentralFreeList.Fetch.Chosen.{Ready, Fetched, adopt-Fetched}

-- The page heap has no span: nothing has changed but that there is no current span.
pub record Unserved (sys : System) (fuel : ℕ) (c c' : Central) : Type 0 where
  pub lists : ℕ → Cells
  pub ok : WellFormed sys c'.heap lists nothing
  pub refused : PageHeap.allocate_span sys fuel c.cfl.pages c.cfl.size c.heap ≡ some (null, c'.heap)
  pub spans : c'.heap.spans ≡ c.heap.spans
  pub mem : c'.mem ≡ c.mem
  pub cfl : c'.cfl ≡ record c.cfl { current_span = null }

-- It is the span that the page heap gave, and begins where that did.
abbrev pub StartsAs : System → (fuel : ℕ) → Central → Ptr → Span → Type 0
StartsAs sys fuel c p t =
    (h : PageHeap) × (s : Span) × (PageHeap.allocate_span sys fuel c.cfl.pages c.cfl.size c.heap
      ≡ some (p, h))
    × (h.spans p ≡ some s)
    × (t.start ≡ s.start)

abbrev pub Chosen : System → (fuel : ℕ) → (c c' : Central) → List Ptr → Type 0
Chosen sys fuel c c' ps =
    Unserved sys fuel c c' ⊎ ((p : Ptr) × (f : Fetched sys c c' ps p) × StartsAs sys fuel c p f.t)

module _ (sys : System) (fuel : ℕ) (c : Central) (lists : ℕ → Cells) (ps : List Ptr)
    (r : Ready sys fuel c lists ps) where
  -- No current span.
  abbrev without : Central
  without = record c { cfl = record c.cfl { current_span = null } }

  without-Ready : Ready sys fuel without lists ps
  without-Ready = record {
    ok = r.ok;
    pages_pos = r.pages_pos;
    pages_max = r.pages_max;
    size_pos = r.size_pos;
    few = r.few;
    fresh = r.fresh;
    enough = r.enough;
    exhausted = r.exhausted;
    walk = r.walk;
    current = inl refl;
  }

  abbrev Fetched-without :
      (c' : Central) (p : Ptr) → Fetched sys without c' ps p → Fetched sys c c' ps p
  Fetched-without c' p f = record {
    t = f.t;
    lists = f.lists;
    ok = f.ok;
    at = f.at;
    used = f.used;
    pages = f.pages;
    total = f.total;
    no_free = f.no_free;
    no_used = f.no_used;
    no_node = f.no_node;
    new = f.new;
    behind = f.behind;
    cfl = f.cfl;
    mem = f.mem;
  }

  allocated :
      (p : Ptr) (h1 : PageHeap)
      → PageHeap.allocate_span sys fuel c.cfl.pages c.cfl.size c.heap ≡ some (p, h1)
      → in_heap (PageHeap.allocate_span sys fuel c.cfl.pages c.cfl.size) without
        ≡ some (p, record without { heap = h1 })
  allocated p h1 run =
      ap
        (λ (o : Option (Ptr × PageHeap)). elim o [
          | none ↦ none
          | some (a, h) ↦ some (a, record without { heap = h })
        ])
        run

  fetch-Chosen :
      (c' : Central) × (fetch_from_page_heap sys fuel without ≡ some (tt, c'))
      × Chosen sys fuel c c' ps
  unfolding fetch_from_page_heap
  fetch-Chosen =
      let sized : (c.cfl.size == 0 || c.cfl.pages == 0) ≡ false =
        ground (arith, r.size_pos, r.pages_pos) in
      let (p, h1, run, a) =
        allocate_span-WellFormed sys fuel c.cfl.pages c.cfl.size c.heap lists r.ok r.pages_pos
          r.pages_max r.fresh r.enough in
      elim a [
        | inl (e, spans, ok) ↦ (
          record without { heap = h1 },
          rw (sized, allocated p h1 run, e) refl,
          inl (record {
            lists = lists;
            ok = ok;
            refused = run ∙ ap (λ q. some (q, h1)) e;
            spans = spans;
            mem = refl;
            cfl = refl;
          }),
        )
        | inr (t, for, new, l) ↦
            let nn : (p == null) ≡ false = ground (arith, l.ok.lists_ok.null_dead, l.at) in
            let (c', run', f, starts) =
              adopt-Fetched sys fuel without lists ps without-Ready p h1 t for new l in
            (
              c',
              rw (sized, allocated p h1 run, nn) run',
              inr (p, Fetched-without c' p f, (h1, t, run, l.at, starts)),
            )
      ]

  unavailable : span_has_available_objects c.cfl.current_span c ≡ some (false, c)
  unfolding span_has_available_objects
  unavailable = elim r.current [
    | inl e ↦ rw e refl
    | inr (s, live, at, no_more) ↦
        let nn : (c.cfl.current_span == null) ≡ false = ground arith in
        rw (nn, central_load-ok c c.cfl.current_span s live at, no_more) refl
  ]

  walked : find_available_span sys fuel c ≡ some (null, c)
  unfolding find_available_span
  walked = find_loop-Exhausted fuel c c.cfl.span_list ps r.exhausted r.walk

  pub choose_span-Chosen :
      (c' : Central) × (choose_span sys fuel c ≡ some (tt, c')) × Chosen sys fuel c c' ps
  unfolding choose_span
  choose_span-Chosen = let (c', run, a) = fetch-Chosen in (c', rw (unavailable, walked) run, a)
