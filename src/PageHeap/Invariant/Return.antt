-- ===== src/PageHeap/Invariant/Return.antt =====
-- `return_span` on a well-formed heap.
use allocator.Prelude.{
  ℕ, zero, suc, ◌+◌, ◌-◌, ◌*◌, ◌≤◌, ◌<◌, ◌≡◌, ◌≢◌, refl, sym, ap, ◌∙◌, Bool, true, false, some,
  arith, ltb, ◌==◌, if◌then◌else◌, Ptr, null, update, update-ne, Bool-cases, Option-cases, inl, inr,
  length, ==→eq, ltb→lt, ltb→le,
}
use allocator.Config.{max_pages}
use allocator.PageHeap.State.{
  Span, blank_span, System, PageHeap, Cmd, ◌>>=◌, ◌>>◌, modify, new_object,
}
use allocator.PageHeap.Pages.{register_span, unregister_span}
use allocator.PageHeap.Steps.{load-ok, modify-ok}
use allocator.PageHeap.FreeLists.{insert}
use allocator.PageHeap.Dll.{Cells}
use allocator.PageHeap.Insertion.{freed}
use allocator.PageHeap.Shape.{extent, within}
use allocator.PageHeap.Lists.{free_of, used-Unlisted}
use allocator.PageHeap.Lists.Relink.{insert-Relinked}
use allocator.PageHeap.Invariant.{
  now, WellFormed, Covered, Kept, Kept-Relinked, only, nothing, WellFormed-Relinked, WellFormed-out,
  WellFormed-write,
}
use allocator.PageHeap.Invariant.Cut.{cut-runs, cut-Leaves}
use allocator.PageHeap.Invariant.Coalesce.{coalesce-Grown, live_of_shape}
use allocator.PageHeap.{carve, return_span}

-- What is left once a span is given back: a well-formed heap with the same spans in use but for `p`,
-- and at most `more` spans more in each list.
pub record Released (sys : System) (h h' : PageHeap) (lists : ℕ → Cells) (p : Ptr) (more : ℕ)
    : Type 0 where
  pub lists' : ℕ → Cells
  pub ok : WellFormed sys h' lists' nothing
  pub kept : Kept h h' p
  pub covered : Covered h h'
  pub free : free_of (h'.spans p) ≡ true
  pub lengths : (n : ℕ) → length (lists' n) ≤ length (lists n) + more

Released-trans :
    (sys : System) (h h1 h2 : PageHeap) (lists lists1 : ℕ → Cells) (p : Ptr) (m n : ℕ)
    → Kept h h1 p
    → Covered h h1
    → ((k : ℕ) → length (lists1 k) ≤ length (lists k) + m)
    → Released sys h1 h2 lists1 p n
    → Released sys h h2 lists p (m + n)
Released-trans sys h h1 h2 lists lists1 p m n k c le r = record {
  lists' = r.lists';
  ok = r.ok;
  kept = λ a u ne used.
      let (to, from) = k a u ne used in
      let (to', from') = r.kept a u ne used in ((λ e. to' (to e)), (λ e. from (from' e)));
  covered = λ q e. r.covered q (c q e);
  free = r.free;
  lengths = λ i. omega (arith, r.lengths i, le i);
}

wider :
    (sys : System) (h h' : PageHeap) (lists : ℕ → Cells) (p : Ptr) (m n : ℕ)
    → m ≤ n
    → Released sys h h' lists p m
    → Released sys h h' lists p n
wider sys h h' lists p m n le r = record {
  lists' = r.lists';
  ok = r.ok;
  kept = r.kept;
  covered = r.covered;
  free = r.free;
  lengths = λ i. omega (arith, r.lengths i, le);
}

module _ (sys : System) (fuel : ℕ) (p : Ptr) where
  insert-Released :
      (h : PageHeap) (lists : ℕ → Cells) (s : Span)
      → WellFormed sys h lists (only p)
      → h.spans p ≡ some s
      → s.num_pages ≤ max_pages
      → length (lists s.num_pages) < fuel
      → (h' : PageHeap) × (insert fuel s.num_pages p h ≡ some (tt, h'))
        × Released sys h h' lists p 1
  insert-Released h lists s v at small enough =
      let (h', lists', ran, r) =
        insert-Relinked h lists (only p) v.lists_ok p s at fuel small (ground arith) enough in
      let (q, w, at') = r.at in
      (
        h',
        ran,
        record {
          lists' = lists';
          ok =
              WellFormed-out sys h' lists' _ nothing (λ a. ground arith)
                (WellFormed-Relinked sys h h' lists lists' (only p) p (freed s) v r small);
          kept = Kept-Relinked sys h h' lists lists' (only p) _ p (freed s) v r;
          covered = λ a e z. e (sym (ap (λ m. m a) r.pages) ∙ z);
          free = ap free_of at';
          lengths = r.lengths;
        },
      )

  -- The body of the loop.
  abbrev cut_front : (Span → Span) → Span → (rounds : ℕ) → Cmd (Unit {0})
  cut_front f front rounds = do
    q ← new_object sys front
    unregister_span p
    modify p f
    register_span p
    register_span q
    insert fuel max_pages q
    carve sys fuel rounds p

  -- `k` rounds are enough for `k` times `MAX_PAGES` pages.
  carve-Released :
      (rounds k : ℕ) (h : PageHeap) (lists : ℕ → Cells) (s : Span)
      → WellFormed sys h lists (only p)
      → h.spans p ≡ some s
      → s.num_pages ≤ k * max_pages
      → k < rounds
      → ((m : ℕ) → length (lists m) + k < fuel)
      → (h' : PageHeap) × (carve sys fuel rounds p h ≡ some (tt, h'))
        × Released sys h h' lists p (1 + k)
  unfolding carve
  carve-Released zero k h lists s v at size some_left enough = absurd (omega arith)
  carve-Released (suc rounds) k h lists s v at size some_left enough =
      let live : p ≢ null = ground (arith, v.lists_ok.null_dead) in
      let front = record blank_span { start = s.start; num_pages = max_pages; is_free = true } in
      let f = λ (t : Span). record t {
        start = t.start + max_pages;
        num_pages = t.num_pages - max_pages;
      } in
      elim (Bool-cases (ltb max_pages s.num_pages)) [
        | inr fits ↦
            let (h', ran, r) =
              insert-Released h lists s v at (ltb→le _ _ fits)
                (omega (arith, enough s.num_pages)) in
            (
              h',
              rw (load-ok h p s live at) (
                  ap
                    (λ (b : Bool).
                      (if b then cut_front f front rounds else insert fuel s.num_pages p) h)
                    fits
                  ∙ ran),
              wider sys h h' lists p 1 (1 + k) (omega arith) r,
            )
        | inl large ↦
            let less = ltb→lt _ _ large in
            let dead = v.fresh.dead h.spans h.calls now in
            let (h1, ran, l) =
              cut-Leaves sys h p s front f lists (only p) v at
                (v.lists_ok.unlisted p (ground arith)) fuel (omega arith) (λ e. ground arith) refl
                (ground arith) (omega arith) (λ m. omega (arith, enough m)) in
            let (h2, ran', r) =
              carve-Released rounds (k - 1) h1 l.lists' (f s) l.ok l.at (omega arith) (omega arith)
                (λ m. omega (arith, enough m, l.lengths m)) in
            (
              h2,
              rw (load-ok h p s live at, large)
                  (cut-runs sys h p s front f
                      (λ q. insert fuel max_pages q >> carve sys fuel rounds p) live at
                      (v.fresh.live h.spans h.calls now) (ground arith)
                    ∙ rw ran ran'),
              wider sys h h2 lists p (1 + (1 + (k - 1))) (1 + k) (omega arith) (
                  Released-trans sys h h1 h2 lists l.lists' p 1 (1 + (k - 1)) l.kept l.covered
                    l.lengths r),
            )
      ]

-- Every page of the span belongs to a free span after it is given back.
abbrev pub PagesFree : (h h' : PageHeap) → Span → Type 0
PagesFree h h' s =
    (q : ℕ)
    → within s.start s.num_pages q ≡ true
    → (r : Ptr) × (u : Span) × (h'.page_map q ≡ some r) × (h'.spans r ≡ some u) × (u.is_free ≡ true)

pages_free :
    (sys : System) (h h' : PageHeap) (lists : ℕ → Cells) (p : Ptr) (s : Span)
    → WellFormed sys h lists nothing
    → h.spans p ≡ some s
    → Released sys h h' lists p 6
    → PagesFree h h' s
pages_free sys h h' lists p s v at r q w =
    let mine = (v.pages_ok.mapped p s.start s.num_pages (ap extent at)).1 q w in
    elim (Option-cases (h'.page_map q)) [
      | inl nobody ↦ absurd (r.covered q (λ z. absurd (cc (sym mine ∙ z))) nobody)
      | inr (a, owner) ↦
          let (c, n, e, w') = r.ok.pages_ok.owned q a owner in
          let (u, at', first, second) = live_of_shape (h'.spans a) c n e in
          elim (Bool-cases u.is_free) [
            | inl free ↦ (a, u, owner, at', free)
            | inr used ↦ elim (Bool-cases (a == p)) [
              | inl k ↦
                  absurd (cc (sym used ∙ ap free_of (sym at' ∙ ap h'.spans (==→eq a p k)) ∙ r.free))
              | inr ne ↦
                  let before = (r.kept a u (ground arith) used).1 at' in
                  let yours =
                    (v.pages_ok.mapped a u.start u.num_pages (ap extent before)).1 q
                      (ground arith) in
                  absurd (ground arith)
            ]
          ]
    ]

-- On a well-formed heap (the lists hold exactly the free spans, the page map leads each page to its
-- span and no other, spans have at most `MAX_PAGES` pages, and what `new` will return is fresh),
-- with fuel for at least five more spans than any list has, `return_span` of a span in use ends and
-- leaves a well-formed heap. The spans in use are then those from before without this one,
-- unchanged; no page has become unmapped, and every page of the span belongs to a free span.
pub return_span-Released :
    (sys : System) (fuel : ℕ) (h : PageHeap) (lists : ℕ → Cells) (p : Ptr) (s : Span)
    → WellFormed sys h lists nothing
    → h.spans p ≡ some s
    → s.is_free ≡ false
    → ((m : ℕ) → length (lists m) + 5 < fuel)
    → (h' : PageHeap) × (return_span sys fuel p h ≡ some (tt, h'))
      × Released sys h h' lists p 6
      × PagesFree h h' s
unfolding return_span
return_span-Released sys fuel h lists p s v at used enough =
    let live : p ≢ null = ground (arith, v.lists_ok.null_dead) in
    let not_null : (p == null) ≡ false = ground arith in
    let s1 = record s { is_free = true; size = 0 } in
    let h1 : PageHeap = record h { spans = update h.spans p (some s1) } in
    let alone = used-Unlisted h.spans h.free_lists lists nothing v.lists_ok p s at used in
    let small = v.small p s at refl in
    let w1 =
      WellFormed-out sys h1 lists _ (only p) (λ a. ground arith)
        (WellFormed-write sys h lists nothing p s s1 true v at alone (refl, refl) (λ e. refl)
          (λ e. small)) in
    let at1 : h1.spans p ≡ some s1 = ground arith in
    let (h2, t, ran2, lo, hi, size, l) = coalesce-Grown sys fuel h1 lists p s1 w1 at1 in
    let (h3, ran3, r) =
      carve-Released sys fuel p fuel 3 h2 l.lists' t l.ok l.at (omega arith)
        (omega (arith, enough 0)) (λ m. omega (arith, enough m, l.lengths m)) in
    let kept1 : Kept h h1 p = λ a u ne us. (
      (λ e. update-ne h.spans p (some s1) a (λ k. ne (sym k)) ∙ e),
      (λ e. sym (update-ne h.spans p (some s1) a (λ k. ne (sym k))) ∙ e),
    ) in
    let done =
      Released-trans sys h h1 h3 lists lists p 0 6 kept1 (λ q e. e) (λ n. omega arith)
        (Released-trans sys h1 h2 h3 lists l.lists' p 2 4 l.kept l.covered l.lengths r) in
    (
      h3,
      rw (not_null, modify-ok h p s live at, ran2) ran3,
      done,
      pages_free sys h h3 lists p s v at done,
    )
