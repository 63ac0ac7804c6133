-- ===== src/PageHeap/Invariant.antt =====
-- The invariant of the whole page heap.
pub mod Cut
pub mod Split
pub mod Allocate
pub mod Merge
pub mod Coalesce
pub mod Return
pub mod Runs
use allocator.Prelude.{
  ℕ, ◌+◌, ◌≤◌, ◌<◌, ◌≡◌, ◌≢◌, refl, sym, ap, ◌∙◌, Bool, true, false, Option, none, some, arith,
  ◌==◌, if◌then◌else◌, Ptr, null, update, Bool-cases, inl, inr, length, ==→eq,
}
use allocator.Config.{max_pages}
use allocator.PageHeap.State.{Span, System, PageHeap}
use allocator.PageHeap.Dll.{Cells, linked}
use allocator.PageHeap.Shape.{Shape, shape, extent, Pages, Pages-same}
use allocator.PageHeap.Lists.{
  pages_of, free_of, Lists, Unlisted, Lists-touch, Lists-out, used-Unlisted, dead-Unlisted,
}
use allocator.PageHeap.Lists.Relink.{Relinked}

-- How the spans come to be `spans'` with `calls'` calls: by calls that bring no span to life, writes
-- and `delete`, and by `new`.
pub data Later (sys : System) (spans' : Ptr → Option Span) (calls' : ℕ)
    : (Ptr → Option Span) → ℕ → Type 0 where
  now : Later sys spans' calls' spans' calls'
  changed :
      {spans next_spans : Ptr → Option Span} {calls next_calls : ℕ}
      → calls ≤ next_calls
      → ((a : Ptr) → spans a ≡ none → next_spans a ≡ none)
      → Later sys spans' calls' next_spans next_calls
      → Later sys spans' calls' spans calls
  created :
      {spans : Ptr → Option Span} {calls : ℕ} (t : Span)
      → Later sys spans' calls' (update spans (sys.new_span calls spans) (some t)) (calls + 1)
      → Later sys spans' calls' spans calls

-- From now on, `new` returns an object that is not null and not live when it is called. It may be one
-- that was live before and has been deleted.
pub record Fresh (sys : System) (spans : Ptr → Option Span) (calls : ℕ) : Type 0 where
  pub live :
      (spans' : Ptr → Option Span) (calls' : ℕ)
      → Later sys spans' calls' spans calls
      → sys.new_span calls' spans' ≢ null
  pub dead :
      (spans' : Ptr → Option Span) (calls' : ℕ)
      → Later sys spans' calls' spans calls
      → spans' (sys.new_span calls' spans') ≡ none

-- The free lists hold the free spans, the page map leads to every page's span and to no other, and a
-- span has at most `MAX_PAGES` pages. The spans of `out` are in the hands of a method: no list holds
-- them, and they may be larger.
pub record WellFormed (sys : System) (h : PageHeap) (lists : ℕ → Cells) (out : Ptr → Bool)
    : Type 0 where
  pub lists_ok : Lists h.spans h.free_lists lists out
  pub pages_ok : Pages (shape h.spans) h.page_map
  pub small : (p : Ptr) (s : Span) → h.spans p ≡ some s → out p ≡ false → s.num_pages ≤ max_pages
  pub fresh : Fresh sys h.spans h.calls

-- Room in the walks along the lists.
abbrev pub Enough : (fuel : ℕ) → (ℕ → Cells) → Type 0
Enough fuel lists = (n : ℕ) → length (lists n) < fuel

-- The spans in use other than `p` are as before, and there are no others in use.
abbrev pub Kept : PageHeap → PageHeap → Ptr → Type 0
Kept h h' p =
    (a : Ptr) (u : Span)
    → a ≢ p
    → u.is_free ≡ false
    → (h.spans a ≡ some u → h'.spans a ≡ some u) × (h'.spans a ≡ some u → h.spans a ≡ some u)

-- No page of a span has come to belong to none.
abbrev pub Covered : PageHeap → PageHeap → Type 0
Covered h h' = (q : ℕ) → h.page_map q ≢ none → h'.page_map q ≢ none

-- What a step on the span `p` leaves: a well-formed heap in which `p` is `t`, with at most `more` spans
-- more in each list.
pub record Leaves (sys : System) (h h' : PageHeap) (lists : ℕ → Cells) (out' : Ptr → Bool) (p : Ptr)
    (t : Span) (more : ℕ) : Type 0 where
  pub lists' : ℕ → Cells
  pub ok : WellFormed sys h' lists' out'
  pub at : h'.spans p ≡ some t
  pub kept : Kept h h' p
  pub covered : Covered h h'
  pub lengths : (n : ℕ) → length (lists' n) ≤ length (lists n) + more

-- Nothing is in hand.
abbrev pub nothing : Ptr → Bool
nothing a = false

-- Only `p` is in hand.
abbrev pub only : Ptr → Ptr → Bool
only p a = p == a

dead_of_extent : (o : Option Span) → extent o ≡ none → o ≡ none
dead_of_extent none e = refl
dead_of_extent (some s) e = absurd (cc e)

live_of_extent :
    (o o' : Option Span) (s : Span)
    → extent o ≡ extent o'
    → o ≡ some s
    → (t : Span) × (o' ≡ some t) × (t.num_pages ≡ s.num_pages)
live_of_extent o none s e at = absurd (cc (ap extent (sym at) ∙ e))
live_of_extent o (some t) s e at = (t, refl, ap (λ x. pages x) (sym e ∙ ap extent at))
  where
    pages : Option (ℕ × ℕ) → ℕ
    pages none = 0
    pages (some (a, b)) = b

module _ (sys : System) where
  -- Freshness outlasts what brings no new span to life.
  pub Fresh-mono :
      (spans spans' : Ptr → Option Span) (calls calls' : ℕ)
      → Fresh sys spans calls
      → calls ≤ calls'
      → ((a : Ptr) → spans a ≡ none → spans' a ≡ none)
      → Fresh sys spans' calls'
  Fresh-mono spans spans' calls calls' f le keep = record {
    live = λ s c l. f.live s c (changed le keep l);
    dead = λ s c l. f.dead s c (changed le keep l);
  }

  -- It outlasts a call of `new`.
  pub Fresh-created :
      (spans : Ptr → Option Span) (calls : ℕ) (t : Span)
      → Fresh sys spans calls
      → Fresh sys (update spans (sys.new_span calls spans) (some t)) (calls + 1)
  Fresh-created spans calls t f = record {
    live = λ s c l. f.live s c (created t l);
    dead = λ s c l. f.dead s c (created t l);
  }

  -- A span that is taken out of the lists, or put into them.
  pub WellFormed-Relinked :
      (h h' : PageHeap) (lists lists' : ℕ → Cells) (out : Ptr → Bool) (p : Ptr) (t : Span)
      → WellFormed sys h lists out
      → Relinked h h' lists lists' (update out p false) p t
      → t.num_pages ≤ max_pages
      → WellFormed sys h' lists' (update out p false)
  WellFormed-Relinked h h' lists lists' out p t v r le = record {
    lists_ok = r.lists_ok;
    pages_ok =
        Pages-same (shape h.spans) (shape h'.spans) h.page_map h'.page_map r.shapes
          (λ q. ap (λ m. m q) r.pages) v.pages_ok;
    small = λ a s e o. elim (Bool-cases (p == a)) [
      | inl k ↦
          let (q, w, at) = r.at in
          let size : s.num_pages ≡ t.num_pages =
            ap pages_of (sym e ∙ ap h'.spans (sym (==→eq p a k)) ∙ at) in
          omega arith
      | inr ne ↦
          let (u, at, size) = live_of_extent (h'.spans a) (h.spans a) s (r.shapes a) e in
          let old = v.small a u at (ground arith) in omega arith
    ];
    fresh =
        Fresh-mono h.spans h'.spans h.calls h'.calls v.fresh (omega (arith, r.calls))
          λ a d. dead_of_extent (h'.spans a) (r.shapes a ∙ ap extent d);
  }

  pub Kept-Relinked :
      (h h' : PageHeap) (lists lists' : ℕ → Cells) (out out' : Ptr → Bool) (p : Ptr) (t : Span)
      → WellFormed sys h lists out
      → Relinked h h' lists lists' out' p t
      → Kept h h' p
  Kept-Relinked h h' lists lists' out out' p t v r a u ne used =
      let forth = λ (w : Span) (e : h.spans a ≡ some w) (f : w.is_free ≡ false).
        r.loose a ne (used-Unlisted h.spans h.free_lists lists out v.lists_ok a w e f) in
      (
        (λ e. forth u e used ∙ e),
        λ e.
            let (w, at, size) = live_of_extent (h'.spans a) (h.spans a) u (r.shapes a) e in
            let f : w.is_free ≡ false =
              sym (ap free_of at) ∙ sym (r.frees a ne) ∙ ap free_of e ∙ used in
            sym (forth w at f) ∙ e,
      )

  pub WellFormed-out :
      (h : PageHeap) (lists : ℕ → Cells) (out out' : Ptr → Bool)
      → ((p : Ptr) → out' p ≡ out p)
      → WellFormed sys h lists out
      → WellFormed sys h lists out'
  WellFormed-out h lists out out' same v = record {
    lists_ok = Lists-out h.spans h.free_lists lists out v.lists_ok out' same;
    pages_ok = v.pages_ok;
    small = λ p s e o. v.small p s e (sym (same p) ∙ o);
    fresh = v.fresh;
  }

  -- A write to a span that no list holds, which does not move it.
  pub WellFormed-write :
      (h : PageHeap) (lists : ℕ → Cells) (out : Ptr → Bool) (p : Ptr) (s t : Span) (b : Bool)
      → WellFormed sys h lists out
      → h.spans p ≡ some s
      → Unlisted p lists
      → (t.start ≡ s.start) × (t.num_pages ≡ s.num_pages)
      → (t.is_free ≡ true → b ≡ true)
      → (b ≡ false → s.num_pages ≤ max_pages)
      → WellFormed sys (record h { spans = update h.spans p (some t) }) lists (update out p b)
  WellFormed-write h lists out p s t b v at alone fields free le = record {
    lists_ok =
        Lists-touch h.spans h.free_lists lists out v.lists_ok p (some t) b
          (ground (arith, v.lists_ok.null_dead)) alone (λ u e f. free (ap free_of e ∙ f));
    pages_ok =
        Pages-same (shape h.spans) _ h.page_map h.page_map (λ a. ground arith) (λ q. refl)
          v.pages_ok;
    small = λ a u e o. elim (Bool-cases (p == a)) [
      | inl k ↦ ground arith
      | inr ne ↦ v.small a u (ground arith) (ground arith)
    ];
    fresh = Fresh-mono h.spans _ h.calls h.calls v.fresh (omega arith) λ a d. ground arith;
  }

-- Two steps on the same span.
pub Leaves-trans :
    (sys : System) (h h1 h2 : PageHeap) (lists : ℕ → Cells) (out1 out2 : Ptr → Bool) (p : Ptr)
    (t1 t2 : Span) (m n : ℕ)
    → (l : Leaves sys h h1 lists out1 p t1 m) → Leaves sys h1 h2 l.lists' out2 p t2 n
    → Leaves sys h h2 lists out2 p t2 (m + n)
Leaves-trans sys h h1 h2 lists out1 out2 p t1 t2 m n l r = record {
  lists' = r.lists';
  ok = r.ok;
  at = r.at;
  kept = λ a u ne used.
      let (to, from) = l.kept a u ne used in
      let (to', from') = r.kept a u ne used in ((λ e. to' (to e)), (λ e. from (from' e)));
  covered = λ q e. r.covered q (l.covered q e);
  lengths = λ k. omega (arith, l.lengths k, r.lengths k);
}
