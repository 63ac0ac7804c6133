-- ===== src/PageHeap/Invariant/Coalesce.antt =====
-- `coalesce` on a well-formed heap.
use allocator.Prelude.{
  ℕ, ◌+◌, ◌-◌, ◌*◌, ◌≤◌, ◌<◌, ◌≡◌, ◌≢◌, refl, ap, ◌∙◌, true, false, not, ◌&&◌, Option, none, some,
  arith, ◌==◌, if◌then◌else◌, Ptr, null, Bool-cases, Option-cases, inl, inr,
}
use allocator.Config.{max_pages}
use allocator.PageHeap.State.{Span, System, PageHeap, Cmd, ◌>>=◌, pure}
use allocator.PageHeap.Steps.{load-ok}
use allocator.PageHeap.Pages.{lookup}
use allocator.PageHeap.Dll.{Cells}
use allocator.PageHeap.Shape.{extent, Halves, within}
use allocator.PageHeap.Invariant.{WellFormed, Leaves, Leaves-trans, only}
use allocator.PageHeap.Invariant.Merge.{join, Takes, join-Leaves}
use allocator.PageHeap.{can_merge, merge_left, merge_right, coalesce}

pub live_of_shape :
    (o : Option Span) (start n : ℕ)
    → extent o ≡ some (start, n)
    → (u : Span) × (o ≡ some u) × (u.start ≡ start) × (u.num_pages ≡ n)
live_of_shape none start n e = absurd (cc e)
live_of_shape (some u) start n e = (u, refl, ap first e, ap second e)
  where
    first : Option (ℕ × ℕ) → ℕ
    first none = 0
    first (some (a, b)) = a

    second : Option (ℕ × ℕ) → ℕ
    second none = 0
    second (some (a, b)) = b

-- Three stages of a step on `p`: it is still in hand, and has grown by at most `MAX_PAGES`.
abbrev pub Grown :
    System
    → (h : PageHeap) → (lists : ℕ → Cells) → Ptr
    → Span
    → (more : ℕ) → Option (Unit {0} × PageHeap)
    → Type 0
Grown sys h lists p s more o =
    (h' : PageHeap) × (t : Span) × (o ≡ some (tt, h'))
    × (t.start ≤ s.start)
    × (s.start + s.num_pages ≤ t.start + t.num_pages)
    × (t.num_pages ≤ s.num_pages + more * max_pages)
    × Leaves sys h h' lists (only p) p t more

module _ (sys : System) (fuel : ℕ) (h : PageHeap) (lists : ℕ → Cells) (p : Ptr) (s : Span)
    (v : WellFormed sys h lists (only p)) (at : h.spans p ≡ some s) where
  unchanged : Grown sys h lists p s 1 (some (tt, h))
  unchanged = (
    h,
    s,
    refl,
    omega arith,
    omega arith,
    omega arith,
    record {
      lists' = lists;
      ok = v;
      at = at;
      kept = λ a u ne used. ((λ e. e), (λ e. e));
      covered = λ q e. e;
      lengths = λ n. omega arith;
    },
  )

  -- The step of `coalesce` at one page: a merge, if the page belongs to another span and that is free.
  module _ (q : ℕ) (merge : Ptr → Cmd (Unit {0})) (take : Span → Span → Span)
      (merge-join : (l : Ptr) → merge l h ≡ join take p l h)
      (place : (l : Ptr) (u : Span)
        → h.spans l ≡ some u
        → (p == l) ≡ false
        → within u.start u.num_pages q ≡ true
        → (start : ℕ) × (k : ℕ) × Takes take s u start k
          × Halves start k s.start s.num_pages u.start u.num_pages) where
    try_merge :
        Grown sys h lists p s 1
          ((do l ← lookup q; ok ← can_merge sys fuel l p; if ok then merge l else pure tt) h)
    unfolding lookup can_merge
    try_merge = elim (Option-cases (h.page_map q)) [
      | inl nobody ↦ rw nobody unchanged
      | inr (l, owner) ↦
          let (a, n, e, w) = v.pages_ok.owned q l owner in
          let (u, at_l, first, second) = live_of_shape (h.spans l) a n e in
          let live : l ≢ null = ground (arith, v.lists_ok.null_dead) in
          let nn : (l == null) ≡ false = ground arith in
          elim (Bool-cases (u.is_free && not (l == p))) [
            | inr kept_apart ↦ rw (owner, nn, load-ok h l u live at_l, kept_apart) unchanged
            | inl yes_merge ↦
                let free : u.is_free ≡ true = ground arith in
                let ne : (p == l) ≡ false = ground arith in
                let (start, k, takes, halves) = place l u at_l ne (ground arith) in
                let (h', t, ran, start', k', leaves) =
                  join-Leaves sys h lists p l s u v at at_l free ne take start k takes halves in
                let small = v.small l u at_l ne in
                rw (owner, nn, load-ok h l u live at_l, yes_merge)
                  (
                    h',
                    t,
                    merge-join l ∙ ran,
                    omega (arith, halves),
                    omega (arith, halves),
                    omega (arith, halves),
                    leaves,
                  )
          ]
    ]

  mine : (q : ℕ) → within s.start s.num_pages q ≡ true → h.page_map q ≡ some p
  mine = (v.pages_ok.mapped p s.start s.num_pages (ap extent at)).1

  -- The pages of another span are not those of `p`.
  not_mine :
      (l : Ptr) (u : Span)
      → h.spans l ≡ some u
      → (p == l) ≡ false
      → (q : ℕ) → within u.start u.num_pages q ≡ true
      → within s.start s.num_pages q ≡ false
  not_mine l u at_l ne q w = elim (Bool-cases (within s.start s.num_pages q)) [
    | inr f ↦ f
    | inl t ↦
        absurd (
          ground
            (arith, mine q t, (v.pages_ok.mapped l u.start u.num_pages (ap extent at_l)).1 q w))
  ]

  pos : 0 < s.num_pages
  pos = (v.pages_ok.mapped p s.start s.num_pages (ap extent at)).0

  left_Grown :
      0 < s.start
      → Grown sys h lists p s 1 (
          (do
            l ← lookup (s.start - 1)
            ok ← can_merge sys fuel l p
            if ok then merge_left sys fuel p l else pure tt)
            h)
  unfolding merge_left
  left_Grown low =
      try_merge (s.start - 1) (merge_left sys fuel p)
        (λ x t. record t { start = x.start; num_pages = t.num_pages + x.num_pages }) (λ l. refl)
        (λ l u at_l ne w.
          let out = not_mine l u at_l ne s.start in
          (
            u.start,
            s.num_pages + u.num_pages,
            (λ x a b. (a, ap (λ n. s.num_pages + n) b)),
            ground (arith, pos),
          ))

  right_Grown : Grown sys h lists p s 1 (
      (do
        l ← lookup (s.start + s.num_pages)
        ok ← can_merge sys fuel l p
        if ok then merge_right sys fuel p l else pure tt)
        h)
  unfolding merge_right
  right_Grown =
      try_merge (s.start + s.num_pages) (merge_right sys fuel p)
        (λ x t. record t { num_pages = t.num_pages + x.num_pages }) (λ l. refl)
        (λ l u at_l ne w.
          let out = not_mine l u at_l ne (s.start + s.num_pages - 1) in
          (
            s.start,
            s.num_pages + u.num_pages,
            (λ x a b. (refl, ap (λ n. s.num_pages + n) b)),
            ground (arith, pos),
          ))

-- `coalesce` of a span in hand returns, and the heap stays well-formed.
pub coalesce-Grown :
    (sys : System) (fuel : ℕ) (h : PageHeap) (lists : ℕ → Cells) (p : Ptr) (s : Span)
    → WellFormed sys h lists (only p)
    → h.spans p ≡ some s
    → Grown sys h lists p s 2 (coalesce sys fuel p h)
unfolding coalesce
coalesce-Grown sys fuel h lists p s v at =
    let live : p ≢ null = ground (arith, v.lists_ok.null_dead) in
    let (h1, t, ran, lo, hi, size, l) = first in
    let (h2, t', ran', lo', hi', size', l') = right_Grown sys fuel h1 l.lists' p t l.ok l.at in
    (
      h2,
      t',
      rw (load-ok h p s live at, ran, load-ok h1 p t live l.at) ran',
      omega arith,
      omega arith,
      omega arith,
      Leaves-trans sys h h1 h2 lists (only p) (only p) p t t' 1 1 l l',
    )
  where
    first : Grown sys h lists p s 1 (
        (if s.start == 0 then pure tt else do
          l ← lookup (s.start - 1)
          ok ← can_merge sys fuel l p
          if ok then merge_left sys fuel p l else pure tt)
          h)
    first = elim (Bool-cases (s.start == 0)) [
      | inl z ↦ rw z (unchanged sys fuel h lists p s v at)
      | inr nz ↦ rw nz (left_Grown sys fuel h lists p s v at (ground arith))
    ]
