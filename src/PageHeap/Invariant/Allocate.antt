-- ===== src/PageHeap/Invariant/Allocate.antt =====
-- `allocate_span` on a well-formed heap.
use allocator.Prelude.{
  ℕ, zero, suc, ◌+◌, ◌-◌, ◌*◌, ◌/◌, ◌≤◌, ◌<◌, ◌≡◌, refl, sym, ap, ◌∙◌, true, false, ◌||◌, ◌⊎◌,
  Option, none, some, [], ◌∷◌, arith, ltb, ◌==◌, Ptr, null, update, Bool-cases, Option-cases, inl,
  inr, length,
}
use allocator.Config.{max_pages, page_size}
use allocator.PageHeap.State.{Span, blank_span, System, PageHeap}
use allocator.PageHeap.Dll.{Cells, linked, has}
use allocator.PageHeap.Pages.{map_pages}
use allocator.PageHeap.Pages.Lookup.{map_pages-eq}
use allocator.PageHeap.BestFit.{In, find_best-Closest}
use allocator.PageHeap.Shape.{shape, extent, Pages-same, Pages-new, within}
use allocator.PageHeap.Lists.{pages_of, free_of, Lists-touch, Lists-out, Lists-has, dead-Unlisted}
use allocator.PageHeap.Invariant.{
  Fresh-created, now, changed, WellFormed, Leaves, nothing, Fresh-mono,
}
use allocator.PageHeap.Invariant.Cut.{register-ok}
use allocator.PageHeap.Invariant.Split.{IsFor, take_span-Leaves}
use allocator.PageHeap.{find_best, uint32_max, map_span, search_lists, allocate_span}

has_of_In : (p : Ptr) (t : Span) (xs : Cells) → In (p, t) xs → has p xs ≡ true
has_of_In p t [] i = elim i [ ]
has_of_In p t ((x, s) ∷ xs) (inl e) = let k : p ≡ x = ap (λ c. c.0) e in ground arith
has_of_In p t ((x, s) ∷ xs) (inr i) = ground (arith, has_of_In p t xs i)

-- The pages that `mmap` returns next belong to no span.
abbrev pub MmapFresh : System → PageHeap → (n : ℕ) → Type 0
MmapFresh sys h n =
    (addr q : ℕ)
    → sys.mmap h.calls (page_size * n) ≡ some addr
    → within (addr / page_size) n q ≡ true
    → h.page_map q ≡ none

-- What a request for `n` pages leaves. Without memory the result is `nullptr` and the spans are as
-- before; otherwise it is a span of `n` pages which was not in use.
abbrev pub Allocated :
    System → (h h' : PageHeap) → (lists : ℕ → Cells) → (n size : ℕ) → Ptr → Type 0
Allocated sys h h' lists n size p =
    ((p ≡ null) × (h'.spans ≡ h.spans) × WellFormed sys h' lists nothing)
    ⊎ ((t : Span) × IsFor n size t
        × ((u : Span) → h.spans p ≡ some u → u.is_free ≡ true)
        × Leaves sys h h' lists nothing p t 2)

module _ (sys : System) (fuel n size : ℕ) (h : PageHeap) (lists : ℕ → Cells)
    (v : WellFormed sys h lists nothing) (pos : 0 < n) (le : n ≤ max_pages)
    (fresh : MmapFresh sys h n) (enough : (m : ℕ) → length (lists m) + 1 < fuel) where
  -- A result of one of the methods below.
  abbrev Done : Option (Ptr × PageHeap) → Type 0
  Done o = (p : Ptr) × (h' : PageHeap) × (o ≡ some (p, h')) × Allocated sys h h' lists n size p

  map_span-Done : Done (map_span sys fuel n size h)
  unfolding map_span
  map_span-Done = elim (Option-cases (sys.mmap h.calls (page_size * n))) [
    | inl failed ↦ (
      null,
      record h { calls = h.calls + 1 },
      rw failed refl,
      inl (
        refl,
        refl,
        record {
          lists_ok = v.lists_ok;
          pages_ok = v.pages_ok;
          small = v.small;
          fresh =
              Fresh-mono sys h.spans h.spans h.calls (h.calls + 1) v.fresh (omega arith) (λ a d. d);
        },
      ),
    )
    | inr (addr, got) ↦
        let p = sys.new_span (h.calls + 1) h.spans in
        let s = record blank_span { start = addr / page_size; num_pages = n; size = size } in
        let mapped = changed (omega arith) (λ a d. d) now in
        let live = v.fresh.live h.spans (h.calls + 1) mapped in
        let dead = v.fresh.dead h.spans (h.calls + 1) mapped in
        let h1 : PageHeap = record h {
          spans = update h.spans p (some s);
          calls = h.calls + 1 + 1;
        } in
        let map' = map_pages h.page_map (addr / page_size) n (some p) in
        let h2 : PageHeap = record h1 { page_map = map' } in
        (
          p,
          h2,
          rw (got, register-ok h1 p s live (ground arith)) refl,
          inr (
            s,
            (refl, refl, refl),
            (λ u e. absurd (cc (sym dead ∙ e))),
            record {
              lists' = lists;
              ok = record {
                lists_ok =
                    Lists-out _ h.free_lists lists _
                      (Lists-touch h.spans h.free_lists lists nothing v.lists_ok p (some s) false
                        live (dead-Unlisted h.spans h.free_lists lists nothing v.lists_ok p dead)
                        (λ u e f. ap free_of e ∙ f))
                      nothing (λ a. ground arith);
                pages_ok =
                    Pages-same _ (shape h1.spans) map' map' (λ a. ground arith) (λ q. refl)
                      (Pages-new (shape h.spans) h.page_map map' v.pages_ok p (addr / page_size) n
                        (ap extent dead) pos (λ q w. fresh addr q got w)
                        (λ q. map_pages-eq h.page_map (addr / page_size) n (some p) q));
                small = λ a u e o. elim (Bool-cases (p == a)) [
                  | inl k ↦ let z : u.num_pages ≡ n = ap pages_of (sym (rw k at e)) in omega arith
                  | inr ne ↦ v.small a u (ground arith) refl
                ];
                fresh = Fresh-created sys h.spans (h.calls + 1) s (
                    Fresh-mono sys h.spans h.spans h.calls (h.calls + 1) v.fresh (omega arith)
                      (λ a d. d));
              };
              at = ground arith;
              kept = λ a u ne used. ((λ e. ground arith), (λ e. ground arith));
              covered = λ q e z.
                  absurd (ground (arith, map_pages-eq h.page_map (addr / page_size) n (some p) q));
              lengths = λ m. omega arith;
            },
          ),
        )
  ]

  search_lists-Done :
      (rounds i : ℕ)
      → n ≤ i
      → i + rounds ≡ max_pages + 1
      → Done (search_lists sys fuel rounds i n size h)
  unfolding search_lists
  search_lists-Done zero i from upto = map_span-Done
  search_lists-Done (suc rounds) i from upto =
      let again = search_lists-Done rounds (i + 1) (omega arith) (omega arith) in
      elim (Bool-cases (h.free_lists i == null)) [
        | inl t ↦ rw t again
        | inr f ↦
            let head = v.lists_ok.head i (omega arith) in
            let (b, ran, c) =
              find_best-Closest h size fuel null (lists i) null uint32_max (v.lists_ok.chain i)
                (omega (arith, enough i)) in
            let ran' : find_best fuel size null uint32_max (h.free_lists i) h ≡ some (b, h) =
              ap (λ x. find_best fuel size null uint32_max x h) head ∙ ran in
            elim (Bool-cases (b == null)) [
              | inl z ↦ rw (f, ran', z) again
              | inr nz ↦ elim c [
                | inl (e, a) ↦ absurd (ground arith)
                | inr (t, i_in, near, a) ↦
                    let (s, e, q, w, at, pages, free) =
                      Lists-has h.spans h.free_lists lists nothing v.lists_ok i b
                        (has_of_In b t (lists i) i_in) in
                    let (h', t', ran2, for, same, l) =
                      take_span-Leaves sys fuel h lists v b (linked s q w) at n size free pos
                        (omega arith) enough in
                    (
                      b,
                      h',
                      rw (f, ran', nz) ran2,
                      inr (t', for, (λ u e'. sym (ap free_of (sym at ∙ e')) ∙ free), l),
                    )
              ]
            ]
      ]

  -- On a well-formed heap, for a number of pages from 1 to `MAX_PAGES`, with fuel for at least one
  -- more span than any list has, and if the pages that `mmap` may return belong to no span,
  -- `allocate_span` ends and leaves a well-formed heap. Its result is `nullptr`, with the spans as
  -- before, or a span of exactly that number of pages and of that object size, now in use, which
  -- was not in use before; all other spans in use are as before, and there are no others.
  pub allocate_span-WellFormed :
      (p : Ptr) × (h' : PageHeap) × (allocate_span sys fuel n size h ≡ some (p, h'))
      × Allocated sys h h' lists n size p
  unfolding allocate_span
  allocate_span-WellFormed =
      let t : (n == 0 || ltb max_pages n) ≡ false = ground arith in
      rw t (search_lists-Done (max_pages + 1 - n) n (omega arith) (omega arith))
