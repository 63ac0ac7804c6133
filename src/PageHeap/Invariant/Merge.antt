-- ===== src/PageHeap/Invariant/Merge.antt =====
-- The merges of `coalesce`: a span in hand takes over the pages of a free neighbour.
use allocator.Prelude.{
  ℕ, ◌≡◌, ◌≢◌, refl, sym, ap, ◌∙◌, true, false, Option, none, some, arith, ◌==◌, if◌then◌else◌, Ptr,
  null, update, Bool-cases, inl, inr,
}
use allocator.PageHeap.State.{Span, System, PageHeap, Cmd, ◌>>=◌, ◌>>◌, load, modify, delete}
use allocator.PageHeap.Steps.{load-ok, modify-ok, delete-ok}
use allocator.PageHeap.Pages.{map_pages, register_span, unregister_span}
use allocator.PageHeap.Pages.Lookup.{map_pages-eq}
use allocator.PageHeap.FreeLists.{remove_from_free_list}
use allocator.PageHeap.Dll.{Cells, linked}
use allocator.PageHeap.Shape.{shape, extent, Pages-same, Pages-join, Halves, within}
use allocator.PageHeap.Lists.{Lists-touch, Lists-out, used-Unlisted}
use allocator.PageHeap.Lists.Relink.{remove-Relinked}
use allocator.PageHeap.Removal.Cut.{detached}
use allocator.PageHeap.Invariant.{
  WellFormed, Covered, Kept, Kept-Relinked, Leaves, only, Fresh-mono, WellFormed-Relinked,
  WellFormed-out,
}
use allocator.PageHeap.Invariant.Cut.{register-ok, unregister-ok}

-- The commands of both merges; `take l t` is what the span `t` becomes on taking over `l`.
abbrev pub join : (take : Span → Span → Span) → (span other : Ptr) → Cmd (Unit {0})
join take span other = do
  remove_from_free_list other
  unregister_span other
  unregister_span span
  l ← load other
  modify span (take l)
  register_span span
  delete other

-- What `take` does to the place of a span.
abbrev pub Takes : (take : Span → Span → Span) → (s u : Span) → (start k : ℕ) → Type 0
Takes take s u start k =
    (x : Span)
    → x.start ≡ u.start
    → x.num_pages ≡ u.num_pages
    → ((take x s).start ≡ start) × ((take x s).num_pages ≡ k)

-- After the removal of `l` from its list: `p` takes the pages, and `l` is dead.
module _ (sys : System) (h : PageHeap) (lists : ℕ → Cells) (p l : Ptr) (s x t : Span) (start k : ℕ)
    (v : WellFormed sys h lists (only p)) (at : h.spans p ≡ some s) (at_l : h.spans l ≡ some x)
    (used : x.is_free ≡ false) (ne : (p == l) ≡ false) (start' : t.start ≡ start)
    (k' : t.num_pages ≡ k) (halves : Halves start k s.start s.num_pages x.start x.num_pages) where
  join_map : ℕ → Option Ptr
  join_map =
      map_pages (map_pages (map_pages h.page_map x.start x.num_pages none) s.start s.num_pages none)
        t.start t.num_pages (some p)

  abbrev join_heap : PageHeap
  join_heap = record h { spans = update (update h.spans p (some t)) l none; page_map = join_map }

  join_map-eq : (q : ℕ) → join_map q ≡ (if within start k q then some p else h.page_map q)
  unfolding join_map
  join_map-eq q =
      let m1 = map_pages h.page_map x.start x.num_pages none in
      let m2 = map_pages m1 s.start s.num_pages none in
      map_pages-eq m2 t.start t.num_pages (some p) q
      ∙ ground (
        arith,
        map_pages-eq m1 s.start s.num_pages none q,
        map_pages-eq h.page_map x.start x.num_pages none q,
      )

  join-Covered : Covered h join_heap
  join-Covered q e z = absurd (ground (arith, join_map-eq q))

  join-WellFormed : WellFormed sys join_heap lists (only p)
  join-WellFormed =
      let live : p ≢ null = ground (arith, v.lists_ok.null_dead) in
      let live_l : l ≢ null = ground (arith, v.lists_ok.null_dead) in
      let one =
        Lists-touch h.spans h.free_lists lists (only p) v.lists_ok p (some t) true live
          (v.lists_ok.unlisted p (ground arith)) (λ u e f. refl) in
      let alone = used-Unlisted h.spans h.free_lists lists (only p) v.lists_ok l x at_l used in
      let two =
        Lists-touch _ h.free_lists lists _ one l none false live_l alone (λ u e f. absurd (cc e)) in
      record {
        lists_ok = Lists-out _ h.free_lists lists _ two (only p) (λ a. ground arith);
        pages_ok =
            Pages-same _ (shape join_heap.spans) join_map join_map (λ a. ground (arith, start', k'))
              (λ q. refl)
              (Pages-join (shape h.spans) h.page_map join_map v.pages_ok p l start k s.start
                s.num_pages x.start x.num_pages (ap extent at) (ap extent at_l) (ground arith)
                halves join_map-eq);
        small = λ a u e o. v.small a u (ground arith) o;
        fresh =
            Fresh-mono sys h.spans _ h.calls h.calls v.fresh (omega arith) (λ a d. ground arith);
      }

join-Kept :
    (h h1 : PageHeap) (p l : Ptr) (u t : Span) (map' : ℕ → Option Ptr)
    → h.spans l ≡ some u
    → u.is_free ≡ true
    → Kept h h1 l
    → Kept h (record h1 { spans = update (update h1.spans p (some t)) l none; page_map = map' }) p
join-Kept h h1 p l u t map' at free kept a y ne used = elim (Bool-cases (l == a)) [
  | inl e ↦ ((λ e'. absurd (ground arith)), (λ e'. absurd (ground arith)))
  | inr other ↦
      let (to, from) = kept a y (ground arith) used in
      ((λ e. update_two other ∙ to e), (λ e. from (sym (update_two other) ∙ e)))
]
  where
    update_two : (l == a) ≡ false → update (update h1.spans p (some t)) l none a ≡ h1.spans a
    update_two other = ground arith

module _ (sys : System) (h : PageHeap) (lists : ℕ → Cells) (p l : Ptr) (s u : Span)
    (v : WellFormed sys h lists (only p)) (at : h.spans p ≡ some s) (at_l : h.spans l ≡ some u)
    (free : u.is_free ≡ true) (ne : (p == l) ≡ false) where
  pub join-Leaves :
      (take : Span → Span → Span) (start k : ℕ)
      → Takes take s u start k
      → Halves start k s.start s.num_pages u.start u.num_pages
      → (h' : PageHeap) × (t : Span) × (join take p l h ≡ some (tt, h'))
        × (t.start ≡ start)
        × (t.num_pages ≡ k)
        × Leaves sys h h' lists (only p) p t 1
  unfolding join_map
  join-Leaves take start k takes halves =
      let live : p ≢ null = ground (arith, v.lists_ok.null_dead) in
      let live_l : l ≢ null = ground (arith, v.lists_ok.null_dead) in
      let (h1, lists1, ran1, r) = remove-Relinked h lists (only p) v.lists_ok l u at_l free ne in
      let small = v.small l u at_l ne in
      let w1 = WellFormed-Relinked sys h h1 lists lists1 (only p) l (detached u) v r small in
      let (q, w, at1) = r.at in
      let x = linked (detached u) q w in
      let (start', k') = takes x refl refl in
      let alone = v.lists_ok.unlisted p (ground arith) in
      let at_p : h1.spans p ≡ some s = r.loose p (ground arith) alone ∙ at in
      let h2 : PageHeap = record h1 { page_map = map_pages h1.page_map u.start u.num_pages none } in
      let h3 : PageHeap = record h2 { page_map = map_pages h2.page_map s.start s.num_pages none } in
      let t = take x s in
      let h4 : PageHeap = record h3 { spans = update h1.spans p (some t) } in
      let h5 : PageHeap = record h4 {
        page_map = map_pages h3.page_map t.start t.num_pages (some p);
      } in
      let h6 : PageHeap = record h5 { spans = update h4.spans l none } in
      let at5 : h5.spans l ≡ some x = ground arith in
      let w1' = WellFormed-out sys h1 lists1 _ (only p) (λ a. ground arith) w1 in
      let halves' : Halves start k s.start s.num_pages x.start x.num_pages = halves in
      let kept1 = Kept-Relinked sys h h1 lists lists1 (only p) _ l (detached u) v r in
      (
        _,
        t,
        rw
            (
              ran1,
              unregister-ok h1 l x live_l at1,
              unregister-ok h2 p s live at_p,
              load-ok h3 l x live_l at1,
              modify-ok h3 p s live at_p,
              register-ok h4 p t live (ground arith),
              delete-ok h5 l x live_l at5,
            )
            refl,
        start',
        k',
        record {
          lists' = lists1;
          ok =
              join-WellFormed sys h1 lists1 p l s x t start k w1' at_p at1 refl ne start' k'
                halves';
          at = ground arith;
          kept = join-Kept h h1 p l u t h5.page_map at_l free kept1;
          covered = λ a e.
              join-Covered sys h1 lists1 p l s x t start k w1' at_p at1 refl ne start' k' halves' a
                (λ z. e (sym (ap (λ m. m a) r.pages) ∙ z));
          lengths = r.lengths;
        },
      )
