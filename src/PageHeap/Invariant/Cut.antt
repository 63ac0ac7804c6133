-- ===== src/PageHeap/Invariant/Cut.antt =====
-- A span gives a part of its pages to a new span, as in `split` and in the loop of `return_span`.
use allocator.Prelude.{
  ℕ, ◌+◌, ◌≤◌, ◌≡◌, ◌≢◌, refl, sym, ap, ◌∙◌, Bool, true, false, Option, none, some, arith, ◌==◌,
  if◌then◌else◌, Ptr, null, update, Bool-cases, inl, inr, ==→eq,
}
use allocator.Config.{max_pages}
use allocator.PageHeap.State.{Span, System, PageHeap, Cmd, ◌>>=◌, ◌>>◌, modify, new_object}
use allocator.PageHeap.Steps.{load-ok, modify-ok}
use allocator.PageHeap.Pages.{map_pages, register_span, unregister_span}
use allocator.PageHeap.Pages.Lookup.{map_pages-eq}
use allocator.PageHeap.Dll.{Cells, linked}
use allocator.PageHeap.FreeLists.{insert}
use allocator.PageHeap.Insertion.{freed}
use allocator.PageHeap.Shape.{shape, extent, Pages-same, Pages-cut, Halves, within}
use allocator.PageHeap.Lists.{free_of, pages_of, Unlisted, Lists-touch, Lists-out, dead-Unlisted}
use allocator.PageHeap.Lists.Relink.{insert-Relinked}
use allocator.PageHeap.Invariant.{
  Fresh-created, now, WellFormed, Enough, Kept, Kept-Relinked, Leaves, Fresh-mono,
  WellFormed-Relinked, WellFormed-out,
}

module _ (h : PageHeap) (p : Ptr) (s : Span) (live : p ≢ null) (at : h.spans p ≡ some s) where
  pub register-ok :
      register_span p h
      ≡ some (tt, record h { page_map = map_pages h.page_map s.start s.num_pages (some p) })
  unfolding register_span
  register-ok = rw (load-ok h p s live at)

  pub unregister-ok :
      unregister_span p h
      ≡ some (tt, record h { page_map = map_pages h.page_map s.start s.num_pages none })
  unfolding unregister_span
  unregister-ok = rw (load-ok h p s live at)

-- The object that `new` returns next.
abbrev pub born : System → PageHeap → Ptr
born sys h = sys.new_span h.calls h.spans

module _ (sys : System) (h : PageHeap) (p : Ptr) (s rem : Span) (f : Span → Span) where
  -- The heap before the new span is put into its list.
  unfoldable pub cut_map : ℕ → Option Ptr
  cut_map =
      map_pages
        (map_pages (map_pages h.page_map s.start s.num_pages none) (f s).start (f s).num_pages
          (some p))
        rem.start rem.num_pages (some (sys.new_span h.calls h.spans))

  abbrev pub cut_heap : PageHeap
  cut_heap = record h {
    spans = update (update h.spans (sys.new_span h.calls h.spans) (some rem)) p (some (f s));
    page_map = cut_map;
    calls = h.calls + 1;
  }

  pub cut-runs :
      {A : Type 0} (k : Ptr → Cmd A)
      → p ≢ null
      → h.spans p ≡ some s
      → (born sys h) ≢ null
      → p ≢ (born sys h)
      → (do
        q ← new_object sys rem
        unregister_span p
        modify p f
        register_span p
        register_span q
        k q)
          h
        ≡ k (born sys h) cut_heap
  unfolding cut_map
  cut-runs k live at live' ne =
      let h1 : PageHeap = record h {
        spans = update h.spans (born sys h) (some rem);
        calls = h.calls + 1;
      } in
      let h2 : PageHeap = record h1 { page_map = map_pages h.page_map s.start s.num_pages none } in
      let h3 : PageHeap = record h2 { spans = update h1.spans p (some (f s)) } in
      let h4 : PageHeap = record h3 {
        page_map = map_pages h2.page_map (f s).start (f s).num_pages (some p);
      } in
      rw (
        unregister-ok h1 p s live (ground arith),
        modify-ok h2 p s live (ground arith),
        register-ok h3 p (f s) live (ground arith),
        register-ok h4 (born sys h) rem live' (ground arith),
      )

  module _ (lists : ℕ → Cells) (out : Ptr → Bool) (v : WellFormed sys h lists out)
      (at : h.spans p ≡ some s) (alone : Unlisted p lists) where
    live : p ≢ null
    live = ground (arith, v.lists_ok.null_dead)

    apart : p ≢ (born sys h)
    apart = ground (arith, v.fresh.dead h.spans h.calls now)

    cut_map-eq :
        Halves s.start s.num_pages (f s).start (f s).num_pages rem.start rem.num_pages
        → (q : ℕ)
        → cut_map q ≡ (
            if within rem.start rem.num_pages q
            then some (born sys h)
            else if within (f s).start (f s).num_pages q
            then some p
            else h.page_map q)
    unfolding cut_map
    cut_map-eq halves q =
        let m1 = map_pages h.page_map s.start s.num_pages none in
        let m2 = map_pages m1 (f s).start (f s).num_pages (some p) in
        map_pages-eq m2 rem.start rem.num_pages (some (born sys h)) q
        ∙ ground (
          arith,
          map_pages-eq m1 (f s).start (f s).num_pages (some p) q,
          map_pages-eq h.page_map s.start s.num_pages none q,
        )

    cut-WellFormed :
        Halves s.start s.num_pages (f s).start (f s).num_pages rem.start rem.num_pages
        → ((f s).is_free ≡ true → out p ≡ true)
        → WellFormed sys cut_heap lists (update out (born sys h) true)
    unfolding cut_map
    cut-WellFormed halves free =
        let dead = v.fresh.dead h.spans h.calls now in
        let live' = v.fresh.live h.spans h.calls now in
        let spans1 = update h.spans (born sys h) (some rem) in
        let one =
          Lists-touch h.spans h.free_lists lists out v.lists_ok (born sys h) (some rem) true live'
            (dead-Unlisted h.spans h.free_lists lists out v.lists_ok (born sys h) dead)
            (λ u e g. refl) in
        let two =
          Lists-touch spans1 h.free_lists lists (update out (born sys h) true) one p (some (f s))
            (out p) live alone (λ u e g. free (ap free_of e ∙ g)) in
        record {
          lists_ok =
              Lists-out _ h.free_lists lists _ two (update out (born sys h) true)
                (λ a. ground (arith, apart));
          pages_ok =
              Pages-same _ (shape (update spans1 p (some (f s)))) cut_map cut_map
                (λ a. ground (arith, apart)) (λ q. refl)
                (Pages-cut (shape h.spans) h.page_map cut_map v.pages_ok p (born sys h) s.start
                  s.num_pages (f s).start (f s).num_pages rem.start rem.num_pages (ap extent at)
                  (ap extent dead) halves (cut_map-eq halves));
          small = small;
          fresh =
              Fresh-mono sys spans1 (update spans1 p (some (f s))) (h.calls + 1) (h.calls + 1)
                (Fresh-created sys h.spans h.calls rem v.fresh) (omega arith)
                (λ a d. ground (arith, apart));
        }
      where
        small :
            (a : Ptr) (u : Span)
            → update (update h.spans (born sys h) (some rem)) p (some (f s)) a ≡ some u
            → update out (born sys h) true a ≡ false
            → u.num_pages ≤ max_pages
        small a u e o = elim (Bool-cases (p == a)) [
          | inl k ↦
              let size : u.num_pages ≡ (f s).num_pages = ap pages_of (sym (rw k at e)) in
              let old = v.small p s at (ground (arith, apart, ==→eq p a k)) in omega (arith, halves)
          | inr ne ↦ v.small a u (ground arith) (ground arith)
        ]

    -- The new span is put into its list.
    pub cut-Leaves :
        (fuel : ℕ)
        → Halves s.start s.num_pages (f s).start (f s).num_pages rem.start rem.num_pages
        → ((f s).is_free ≡ true → out p ≡ true)
        → rem.is_free ≡ true
        → out (born sys h) ≡ false
        → rem.num_pages ≤ max_pages
        → Enough fuel lists
        → (h' : PageHeap) × (insert fuel rem.num_pages (born sys h) cut_heap ≡ some (tt, h'))
          × Leaves sys h h' lists out p (f s) 1
    cut-Leaves fuel halves free spare here le enough =
        let w = cut-WellFormed halves free in
        let (h', lists', ran, i) =
          insert-Relinked cut_heap lists (update out (born sys h) true) w.lists_ok (born sys h) rem
            (ground (arith, apart)) fuel le (ground arith) (enough rem.num_pages) in
        let done =
          WellFormed-Relinked sys cut_heap h' lists lists' (update out (born sys h) true)
            (born sys h) (freed rem) w i le in
        (
          h',
          ran,
          record {
            lists' = lists';
            ok = WellFormed-out sys h' lists' _ out (λ a. ground arith) done;
            at = i.loose p apart alone ∙ ground arith;
            kept = λ a u ne used.
                kept h'
                  (Kept-Relinked sys cut_heap h' lists lists' _ _ (born sys h) (freed rem) w i) i.at
                  a u ne used;
            covered = λ q e z. covered q e (sym (ap (λ m. m q) i.pages) ∙ z);
            lengths = i.lengths;
          },
        )
      where
        covered : (q : ℕ) → h.page_map q ≢ none → cut_map q ≢ none
        covered q e z = absurd (ground (arith, cut_map-eq halves q))

        kept :
            (h' : PageHeap)
            → Kept cut_heap h' (born sys h)
            → (q : Ptr) × (w : Ptr) × (h'.spans (born sys h) ≡ some (linked (freed rem) q w))
            → Kept h h' p
        kept h' k (q, w, there) a u ne used = elim (Bool-cases (born sys h == a)) [
          | inl e ↦ (
            (λ e'. absurd (ground (arith, v.fresh.dead h.spans h.calls now))),
            (λ e'. absurd (ground arith)),
          )
          | inr nb ↦
              let (to, from) = k a u (ground arith) used in
              ((λ e. to (ground arith)), (λ e. sym (ground arith) ∙ from e))
        ]
