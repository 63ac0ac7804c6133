-- ===== src/CentralFreeList/Release/Unlink.antt =====
-- The writes of `release_to_page_heap`: the span leaves the list of its class.
use allocator.Prelude.{
  ℕ, ◌≡◌, ◌≢◌, refl, ◌∙◌, inl, inr, false, Option, some, arith, ◌==◌, if◌then◌else◌, Ptr, null,
  update, Bool-cases,
}
use allocator.Config.{sub32}
use allocator.PageHeap
use allocator.PageHeap.State.{Span, System}
use allocator.PageHeap.Dll.{Cells, linked}
use allocator.PageHeap.Removal.{Apart}
use allocator.PageHeap.Removal.Cut.{Joined}
use allocator.PageHeap.Invariant.{WellFormed, nothing}
use allocator.CentralFreeList.{Central, in_heap, release_to_page_heap}
use allocator.CentralFreeList.Objects.Populate.{central_load-ok, central_modify-ok}
use allocator.CentralFreeList.Fetch.{write-WellFormed}
use allocator.CentralFreeList.Release.{reset}

-- A write that is left out for `nullptr`.
abbrev write_live : (Ptr → Option Span) → Ptr → Span → Ptr → Option Span
write_live spans q s = if q == null then spans else update spans q (some s)

-- The spans after the three writes: `s` before `x`, `v` behind it, and `x` itself.
abbrev pub unlinked : (Ptr → Option Span) → (prev x nx : Ptr) → (s t v : Span) → Ptr → Option Span
unlinked spans prev x nx s t v =
    update
      (write_live (write_live spans prev (record s { next = nx })) nx (record v { prev = prev })) x
      (some (reset t))

module _ (c : Central) (prev x nx : Ptr) (s t v : Span) (apart : Apart prev x nx)
    (s_at : prev ≢ null → c.heap.spans prev ≡ some s)
    (v_at : nx ≢ null → c.heap.spans nx ≡ some v) where
  pub unlinked-Joined : Joined c.heap.spans (unlinked c.heap.spans prev x nx s t v) prev x nx
  unlinked-Joined = record {
    left = λ s' live at. ground (arith, s_at live, apart.left, apart.outer);
    right = λ v' live at. ground (arith, v_at live, apart.right);
    same = λ k p q r. ground arith;
  }

  -- The state in which the span is handed to the page heap.
  abbrev pub handed : Central
  handed = record c {
    heap = record c.heap { spans = unlinked c.heap.spans prev x nx s t v };
    cfl = record c.cfl {
      current_span = if c.cfl.current_span == x then null else c.cfl.current_span;
      num_free = sub32 c.cfl.num_free t.num_free_objects;
      span_list = if prev == null then nx else c.cfl.span_list;
    };
  }

  pub release-eq :
      (sys : System) (fuel : ℕ)
      → x ≢ null
      → c.heap.spans x ≡ some (linked t prev nx)
      → release_to_page_heap sys fuel x c ≡ in_heap (PageHeap.return_span sys fuel x) handed
  unfolding release_to_page_heap
  release-eq sys fuel live at =
      let loaded = record c.cfl {
        current_span = if c.cfl.current_span == x then null else c.cfl.current_span;
      } in
      let counted = record loaded { num_free = sub32 c.cfl.num_free t.num_free_objects } in
      let c1 : Central = record c { cfl = loaded } in
      let c2 : Central = record c { cfl = counted } in
      let c3 : Central = record c { cfl = record counted { span_list = nx } } in
      let h' = write_live c.heap.spans prev (record s { next = nx }) in
      elim (Bool-cases (prev == null)) [
        | inl p ↦ elim (Bool-cases (nx == null)) [
          | inl q ↦
              rw
                (
                  central_load-ok c1 x _ live at,
                  p,
                  q,
                  central_modify-ok c3 x (linked t prev nx) _ live at,
                )
                refl
          | inr q ↦
              let c4 : Central = record c3 {
                heap = record c.heap {
                  spans = update c.heap.spans nx (some (record v { prev = prev }));
                };
              } in
              rw
                (
                  central_load-ok c1 x _ live at,
                  p,
                  q,
                  central_modify-ok c3 nx v (λ (u : Span). record u { prev = prev }) (ground arith)
                      (v_at (ground arith)),
                  central_modify-ok c4 x (linked t prev nx) _ live (ground (arith, apart.right)),
                )
                refl
        ]
        | inr p ↦
            let c4 : Central = record c2 {
              heap = record c.heap {
                spans = update c.heap.spans prev (some (record s { next = nx }));
              };
            } in
            elim (Bool-cases (nx == null)) [
              | inl q ↦
                  rw
                    (
                      central_load-ok c1 x _ live at,
                      p,
                      q,
                      central_modify-ok c2 prev s (λ (u : Span). record u { next = nx })
                          (ground arith) (s_at (ground arith)),
                      central_modify-ok c4 x (linked t prev nx) _ live (ground (arith, apart.left)),
                    )
                    refl
              | inr q ↦
                  let c5 : Central = record c2 {
                    heap = record c.heap {
                      spans = update c4.heap.spans nx (some (record v { prev = prev }));
                    };
                  } in
                  rw
                    (
                      central_load-ok c1 x _ live at,
                      p,
                      q,
                      central_modify-ok c2 prev s (λ (u : Span). record u { next = nx })
                          (ground arith) (s_at (ground arith)),
                      central_modify-ok c4 nx v (λ (u : Span). record u { prev = prev })
                          (ground arith) (ground (arith, v_at, apart.outer)),
                      central_modify-ok c5 x (linked t prev nx) _ live
                          (ground (arith, apart.left, apart.right)),
                    )
                    refl
            ]
      ]

  module _ (sys : System) (lists : ℕ → Cells) where
    -- A write to the links of a span in use, or none.
    write_live-WellFormed :
        (spans : Ptr → Option Span) (q : Ptr) (u u' : Span)
        → WellFormed sys (record c.heap { spans = spans }) lists nothing
        → (q ≢ null → spans q ≡ some u)
        → (q ≢ null → u.is_free ≡ false)
        → (u'.start ≡ u.start) × (u'.num_pages ≡ u.num_pages)
        → u'.is_free ≡ u.is_free
        → WellFormed sys (record c.heap { spans = write_live spans q u' }) lists nothing
    write_live-WellFormed spans q u u' w at used fields same = elim (Bool-cases (q == null)) [
      | inl e ↦ rw e w
      | inr e ↦
          let live : q ≢ null = ground arith in
          rw e (
            write-WellFormed sys (record c.heap { spans = spans }) lists q u u' w (at live)
              (used live) fields (same ∙ used live))
    ]

    pub handed-WellFormed :
        WellFormed sys c.heap lists nothing
        → c.heap.spans x ≡ some (linked t prev nx)
        → t.is_free ≡ false
        → (prev ≢ null → s.is_free ≡ false)
        → (nx ≢ null → v.is_free ≡ false)
        → WellFormed sys handed.heap lists nothing
    handed-WellFormed w at used s_used v_used =
        let s' = record s { next = nx } in
        let v' = record v { prev = prev } in
        let one = write_live c.heap.spans prev s' in
        let two = write_live one nx v' in
        let w1 = write_live-WellFormed c.heap.spans prev s s' w s_at s_used (refl, refl) refl in
        let w2 =
          write_live-WellFormed one nx v v' w1 (λ live. ground (arith, v_at live, apart.outer))
            v_used (refl, refl) refl in
        write-WellFormed sys (record c.heap { spans = two }) lists x (linked t prev nx) (reset t) w2
          (ground (arith, apart.left, apart.right)) used (refl, refl) used
