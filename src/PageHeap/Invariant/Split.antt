-- ===== src/PageHeap/Invariant/Split.antt =====
-- `split`, and what `allocate_span` does with the span that it takes from a list.
use allocator.Prelude.{
  ℕ, ◌+◌, ◌-◌, ◌≤◌, ◌<◌, ◌≡◌, ◌≢◌, refl, sym, ap, ◌∙◌, true, false, some, arith, ltb, if◌then◌else◌,
  Ptr, null, update, update-ne, Bool-cases, inl, inr, length, ltb→lt, lt→ltb,
}
use allocator.Config.{max_pages}
use allocator.PageHeap.State.{Span, blank_span, System, PageHeap, pure}
use allocator.PageHeap.Steps.{load-ok, modify-ok}
use allocator.PageHeap.FreeLists.{insert}
use allocator.PageHeap.Dll.{Cells, linked}
use allocator.PageHeap.Lists.{used-Unlisted}
use allocator.PageHeap.Lists.Relink.{remove-Relinked}
use allocator.PageHeap.Removal.Cut.{detached}
use allocator.PageHeap.Invariant.{
  now, WellFormed, Enough, Leaves, Kept, Kept-Relinked, nothing, WellFormed-Relinked,
  WellFormed-out, WellFormed-write,
}
use allocator.PageHeap.Invariant.Cut.{born, cut_heap, cut-runs, cut-Leaves}
use allocator.PageHeap.{split, take_span}

module _ (sys : System) (fuel : ℕ) (h : PageHeap) (lists : ℕ → Cells)
    (v : WellFormed sys h lists nothing) (p : Ptr) (s : Span) (at : h.spans p ≡ some s)
    (enough : Enough fuel lists) where
  -- A span in use is split.
  pub split-Leaves :
      (n : ℕ)
      → s.is_free ≡ false
      → 0 < n
      → n < s.num_pages
      → (h' : PageHeap) × (split sys fuel p n h ≡ some (tt, h'))
        × Leaves sys h h' lists nothing p (record s { num_pages = n }) 1
  unfolding split
  split-Leaves n used pos less =
      let live : p ≢ null = ground (arith, v.lists_ok.null_dead) in
      let rem = record blank_span {
        start = s.start + n;
        num_pages = s.num_pages - n;
        is_free = true;
      } in
      let f = λ (t : Span). record t { num_pages = n } in
      let alone = used-Unlisted h.spans h.free_lists lists nothing v.lists_ok p s at used in
      let small = v.small p s at refl in
      let t : ltb n s.num_pages ≡ true = lt→ltb _ _ less in
      let t' : ltb max_pages (s.num_pages - n) ≡ false = ground arith in
      let (h', ran, l) =
        cut-Leaves sys h p s rem f lists nothing v at alone fuel (omega arith) (λ e. absurd (cc e))
          refl refl (omega arith) enough in
      (
        h',
        rw (load-ok h p s live at, t)
            (cut-runs sys h p s rem f
                (λ q.
                  if ltb max_pages (s.num_pages - n)
                  then pure tt
                  else insert fuel (s.num_pages - n) q)
                live at (v.fresh.live h.spans h.calls now)
                (ground (arith, v.fresh.dead h.spans h.calls now))
              ∙ ap
                  (λ b.
                    (if b then pure tt else insert fuel (s.num_pages - n) (born sys h))
                      (cut_heap sys h p s rem f))
                  t'
              ∙ ran),
        l,
      )

-- A span as `allocate_span` hands it out.
abbrev pub IsFor : (n size : ℕ) → Span → Type 0
IsFor n size s = (s.num_pages ≡ n) × (s.size ≡ size) × (s.is_free ≡ false)

module _ (sys : System) (fuel : ℕ) (h : PageHeap) (lists : ℕ → Cells)
    (v : WellFormed sys h lists nothing) (p : Ptr) (s : Span) (at : h.spans p ≡ some s) where
  -- A free span is taken from its list, and cut to the pages that were asked for.
  pub take_span-Leaves :
      (n size : ℕ)
      → s.is_free ≡ true
      → 0 < n
      → n ≤ s.num_pages
      → ((m : ℕ) → length (lists m) + 1 < fuel)
      → (h' : PageHeap) × (t : Span) × (take_span sys fuel p n size h ≡ some (p, h'))
        × IsFor n size t
        × (t.start ≡ s.start)
        × Leaves sys h h' lists nothing p t 2
  unfolding take_span
  take_span-Leaves n size free pos le enough =
      let live : p ≢ null = ground (arith, v.lists_ok.null_dead) in
      let (h1, lists1, ran1, r) = remove-Relinked h lists nothing v.lists_ok p s at free refl in
      let small = v.small p s at refl in
      let w1 =
        WellFormed-out sys h1 lists1 _ nothing (λ a. ground arith)
          (WellFormed-Relinked sys h h1 lists lists1 nothing p (detached s) v r small) in
      let (q, w, at1) = r.at in
      let s1 = linked (detached s) q w in
      let s2 = record s1 { is_free = false; size = size } in
      let alone = used-Unlisted h1.spans h1.free_lists lists1 nothing w1.lists_ok p s1 at1 refl in
      let h2 : PageHeap = record h1 { spans = update h1.spans p (some s2) } in
      let w2 =
        WellFormed-out sys h2 lists1 _ nothing (λ a. ground arith)
          (WellFormed-write sys h1 lists1 nothing p s1 s2 false w1 at1 alone (refl, refl) (λ e. e)
            (λ e. small)) in
      let at2 : h2.spans p ≡ some s2 = ground arith in
      let kept1 = Kept-Relinked sys h h1 lists lists1 nothing _ p (detached s) v r in
      let kept2 : Kept h h2 p = λ a u ne used.
        let (to, from) = kept1 a u ne used in
        (
          (λ e. update-ne h1.spans p (some s2) a (λ k. ne (sym k)) ∙ to e),
          (λ e. from (sym (update-ne h1.spans p (some s2) a (λ k. ne (sym k))) ∙ e)),
        ) in
      elim (Bool-cases (ltb n s.num_pages)) [
        | inl less ↦
            let (h3, ran3, l) =
              split-Leaves sys fuel h2 lists1 w2 p s2 at2
                (λ m. omega (arith, r.lengths m, enough m)) n refl pos (ltb→lt _ _ less) in
            (
              h3,
              record s2 { num_pages = n },
              rw (ran1, modify-ok h1 p s1 live at1, load-ok h2 p s2 live at2, less, ran3) refl,
              (refl, refl, refl),
              refl,
              record {
                lists' = l.lists';
                ok = l.ok;
                at = l.at;
                kept = λ a u ne used.
                    let (to, from) = kept2 a u ne used in
                    let (to', from') = l.kept a u ne used in
                    ((λ e. to' (to e)), (λ e. from (from' e)));
                covered = λ q e. l.covered q (λ z. e (sym (ap (λ m. m q) r.pages) ∙ z));
                lengths = λ m. omega (arith, l.lengths m, r.lengths m);
              },
            )
        | inr same ↦ (
          h2,
          s2,
          rw (ran1, modify-ok h1 p s1 live at1, load-ok h2 p s2 live at2, same) refl,
          (ground arith, refl, refl),
          refl,
          record {
            lists' = lists1;
            ok = w2;
            at = at2;
            kept = kept2;
            covered = λ q e z. e (sym (ap (λ m. m q) r.pages) ∙ z);
            lengths = λ m. omega (arith, r.lengths m);
          },
        )
      ]
