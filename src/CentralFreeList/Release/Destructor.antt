-- ===== src/CentralFreeList/Release/Destructor.antt =====
-- `~CentralFreeList` gives every span of the class back.
use allocator.Prelude.{
  ℕ, zero, suc, ◌+◌, ◌*◌, ◌≤◌, ◌<◌, ◌≡◌, ◌≢◌, refl, sym, ap, ◌∙◌, inl, inr, true, false, Option,
  some, [], ◌∷◌, arith, ◌==◌, if◌then◌else◌, Ptr, null, update, update_self, length, Bool-cases,
  ==→eq,
}
use allocator.PageHeap
use allocator.PageHeap.State.{Span, System, PageHeap}
use allocator.PageHeap.Dll.{Cells, head_of, linked, Dll, has, Distinct, frame-update}
use allocator.PageHeap.Lists.{free_of}
use allocator.PageHeap.Invariant.{WellFormed, Covered, nothing}
use allocator.PageHeap.Invariant.Return.{return_span-Released}
use allocator.CentralFreeList.{
  Central, Cmd, return_all, destroy, load, modify, in_heap, and_then, pure, set_cfl, ◌>>=◌, ◌>>◌,
}
use allocator.CentralFreeList.Objects.Populate.{central_load-ok, central_modify-ok}
use allocator.CentralFreeList.Fetch.{write-WellFormed}
use allocator.CentralFreeList.Release.{AllUsed, reset}
use allocator.CentralFreeList.Release.Outcome.{in_heap-ok}
use allocator.CentralFreeList.Release.Members.{Dll-Kept}

-- The spans in use are those from before that are not in the list.
abbrev pub Remaining : (h h' : PageHeap) → Cells → Type 0
Remaining h h' cells =
    (a : Ptr) (u : Span)
    → u.is_free ≡ false
    → (has a cells ≡ false → h.spans a ≡ some u → h'.spans a ≡ some u)
      × (h'.spans a ≡ some u → (has a cells ≡ false) × (h.spans a ≡ some u))

-- The page heap after the spans of the list have come back.
pub record Emptied (sys : System) (h h' : PageHeap) (lists : ℕ → Cells) (cells : Cells)
    : Type 0 where
  pub lists' : ℕ → Cells
  pub ok : WellFormed sys h' lists' nothing
  pub remaining : Remaining h h' cells
  pub covered : Covered h h'
  pub lengths : (n : ℕ) → length (lists' n) ≤ length (lists n) + 6 * length cells

-- One span comes back, and then the others.
Remaining-cons :
    (h h1 h2 h' : PageHeap) (x : Ptr) (t r : Span) (rest : Cells)
    → h1.spans ≡ update h.spans x (some r)
    → ((a : Ptr) (u : Span)
        → a ≢ x
        → u.is_free ≡ false
        → (h1.spans a ≡ some u → h2.spans a ≡ some u) × (h2.spans a ≡ some u → h1.spans a ≡ some u))
    → free_of (h2.spans x) ≡ true
    → has x rest ≡ false
    → Remaining h2 h' rest
    → Remaining h h' ((x, t) ∷ rest)
Remaining-cons h h1 h2 h' x t r rest wrote kept free out later a u busy =
    let (to', from') = later a u busy in
    elim (Bool-cases (a == x)) [
      | inl e ↦ (
        (λ o. absurd (ground arith)),
        (λ at.
            let at2 = (from' at).1 in
            let same = ==→eq a x e in
            absurd (cc (sym free ∙ ap free_of (sym (ap h2.spans same) ∙ at2) ∙ busy))),
      )
      | inr ne ↦
          let (to, from) = kept a u (ground arith) busy in
          let apart : (x == a) ≡ false = ground arith in
          let unwritten : h1.spans a ≡ h.spans a = ap (λ m. m a) wrote ∙ rw apart refl in
          (
            (λ o at. to' (ground arith) (to (unwritten ∙ at))),
            (λ at. let (o, at2) = from' at in (ground arith, sym unwritten ∙ from at2)),
          )
    ]

module _ (sys : System) (fuel : ℕ) where
  -- A round of the loop at a live span, from the state in which it is handed to the page heap.
  return_all-step :
      (rounds : ℕ) (curr : Ptr) (s : Span) (c : Central) (h2 : PageHeap)
      → curr ≢ null
      → c.heap.spans curr ≡ some s
      → PageHeap.return_span sys fuel curr
          (record c.heap { spans = update c.heap.spans curr (some (reset s)) })
        ≡ some (tt, h2)
      → return_all sys fuel (suc rounds) curr c
        ≡ return_all sys fuel rounds s.next (record c { heap = h2 })
  unfolding return_all
  return_all-step rounds curr s c h2 live at run =
      let nn : (curr == null) ≡ false = ground arith in
      let c1 : Central = record c {
        heap = record c.heap { spans = update c.heap.spans curr (some (reset s)) };
      } in
      let give : Cmd (Unit {0}) = in_heap (PageHeap.return_span sys fuel curr) in
      ap
        (λ b.
          (if b
              then pure tt
              else (load curr >>= λ u.
                  modify curr reset >> (give >> return_all sys fuel rounds u.next)))
            c)
        nn
      ∙ ap
          (λ (o : Option (Span × Central)).
            and_then o (λ u. modify curr reset >> (give >> return_all sys fuel rounds u.next)))
          (central_load-ok c curr s live at)
      ∙ ap
          (λ (o : Option (Unit {0} × Central)).
            and_then o (λ _. give >> return_all sys fuel rounds s.next))
          (central_modify-ok c curr s reset live at)
      ∙ ap
          (λ (o : Option (Unit {0} × Central)). and_then o (λ _. return_all sys fuel rounds s.next))
          (in_heap-ok (PageHeap.return_span sys fuel curr) c1 h2 run)

  return_all-Emptied :
      (rounds : ℕ) (c : Central) (lists : ℕ → Cells) (prev : Ptr) (cells : Cells)
      → WellFormed sys c.heap lists nothing
      → Dll c.heap.spans prev cells
      → Distinct cells
      → AllUsed cells
      → length cells < rounds
      → ((m : ℕ) → length (lists m) + 6 * length cells + 5 < fuel)
      → (h' : PageHeap) × (return_all sys fuel rounds (head_of cells) c
          ≡ some (tt, record c { heap = h' }))
        × Emptied sys c.heap h' lists cells
  unfolding return_all
  return_all-Emptied zero c lists prev cells w d dis used le enough = absurd (omega arith)
  return_all-Emptied (suc rounds) c lists prev [] w d dis used le enough = (
    c.heap,
    refl,
    record {
      lists' = lists;
      ok = w;
      remaining = λ a u busy. ((λ o at. at), (λ at. (refl, at)));
      covered = λ q e. e;
      lengths = λ n. omega arith;
    },
  )
  return_all-Emptied (suc rounds) c lists prev ((x, t) ∷ rest) w d dis used le enough =
      let s = linked t prev (head_of rest) in
      let h1 : PageHeap = record c.heap { spans = update c.heap.spans x (some (reset s)) } in
      let w1 = write-WellFormed sys c.heap lists x s (reset s) w d.1 used.0 (refl, refl) used.0 in
      let (h2, run, r, pages) =
        return_span-Released sys fuel h1 lists x (reset s) w1
          (update_self c.heap.spans x (some (reset s))) used.0 (λ m. omega (arith, enough m)) in
      let c2 : Central = record c { heap = h2 } in
      let d2 =
        Dll-Kept h1 h2 x x rest (frame-update c.heap.spans x rest x (some (reset s)) d.2 dis.0)
          used.1 r.kept dis.0 in
      let (h', run', e) =
        return_all-Emptied rounds c2 r.lists' x rest r.ok d2 dis.1 used.1 (omega arith)
          (λ m. omega (arith, enough m, r.lengths m)) in
      (
        h',
        return_all-step rounds x s c h2 d.0 d.1 run ∙ run',
        record {
          lists' = e.lists';
          ok = e.ok;
          remaining =
              Remaining-cons c.heap h1 h2 h' x t (reset s) rest refl r.kept r.free dis.0
                e.remaining;
          covered = λ q m. e.covered q (r.covered q m);
          lengths = λ n. omega (arith, r.lengths n, e.lengths n);
        },
      )

  -- On a class whose list is doubly linked, without repetitions, and of spans in use, over a
  -- well-formed page heap, with fuel for more spans than the list has, and for five more than any
  -- free list has and six for each of these spans, `~CentralFreeList` ends. It leaves the class
  -- empty and the page heap well-formed: in use are then exactly the spans from before that the
  -- class did not hold, unchanged, and no page has become unmapped.
  pub destroy-Emptied :
      (c : Central) (lists : ℕ → Cells) (cells : Cells)
      → WellFormed sys c.heap lists nothing
      → Dll c.heap.spans null cells
      → Distinct cells
      → AllUsed cells
      → c.cfl.span_list ≡ head_of cells
      → length cells < fuel
      → ((m : ℕ) → length (lists m) + 6 * length cells + 5 < fuel)
      → (h' : PageHeap) × (destroy sys fuel c
          ≡ some (
            tt,
            record c {
              heap = h';
              cfl = record c.cfl { span_list = null; current_span = null; num_free = 0 };
            },
          ))
        × Emptied sys c.heap h' lists cells
  unfolding destroy
  destroy-Emptied c lists cells w d dis used head le enough =
      let (h', run, e) = return_all-Emptied fuel c lists null cells w d dis used le enough in
      (
        h',
        ap
            (λ (o : Option (Unit {0} × Central)). and_then o (λ _.
              set_cfl (λ l. record l { span_list = null; current_span = null; num_free = 0 })))
            (ap (λ q. return_all sys fuel fuel q c) head ∙ run),
        e,
      )
