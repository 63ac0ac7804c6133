-- ===== src/PageHeap/Insertion.antt =====
-- `insert` puts a span in its place in its free list.
use allocator.Prelude.{
  ℕ, zero, suc, ◌≤◌, ◌<◌, ◌≡◌, ◌≢◌, refl, ◌∙◌, true, false, Option, some, [], ◌∷◌, arith, ltb, ◌==◌,
  if◌then◌else◌, Ptr, null, update, length, Bool-cases, if_apply, inl, inr,
}
use allocator.Config.{max_pages}
use allocator.PageHeap.State.{Span, PageHeap, set_list}
use allocator.PageHeap.FreeLists.{link_before, insert_loop, insert}
use allocator.PageHeap.Steps.{not_null, load-ok, modify-ok}
use allocator.PageHeap.Dll.{
  Cells, head_of, linked, Dll, has, Distinct, frame, frame-update, insert_cell,
}

-- The span at `x`, not yet in any list.
abbrev pub IsLoose : (Ptr → Option Span) → Ptr → Span → Type 0
IsLoose spans x t = (x ≢ null) × (spans x ≡ some (linked t null null))

abbrev pub SameOutside : (Ptr → Option Span) → (Ptr → Option Span) → Cells → Type 0
SameOutside spans spans' xs = (a : Ptr) → has a xs ≡ false → spans' a ≡ spans a

module _ (n : ℕ) (x : Ptr) (t : Span) where
  -- The end of the list: two writes.
  append_last :
      (fuel : ℕ) (h : PageHeap) (pp q : Ptr) (u : Span)
      → Dll h.spans pp ((q, u) ∷ [])
      → has x ((q, u) ∷ []) ≡ false
      → IsLoose h.spans x t
      → insert_loop (suc fuel) n x q null h
        ≡ some (
          tt,
          record h {
            spans = update (update h.spans q (some (linked u pp x))) x (some (linked t q null));
          },
        )
  unfolding insert_loop
  append_last fuel h pp q u d out loose =
      let h1 : PageHeap = record h { spans = update h.spans q (some (linked u pp x)) } in
      rw (modify-ok h q _ d.0 d.1, modify-ok h1 x (linked t null null) loose.0 (ground arith))

  -- Before `y`, behind `q`.
  abbrev between : PageHeap → (q y : Ptr) → (u v : Span) → (pp next : Ptr) → Ptr → Option Span
  between h q y u v pp next =
      update (update (update h.spans x (some (linked t q y))) y (some (linked v x next))) q
        (some (linked u pp x))

  link_between :
      (h : PageHeap) (pp q y : Ptr) (u v : Span) (ys : Cells)
      → Dll h.spans pp ((q, u) ∷ (y, v) ∷ ys)
      → Distinct ((q, u) ∷ (y, v) ∷ ys)
      → has x ((q, u) ∷ (y, v) ∷ ys) ≡ false
      → IsLoose h.spans x t
      → link_before n x q y h ≡ some (tt, record h { spans = between h q y u v pp (head_of ys) })
  unfolding link_before
  link_between h pp q y u v ys d dis out loose =
      let h1 : PageHeap = record h { spans = update h.spans x (some (linked t q y)) } in
      let h2 : PageHeap = record h { spans = update h1.spans y (some (linked v x (head_of ys))) } in
      rw (
        modify-ok h x _ loose.0 loose.1,
        modify-ok h1 y (linked v q (head_of ys)) d.2.0 (ground arith),
        not_null h q _ d.0 d.1,
        modify-ok h2 q (linked u pp y) d.0 (ground arith),
      )

  step :
      (fuel : ℕ) (h : PageHeap) (pp q y : Ptr) (u v : Span) (ys : Cells)
      → Dll h.spans pp ((q, u) ∷ (y, v) ∷ ys)
      → IsLoose h.spans x t
      → insert_loop (suc fuel) n x q y h ≡ (
          if ltb t.start v.start
          then link_before n x q y h
          else insert_loop fuel n x y (head_of ys) h)
  unfolding insert_loop
  step fuel h pp q y u v ys d loose =
      rw (not_null h y _ d.2.0 d.2.1, load-ok h x _ loose.0 loose.1, load-ok h y _ d.2.0 d.2.1)
        (if_apply (ltb t.start v.start) (link_before n x q y) (insert_loop fuel n x y (head_of ys))
          h)

  -- Behind `q`, the span goes to its place among the rest.
  insert_loop-Dll :
      (fuel : ℕ) (h : PageHeap) (pp q : Ptr) (u : Span) (ys : Cells)
      → Dll h.spans pp ((q, u) ∷ ys)
      → Distinct ((q, u) ∷ ys)
      → has x ((q, u) ∷ ys) ≡ false
      → IsLoose h.spans x t
      → length ys < fuel
      → (spans : Ptr → Option Span) × (insert_loop fuel n x q (head_of ys) h
          ≡ some (tt, record h { spans = spans }))
        × Dll spans pp ((q, u) ∷ insert_cell (x, t) ys)
        × SameOutside h.spans spans ((x, t) ∷ (q, u) ∷ ys)
  unfolding insert_cell
  insert_loop-Dll zero h pp q u ys d dis out loose enough = absurd (omega arith)
  insert_loop-Dll (suc fuel) h pp q u [] d dis out loose enough = (
    update (update h.spans q (some (linked u pp x))) x (some (linked t q null)),
    append_last fuel h pp q u d out loose,
    (d.0, ground arith, (loose.0, ground arith, tt)),
    λ a o. ground arith,
  )
  insert_loop-Dll (suc fuel) h pp q u ((y, v) ∷ ys) d dis out loose enough =
      let unfolded = step fuel h pp q y u v ys d loose in
      elim (Bool-cases (ltb t.start v.start)) [
        | inl e ↦ (
          between h q y u v pp (head_of ys),
          unfolded ∙ rw e (link_between h pp q y u v ys d dis out loose),
          rw e (
            d.0,
            ground arith,
            (
              loose.0,
              ground arith,
              (d.2.0, ground arith, frame h.spans _ y ys d.2.2 (ground arith)),
            ),
          ),
          λ a o. ground arith,
        )
        | inr e ↦
            let (spans, ran, dll, same) =
              insert_loop-Dll fuel h q y v ys d.2 dis.1 (ground arith) loose (omega arith) in
            (
              spans,
              unfolded ∙ rw e ran,
              rw e (d.0, same q (ground arith) ∙ d.1, dll),
              λ a o. same a (ground arith),
            )
      ]

  -- Before the first span of the list.
  link_first :
      (h : PageHeap) (y : Ptr) (v : Span) (ys : Cells)
      → Dll h.spans null ((y, v) ∷ ys)
      → has x ((y, v) ∷ ys) ≡ false
      → IsLoose h.spans x t
      → link_before n x null y h
        ≡ some (
          tt,
          record h {
            spans =
                update
                  (update h.spans x (some (linked t null y)))
                  y
                  (some (linked v x (head_of ys)));
            free_lists = update h.free_lists n x;
          },
        )
  unfolding link_before
  link_first h y v ys d out loose =
      let h1 : PageHeap = record h { spans = update h.spans x (some (linked t null y)) } in
      rw (
        modify-ok h x _ loose.0 loose.1,
        modify-ok h1 y (linked v null (head_of ys)) d.0 (ground arith),
      )

  -- What `insert` leaves of a heap whose list `n` was `xs`.
  pub record Inserted (h h' : PageHeap) (xs : Cells) : Type 0 where
    pub chain : Dll h'.spans null (insert_cell (x, t) xs)
    pub head : h'.free_lists n ≡ head_of (insert_cell (x, t) xs)
    pub other_heads : (m : ℕ) → m ≢ n → h'.free_lists m ≡ h.free_lists m
    pub same : SameOutside h.spans h'.spans ((x, t) ∷ xs)
    pub pages : h'.page_map ≡ h.page_map
    pub calls : h'.calls ≡ h.calls

  insert_first : PageHeap → Ptr → Span → Cells → PageHeap
  insert_first h y v ys = record h {
    spans = update (update h.spans x (some (linked t null y))) y (some (linked v x (head_of ys)));
    free_lists = update h.free_lists n x;
  }

  -- `insert` from the point where the fields of the span are set.
  insert_body : (fuel : ℕ) → (head : Ptr) → PageHeap → Option (Unit {0} × PageHeap)
  insert_body fuel head h =
      (if head == null then set_list n x else insert_loop fuel n x null head) h

  insert_body-Inserted :
      (fuel : ℕ) (h : PageHeap) (xs : Cells)
      → Dll h.spans null xs
      → Distinct xs
      → has x xs ≡ false
      → IsLoose h.spans x t
      → h.free_lists n ≡ head_of xs
      → length xs < fuel
      → (h' : PageHeap) × (insert_body fuel (head_of xs) h ≡ some (tt, h')) × Inserted h h' xs
  unfolding insert_body insert_cell insert_loop insert_first
  insert_body-Inserted zero h xs d dis out loose at enough = absurd (omega arith)
  insert_body-Inserted (suc fuel) h [] d dis out loose at enough = (
    record h { free_lists = update h.free_lists n x },
    refl,
    record {
      chain = (loose.0, loose.1, tt);
      head = ground arith;
      other_heads = λ m ne. ground arith;
      same = λ a o. refl;
      pages = refl;
      calls = refl;
    },
  )
  insert_body-Inserted (suc fuel) h ((y, v) ∷ ys) d dis out loose at enough =
      elim (Bool-cases (ltb t.start v.start)) [
        | inl e ↦ (
          insert_first h y v ys,
          rw (not_null h y _ d.0 d.1, load-ok h x _ loose.0 loose.1, load-ok h y _ d.0 d.1, e)
              (link_first h y v ys d out loose),
          record {
            chain = rw e (
              loose.0,
              ground arith,
              (d.0, ground arith, frame h.spans _ y ys d.2 (ground arith)),
            );
            head = rw e (ground arith);
            other_heads = λ m ne. ground arith;
            same = λ a o. ground arith;
            pages = refl;
            calls = refl;
          },
        )
        | inr e ↦
            let (spans, ran, dll, same) =
              insert_loop-Dll fuel h null y v ys d dis out loose (omega arith) in
            (
              record h { spans = spans },
              rw (not_null h y _ d.0 d.1, load-ok h x _ loose.0 loose.1, load-ok h y _ d.0 d.1, e)
                  ran,
              record {
                chain = rw e dll;
                head = rw e at;
                other_heads = λ m ne. refl;
                same = same;
                pages = refl;
                calls = refl;
              },
            )
      ]

-- A span as `insert` leaves it.
abbrev pub freed : Span → Span
freed s = record s { is_free = true; next = null; prev = null }

-- With fuel above the length of a well-formed free list without repetitions, the list of at most
-- `MAX_PAGES` pages, `insert` of a live span that is not in it ends: the list with the span at its
-- place by page ids is well-formed and is what the head leads to, and the other lists, the other
-- spans and the page map are as before.
pub insert-Inserted :
    (fuel n : ℕ) (x : Ptr) (s : Span) (h : PageHeap) (xs : Cells)
    → n ≤ max_pages
    → x ≢ null
    → h.spans x ≡ some s
    → Dll h.spans null xs
    → Distinct xs
    → has x xs ≡ false
    → h.free_lists n ≡ head_of xs
    → length xs < fuel
    → (h' : PageHeap) × (insert fuel n x h ≡ some (tt, h')) × Inserted n x (freed s) h h' xs
unfolding insert insert_body
insert-Inserted fuel n x s h xs small live at d dis out head enough =
    let h0 : PageHeap = record h { spans = update h.spans x (some (freed s)) } in
    let (h', ran, r) =
      insert_body-Inserted n x (freed s) fuel h0 xs (frame-update h.spans null xs x _ d out) dis out
        (live, ground arith) head enough in
    let t : ltb max_pages n ≡ false = ground arith in
    (
      h',
      rw (t, modify-ok h x s live at, head) ran,
      record {
        chain = r.chain;
        head = r.head;
        other_heads = r.other_heads;
        same = λ a o. r.same a o ∙ ground arith;
        pages = r.pages;
        calls = r.calls;
      },
    )
