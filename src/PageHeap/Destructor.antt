-- ===== src/PageHeap/Destructor.antt =====
-- `~PageHeap` unmaps and deletes the free spans.
use mathlib.Core.List.{append_assoc, append-nil}
use allocator.Prelude.{
  List, ◌*◌, ◌%◌, ◌^◌, ◌++◌, ap₂, ℕ, zero, suc, ◌+◌, ◌≤◌, ◌<◌, ◌≡◌, refl, sym, ap, ◌∙◌, inl, inr,
  Bool, true, false, ◌||◌, Option, none, some, [], ◌∷◌, arith, ◌==◌, if◌then◌else◌, Ptr, null,
  update, length, ==→eq, Bool-cases,
}
use allocator.Config.{page_size, max_pages}
use allocator.PageHeap.State.{Span, System, PageHeap, and_then, set_list, ◌>>◌}
use allocator.PageHeap.Steps.{load-ok, delete-ok}
use allocator.PageHeap.Dll.{Cells, head_of, linked, Dll, has, Distinct, frame, frame-update}
use allocator.PageHeap.Lists.{Lists-apart, used-Unlisted}
use allocator.PageHeap.Invariant.{WellFormed, nothing}
use allocator.PageHeap.{drop_list, drop_lists, destroy}

-- The spans without those of a list.
abbrev without : Cells → (Ptr → Option Span) → Ptr → Option Span
without [] spans = spans
without ((x, s) ∷ xs) spans = without xs (update spans x none)

without-at :
    (cells : Cells) (spans : Ptr → Option Span) (a : Ptr)
    → without cells spans a ≡ (if has a cells then none else spans a)
without-at [] spans a = refl
without-at ((x, s) ∷ xs) spans a = without-at xs (update spans x none) a ∙ ground arith

-- Whether one of the `k` lists from `i` on holds the address.
abbrev listed_from : (ℕ → Cells) → (i k : ℕ) → Ptr → Bool
listed_from lists i zero a = false
listed_from lists i (suc k) a = has a (lists i) || listed_from lists (i + 1) k a

-- The memory of the spans of a list: the address and the number of bytes of each.
abbrev pub regions : Cells → List (ℕ × ℕ)
regions [] = []
regions ((x, s) ∷ xs) =
    (s.start * page_size % 2 ^ 64, s.num_pages * page_size % 2 ^ 64) ∷ regions xs

-- That of the `k` lists from `i` on.
abbrev pub regions_from : (ℕ → Cells) → (i k : ℕ) → List (ℕ × ℕ)
regions_from lists i zero = []
regions_from lists i (suc k) = regions (lists i) ++ regions_from lists (i + 1) k

module _ (lists : ℕ → Cells) (a : Ptr) where
  listed_from-in :
      (k i n : ℕ) → i ≤ n → n < i + k → has a (lists n) ≡ true → listed_from lists i k a ≡ true
  listed_from-in zero i n p q m = absurd (omega arith)
  listed_from-in (suc k) i n p q m = elim (Bool-cases (i == n)) [
    | inl e ↦
        let here : has a (lists i) ≡ true = ap (λ j. has a (lists j)) (==→eq i n e) ∙ m in
        rw here refl
    | inr e ↦ let later = listed_from-in k (i + 1) n (ground arith) (omega arith) m in ground arith
  ]

  listed_from-out :
      (k i : ℕ) → ((n : ℕ) → has a (lists n) ≡ false) → listed_from lists i k a ≡ false
  listed_from-out zero i out = refl
  listed_from-out (suc k) i out = rw (out i) (listed_from-out k (i + 1) out)

module _ (sys : System) (fuel : ℕ) where
  drop_list-without :
      (rounds : ℕ) (h : PageHeap) (prev : Ptr) (cells : Cells)
      → Dll h.spans prev cells
      → Distinct cells
      → length cells < rounds
      → drop_list sys fuel rounds (head_of cells) h
        ≡ some (
          tt,
          record h {
            spans = without cells h.spans;
            calls = h.calls + length cells;
            unmapped = h.unmapped ++ regions cells;
          },
        )
  unfolding drop_list
  drop_list-without zero h prev cells d dis le = absurd (omega arith)
  drop_list-without (suc rounds) h prev [] d dis le =
      ap₂ (λ n l. some (tt, record h { calls = n; unmapped = l })) (omega arith)
        (sym (append-nil h.unmapped))
  drop_list-without (suc rounds) h prev ((x, s) ∷ xs) d dis le =
      let nn : (x == null) ≡ false = ground (arith, d.0) in
      let c : Span = linked s prev (head_of xs) in
      let region : ℕ × ℕ = (c.start * page_size % 2 ^ 64, c.num_pages * page_size % 2 ^ 64) in
      let h1 : PageHeap = record h {
        calls = h.calls + 1;
        unmapped = h.unmapped ++ (region ∷ []);
      } in
      let h2 : PageHeap = record h1 { spans = update h.spans x none } in
      let rest =
        drop_list-without rounds h2 x xs (frame-update h.spans x xs x none d.2 dis.0) dis.1
          (omega arith) in
      let calls : (h.calls + 1) + length xs ≡ h.calls + length ((x, s) ∷ xs) = omega arith in
      rw (nn, load-ok h x c d.0 d.1, delete-ok h1 x c d.0 d.1)
        (rest
          ∙ ap₂
              (λ n l. some (tt, record h2 { spans = without xs h2.spans; calls = n; unmapped = l }))
              calls (append_assoc h.unmapped (region ∷ []) (regions xs)))

  -- What is left of a heap after the `k` lists from `i` on are dropped.
  record Dropped (h h' : PageHeap) (lists : ℕ → Cells) (i k : ℕ) : Type 0 where
    spans : (a : Ptr) → h'.spans a ≡ (if listed_from lists i k a then none else h.spans a)
    heads : (n : ℕ) → i ≤ n → n < i + k → h'.free_lists n ≡ null
    other_heads : (n : ℕ) → n < i → h'.free_lists n ≡ h.free_lists n
    unmapped : h'.unmapped ≡ h.unmapped ++ regions_from lists i k

  module _ (lists : ℕ → Cells) (distinct : (n : ℕ) → Distinct (lists n))
      (apart : (m n a : ℕ) → has a (lists m) ≡ true → has a (lists n) ≡ true → m ≡ n)
      (enough : (n : ℕ) → length (lists n) < fuel) where
    drop_lists-Dropped :
        (k i : ℕ) (h : PageHeap)
        → i + k ≤ max_pages + 1
        → ((n : ℕ) → i ≤ n → Dll h.spans null (lists n))
        → ((n : ℕ) → i ≤ n → n ≤ max_pages → h.free_lists n ≡ head_of (lists n))
        → (h' : PageHeap) × (drop_lists sys fuel k i h ≡ some (tt, h')) × Dropped h h' lists i k
    unfolding drop_lists
    drop_lists-Dropped zero i h le chain head = (
      h,
      refl,
      record {
        spans = λ a. refl;
        heads = λ n p q. absurd (omega arith);
        other_heads = λ n p. refl;
        unmapped = sym (append-nil h.unmapped);
      },
    )
    drop_lists-Dropped (suc k) i h le chain head =
        let here = lists i in
        let h1 : PageHeap = record h {
          spans = without here h.spans;
          calls = h.calls + length here;
          unmapped = h.unmapped ++ regions here;
        } in
        let h2 : PageHeap = record h1 { free_lists = update h.free_lists i null } in
        let one =
          ap (λ q. drop_list sys fuel fuel q h) (head i (omega arith) (omega arith))
          ∙ drop_list-without fuel h null here (chain i (omega arith)) (distinct i) (enough i) in
        let (h', run, e) =
          drop_lists-Dropped k (i + 1) h2 (omega arith)
            (λ n l.
              frame h.spans h2.spans null (lists n) (chain n (omega arith))
                λ a m. without-at here h.spans a ∙ ground (arith, apart i n a, m))
            (λ n l small. let old = head n (omega arith) small in ground arith) in
        (
          h',
          ap
                (λ (o : Option (Unit {0} × PageHeap)).
                  and_then o (λ _. set_list i null >> drop_lists sys fuel k (i + 1)))
                one
              ∙ run,
          record {
            spans = λ a. e.spans a ∙ ground (arith, without-at here h.spans a);
            heads = λ n l m. elim (Bool-cases (i == n)) [
              | inl p ↦ e.other_heads n (ground arith) ∙ ground arith
              | inr p ↦ e.heads n (ground arith) (omega arith)
            ];
            other_heads = λ n l. e.other_heads n (omega arith) ∙ ground arith;
            unmapped =
                e.unmapped ∙ append_assoc h.unmapped (regions here) (regions_from lists (i + 1) k);
          },
        )

  -- What is left of the heap: the spans in use, no list and no map.
  pub record Destroyed (h h' : PageHeap) (lists : ℕ → Cells) : Type 0 where
    pub kept : (a : Ptr) (u : Span) → u.is_free ≡ false → h.spans a ≡ some u → h'.spans a ≡ some u
    pub in_use :
        (a : Ptr) (u : Span) → h'.spans a ≡ some u → (u.is_free ≡ false) × (h.spans a ≡ some u)
    pub heads : (n : ℕ) → n ≤ max_pages → h'.free_lists n ≡ null
    pub page_map : (q : ℕ) → h'.page_map q ≡ none
    pub unmapped : h'.unmapped ≡ h.unmapped ++ regions_from lists 0 (max_pages + 1)

  -- On a well-formed heap, with fuel for more spans than any free list has, `~PageHeap` ends. It has
  -- called `munmap` exactly for the memory of each free span, by the number of pages and in the
  -- order of the lists, has deleted exactly these spans, and left the spans in use as they were;
  -- all free lists and the page map are empty.
  pub destroy-Destroyed :
      (h : PageHeap) (lists : ℕ → Cells)
      → WellFormed sys h lists nothing
      → ((n : ℕ) → length (lists n) < fuel)
      → (h' : PageHeap) × (destroy sys fuel h ≡ some (tt, h')) × Destroyed h h' lists
  unfolding destroy
  destroy-Destroyed h lists w enough =
      let l = w.lists_ok in
      let (h1, run, e) =
        drop_lists-Dropped lists l.distinct
          (λ m n a. Lists-apart h.spans h.free_lists lists nothing l m n a) enough (max_pages + 1) 0
          h (omega arith) (λ n le. l.chain n) (λ n le small. l.head n small) in
      (
        record h1 { page_map = λ _. none },
        ap
            (λ (o : Option (Unit {0} × PageHeap)).
              and_then o (λ _ g. some (tt, record g { page_map = λ _. none })))
            run,
        record {
          kept = λ a u busy at.
              let out =
                listed_from-out lists a (max_pages + 1) 0
                  (used-Unlisted h.spans h.free_lists lists nothing l a u at busy) in
              e.spans a ∙ rw out at;
          in_use = λ a u at. elim (Bool-cases (listed_from lists 0 (max_pages + 1) a)) [
            | inl i ↦ absurd (cc (sym at ∙ e.spans a ∙ ap (λ b. if b then none else h.spans a) i))
            | inr o ↦
                let before : h.spans a ≡ some u =
                  sym (ap (λ b. if b then none else h.spans a) o) ∙ sym (e.spans a) ∙ at in
                elim (Bool-cases u.is_free) [
                  | inr f ↦ (f, before)
                  | inl f ↦
                      let (small, i) = l.listed a u before f refl in
                      absurd (
                        cc (
                          sym o
                          ∙ listed_from-in lists a (max_pages + 1) 0 u.num_pages (omega arith)
                              (omega arith) i))
                ]
          ];
          heads = λ n le. e.heads n (omega arith) (omega arith);
          page_map = λ q. refl;
          unmapped = e.unmapped;
        },
      )
