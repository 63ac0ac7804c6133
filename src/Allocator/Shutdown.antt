-- ===== src/Allocator/Shutdown.antt =====
-- `~Allocator` leaves no span behind.
use allocator.Prelude.{
  ℕ, zero, suc, ◌+◌, ◌*◌, ◌≤◌, ◌<◌, ◌≡◌, ◌≢◌, refl, sym, ap, ◌∙◌, inl, inr, true, false, Option,
  none, some, [], ◌∷◌, arith, ◌==◌, Ptr, null, update, length, Option-cases, Bool-cases, ==→eq,
}
use allocator.Config.{max_pages}
use allocator.SizeClasses.{num_size_classes}
use allocator.PageHeap
use allocator.PageHeap.State.{Span, System, PageHeap}
use allocator.PageHeap.Dll.{Cells, head_of, linked, Dll, has, Distinct}
use allocator.PageHeap.Invariant.{WellFormed, nothing}
use allocator.PageHeap.Destructor.{destroy-Destroyed}
use allocator.CentralFreeList
use allocator.CentralFreeList.{Central, CentralFreeList}
use allocator.CentralFreeList.Release.{AllUsed}
use allocator.CentralFreeList.Release.Destructor.{Remaining, destroy-Emptied}
use allocator.Allocator.{Allocator, and_then, in_central, in_heap, destroy_lists, destroy}

-- The number of spans that the `n` first classes hold.
abbrev pub held_by : (ℕ → Cells) → (n : ℕ) → ℕ
held_by cs zero = 0
held_by cs (suc n) = length (cs n) + held_by cs n

-- The lists of the `n` first classes: doubly linked, of spans in use, no span twice.
pub record ClassLists (a : Allocator) (cs : ℕ → Cells) (n : ℕ) : Type 0 where
  pub chain : (i : ℕ) → i < n → Dll a.page_heap.spans null (cs i)
  pub distinct : (i : ℕ) → i < n → Distinct (cs i)
  pub used : (i : ℕ) → i < n → AllUsed (cs i)
  pub head : (i : ℕ) → i < n → (a.free_list i).span_list ≡ head_of (cs i)
  pub apart : (i j : ℕ) (x : Ptr) → i ≢ j → has x (cs i) ≡ true → has x (cs j) ≡ false

Dll-Remaining :
    (h h' : PageHeap) (cells : Cells) (prev : Ptr) (xs : Cells)
    → Dll h.spans prev xs
    → AllUsed xs
    → Remaining h h' cells
    → ((a : Ptr) → has a xs ≡ true → has a cells ≡ false)
    → Dll h'.spans prev xs
Dll-Remaining h h' cells prev [] d used r out = tt
Dll-Remaining h h' cells prev ((x, s) ∷ xs) d used r out = (
  d.0,
  (r x (linked s prev (head_of xs)) used.0).0 (out x (ground arith)) d.1,
  Dll-Remaining h h' cells x xs d.2 used.1 r (λ a i. out a (ground (arith, i))),
)

in_central-ok :
    (m : CentralFreeList.Cmd (Unit {0})) (i : ℕ) (a : Allocator) (h : PageHeap)
    (l : CentralFreeList)
    → m (record { heap = a.page_heap; mem = a.mem; cfl = a.free_list i })
      ≡ some (tt, record { heap = h; mem = a.mem; cfl = l })
    → in_central i m a ≡ some (tt, record a { page_heap = h; free_list = update a.free_list i l })
in_central-ok m i a h l run =
    ap
      (λ (o : Option (Unit {0} × Central)). elim o [
        | none ↦ none
        | some (x, c) ↦ some (
          x,
          record a { page_heap = c.heap; mem = c.mem; free_list = update a.free_list i c.cfl },
        )
      ])
      run

module _ (sys : System) (fuel : ℕ) (cs : ℕ → Cells) where
  -- The allocator after the destructors of the `n` first classes.
  record Cleared (a a' : Allocator) (lists : ℕ → Cells) (n : ℕ) : Type 0 where
    lists' : ℕ → Cells
    ok : WellFormed sys a'.page_heap lists' nothing
    gone :
        (x : Ptr) (u : Span)
        → u.is_free ≡ false
        → a'.page_heap.spans x ≡ some u
        → (a.page_heap.spans x ≡ some u) × ((i : ℕ) → i < n → has x (cs i) ≡ false)
    lengths : (m : ℕ) → length (lists' m) ≤ length (lists m) + 6 * held_by cs n

  destroy_lists-Cleared :
      (n : ℕ) (a : Allocator) (lists : ℕ → Cells)
      → WellFormed sys a.page_heap lists nothing
      → ClassLists a cs n
      → ((i : ℕ) → i < n → length (cs i) < fuel)
      → ((m : ℕ) → length (lists m) + 6 * held_by cs n + 5 < fuel)
      → (a' : Allocator) × (destroy_lists sys fuel n a ≡ some (tt, a')) × Cleared a a' lists n
  unfolding destroy_lists
  destroy_lists-Cleared zero a lists w l room enough = (
    a,
    refl,
    record {
      lists' = lists;
      ok = w;
      gone = λ x u busy at. (at, λ i lt. absurd (omega arith));
      lengths = λ m. omega arith;
    },
  )
  destroy_lists-Cleared (suc n) a lists w l room enough =
      let c : Central = record { heap = a.page_heap; mem = a.mem; cfl = a.free_list n } in
      let (h, run, e) =
        destroy-Emptied sys fuel c lists (cs n) w (l.chain n (omega arith))
          (l.distinct n (omega arith)) (l.used n (omega arith)) (l.head n (omega arith))
          (room n (omega arith)) (λ m. omega (arith, enough m)) in
      let blank : CentralFreeList = record (a.free_list n) {
        span_list = null;
        current_span = null;
        num_free = 0;
      } in
      let a1 : Allocator = record a { page_heap = h; free_list = update a.free_list n blank } in
      let (a', run', g) =
        destroy_lists-Cleared n a1 e.lists' e.ok
          (record {
            chain = λ i lt.
                Dll-Remaining a.page_heap h (cs n) null (cs i) (l.chain i (omega arith))
                  (l.used i (omega arith)) e.remaining (λ x m. l.apart i n x (omega arith) m);
            distinct = λ i lt. l.distinct i (omega arith);
            used = λ i lt. l.used i (omega arith);
            head =
                λ i lt. let ne : (n == i) ≡ false = ground arith in rw ne (l.head i (omega arith));
            apart = l.apart;
          })
          (λ i lt. room i (omega arith)) (λ m. omega (arith, enough m, e.lengths m)) in
      (
        a',
        ap (λ (o : Option (Unit {0} × Allocator)). and_then o (λ _. destroy_lists sys fuel n))
              (in_central-ok (CentralFreeList.destroy sys fuel) n a h blank run)
            ∙ run',
        record {
          lists' = g.lists';
          ok = g.ok;
          gone = λ x u busy at.
              let (at1, out) = g.gone x u busy at in
              let (here, at0) = (e.remaining x u busy).1 at1 in
              (
                at0,
                λ i lt. elim (Bool-cases (i == n)) [
                  | inl t ↦ ap (λ j. has x (cs j)) (==→eq i n t) ∙ here
                  | inr f ↦ out i (ground arith)
                ],
              );
          lengths = λ m. omega (arith, g.lengths m, e.lengths m);
        },
      )

-- What is left: no span, no list, no map.
pub record NothingLeft (a' : Allocator) : Type 0 where
  pub spans : (x : Ptr) → a'.page_heap.spans x ≡ none
  pub heads : (n : ℕ) → n ≤ max_pages → a'.page_heap.free_lists n ≡ null
  pub page_map : (q : ℕ) → a'.page_heap.page_map q ≡ none

classes_48 : num_size_classes ≡ 48
unfolding num_size_classes
classes_48 = refl

in_heap-ok :
    (m : PageHeap → Option (Unit {0} × PageHeap)) (a : Allocator) (h : PageHeap)
    → m a.page_heap ≡ some (tt, h)
    → in_heap m a ≡ some (tt, record a { page_heap = h })
in_heap-ok m a h run =
    ap
      (λ (o : Option (Unit {0} × PageHeap)). elim o [
        | none ↦ none
        | some (x, h) ↦ some (x, record a { page_heap = h })
      ])
      run

-- Let every span in use of a well-formed page heap be in the list of one of the 48 classes, and let
-- these lists be doubly linked and hold only spans in use, none twice. With fuel for the spans of
-- each list, and for five more than any free list has and six for each span that a class holds,
-- `~Allocator` ends and leaves no span: each has been deleted, in use before or not, and the free
-- lists and the page map are empty.
pub destroy-NothingLeft :
    (sys : System) (fuel : ℕ) (a : Allocator) (lists cs : ℕ → Cells)
    → WellFormed sys a.page_heap lists nothing
    → ClassLists a cs 48
    → ((x : Ptr) (u : Span)
        → a.page_heap.spans x ≡ some u
        → u.is_free ≡ false
        → (i : ℕ) × (i < 48) × (has x (cs i) ≡ true))
    → ((i : ℕ) → i < 48 → length (cs i) < fuel)
    → ((m : ℕ) → length (lists m) + 6 * held_by cs 48 + 5 < fuel)
    → (a' : Allocator) × (destroy sys fuel a ≡ some (tt, a')) × NothingLeft a'
unfolding destroy
destroy-NothingLeft sys fuel a lists cs w l all room enough =
    let (a1, run, g) = destroy_lists-Cleared sys fuel cs 48 a lists w l room enough in
    let (h, run', d) =
      destroy-Destroyed sys fuel a1.page_heap g.lists' g.ok
        (λ m. omega (arith, enough m, g.lengths m)) in
    (
      record a1 { page_heap = h },
      ap (λ n. and_then (destroy_lists sys fuel n a) (λ _. in_heap (PageHeap.destroy sys fuel)))
            classes_48
          ∙ ap
              (λ (o : Option (Unit {0} × Allocator)).
                and_then o (λ _. in_heap (PageHeap.destroy sys fuel)))
              run
          ∙ in_heap-ok (PageHeap.destroy sys fuel) a1 h run',
      record {
        spans = λ x. elim (Option-cases (h.spans x)) [
          | inl e ↦ e
          | inr (u, e) ↦
              let (busy, at1) = d.in_use x u e in
              let (at0, out) = g.gone x u busy at1 in
              let (i, lt, m) = all x u at0 busy in absurd (cc (sym m ∙ out i lt))
        ];
        heads = d.heads;
        page_map = d.page_map;
      },
    )
