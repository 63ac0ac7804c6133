-- ===== src/CentralFreeList/Release/Outcome.antt =====
-- What `release_to_page_heap` leaves of the class and of the page heap.
use allocator.Prelude.{
  ℕ, ◌+◌, ◌≤◌, ◌<◌, ◌≡◌, ◌≢◌, refl, sym, ap, ◌∙◌, true, false, Option, none, some, ◌∷◌, ◌++◌, arith,
  ◌==◌, if◌then◌else◌, Ptr, null, length,
}
use allocator.Config.{sub32}
use allocator.PageHeap
use allocator.PageHeap.State.{Span, System, PageHeap}
use allocator.PageHeap.Dll.{Cells, head_of, last_of, Dll, has, Distinct}
use allocator.PageHeap.Lists.{free_of}
use allocator.PageHeap.Removal.{Apart-lem, last-null, Dll-nonnull}
use allocator.PageHeap.Removal.Cut.{middle, remove-Dll, not_has-append}
use allocator.PageHeap.Invariant.{WellFormed, Kept, nothing}
use allocator.PageHeap.Invariant.Return.{PagesFree, return_span-Released}
use allocator.CentralFreeList.{Central, in_heap, release_to_page_heap}
use allocator.CentralFreeList.Release.{AllUsed, reset}
use allocator.CentralFreeList.Release.Unlink.{
  unlinked-Joined, handed, release-eq, handed-WellFormed,
}
use allocator.CentralFreeList.Release.Members.{
  Distinct-without, AllUsed-without, left_used, right_used, behind-used, Dll-Kept, head-after,
  outside,
}

-- The class has lost the span `p`, which was `t` between `xs` and `ys` of its list, to the page heap.
pub record GivenBack (sys : System) (c c' : Central) (lists : ℕ → Cells) (p : Ptr) (t : Span)
    (xs ys : Cells) : Type 0 where
  pub lists' : ℕ → Cells
  pub ok : WellFormed sys c'.heap lists' nothing
  pub lengths : (n : ℕ) → length (lists' n) ≤ length (lists n) + 6
  pub free : free_of (c'.heap.spans p) ≡ true
  pub pages_free : PagesFree c.heap c'.heap t
  pub chain : Dll c'.heap.spans null (xs ++ ys)
  pub distinct : Distinct (xs ++ ys)
  pub used : AllUsed (xs ++ ys)
  pub head : c'.cfl.span_list ≡ head_of (xs ++ ys)
  pub current : c'.cfl.current_span ≡ (if c.cfl.current_span == p then null else c.cfl.current_span)
  pub num_free : c'.cfl.num_free ≡ sub32 c.cfl.num_free t.num_free_objects
  pub others :
      (a : Ptr) (u : Span)
      → has a (xs ++ (p, t) ∷ ys) ≡ false
      → u.is_free ≡ false
      → (c.heap.spans a ≡ some u → c'.heap.spans a ≡ some u)
        × (c'.heap.spans a ≡ some u → c.heap.spans a ≡ some u)

Kept-outside :
    (h h1 h' : PageHeap) (p : Ptr) (t : Span) (xs ys : Cells)
    → h.spans null ≡ none
    → h'.spans null ≡ none
    → ((a : Ptr) → a ≢ null → has a (xs ++ (p, t) ∷ ys) ≡ false → h1.spans a ≡ h.spans a)
    → Kept h1 h' p
    → (a : Ptr) (u : Span) → has a (xs ++ (p, t) ∷ ys) ≡ false
    → u.is_free ≡ false
    → (h.spans a ≡ some u → h'.spans a ≡ some u) × (h'.spans a ≡ some u → h.spans a ≡ some u)
Kept-outside h h1 h' p t xs ys dead dead' same k a u o busy =
    let not_p = not_has-append a xs ((p, t) ∷ ys) o in
    let ne : a ≢ p = ground (arith, not_p) in
    let (to, from) = k a u ne busy in
    (
      (λ e. to (same a (ground (arith, dead, e)) o ∙ e)),
      (λ e. sym (same a (ground (arith, dead', e)) o) ∙ from e),
    )

pub in_heap-ok :
    (m : PageHeap → Option (Unit {0} × PageHeap)) (c : Central) (h' : PageHeap)
    → m c.heap ≡ some (tt, h')
    → in_heap m c ≡ some (tt, record c { heap = h' })
in_heap-ok m c h' run =
    ap
      (λ (o : Option (Unit {0} × PageHeap)). elim o [
        | none ↦ none
        | some (a, h) ↦ some (a, record c { heap = h })
      ])
      run

pub release-GivenBack :
    (sys : System) (fuel : ℕ) (c : Central) (lists : ℕ → Cells) (p : Ptr) (t : Span) (xs ys : Cells)
    → WellFormed sys c.heap lists nothing
    → Dll c.heap.spans null (xs ++ (p, t) ∷ ys)
    → Distinct (xs ++ (p, t) ∷ ys)
    → AllUsed (xs ++ (p, t) ∷ ys)
    → c.cfl.span_list ≡ head_of (xs ++ (p, t) ∷ ys)
    → ((m : ℕ) → length (lists m) + 5 < fuel)
    → (c' : Central) × (release_to_page_heap sys fuel p c ≡ some (tt, c'))
      × GivenBack sys c c' lists p t xs ys
release-GivenBack sys fuel c lists p t xs ys w d dis used head enough =
    let spans = c.heap.spans in
    let prev = last_of null xs in
    let nx = head_of ys in
    let mid = middle spans p t ys null xs d in
    let apart = Apart-lem p t xs ys dis mid.0 in
    let (s, s_at, s_used) = left_used spans t xs ((p, t) ∷ ys) d used in
    let (v, v_at, v_used) = right_used spans p t ys mid.2 (behind-used p t xs ys used) in
    let joined = unlinked-Joined c prev p nx s t v apart s_at v_at in
    let (rest_used, t_used) = AllUsed-without p t xs ys used in
    let (rest_dis, out) = Distinct-without p t xs ys dis in
    let c1 = handed c prev p nx s t v apart s_at v_at in
    let w1 =
      handed-WellFormed c prev p nx s t v apart s_at v_at sys lists w mid.1 t_used s_used v_used in
    let at1 : c1.heap.spans p ≡ some (reset t) = ground arith in
    let (h', run, r, pages) =
      return_span-Released sys fuel c1.heap lists p (reset t) w1 at1 t_used enough in
    let chain1 =
      remove-Dll spans p t ys c1.heap.spans null xs joined d dis (Dll-nonnull spans null _ d) in
    (
      record c1 { heap = h' },
      release-eq c prev p nx s t v apart s_at v_at sys fuel mid.0 mid.1
          ∙ in_heap-ok (PageHeap.return_span sys fuel p) c1 h' run,
      record {
        lists' = r.lists';
        ok = r.ok;
        lengths = r.lengths;
        free = r.free;
        pages_free = pages;
        chain = Dll-Kept c1.heap h' p null (xs ++ ys) chain1 rest_used r.kept out;
        distinct = rest_dis;
        used = rest_used;
        head = head-after c.cfl.span_list p t xs ys head (last-null spans p t ys xs d);
        current = refl;
        num_free = refl;
        others =
            Kept-outside c.heap c1.heap h' p t xs ys w.lists_ok.null_dead r.ok.lists_ok.null_dead
              (λ a live o. outside spans c1.heap.spans p t xs ys a joined live o) r.kept;
      },
    )
