-- ===== src/PageHeap/Lists/Relink.antt =====
-- `remove_from_free_list` and `insert` keep the invariant of the free lists.
use allocator.Prelude.{
  ℕ, ◌+◌, ◌≤◌, ◌<◌, ◌≡◌, ◌≢◌, refl, sym, ap, ◌∙◌, Bool, true, false, ◌||◌, some, ◌++◌, [], ◌∷◌,
  arith, ◌==◌, Ptr, null, update, Bool-cases, inl, inr, ==→eq, length,
}
use mathlib.Core.Path.{subst}
use allocator.Config.{max_pages}
use allocator.PageHeap.State.{Span, PageHeap}
use allocator.PageHeap.FreeLists.{insert, remove_from_free_list}
use allocator.PageHeap.Dll.{
  Cells, head_of, last_of, linked, Dll, has, has-append, Distinct, insert_cell,
}
use allocator.PageHeap.Find.{find, has_of_find, Dll-find, find-removed, find-insert_cell, cut_at}
use allocator.PageHeap.Insertion.{freed, insert-Inserted}
use allocator.PageHeap.Removal.{remove-Removed}
use allocator.PageHeap.Removal.Cut.{detached, middle}
use allocator.PageHeap.Shape.{shape}
use allocator.PageHeap.Lists.{free_of, Lists, Unlisted, Lists-apart}
use allocator.PageHeap.Lists.Change.{
  Changed, Changed-shape, Changed-free, Changed-loose, Changed-Lists,
}

-- What the two methods leave: the span `p`, now `t` but for its links, is in or out of the lists; no
-- span has moved, and what was in no list and is not `p` is as before.
pub record Relinked (h h' : PageHeap) (lists lists' : ℕ → Cells) (out' : Ptr → Bool) (p : Ptr)
    (t : Span) : Type 0 where
  pub lists_ok : Lists h'.spans h'.free_lists lists' out'
  pub at : (q : Ptr) × (r : Ptr) × (h'.spans p ≡ some (linked t q r))
  pub shapes : (a : Ptr) → shape h'.spans a ≡ shape h.spans a
  pub frees : (a : Ptr) → a ≢ p → free_of (h'.spans a) ≡ free_of (h.spans a)
  pub loose : (a : Ptr) → a ≢ p → Unlisted a lists → h'.spans a ≡ h.spans a
  pub pages : h'.page_map ≡ h.page_map
  pub calls : h'.calls ≡ h.calls
  pub lengths : (n : ℕ) → length (lists' n) ≤ length (lists n) + 1

Distinct-removed :
    (p : Ptr) (t : Span) (xs ys : Cells)
    → Distinct (xs ++ (p, t) ∷ ys)
    → Distinct (xs ++ ys) × (has p (xs ++ ys) ≡ false)
Distinct-removed p t [] ys dis = (dis.1, dis.0)
Distinct-removed p t ((q, u) ∷ xs) ys dis =
    let rest = Distinct-removed p t xs ys dis.1 in
    (
      (ground (arith, has-append q xs ((p, t) ∷ ys), has-append q xs ys), rest.0),
      ground (arith, has-append q xs ((p, t) ∷ ys)),
    )

length-removed : (c : Ptr × Span) (xs ys : Cells) → length (xs ++ ys) ≤ length (xs ++ c ∷ ys) + 1
length-removed c [] ys = omega arith
length-removed c (x ∷ xs) ys = omega (arith, length-removed c xs ys)

has-insert_cell :
    (a x : Ptr) (t : Span) (xs : Cells) → has a (insert_cell (x, t) xs) ≡ ((a == x) || has a xs)
unfolding insert_cell
has-insert_cell a x t [] = refl
has-insert_cell a x t ((y, s) ∷ xs) = ground (arith, has-insert_cell a x t xs)

Distinct-insert_cell :
    (x : Ptr) (t : Span) (xs : Cells)
    → Distinct xs
    → has x xs ≡ false
    → Distinct (insert_cell (x, t) xs)
unfolding insert_cell
Distinct-insert_cell x t [] dis out = (refl, tt)
Distinct-insert_cell x t ((y, s) ∷ xs) dis out =
    ground (arith, has-insert_cell y x t xs, Distinct-insert_cell x t xs dis.1)

length-insert_cell : (c : Ptr × Span) (xs : Cells) → length (insert_cell c xs) ≤ length xs + 1
unfolding insert_cell
length-insert_cell c [] = omega arith
length-insert_cell c (x ∷ xs) = ground (arith, length-insert_cell c xs)

lengths_update :
    (lists : ℕ → Cells) (n : ℕ) (ys : Cells)
    → length ys ≤ length (lists n) + 1
    → (m : ℕ) → length (update lists n ys m) ≤ length (lists m) + 1
lengths_update lists n ys le m = elim (Bool-cases (n == m)) [
  | inl e ↦ rw e (subst (λ k. length ys ≤ length (lists k) + 1) (==→eq n m e) le)
  | inr ne ↦ rw ne (omega arith)
]

module _ (h : PageHeap) (lists : ℕ → Cells) (out : Ptr → Bool)
    (v : Lists h.spans h.free_lists lists out) (p : Ptr) where
  -- What `remove_from_free_list` of a span `s` does.
  abbrev pub Taken : Span → Type 0
  Taken s =
      (h' : PageHeap) × (lists' : ℕ → Cells) × (remove_from_free_list p h ≡ some (tt, h'))
      × Relinked h h' lists lists' (update out p false) p (detached s)

  remove_cut :
      (t : Span) (q w : Ptr) (xs ys : Cells)
      → h.spans p ≡ some (linked t q w)
      → t.num_pages ≤ max_pages
      → lists t.num_pages ≡ xs ++ (p, t) ∷ ys
      → Taken (linked t q w)
  remove_cut t q w xs ys at small e =
      let n = t.num_pages in
      let d = subst (Dll h.spans null) e (v.chain n) in
      let dis = subst Distinct e (v.distinct n) in
      let (h', ran, r) = remove-Removed h p t xs ys small d dis (v.head n small ∙ ap head_of e) in
      let (dis', gone) = Distinct-removed p t xs ys dis in
      let i : has p (lists n) ≡ true =
        ap (has p) e ∙ has-append p xs ((p, t) ∷ ys) ∙ ground arith in
      let elsewhere = elsewhere_not n i in
      let c : Changed h.spans h'.spans h.free_lists h'.free_lists n (lists n) (xs ++ ys) p
          (linked t q w) (detached t) =
        record {
          small = small;
          live = ground (arith, v.null_dead);
          before = at;
          after = r.self;
          same_start = refl;
          same_pages = refl;
          size = refl;
          chain = r.chain;
          distinct = dis';
          head = r.head;
          other_heads = r.other_heads;
          others = λ a ne. sym (ap (find a) e ∙ find-removed a p t xs ys ne);
          same = λ a ne o. r.same a (sym (ap (has a) e) ∙ o);
          sized = λ u f. absurd (cc (has_of_find p u (xs ++ ys) f));
          listed = λ f. absurd (cc f);
        } in
      (
        h',
        update lists n (xs ++ ys),
        ran,
        record {
          lists_ok =
              Changed-Lists h.spans h'.spans h.free_lists h'.free_lists lists out n (xs ++ ys) p
                (linked t q w) _ v elsewhere c;
          at = (null, null, r.self);
          shapes =
              Changed-shape h.spans h'.spans h.free_lists h'.free_lists lists out n (xs ++ ys) p
                (linked t q w) _ v elsewhere c;
          frees =
              Changed-free h.spans h'.spans h.free_lists h'.free_lists lists out n (xs ++ ys) p
                (linked t q w) _ v elsewhere c;
          loose =
              Changed-loose h.spans h'.spans h.free_lists h'.free_lists lists out n (xs ++ ys) p
                (linked t q w) _ v elsewhere c;
          pages = r.pages;
          calls = r.calls;
          lengths =
              lengths_update lists n (xs ++ ys) (
                subst (λ l. length (xs ++ ys) ≤ length l + 1) (sym e)
                  (length-removed (p, t) xs ys));
        },
      )
    where
      elsewhere_not : (n : ℕ) → has p (lists n) ≡ true → (m : ℕ) → m ≢ n → has p (lists m) ≡ false
      elsewhere_not n i m ne = elim (Bool-cases (has p (lists m))) [
        | inr f ↦ f
        | inl j ↦ absurd (ne (Lists-apart h.spans h.free_lists lists out v m n p j i))
      ]

  -- A free span is taken out of its list.
  pub remove-Relinked : (s : Span) → h.spans p ≡ some s → s.is_free ≡ true → out p ≡ false → Taken s
  remove-Relinked s at free here =
      let (small, i) = v.listed p s at free here in
      let n = s.num_pages in
      let (xs, t, ys, e) = cut_at p (lists n) i in
      let mid = middle h.spans p t ys null xs (subst (Dll h.spans null) e (v.chain n)) in
      let same : linked t (last_of null xs) (head_of ys) ≡ s = some_inj (sym mid.1 ∙ at) in
      let size : s.num_pages ≡ t.num_pages = sym (ap (λ u. u.num_pages) same) in
      subst Taken same (
        remove_cut t (last_of null xs) (head_of ys) xs ys mid.1 (omega arith)
          (ap lists (sym size) ∙ e))
    where
      some_inj : {a b : Span} → some a ≡ some b → a ≡ b
      some_inj e = cc

module _ (h : PageHeap) (lists : ℕ → Cells) (out : Ptr → Bool)
    (v : Lists h.spans h.free_lists lists out) (p : Ptr) (s : Span) (at : h.spans p ≡ some s) where
  -- A span in hand is put into the list of its number of pages.
  pub insert-Relinked :
      (fuel : ℕ)
      → s.num_pages ≤ max_pages
      → out p ≡ true
      → length (lists s.num_pages) < fuel
      → (h' : PageHeap) × (lists' : ℕ → Cells) × (insert fuel s.num_pages p h ≡ some (tt, h'))
        × Relinked h h' lists lists' (update out p false) p (freed s)
  insert-Relinked fuel small mine enough =
      let n = s.num_pages in
      let alone = v.unlisted p mine in
      let live : p ≢ null = ground (arith, v.null_dead) in
      let (h', ran, r) =
        insert-Inserted fuel n p s h (lists n) small live at (v.chain n) (v.distinct n) (alone n)
          (v.head n small) enough in
      let ys = insert_cell (p, freed s) (lists n) in
      let found : find p ys ≡ some (freed s) =
        find-insert_cell p p (freed s) (lists n) (alone n) ∙ ground arith in
      let (live', q, w, at') = Dll-find h'.spans null ys p (freed s) r.chain found in
      let c : Changed h.spans h'.spans h.free_lists h'.free_lists n (lists n) ys p s
          (linked (freed s) q w) =
        record {
          small = small;
          live = live;
          before = at;
          after = at';
          same_start = refl;
          same_pages = refl;
          size = refl;
          chain = r.chain;
          distinct = Distinct-insert_cell p (freed s) (lists n) (v.distinct n) (alone n);
          head = r.head;
          other_heads = r.other_heads;
          others = λ a ne. find-insert_cell a p (freed s) (lists n) (alone n) ∙ ground arith;
          same = λ a ne o. r.same a (ground arith);
          sized = λ u e. ground arith;
          listed = λ f. has_of_find p (freed s) ys found;
        } in
      (
        h',
        update lists n ys,
        ran,
        record {
          lists_ok =
              Changed-Lists h.spans h'.spans h.free_lists h'.free_lists lists out n ys p s _ v
                (λ m ne. alone m) c;
          at = (q, w, at');
          shapes =
              Changed-shape h.spans h'.spans h.free_lists h'.free_lists lists out n ys p s _ v
                (λ m ne. alone m) c;
          frees =
              Changed-free h.spans h'.spans h.free_lists h'.free_lists lists out n ys p s _ v
                (λ m ne. alone m) c;
          loose =
              Changed-loose h.spans h'.spans h.free_lists h'.free_lists lists out n ys p s _ v
                (λ m ne. alone m) c;
          pages = r.pages;
          calls = r.calls;
          lengths = lengths_update lists n ys (length-insert_cell (p, freed s) (lists n));
        },
      )
