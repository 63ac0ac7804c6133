-- ===== src/CentralFreeList/Objects/Populate.antt =====
-- `populate_span` makes objects free that were never used.
use allocator.Prelude.{
  length, ℕ, zero, suc, ◌+◌, ◌-◌, ◌*◌, ◌/◌, ◌≤◌, ◌<◌, ◌≡◌, ◌≢◌, refl, sym, ap, ◌∙◌, false, not,
  ◌&&◌, ◌||◌, List, [], ◌∷◌, arith, ltb, leb, ◌==◌, Ptr, null, Option, none, some, min, max, update,
}
use mathlib.Core.Path.{subst}
use allocator.Config.{page_size, add32}
use allocator.PageHeap.State.{Span, PageHeap}
use allocator.PageHeap.Steps.{modify-ok, load-ok}
use allocator.CentralFreeList.{Central, load, modify, populate_span}
use allocator.CentralFreeList.Nodes.{Filling, fill_nodes}
use allocator.CentralFreeList.Nodes.Chain.{contains}
use allocator.CentralFreeList.Nodes.Fill.{push_range, fill_nodes-Filled, length-push_range}
use allocator.CentralFreeList.Objects.{Distinct, in_use, SpanOk, base-eq}

contains-push_range-eq :
    (i n k : ℕ) (xs : List ℕ)
    → contains k (push_range i n xs) ≡ ((leb i k && ltb k (i + n)) || contains k xs)
unfolding push_range contains
contains-push_range-eq i zero k xs = ground arith
contains-push_range-eq i (suc n) k xs = contains-push_range-eq (i + 1) n k (i ∷ xs) ∙ ground arith

Distinct-push_range :
    (i n : ℕ) (xs : List ℕ)
    → Distinct xs
    → ((k : ℕ) → i ≤ k → contains k xs ≡ false)
    → Distinct (push_range i n xs)
unfolding push_range contains
Distinct-push_range i zero xs d out = d
Distinct-push_range i (suc n) xs d out =
    Distinct-push_range (i + 1) n (i ∷ xs) (out i (omega arith), d)
      (λ k h. ground (arith, out k (omega arith)))

push_range_nonempty :
    (i n : ℕ) (xs : List ℕ) → (k : ℕ) × (rest : List ℕ) × (push_range i (suc n) xs ≡ k ∷ rest)
unfolding push_range
push_range_nonempty i zero xs = (i, xs, refl)
push_range_nonempty i (suc n) xs = push_range_nonempty (i + 1) n (i ∷ xs)

module _ (c : Central) (p : Ptr) (s : Span) where
  -- Reads and writes of the span.
  pub central_load-ok : p ≢ null → c.heap.spans p ≡ some s → load p c ≡ some (s, c)
  unfolding load
  central_load-ok live at =
      ap
        (λ (o : Option (Span × PageHeap)). elim o [
          | none ↦ none
          | some (a, h) ↦ some (a, record c { heap = h })
        ])
        (load-ok c.heap p s live at)

  pub central_modify-ok :
      (f : Span → Span)
      → p ≢ null
      → c.heap.spans p ≡ some s
      → modify p f c
        ≡ some
            (tt, record c { heap = record c.heap { spans = update c.heap.spans p (some (f s)) } })
  unfolding modify
  central_modify-ok f live at =
      ap
        (λ (o : Option (Unit {0} × PageHeap)). elim o [
          | none ↦ none
          | some (a, h) ↦ some (a, record c { heap = h })
        ])
        (modify-ok c.heap p s live at f)

-- What the method leaves: some objects are free, and none has changed hands.
-- A span that has not moved, and stays in its lists.
abbrev pub SameSpan : Span → Span → Type 0
SameSpan s' s =
    (s'.num_pages ≡ s.num_pages)
    × (s'.is_free ≡ s.is_free)
    × (s'.next ≡ s.next)
    × (s'.prev ≡ s.prev)

pub record Populated (c c' : Central) (p : Ptr) (s : Span) : Type 0 where
  pub s' : Span
  pub k : ℕ
  pub rest : List ℕ
  pub ok : SpanOk c' p s' (k ∷ rest)
  pub same_start : s'.start ≡ s.start
  pub same_total : s'.total_objects ≡ s.total_objects
  pub same_size : c'.cfl.size ≡ c.cfl.size
  pub heap : c'.heap ≡ record c.heap { spans = update c.heap.spans p (some s') }
  pub cfl : c'.cfl ≡ record c.cfl { num_free = c'.cfl.num_free }
  pub class_count : c'.cfl.num_free ≡ c.cfl.num_free + suc (length rest)
  pub kept : SameSpan s' s
  pub same : (j : ℕ) → in_use s' (k ∷ rest) j ≡ in_use s [] j

pub populate_span-Populated :
    (c : Central) (p : Ptr) (s : Span)
    → SpanOk c p s []
    → s.next_uninitialized < s.total_objects
    → (c' : Central) × (populate_span p c ≡ some (tt, c')) × Populated c c' p s
unfolding populate_span in_use contains
populate_span-Populated c p s v more =
    let size = c.cfl.size in
    let base = s.start * page_size in
    let i = s.next_uninitialized in
    let chunk_end = min s.total_objects (add32 i (max (page_size / size) 1)) in
    let n = chunk_end - i in
    let per : page_size / size ≤ page_size = omega arith in
    let pos : 0 < n = omega (arith, v.small) in
    let base_ok = base-eq s.start size (omega (arith, v.room)) v.fits in
    let f0 : Filling = record {
      mem = c.mem;
      freelist_head = s.freelist_head;
      num_free_objects = s.num_free_objects;
      num_free = c.cfl.num_free;
    } in
    let f = fill_nodes base size chunk_end n i f0 in
    let r =
      fill_nodes-Filled base size v.room v.fits chunk_end n i n [] f0 (omega (arith, v.small)) refl
        (omega arith) v.chain (λ k h. refl) (omega (arith, v.counted))
        (omega (arith, v.class_small)) in
    let s1 = record s {
      num_free_objects = f.num_free_objects;
      next_uninitialized = chunk_end;
      freelist_head = f.freelist_head;
    } in
    let c2 : Central = record c { mem = f.mem; cfl = record c.cfl { num_free = f.num_free } } in
    let c3 : Central = record c2 {
      heap = record c.heap { spans = update c.heap.spans p (some s1) };
    } in
    let (k, rest, e) = push_range_nonempty i (n - 1) [] in
    let n_eq : n ≡ suc (n - 1) = omega arith in
    let e' : push_range i n [] ≡ k ∷ rest = ap (λ m. push_range i m []) n_eq ∙ e in
    let len = length-push_range i n [] in
    let inside = contains-push_range-eq i n in
    let ok : SpanOk c3 p s1 (push_range i n []) = record {
      live = v.live;
      at = ground arith;
      room = v.room;
      fits = v.fits;
      chain = r.chain;
      distinct = Distinct-push_range i n [] tt (λ j h. refl);
      started = λ j h. ground (arith, inside j []);
      upto = omega arith;
      small = v.small;
      counted = omega (arith, r.span_count, v.counted, len, v.small);
      class_counted = omega (arith, r.class_count, len, v.class_small);
      class_small = omega (arith, r.class_count, len, v.class_small);
    } in
    let nn : (p == null) ≡ false = ground (arith, v.live) in
    let open_span : leb s.total_objects s.next_uninitialized ≡ false = ground arith in
    (
      c3,
      rw (nn, central_load-ok c p s v.live v.at, open_span, base_ok)
          (central_modify-ok c2 p s _ v.live v.at),
      record {
        s' = s1;
        k = k;
        rest = rest;
        ok = subst (SpanOk c3 p s1) e' ok;
        same_start = refl;
        same_total = refl;
        same_size = refl;
        heap = refl;
        cfl = refl;
        class_count = omega (arith, r.class_count, len, v.class_small, ap length e');
        kept = (refl, refl, refl, refl);
        same = λ j.
            ap (λ xs. ltb j chunk_end && not (contains j xs)) (sym e')
            ∙ ground (arith, inside j []);
      },
    )
