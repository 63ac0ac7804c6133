-- ===== src/PageHeap/Invariant/Runs.antt =====
-- Sequences of `allocate_span` and `return_span` from the empty heap.
use allocator.Prelude.{
  ℕ, suc, ◌+◌, ◌*◌, ◌/◌, ◌≤◌, ◌<◌, ◌≡◌, refl, ap, true, false, ◌||◌, Option, none, some, [], arith,
  ltb, ◌==◌, Ptr, null, length, inl, inr, Bool-cases,
}
use mathlib.Core.Path.{subst}
use allocator.Config.{page_size, max_pages}
use allocator.PageHeap.State.{Span, System, PageHeap, empty_heap}
use allocator.PageHeap.Dll.{Cells}
use allocator.PageHeap.Pages.{span_for}
use allocator.PageHeap.Shape.{within, extent}
use allocator.PageHeap.Invariant.{WellFormed, Fresh, nothing}
use allocator.PageHeap.Invariant.Allocate.{MmapFresh, Allocated, allocate_span-WellFormed}
use allocator.PageHeap.Invariant.Return.{return_span-Released}
use allocator.PageHeap.{allocate_span, return_span}

-- What a user of the page heap calls.
pub data Call : Type 0 where
  request : (num_pages size : ℕ) → Call
  give_back : Ptr → Call

-- The heap after a call.
abbrev after : {A : Type 0} → Option (A × PageHeap) → Option PageHeap
after none = none
after (some (a, h)) = some h

unfoldable pub perform : System → (fuel : ℕ) → Call → PageHeap → Option PageHeap
unfolding allocate_span return_span
perform sys fuel (request n size) h = after (allocate_span sys fuel n size h)
perform sys fuel (give_back p) h = after (return_span sys fuel p h)

-- The kernel maps pages that belong to no span, and only a span in use is given back.
abbrev pub Allowed : System → PageHeap → Call → Type 0
Allowed sys h (request n size) = MmapFresh sys h n
Allowed sys h (give_back p) = (s : Span) × (h.spans p ≡ some s) × (s.is_free ≡ false)

-- The heaps after `k` calls.
pub data Run (sys : System) (fuel : ℕ) : ℕ → PageHeap → Type 0 where
  start : Run sys fuel 0 empty_heap
  next :
      {k : ℕ} {h h' : PageHeap} (c : Call)
      → Run sys fuel k h
      → Allowed sys h c
      → perform sys fuel c h ≡ some h'
      → Run sys fuel (suc k) h'

-- A well-formed heap whose lists have at most `b` spans each.
record Bounded (sys : System) (h : PageHeap) (b : ℕ) : Type 0 where
  lists : ℕ → Cells
  ok : WellFormed sys h lists nothing
  lengths : (n : ℕ) → length (lists n) ≤ b

empty-Bounded : (sys : System) → Fresh sys (λ _. none) 0 → Bounded sys empty_heap 0
empty-Bounded sys f = record {
  lists = λ n. [];
  ok = record {
    lists_ok = record {
      null_dead = refl;
      chain = λ n. tt;
      distinct = λ n. tt;
      head = λ n le. refl;
      sizes = λ n a s e. absurd (cc e);
      listed = λ p s e f o. absurd (cc e);
      unlisted = λ p o n. refl;
    };
    pages_ok = record { mapped = λ p start n e. absurd (cc e); owned = λ q p e. absurd (cc e) };
    small = λ p s e o. absurd (cc e);
    fresh = f;
  };
  lengths = λ n. omega arith;
}

module _ (sys : System) (fuel : ℕ) where
  Allocated-Bounded :
      (h h' : PageHeap) (b n size : ℕ) (p : Ptr)
      → (v : Bounded sys h b) → Allocated sys h h' v.lists n size p
      → Bounded sys h' (b + 6)
  Allocated-Bounded h h' b n size p v (inl (e, same, ok)) = record {
    lists = v.lists;
    ok = ok;
    lengths = λ m. omega (arith, v.lengths m);
  }
  Allocated-Bounded h h' b n size p v (inr (t, for, old, l)) = record {
    lists = l.lists';
    ok = l.ok;
    lengths = λ m. omega (arith, v.lengths m, l.lengths m);
  }

  out_of_range :
      (n size : ℕ) (h : PageHeap)
      → (n == 0 || ltb max_pages n) ≡ true
      → allocate_span sys fuel n size h ≡ some (null, h)
  unfolding allocate_span
  out_of_range n size h t = rw t refl

  perform-Bounded :
      (c : Call) (h : PageHeap) (b : ℕ)
      → Bounded sys h b
      → b + 5 < fuel
      → Allowed sys h c
      → (h' : PageHeap) × (perform sys fuel c h ≡ some h') × Bounded sys h' (b + 6)
  unfolding perform
  perform-Bounded (request n size) h b v enough fresh =
      elim (Bool-cases (n == 0 || ltb max_pages n)) [
        | inl t ↦ (
          h,
          ap after (out_of_range n size h t),
          record { lists = v.lists; ok = v.ok; lengths = λ m. omega (arith, v.lengths m) },
        )
        | inr f ↦
            let (p, h', ran, a) =
              allocate_span-WellFormed sys fuel n size h v.lists v.ok (ground arith) (ground arith)
                fresh (λ m. omega (arith, v.lengths m)) in
            (h', ap after ran, Allocated-Bounded h h' b n size p v a)
      ]
  perform-Bounded (give_back p) h b v enough (s, at, used) =
      let (h', ran, r, pages) =
        return_span-Released sys fuel h v.lists p s v.ok at used
          (λ m. omega (arith, v.lengths m)) in
      (
        h',
        ap after ran,
        record {
          lists = r.lists';
          ok = r.ok;
          lengths = λ m. omega (arith, v.lengths m, r.lengths m);
        },
      )

  Run-Bounded :
      {k : ℕ} {h : PageHeap}
      → Fresh sys (λ _. none) 0
      → Run sys fuel k h
      → 6 * k ≤ fuel
      → Bounded sys h (6 * k)
  Run-Bounded f start enough = empty-Bounded sys f
  Run-Bounded f (next {k} {h} {h'} c run allowed ran) enough =
      let (h1, ran1, v) =
        perform-Bounded c h (6 * k) (Run-Bounded f run (omega arith)) (omega arith) allowed in
      let same : h1 ≡ h' = cc in
      let size : 6 * k + 6 ≡ 6 * suc k = omega arith in
      subst (λ x. Bounded sys x (6 * suc k)) same (subst (Bounded sys h1) size v)

  -- Start from the empty heap, and call `allocate_span` with any arguments, and `return_span` on
  -- spans in use, as often as fuel is there (six steps for each call), with a `new` that returns no
  -- null pointer and no object that is live when it is called (it may reuse one that has been
  -- deleted), and an `mmap` that returns pages of no live span. Then each such call ends without
  -- undefined behaviour.
  pub Run-perform :
      {k : ℕ} {h : PageHeap} (c : Call)
      → Fresh sys (λ _. none) 0
      → Run sys fuel k h
      → 6 * suc k ≤ fuel
      → Allowed sys h c
      → (h' : PageHeap) × (perform sys fuel c h ≡ some h')
  Run-perform {k} {h} c f run enough allowed =
      let (h', ran, v) =
        perform-Bounded c h (6 * k) (Run-Bounded f run (omega arith)) (omega arith) allowed in
      (h', ran)

  -- After any such calls, with such a `new` and `mmap` and with six steps of fuel for each, `span_for` of an address in a page of a
  -- live span returns this span, and no other live span holds the page.
  pub Run-span_for :
      {k : ℕ} {h : PageHeap} (p : Ptr) (s : Span) (addr : ℕ)
      → Fresh sys (λ _. none) 0
      → Run sys fuel k h
      → 6 * k ≤ fuel
      → h.spans p ≡ some s
      → within s.start s.num_pages (addr / page_size) ≡ true
      → (span_for addr h ≡ some (p, h))
        × ((q : Ptr) (t : Span)
            → h.spans q ≡ some t
            → within t.start t.num_pages (addr / page_size) ≡ true
            → q ≡ p)
  unfolding span_for
  Run-span_for {k} {h} p s addr f run enough at w =
      let v = Run-Bounded f run enough in
      let mapped =
        λ (q : Ptr) (t : Span) (at' : h.spans q ≡ some t)
            (w' : within t.start t.num_pages (addr / page_size) ≡ true).
          (v.ok.pages_ok.mapped q t.start t.num_pages (ap extent at')).1 (addr / page_size) w' in
      (rw (mapped p s at w) refl, λ q t at' w'. ground (arith, mapped p s at w, mapped q t at' w'))
