-- ===== src/Tests/Runs.antt =====
-- The theorems on sequences of calls, after a request for five pages.
use allocator.Prelude.{
  ℕ, zero, suc, ◌+◌, ◌*◌, ◌≤◌, ◌≡◌, refl, Bool, true, false, Option, none, some, Ptr, arith, update,
  if◌then◌else◌, inl, inr, Option-cases,
}
use allocator.PageHeap
use allocator.PageHeap.State.{Span, System, PageHeap, blank_span, empty_heap}
use allocator.PageHeap.Pages.{map_pages, span_for}
use allocator.PageHeap.Shape.{within}
use allocator.PageHeap.Invariant.{Fresh, Later, now, changed, created}
use allocator.PageHeap.Invariant.Allocate.{MmapFresh}
use allocator.PageHeap.Invariant.Runs.{
  request, give_back, perform, Run, start, next, Run-perform, Run-span_for,
}
use allocator.Tests.Heap.{sys}

abbrev five_pages : Span
five_pages = record blank_span { start = 1000; num_pages = 5; size = 64 }

abbrev heap : PageHeap
heap = record empty_heap {
  spans = update (λ _. none) 100 (some five_pages);
  page_map = map_pages (λ _. none) 1000 5 (some 100);
  calls = 2;
}

abbrev is_dead : Option Span → Bool
is_dead none = true
is_dead (some s) = false

-- The first of `a` and the `n` addresses behind it that holds no object.
abbrev first_dead : (n a : ℕ) → (Ptr → Option Span) → Ptr
first_dead zero a spans = a
first_dead (suc n) a spans = if is_dead (spans a) then a else first_dead n (a + 1) spans

-- A system whose `new` returns the first address from 100 on that is free, and so reuses what has been
-- deleted.
abbrev reusing : System
reusing = record sys { new_span = λ call spans. first_dead call 100 spans }

first_dead-dead :
    (n a : ℕ) (spans : Ptr → Option Span)
    → ((b : Ptr) → a + n ≤ b → spans b ≡ none)
    → spans (first_dead n a spans) ≡ none
first_dead-dead zero a spans dead = dead a (omega arith)
first_dead-dead (suc n) a spans dead =
    let later = first_dead-dead n (a + 1) spans (λ b m. dead b (omega arith)) in
    elim (Option-cases (spans a)) [ inl e ↦ rw e e | inr (s, e) ↦ rw e later ]

first_dead-bounds :
    (n a : ℕ) (spans : Ptr → Option Span)
    → (a ≤ first_dead n a spans) × (first_dead n a spans ≤ a + n)
first_dead-bounds zero a spans = (omega arith, omega arith)
first_dead-bounds (suc n) a spans =
    let later = first_dead-bounds n (a + 1) spans in
    elim (Option-cases (spans a)) [
      | inl e ↦ rw e (omega arith, omega arith)
      | inr (s, e) ↦ rw e (omega (arith, later), omega (arith, later))
    ]

reusing-dead :
    {spans' : Ptr → Option Span} {calls' : ℕ} {spans : Ptr → Option Span} {calls : ℕ}
    → Later reusing spans' calls' spans calls
    → ((a : Ptr) → 100 + calls ≤ a → spans a ≡ none)
    → spans' (first_dead calls' 100 spans') ≡ none
reusing-dead {spans'} {calls'} now dead = first_dead-dead calls' 100 spans' dead
reusing-dead (changed le keep l) dead = reusing-dead l (λ a m. keep a (dead a (omega arith)))
reusing-dead {spans} {calls} (created t l) dead = reusing-dead l (λ a m.
    let old = dead a (omega arith) in
    let below = first_dead-bounds calls 100 spans in ground (arith, old, below))

fresh : Fresh reusing (λ _. none) 0
fresh = record {
  live = λ s c l. ground (arith, first_dead-bounds c 100 s);
  dead = λ s c l. reusing-dead l (λ a m. refl);
}

fresh_pages : MmapFresh reusing empty_heap 5
fresh_pages addr q e w = refl

ran : perform reusing 20 (request 5 64) empty_heap ≡ some heap
unfolding perform PageHeap.allocate_span
ran = refl

run : Run reusing 20 1 heap
run = next (request 5 64) start fresh_pages ran

Run-perform_example : (h' : PageHeap) × (perform reusing 20 (give_back 100) heap ≡ some h')
Run-perform_example =
    Run-perform reusing 20 (give_back 100) fresh run (omega arith) (five_pages, refl, refl)

Run-span_for_example :
    (span_for (4096 * 1003 + 7) heap ≡ some (100, heap))
    × ((q : Ptr) (t : Span)
        → heap.spans q ≡ some t
        → within t.start t.num_pages 1003 ≡ true
        → q ≡ 100)
Run-span_for_example =
    Run-span_for reusing 20 100 five_pages (4096 * 1003 + 7) fresh run (omega arith) refl refl
