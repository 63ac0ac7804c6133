-- ===== src/Tests/Invariant.antt =====
-- The theorems on the invariant of the page heap, at a heap with one span in use.
use allocator.Prelude.{
  ℕ, ◌+◌, ◌≤◌, Option, ◌≡◌, refl, none, some, [], Ptr, arith, if◌then◌else◌, update,
}
use allocator.PageHeap
use allocator.PageHeap.State.{Span, PageHeap, blank_span, empty_heap}
use allocator.PageHeap.Dll.{Cells}
use allocator.PageHeap.Shape.{within}
use allocator.PageHeap.Invariant.{WellFormed, Fresh, Later, now, changed, created, nothing}
use allocator.PageHeap.Invariant.Allocate.{Allocated, MmapFresh, allocate_span-WellFormed}
use allocator.PageHeap.Invariant.Return.{Released, PagesFree, return_span-Released}
use allocator.Tests.Heap.{sys}

-- Five pages from page 500 on, in use.
abbrev five_pages : Span
five_pages = record blank_span { start = 500; num_pages = 5; size = 64 }

-- The span, with `total` objects, used up to `next`.
abbrev pub objects : (next total : ℕ) → Span
objects next total = record five_pages { next_uninitialized = next; total_objects = total }

abbrev pub heap : (next total : ℕ) → PageHeap
heap next total = record empty_heap {
  spans = update (λ _. none) 99 (some (objects next total));
  page_map = λ q. if within 500 5 q then some 99 else none;
}

abbrev pub no_lists : ℕ → Cells
no_lists n = []

-- No object that the system will return is live, now or when it is returned.
sys-dead :
    {spans' : Ptr → Option Span} {calls' : ℕ} {spans : Ptr → Option Span} {calls : ℕ}
    → Later sys spans' calls' spans calls
    → ((a : Ptr) → 100 + calls ≤ a → spans a ≡ none)
    → spans' (100 + calls') ≡ none
sys-dead {calls'} now dead = dead (100 + calls') (omega arith)
sys-dead (changed le keep l) dead = sys-dead l (λ a m. keep a (dead a (omega arith)))
sys-dead {calls} (created t l) dead =
    sys-dead l (λ a m. let old = dead a (omega arith) in ground arith)

pub sys-Fresh :
    (spans : Ptr → Option Span) (calls : ℕ)
    → ((a : Ptr) → 100 + calls ≤ a → spans a ≡ none)
    → Fresh sys spans calls
sys-Fresh spans calls dead = record {
  live = λ s c l. ground arith;
  dead = λ s c l. sys-dead l dead;
}

pub heap-WellFormed : (next total : ℕ) → WellFormed sys (heap next total) no_lists nothing
heap-WellFormed next total = record {
  lists_ok = record {
    null_dead = ground arith;
    chain = λ n. tt;
    distinct = λ n. tt;
    head = λ n le. refl;
    sizes = λ n a s e. absurd (ground arith);
    listed = λ p s e f o. absurd (ground arith);
    unlisted = λ p o n. refl;
  };
  pages_ok = record {
    mapped = λ p start n e. (ground arith, λ q w. ground arith);
    owned = λ q p e. (500, 5, ground arith, ground arith);
  };
  small = λ p s e o. ground arith;
  fresh = sys-Fresh _ 0 (λ a le. ground arith);
}

pub fresh_pages : MmapFresh sys (heap 0 0) 2
fresh_pages addr q e w = ground arith

allocate_span-WellFormed_example :
    (p : Ptr) × (h' : PageHeap) × (PageHeap.allocate_span sys 10 2 64 (heap 0 0) ≡ some (p, h'))
    × Allocated sys (heap 0 0) h' no_lists 2 64 p
allocate_span-WellFormed_example =
    allocate_span-WellFormed sys 10 2 64 (heap 0 0) no_lists (heap-WellFormed 0 0) (omega arith)
      (omega arith) fresh_pages (λ m. omega arith)

return_span-Released_example :
    (h' : PageHeap) × (PageHeap.return_span sys 10 99 (heap 0 0) ≡ some (tt, h'))
    × Released sys (heap 0 0) h' no_lists 99 6
    × PagesFree (heap 0 0) h' five_pages
return_span-Released_example =
    return_span-Released sys 10 (heap 0 0) no_lists 99 five_pages (heap-WellFormed 0 0) refl refl
      (λ m. omega arith)
