-- ===== src/Tests/Fetch.antt =====
-- The theorems on a class without objects, over a page heap without free spans.
use allocator.Prelude.{
  ℕ, ◌+◌, ◌*◌, ◌/◌, ◌^◌, ◌≤◌, ◌<◌, ◌≡◌, refl, inl, inr, update, Option, none, some, [], ◌∷◌, Ptr,
  null, arith, ◌⊎◌, ◌==◌, ◌∙◌, sym, ap,
}
use allocator.Config.{page_size}
use allocator.PageHeap
use allocator.PageHeap.State.{Span, PageHeap, empty_heap, invalid_index}
use allocator.CentralFreeList.{Central, allocate}
use allocator.CentralFreeList.Fetch.{Exhausted}
use allocator.CentralFreeList.Fetch.Chosen.{Ready, Fetched}
use allocator.CentralFreeList.Fetch.Choice.{Unserved, StartsAs}
use allocator.CentralFreeList.Fetch.Outcome.{Installed, allocate-Oversized, allocate-Fetched}
use allocator.CentralFreeList.Objects.{SpanOk, in_use}
use allocator.CentralFreeList.Nodes.Chain.{contains, free_objects}
use allocator.CentralFreeList.Objects.Take.{Taken}
use allocator.CentralFreeList.Fetch.Found.{chosen, allocate-Taken}
use allocator.Tests.Central.{span}
use allocator.Tests.Heap.{sys}
use allocator.Tests.Invariant.{heap, heap-WellFormed, no_lists, fresh_pages}

abbrev central : (size pages : ℕ) → Central
central size pages = record {
  heap = heap 0 0;
  mem = λ _. 0;
  cfl = record { span_list = null; current_span = null; size = size; num_free = 0; pages = pages };
}

central-Ready :
    (size : ℕ)
    → 0 < size
    → 2 * page_size / size ≤ invalid_index
    → Ready sys 10 (central size 2) no_lists []
central-Ready size pos few = record {
  ok = heap-WellFormed 0 0;
  pages_pos = omega arith;
  pages_max = omega arith;
  size_pos = pos;
  few = few;
  fresh = fresh_pages;
  enough = λ m. omega arith;
  exhausted = refl;
  walk = omega arith;
  current = inl refl;
}

allocate-Oversized_example :
    (c' : Central) × (allocate sys 10 (central 9472 2) ≡ some (null, c'))
    × (Unserved sys 10 (central 9472 2) c'
        ⊎ ((p : Ptr) × (f : Fetched sys (central 9472 2) c' [] p) × StartsAs sys 10
              (central 9472 2)
              p
              f.t
            × Exhausted c'.heap.spans p (p ∷ [])))
allocate-Oversized_example =
    allocate-Oversized sys 10 (central 9472 2) no_lists []
      (central-Ready 9472 (omega arith) (omega arith)) (omega arith)

-- Where the span begins that the heap gives.
abbrev begins : Option Span → ℕ
begins none = 0
begins (some s) = s.start

abbrev given : Option (Ptr × PageHeap) → ℕ
given none = 0
given (some (p, h)) = begins (h.spans p)

span_begins : given (PageHeap.allocate_span sys 10 2 64 (heap 0 0)) ≡ 1000
unfolding PageHeap.allocate_span
span_begins = refl

low :
    (h : PageHeap) (p : Ptr) (s : Span)
    → PageHeap.allocate_span sys 10 2 64 (heap 0 0) ≡ some (p, h)
    → h.spans p ≡ some s
    → s.start * page_size + 65536 * 64 ≤ 2 ^ 64
low h p s run at =
    let start : s.start ≡ 1000 = sym (ap begins at) ∙ sym (ap given run) ∙ span_begins in
    rw start (omega arith)

allocate-Fetched_example :
    (ptr : Ptr) × (c' : Central) × (allocate sys 10 (central 64 2) ≡ some (ptr, c'))
    × (((ptr ≡ null) × Unserved sys 10 (central 64 2) c')
        ⊎ ((p : Ptr) × (c1 : Central) × (f : Fetched sys (central 64 2) c1 [] p) × StartsAs sys 10
              (central 64 2)
              p
              f.t
            × (t : Taken c1 p f.t [] ptr c') × Installed sys (central 64 2) c' [] p t.s'
            × ((j : ℕ) → in_use t.s' t.rest j ≡ (j == t.k))))
allocate-Fetched_example =
    allocate-Fetched sys 10 (central 64 2) no_lists []
      (central-Ready 64 (omega arith) (omega arith)) (omega arith) (omega arith) (omega arith) low

-- The list leads to the span, and no span is current.
abbrev idle : Central
idle = record {
  heap = record empty_heap {
    spans = update (λ _. none) 99 (some (span 0 invalid_index 0));
    page_map = λ _. some 99;
  };
  mem = λ _. 0;
  cfl = record { span_list = 99; current_span = null; size = 8; num_free = 20; pages = 1 };
}

idle-SpanOk : SpanOk idle 99 (span 0 invalid_index 0) []
unfolding free_objects contains
idle-SpanOk = record {
  live = ground arith;
  at = refl;
  room = omega arith;
  fits = omega arith;
  chain = record { nodes = []; at_head = refl; objects = refl; chain = tt };
  distinct = tt;
  started = λ k h. absurd (ground (arith, h));
  upto = omega arith;
  small = omega arith;
  counted = refl;
  class_counted = omega arith;
  class_small = omega arith;
}

allocate-Taken_example :
    (ptr : Ptr) × (c' : Central) × (allocate sys 10 idle ≡ some (ptr, c'))
    × Taken
        (chosen sys 10 idle 99 (span 0 invalid_index 0) [] idle-SpanOk (omega arith))
        99
        (span 0 invalid_index 0)
        []
        ptr
        c'
    × (c'.cfl ≡ record idle.cfl { current_span = 99; num_free = c'.cfl.num_free })
allocate-Taken_example =
    allocate-Taken sys 10 idle 99 (span 0 invalid_index 0) [] idle-SpanOk (omega arith)
      (inr (inl refl, ([], refl, omega arith)))
