-- ===== src/Tests/Central.antt =====
-- The theorems on the objects of a span, at a span of six objects of eight bytes.
use allocator.Prelude.{
  ℕ, ◌+◌, ◌*◌, ◌/◌, ◌≡◌, ◌≢◌, refl, true, none, some, [], ◌∷◌, arith, null, update,
}
use allocator.Config.{page_size}
use allocator.PageHeap.State.{Span, invalid_index, blank_span, empty_heap}
use allocator.CentralFreeList.{Central, deallocate, take_from}
use allocator.CentralFreeList.Nodes.{index_to_ptr, pack_capacity}
use allocator.CentralFreeList.Nodes.Chain.{contains, free_objects}
use allocator.CentralFreeList.Objects.{SpanOk, in_use}
use allocator.CentralFreeList.Objects.Put.{Freed, deallocate-Freed, deallocate-take_from}
use allocator.Tests.Heap.{sys}

-- The page after the first, with objects used up to the index `next`.
abbrev pub span : (next head count : ℕ) → Span
span next head count = record blank_span {
  start = 1;
  num_pages = 1;
  size = 8;
  total_objects = 6;
  next_uninitialized = next;
  freelist_head = head;
  num_free_objects = count;
}

abbrev central : Span → Central
central s = record {
  heap = record empty_heap { spans = update (λ _. none) 99 (some s); page_map = λ _. some 99 };
  mem = update (λ _. 0) (page_size + 4 * 8) invalid_index;
  cfl = record { span_list = 99; current_span = 99; size = 8; num_free = 20; pages = 1 };
}

-- All are in use but the one of index 4.
used_span-SpanOk : SpanOk (central (span 6 4 1)) 99 (span 6 4 1) (4 ∷ [])
unfolding free_objects contains pack_capacity
used_span-SpanOk = record {
  live = ground arith;
  at = refl;
  room = omega arith;
  fits = omega arith;
  chain = record {
    nodes = (4, []) ∷ [];
    at_head = refl;
    objects = refl;
    chain = (omega arith, refl, omega arith, refl, refl, tt, tt);
  };
  distinct = (refl, tt);
  started = λ k h. ground (arith, h);
  upto = omega arith;
  small = omega arith;
  counted = refl;
  class_counted = omega arith;
  class_small = omega arith;
}

third_used : in_use (span 6 4 1) (4 ∷ []) 3 ≡ true
unfolding in_use contains
third_used = refl

third_mapped :
    (central (span 6 4 1)).heap.page_map (index_to_ptr 3 (1 * page_size) 8 / page_size) ≡ some 99
third_mapped = refl

third_live : index_to_ptr 3 (1 * page_size) 8 ≢ null
unfolding index_to_ptr
third_live = ground arith

deallocate-Freed_example :
    (c' : Central) × (deallocate sys 10 (index_to_ptr 3 (1 * page_size) 8) (central (span 6 4 1))
      ≡ some (tt, c'))
    × Freed (central (span 6 4 1)) 99 (span 6 4 1) (4 ∷ []) 3 c'
deallocate-Freed_example =
    deallocate-Freed sys 10 (central (span 6 4 1)) 99 (span 6 4 1) (4 ∷ []) 3 used_span-SpanOk
      third_used third_live third_mapped (ground arith)

deallocate-take_from_example :
    (c' : Central) × (c'' : Central) × (s'' : Span) × (deallocate sys 10
        (index_to_ptr 3 (1 * page_size) 8)
        (central (span 6 4 1))
      ≡ some (tt, c'))
    × (take_from sys 10 99 c' ≡ some (index_to_ptr 3 (1 * page_size) 8, c''))
    × SpanOk c'' 99 s'' (4 ∷ [])
    × ((j : ℕ) → in_use s'' (4 ∷ []) j ≡ in_use (span 6 4 1) (4 ∷ []) j)
deallocate-take_from_example =
    deallocate-take_from sys 10 (central (span 6 4 1)) 99 (span 6 4 1) (4 ∷ []) 3 used_span-SpanOk
      third_used third_live third_mapped (ground arith)
