-- ===== src/Tests/Release.antt =====
-- The theorems on the release of spans, at a class with one span.
use allocator.Prelude.{◌*◌, ◌/◌, ◌≡◌, ◌≢◌, refl, true, some, [], ◌∷◌, null, arith}
use allocator.Config.{page_size}
use allocator.PageHeap.State.{PageHeap}
use allocator.CentralFreeList.{Central, deallocate, destroy}
use allocator.CentralFreeList.Nodes.{index_to_ptr}
use allocator.CentralFreeList.Nodes.Chain.{contains, free_objects}
use allocator.CentralFreeList.Objects.{SpanOk, in_use}
use allocator.CentralFreeList.Release.Outcome.{GivenBack}
use allocator.CentralFreeList.Release.LastObject.{deallocate-GivenBack}
use allocator.CentralFreeList.Release.Destructor.{Emptied, destroy-Emptied}
use allocator.Tests.Heap.{sys}
use allocator.Tests.Invariant.{objects, heap, heap-WellFormed, no_lists}

-- A span of one object, which is in use.
abbrev central : Central
central = record {
  heap = heap 1 1;
  mem = λ _. 0;
  cfl = record { span_list = 99; current_span = 99; size = 12288; num_free = 0; pages = 5 };
}

central-SpanOk : SpanOk central 99 (objects 1 1) []
unfolding free_objects contains
central-SpanOk = record {
  live = ground arith;
  at = refl;
  room = omega arith;
  fits = omega arith;
  chain = record { nodes = []; at_head = refl; objects = refl; chain = tt };
  distinct = tt;
  started = λ k h. absurd (ground (arith, h));
  upto = omega arith;
  small = omega arith;
  counted = refl;
  class_counted = omega arith;
  class_small = omega arith;
}

first_used : in_use (objects 1 1) [] 0 ≡ true
unfolding in_use contains
first_used = refl

first_mapped : central.heap.page_map (index_to_ptr 0 (500 * page_size) 12288 / page_size) ≡ some 99
unfolding index_to_ptr
first_mapped = refl

first_live : index_to_ptr 0 (500 * page_size) 12288 ≢ null
unfolding index_to_ptr
first_live = ground arith

deallocate-GivenBack_example :
    (c' : Central) × (deallocate sys 10 (index_to_ptr 0 (500 * page_size) 12288) central
      ≡ some (tt, c'))
    × GivenBack sys central c' no_lists 99 (objects 1 1) [] []
deallocate-GivenBack_example =
    deallocate-GivenBack sys 10 central no_lists 99 (objects 1 1) [] 0 [] [] central-SpanOk
      first_used first_live first_mapped refl (heap-WellFormed 1 1) (ground arith, refl, tt)
      (refl, tt) (refl, tt) refl (λ m. omega arith)

destroy-Emptied_example :
    (h' : PageHeap) × (destroy sys 12 central
      ≡ some (
        tt,
        record central {
          heap = h';
          cfl = record central.cfl { span_list = null; current_span = null; num_free = 0 };
        },
      ))
    × Emptied sys central.heap h' no_lists ((99, objects 1 1) ∷ [])
destroy-Emptied_example =
    destroy-Emptied sys 12 central no_lists ((99, objects 1 1) ∷ []) (heap-WellFormed 1 1)
      (ground arith, refl, tt) (refl, tt) (refl, tt) refl (omega arith) (λ m. omega arith)
