-- ===== src/Tests/Front.antt =====
-- The theorems on the front of the allocator, on a system of one thread.
use allocator.Prelude.{
  ℕ, ◌/◌, ◌<◌, ◌≡◌, ◌≢◌, refl, inl, inr, true, ◌==◌, Bool-cases, ==→eq, Option, none, some, [], ◌∷◌,
  Ptr, arith, update, copy_out, length, if◌then◌else◌, ◌++◌,
}
use mathlib.Core.Path.{subst}
use mathlib.Core.List.{Perm, Nodup}
use allocator.Config.{page_size, size_class_capacity, size_class_offset}
use allocator.SizeClasses.{size_class, round_size_class, size_class_to_idx}
use allocator.PageHeap.State.{Span, blank_span, empty_heap}
use allocator.CentralFreeList.{central_free_list}
use allocator.TransferCache.{TransferCache}
use allocator.Slabs.Access.{Thread, slab_pop, slab_push}
use allocator.Slabs.Access.Alone.{Alone, fast}
use allocator.Slabs.Rseq.{calm, rseq_slab_pop, rseq_slab_push}
use allocator.Allocator.{Allocator, allocate, deallocate}
use allocator.Allocator.Front.{NoNull, in_slab, in_cache, FrontOk, Holds, SameCentral}
use allocator.Allocator.Front.Served.{Served, allocate-Served}
use allocator.Allocator.Front.Returned.{Returned, deallocate-Returned}
use allocator.Allocator.Front.Runs.{Held, objects, Run, start, took, gave, Run-Conserved}
use allocator.Allocator.Front.RoundTrip.{deallocate-allocate}
use allocator.Tests.Heap.{sys}
use allocator.Tests.Slab.{two_items, two_items-IsValid}

abbrev thread : Thread
thread = record {
  rseq_available = true;
  tries = record { cpu_id_start = 1; cpu_id = 1; interrupt = calm; others = λ s. s } ∷ [];
  rseq_cpu_id = some 1;
  sched_getcpu = some 1;
  getcpu = some 1;
}

alone : (n : ℕ) → Alone 1 thread
alone n = fast _ _ refl refl refl refl refl

-- Three objects of class 5.
abbrev cache : TransferCache
cache = record { slots = update (update (update (λ _. 900) 1 904) 2 908) 0 912; used_slots = 3 }

-- A span of class 5.
abbrev class_span : Span
class_span = record blank_span { start = 500; num_pages = 5; size = 80; total_objects = 400 }

-- Every page leads to it.
abbrev front : Allocator
front = record {
  page_heap = record empty_heap {
    spans = update (λ _. none) 99 (some class_span);
    page_map = λ _. some 99;
  };
  mem = λ _. 0;
  free_list = λ i. central_free_list (size_class i);
  transfer_caches = λ _. cache;
  per_cpu_caches = λ _. two_items;
  slab_count = 4;
  slab_calls = 0;
}

items-NoNull : NoNull (in_slab front 1 5)
unfolding size_class_offset
items-NoNull = (ground arith, (ground arith, tt))

cache-NoNull : NoNull (in_cache front 5)
unfolding copy_out
cache-NoNull = (ground arith, (ground arith, (ground arith, tt)))

front-FrontOk : FrontOk front 1
front-FrontOk = record {
  in_range = omega arith;
  slabs = λ c. two_items-IsValid;
  caches = λ i. omega arith;
  slab_live = λ i lt. elim (Bool-cases (5 == i)) [
    | inl t ↦ subst (λ j. NoNull (in_slab front 1 j)) (==→eq 5 i t) items-NoNull
    | inr f ↦ rw f tt
  ];
  cache_live = λ i. cache-NoNull;
}

class_5 : (round_size_class 75).1 ≡ 5
unfolding round_size_class
class_5 = refl

size_5 : class_span.size ≡ (size_class 5).size
unfolding size_class
size_5 = refl

some_in_slab : in_slab front 1 (round_size_class 75).1 ≢ []
unfolding round_size_class
some_in_slab e = ground (arith, e)

allocate-Served_example :
    let i = (round_size_class 75).1 in
    (p : Ptr) × (a' : Allocator) × (allocate sys (λ _. thread) 10 75 front ≡ some (p, a'))
    × Served front a' 1 i p
allocate-Served_example =
    allocate-Served sys (λ _. thread) 10 1 alone 75 front front-FrontOk (omega arith)
      (inl some_in_slab)

room_in_slab : length (in_slab front 1 5) < size_class_capacity 5
unfolding size_class_capacity
room_in_slab = omega arith

deallocate-Returned_example :
    (a' : Allocator) × (deallocate sys (λ _. thread) 10 2048000 front ≡ some (tt, a'))
    × Returned front a' 1 5 2048000
deallocate-Returned_example =
    deallocate-Returned sys (λ _. thread) 10 1 5 alone (omega arith) (omega arith) 2048000
      (ground arith) front 99 class_span front-FrontOk (ground arith) refl refl size_5
      (inl room_in_slab)

deallocate-allocate_example :
    (a' : Allocator) × (a'' : Allocator) × (deallocate sys (λ _. thread) 10 2048000 front
      ≡ some (tt, a'))
    × (allocate sys (λ _. thread) 10 75 a' ≡ some (2048000, a''))
    × (r : Returned front a' 1 5 2048000) × Holds front a'' 1 5 r.in_hand r.behind
    × SameCentral front a''
deallocate-allocate_example =
    deallocate-allocate sys (λ _. thread) 10 1 alone 5 75 2048000 front 99 class_span (omega arith)
      class_5 (ground arith) front-FrontOk (ground arith) refl refl size_5 (inl room_in_slab)

-- The thread holds an object of class 5.
abbrev held : Held
held i = if i == 5 then 2048000 ∷ [] else []

abbrev after : Option (Ptr × Allocator) → Allocator
after none = front
after (some (p, a)) = a

-- The front object has been taken.
abbrev front' : Allocator
front' = after (allocate sys (λ _. thread) 10 75 front)

taken : allocate sys (λ _. thread) 10 75 front ≡ some (800, front')
unfolding allocate slab_pop rseq_slab_pop round_size_class size_class_offset
taken = refl

abbrev after_unit : Option (Unit {0} × Allocator) → Allocator
after_unit none = front
after_unit (some (u, a)) = a

-- What the thread then holds.
abbrev held' : Held
held' = update held (round_size_class 75).1 (800 ∷ held (round_size_class 75).1)

-- The object that the thread held has been given back.
abbrev front'' : Allocator
front'' = after_unit (deallocate sys (λ _. thread) 10 2048000 front')

given : deallocate sys (λ _. thread) 10 2048000 front' ≡ some (tt, front'')
unfolding deallocate slab_push rseq_slab_push round_size_class size_class_offset size_class_capacity
    size_class_to_idx allocate slab_pop rseq_slab_pop
given = refl

room_again : length (in_slab front' 1 5) < size_class_capacity 5
unfolding size_class_capacity allocate slab_pop rseq_slab_pop round_size_class size_class_offset
room_again = omega arith

held_then : held' 5 ≡ (800 ∷ []) ++ 2048000 ∷ []
unfolding round_size_class
held_then = refl

mapped : front'.page_heap.page_map (2048000 / page_size) ≡ some 99
unfolding allocate slab_pop rseq_slab_pop round_size_class size_class_offset
mapped = refl

at : front'.page_heap.spans 99 ≡ some class_span
unfolding allocate slab_pop rseq_slab_pop round_size_class size_class_offset
at = refl

two_calls : Run sys (λ _. thread) 10 1 held front (update held' 5 (800 ∷ [])) front''
two_calls =
    gave 5 2048000 (800 ∷ []) [] 99 class_span
      (took 75 800 start (omega arith) (inl some_in_slab) taken) (omega arith) (omega arith)
      (ground arith) held_then (ground arith) mapped at size_5 (inl room_again) given

Run-Conserved_example :
    Perm (objects 1 held front 5) (objects 1 (update held' 5 (800 ∷ [])) front'' 5)
    × (Nodup (objects 1 held front 5) → Nodup (objects 1 (update held' 5 (800 ∷ [])) front'' 5))
    × FrontOk front'' 1
    × SameCentral front front''
Run-Conserved_example =
    Run-Conserved sys (λ _. thread) 10 1 alone held front (update held' 5 (800 ∷ [])) front'' 5
      front-FrontOk two_calls (omega arith)
