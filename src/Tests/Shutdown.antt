-- ===== src/Tests/Shutdown.antt =====
-- The theorems on the destructors, at an allocator with one span.
use allocator.Prelude.{
  ℕ, ◌<◌, ◌≡◌, refl, inl, inr, true, false, some, [], ◌∷◌, Ptr, null, arith, ◌==◌, if◌then◌else◌,
  Bool-cases, ◌*◌, none, update,
}
use allocator.PageHeap
use allocator.PageHeap.State.{Span, PageHeap, blank_span}
use allocator.PageHeap.Shape.{within}
use allocator.PageHeap.Invariant.{WellFormed, nothing}
use allocator.PageHeap.Dll.{Cells, has}
use allocator.PageHeap.Destructor.{Destroyed, destroy-Destroyed, regions_from}
use allocator.SizeClasses.{size_class}
use allocator.CentralFreeList.{central_free_list}
use allocator.Allocator
use allocator.Allocator.{Allocator}
use allocator.Allocator.Shutdown.{ClassLists, NothingLeft, destroy-NothingLeft}
use allocator.Slabs.{empty_slab}
use allocator.Tests.Heap.{sys}
use allocator.Tests.Invariant.{objects, heap, heap-WellFormed, no_lists, sys-Fresh}

-- Two free pages from page 600 on, beside the five pages in use.
abbrev free_pages : Span
free_pages = record blank_span { start = 600; num_pages = 2; is_free = true }

abbrev mixed : PageHeap
mixed = record (heap 0 0) {
  spans = update (update (λ _. none) 99 (some (objects 0 0))) 98 (some free_pages);
  free_lists = λ n. if n == 2 then 98 else null;
  page_map = λ q. if within 600 2 q then some 98 else if within 500 5 q then some 99 else none;
}

abbrev one_list : ℕ → Cells
one_list n = if n == 2 then (98, free_pages) ∷ [] else []

mixed-WellFormed : WellFormed sys mixed one_list nothing
mixed-WellFormed = record {
  lists_ok = record {
    null_dead = ground arith;
    chain =
        λ n. elim (Bool-cases (n == 2)) [ inl t ↦ rw t (ground arith, refl, tt) | inr f ↦ rw f tt ];
    distinct = λ n. elim (Bool-cases (n == 2)) [ inl t ↦ rw t (refl, tt) | inr f ↦ rw f tt ];
    head = λ n le. elim (Bool-cases (n == 2)) [ inl t ↦ rw t refl | inr f ↦ rw f refl ];
    sizes = λ n a s e. elim (Bool-cases (n == 2)) [
      | inl t ↦ ground (arith, e)
      | inr f ↦ absurd (ground (arith, e))
    ];
    listed = λ p s e f o. ground arith;
    unlisted = λ p o n. absurd (cc o);
  };
  pages_ok = record {
    mapped = λ p start n e. (ground arith, λ q w. ground arith);
    owned = λ q p e. elim (Bool-cases (within 600 2 q)) [
      | inl t ↦ (600, 2, ground arith, ground arith)
      | inr f ↦ (500, 5, ground arith, ground arith)
    ];
  };
  small = λ p s e o. ground arith;
  fresh = sys-Fresh _ 0 (λ a le. ground arith);
}

destroy-Destroyed_example :
    (h' : PageHeap) × (PageHeap.destroy sys 10 mixed ≡ some (tt, h'))
    × Destroyed sys 10 mixed h' one_list
destroy-Destroyed_example =
    destroy-Destroyed sys 10 mixed one_list mixed-WellFormed (λ n. ground arith)

-- The free pages, and nothing else, have been unmapped.
unmapped_pages : regions_from one_list 0 129 ≡ (600 * 4096, 2 * 4096) ∷ []
unmapped_pages = refl

-- The span is one of class 5.
abbrev allocator_of_one : Allocator
allocator_of_one = record {
  page_heap = heap 1 1;
  mem = λ _. 0;
  free_list =
      λ i. record (central_free_list (size_class i)) { span_list = if i == 5 then 99 else null };
  transfer_caches = λ _. record { slots = λ _. null; used_slots = 0 };
  per_cpu_caches = λ _. empty_slab;
  slab_count = 1;
  slab_calls = 0;
}

abbrev cells : ℕ → Cells
cells i = if i == 5 then (99, objects 1 1) ∷ [] else []

cells-ClassLists : ClassLists allocator_of_one cells 48
cells-ClassLists = record {
  chain = λ i lt. elim (Bool-cases (i == 5)) [
    | inl t ↦ rw t (ground arith, refl, tt)
    | inr f ↦ rw f tt
  ];
  distinct = λ i lt. elim (Bool-cases (i == 5)) [ inl t ↦ rw t (refl, tt) | inr f ↦ rw f tt ];
  used = λ i lt. elim (Bool-cases (i == 5)) [ inl t ↦ rw t (refl, tt) | inr f ↦ rw f tt ];
  head = λ i lt. elim (Bool-cases (i == 5)) [ inl t ↦ rw t refl | inr f ↦ rw f refl ];
  apart = λ i j x ne m. ground (arith, m);
}

all_held :
    (x : Ptr) (u : Span)
    → (heap 1 1).spans x ≡ some u
    → u.is_free ≡ false
    → (i : ℕ) × (i < 48) × (has x (cells i) ≡ true)
all_held x u at busy = (5, omega arith, ground (arith, at))

destroy-NothingLeft_example :
    (a' : Allocator) × (Allocator.destroy sys 20 allocator_of_one ≡ some (tt, a')) × NothingLeft a'
destroy-NothingLeft_example =
    destroy-NothingLeft sys 20 allocator_of_one no_lists cells (heap-WellFormed 1 1)
      cells-ClassLists all_held (λ i lt. ground arith) (λ m. omega arith)
