-- ===== src/Tests/Heap.antt =====
-- Tests of the page heap, and the theorems on it at concrete inputs.
use allocator.Prelude.{
  ℕ, ◌+◌, ◌*◌, ◌≡◌, refl, true, Option, none, some, [], ◌∷◌, Ptr, null, arith, if◌then◌else◌,
  update,
}
use allocator.PageHeap
use allocator.PageHeap.{find_best, size_diff, uint32_max}
use allocator.PageHeap.State.{Span, System, PageHeap, blank_span, empty_heap, ◌>>=◌, ◌>>◌, pure}
use allocator.PageHeap.Pages.{register_span, unregister_span, span_for}
use allocator.PageHeap.Pages.Lookup.{
  owner, covers, register_span-span_for, unregister_span-span_for,
}
use allocator.PageHeap.FreeLists.{insert, remove_from_free_list}
use allocator.PageHeap.Dll.{Cells, linked, Dll, Distinct}
use allocator.PageHeap.Insertion.{Inserted, freed, insert-Inserted}
use allocator.PageHeap.Removal.{Removed, remove-Removed}
use allocator.PageHeap.BestFit.{In, AllApart, find_best-closest}

-- A system in which each call gets fresh pages and a fresh object.
abbrev pub sys : System
sys = record {
  new_span = λ call spans. 100 + call;
  mmap = λ call bytes. some (4096 * 1000 * (call + 1));
  munmap = λ call addr bytes. true;
}

abbrev pages : (start num_pages size : ℕ) → Span
pages s n size = record blank_span { start = s; num_pages = n; size = size }

-- Two free spans of two pages, at 500 and 600, and a span at 700 in no list.
abbrev cells : Cells
cells = (500, pages 10 2 64) ∷ (600, pages 30 2 128) ∷ []

abbrev heap : PageHeap
heap = record empty_heap {
  spans =
      update
        (update (update (λ _. none) 500 (some (linked (pages 10 2 64) 0 600))) 600
          (some (linked (pages 30 2 128) 500 0)))
        700 (some (pages 20 2 64));
  free_lists = update (λ _. null) 2 500;
}

chain : Dll heap.spans null cells
chain = (ground arith, refl, (ground arith, refl, tt))

distinct : Distinct cells
distinct = (refl, (refl, tt))

abbrev result : {A B : Type 0} → Option (A × B) → Option A
result none = none
result (some (a, b)) = some a

-- Five pages are mapped, given back, and split for a request of two.
split_run :
    result (
      (PageHeap.allocate_span sys 10 5 64 >>= λ p.
      PageHeap.return_span sys 10 p >> PageHeap.allocate_span sys 10 2 64 >>= λ q.
      span_for (4096 * 1003) >>= λ r. pure (p ∷ q ∷ r ∷ []))
        empty_heap)
    ≡ some (101 ∷ 101 ∷ 102 ∷ [])
unfolding PageHeap.allocate_span PageHeap.return_span span_for
split_run = refl

register_span-span_for_example :
    (h' : PageHeap) × (register_span 700 heap ≡ some (tt, h'))
    × ((addr : ℕ)
        → span_for addr h'
          ≡ some ((if covers (pages 20 2 64) addr then 700 else owner heap addr), h'))
register_span-span_for_example = register_span-span_for heap 700 (pages 20 2 64) (ground arith) refl

unregister_span-span_for_example :
    (h' : PageHeap) × (unregister_span 700 heap ≡ some (tt, h'))
    × ((addr : ℕ)
        → span_for addr h'
          ≡ some ((if covers (pages 20 2 64) addr then null else owner heap addr), h'))
unregister_span-span_for_example =
    unregister_span-span_for heap 700 (pages 20 2 64) (ground arith) refl

insert-Inserted_example :
    (h' : PageHeap) × (insert 10 2 700 heap ≡ some (tt, h'))
    × Inserted 2 700 (freed (pages 20 2 64)) heap h' cells
insert-Inserted_example =
    insert-Inserted 10 2 700 (pages 20 2 64) heap cells (omega arith) (ground arith) refl chain
      distinct refl refl (omega arith)

remove-Removed_example :
    (h' : PageHeap) × (remove_from_free_list 600 heap ≡ some (tt, h'))
    × Removed 2 600 (pages 30 2 128) heap h' ((500, pages 10 2 64) ∷ []) []
remove-Removed_example =
    remove-Removed heap 600 (pages 30 2 128) ((500, pages 10 2 64) ∷ []) [] (omega arith) chain
      distinct refl

find_best-closest_example :
    (r : Ptr) × (t : Span) × (find_best 5 100 null uint32_max 500 heap ≡ some (r, heap))
    × In (r, t) cells
    × AllApart 100 (size_diff t.size 100) cells
find_best-closest_example =
    find_best-closest heap 100 4 500 (pages 10 2 64) ((600, pages 30 2 128) ∷ []) chain
      (omega arith) (omega arith) (omega arith)
