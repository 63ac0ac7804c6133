-- ===== src/CentralFreeList/Release.antt =====
-- A span of a central free list that goes back to the page heap.
pub mod Unlink
pub mod Members
pub mod Outcome
pub mod LastObject
pub mod Destructor
use allocator.Prelude.{◌≡◌, false, List, [], ◌∷◌, Ptr, null}
use allocator.PageHeap.State.{Span, invalid_index}
use allocator.PageHeap.Dll.{Cells}

-- The spans of a class are in use.
abbrev pub AllUsed : Cells → Type 0
AllUsed [] = Unit
AllUsed ((x, t) ∷ xs) = (t.is_free ≡ false) × AllUsed xs

-- A span as `release_to_page_heap` hands it over.
abbrev pub reset : Span → Span
reset t = record t {
  next = null;
  prev = null;
  freelist_head = invalid_index;
  num_free_objects = 0;
  total_objects = 0;
  next_uninitialized = 0;
}
