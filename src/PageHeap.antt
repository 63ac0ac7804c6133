-- ===== src/PageHeap.antt =====
-- page_heap.hpp: spans of pages, taken from the free lists or from the system.
pub mod State
pub mod Pages
pub mod FreeLists
pub mod Steps
pub mod Dll
pub mod Insertion
pub mod Removal
pub mod BestFit
pub mod Shape
pub mod Find
pub mod Lists
pub mod Invariant
pub mod Destructor
use allocator.Prelude.{
  ℕ, zero, suc, ◌+◌, ◌-◌, ◌*◌, ◌/◌, ◌%◌, ◌^◌, Bool, true, false, Option, none, some, ◌&&◌, ◌||◌,
  not, ltb, ◌==◌, if◌then◌else◌, Ptr, null,
}
use allocator.Config.{page_size, max_pages}
use allocator.PageHeap.State.{
  Span, blank_span, System, PageHeap, Cmd, pure, stuck, ◌>>=◌, ◌>>◌, load, modify, get_list,
  set_list, new_object, delete, call_mmap, call_munmap,
}
use allocator.PageHeap.Pages.{register_span, unregister_span, lookup}
use allocator.PageHeap.FreeLists.{remove_from_free_list, insert}

-- `UINT32_MAX`
abbrev pub uint32_max : ℕ
uint32_max = 4294967295

-- The distance of two object sizes.
abbrev pub size_diff : ℕ → ℕ → ℕ
size_diff a b = if ltb b a then a - b else b - a

-- The inner loop of `allocate_span`: the span of a list whose object size is closest.
unfoldable pub find_best : (fuel size : ℕ) → (best : Ptr) → (best_diff : ℕ) → (curr : Ptr) → Cmd Ptr
unfolding load
find_best zero size best best_diff curr = stuck
find_best (suc fuel) size best best_diff curr = if curr == null then pure best else do
  c ← load curr
  let diff = size_diff c.size size
  let best' = if ltb diff best_diff then curr else best
  let best_diff' = if ltb diff best_diff then diff else best_diff
  if diff == 0 then pure best' else find_best fuel size best' best_diff' c.next

module _ (sys : System) (fuel : ℕ) where
  -- `split`. The assertion on the page counts is a fault where it fails.
  unfoldable pub split : Ptr → (num_pages : ℕ) → Cmd (Unit {0})
  unfolding register_span unregister_span insert modify
  split span num_pages = do
    s ← load span
    if ltb num_pages s.num_pages then pure tt else stuck
    remainder ← new_object sys (record blank_span {
      start = s.start + num_pages;
      num_pages = s.num_pages - num_pages;
      is_free = true;
    })
    unregister_span span
    modify span (λ t. record t { num_pages = num_pages })
    register_span span
    register_span remainder
    if ltb max_pages (s.num_pages - num_pages)
        then pure tt
        else insert fuel (s.num_pages - num_pages) remainder

  -- What `allocate_span` does with the span that it chose from a list.
  unfoldable pub take_span : Ptr → (num_pages size : ℕ) → Cmd Ptr
  unfolding split remove_from_free_list
  take_span best num_pages size = do
    remove_from_free_list best
    modify best (λ t. record t { is_free = false; size = size })
    b ← load best
    (if ltb num_pages b.num_pages then split best num_pages else pure tt)
    pure best

  -- The last part of `allocate_span`.
  unfoldable pub map_span : (num_pages size : ℕ) → Cmd Ptr
  unfolding register_span
  map_span num_pages size = do
    raw ← call_mmap sys (page_size * num_pages)
    elim raw [
      | none ↦ pure null
      | some addr ↦ do
        span ←
            new_object sys
              (record blank_span { start = addr / page_size; num_pages = num_pages; size = size })
        register_span span
        pure span
    ]

  -- The outer loop of `allocate_span`, over the `rounds` lists from `i` on.
  unfoldable pub search_lists : (rounds i num_pages size : ℕ) → Cmd Ptr
  unfolding find_best take_span map_span
  search_lists zero i num_pages size = map_span num_pages size
  search_lists (suc rounds) i num_pages size = do
    head ← get_list i
    if head == null then search_lists rounds (i + 1) num_pages size else do
      best ← find_best fuel size null uint32_max head
      if best == null
          then search_lists rounds (i + 1) num_pages size
          else take_span best num_pages size

  unfoldable pub allocate_span : (num_pages size : ℕ) → Cmd Ptr
  unfolding search_lists
  allocate_span num_pages size =
      if num_pages == 0 || ltb max_pages num_pages
      then pure null
      else search_lists (max_pages + 1 - num_pages) num_pages num_pages size

  -- Whether a pointer that `lookup` returned is a free span other than `span`.
  unfoldable pub can_merge : (neighbour span : Ptr) → Cmd Bool
  can_merge neighbour span =
      if neighbour == null
      then pure false
      else do n ← load neighbour; pure (n.is_free && not (neighbour == span))

  -- The two merges of `coalesce`.
  unfoldable pub merge_left : (span left : Ptr) → Cmd (Unit {0})
  unfolding remove_from_free_list unregister_span register_span modify delete
  merge_left span left = do
    remove_from_free_list left
    unregister_span left
    unregister_span span
    l ← load left
    modify span (λ t. record t { start = l.start; num_pages = t.num_pages + l.num_pages })
    register_span span
    delete left

  unfoldable pub merge_right : (span right : Ptr) → Cmd (Unit {0})
  unfolding remove_from_free_list unregister_span register_span modify delete
  merge_right span right = do
    remove_from_free_list right
    unregister_span right
    unregister_span span
    r ← load right
    modify span (λ t. record t { num_pages = t.num_pages + r.num_pages })
    register_span span
    delete right

  unfoldable pub coalesce : Ptr → Cmd (Unit {0})
  unfolding can_merge merge_left merge_right lookup
  coalesce span = do
    s ← load span
    (if s.start == 0 then pure tt else do
      left ← lookup (s.start - 1)
      ok ← can_merge left span
      if ok then merge_left span left else pure tt)
    t ← load span
    right ← lookup (t.start + t.num_pages)
    ok ← can_merge right span
    if ok then merge_right span right else pure tt

  -- The `while (span->num_pages > MAX_PAGES)` loop of `return_span`, and the insertion after it.
  unfoldable pub carve : (rounds : ℕ) → Ptr → Cmd (Unit {0})
  unfolding insert register_span unregister_span modify
  carve zero span = stuck
  carve (suc rounds) span = do
    s ← load span
    if ltb max_pages s.num_pages
        then (do
          front ←
              new_object sys
                (record blank_span { start = s.start; num_pages = max_pages; is_free = true })
          unregister_span span
          modify span
              (λ t. record t { start = t.start + max_pages; num_pages = t.num_pages - max_pages })
          register_span span
          register_span front
          insert fuel max_pages front
          carve rounds span)
        else insert fuel s.num_pages span

  unfoldable pub return_span : Ptr → Cmd (Unit {0})
  unfolding coalesce carve
  return_span span = if span == null then pure tt else do
    modify span (λ t. record t { is_free = true; size = 0 })
    coalesce span
    carve fuel span

  unfoldable pub deallocate_span : Ptr → Cmd Bool
  unfolding remove_from_free_list unregister_span delete
  deallocate_span span = if span == null then pure false else do
    s ← load span
    (if s.is_free then remove_from_free_list span else pure tt)
    unregister_span span
    ok ← call_munmap sys (s.start * page_size % 2 ^ 64) (s.num_pages * page_size % 2 ^ 64)
    delete span
    pure ok

  -- `~PageHeap`: one list, then all of them, then the map.
  unfoldable pub drop_list : (rounds : ℕ) → (curr : Ptr) → Cmd (Unit {0})
  unfolding load delete
  drop_list zero curr = stuck
  drop_list (suc rounds) curr = if curr == null then pure tt else do
    c ← load curr
    call_munmap sys (c.start * page_size % 2 ^ 64) (c.num_pages * page_size % 2 ^ 64)
    delete curr
    drop_list rounds c.next

  unfoldable pub drop_lists : (lists i : ℕ) → Cmd (Unit {0})
  unfolding drop_list
  drop_lists zero i = pure tt
  drop_lists (suc lists) i = do
    head ← get_list i
    drop_list fuel head
    set_list i null
    drop_lists lists (i + 1)

  unfoldable pub destroy : Cmd (Unit {0})
  unfolding drop_lists
  destroy = drop_lists (max_pages + 1) 0 >> λ h. some (tt, record h { page_map = λ _. none })
