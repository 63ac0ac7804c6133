-- ===== src/PageHeap/FreeLists.antt =====
-- The free lists of page_heap.hpp: doubly linked, in the order of the page ids.
use allocator.Prelude.{ℕ, zero, suc, true, false, ltb, ◌==◌, if◌then◌else◌, Ptr, null}
use allocator.Config.{max_pages}
use allocator.PageHeap.State.{
  Cmd, pure, stuck, ◌>>=◌, ◌>>◌, load, modify, set_next, set_prev, get_list, set_list,
}

-- `remove_from_free_list`, with the fields of `*span` read before the writes.
unfoldable pub remove_from_free_list : Ptr → Cmd (Unit {0})
unfolding load
remove_from_free_list span = do
  s ← load span
  if ltb max_pages s.num_pages then pure tt else do
    (if s.prev == null then set_list s.num_pages s.next else set_next s.prev s.next)
    (if s.next == null then pure tt else set_prev s.next s.prev)
    modify span (λ t. record t { next = null; prev = null; is_free = false })

-- Links `span` in between `prev` and `curr`.
unfoldable pub link_before : (num_pages : ℕ) → (span prev curr : Ptr) → Cmd (Unit {0})
unfolding modify
link_before num_pages span prev curr = do
  modify span (λ t. record t { next = curr; prev = prev })
  set_prev curr span
  if prev == null then set_list num_pages span else set_next prev span

-- The `while (curr)` loop of `insert`, and the two writes after it.
unfoldable pub insert_loop : (fuel num_pages : ℕ) → (span prev curr : Ptr) → Cmd (Unit {0})
unfolding load
insert_loop zero num_pages span prev curr = stuck
insert_loop (suc fuel) num_pages span prev curr =
    if curr == null then (set_next prev span >> set_prev span prev) else do
      s ← load span
      c ← load curr
      if ltb s.start c.start
          then link_before num_pages span prev curr
          else insert_loop fuel num_pages span curr c.next

unfoldable pub insert : (fuel num_pages : ℕ) → Ptr → Cmd (Unit {0})
unfolding insert_loop link_before
insert fuel num_pages span = if ltb max_pages num_pages then pure tt else do
  modify span (λ t. record t { is_free = true; next = null; prev = null })
  head ← get_list num_pages
  if head == null then set_list num_pages span else insert_loop fuel num_pages span null head
