-- ===== src/OldDesign.antt =====
-- old/old_design.hpp: the earlier allocator, a next-fit search over one list of free blocks.
pub mod Heap
pub mod Blocks
pub mod Search
pub mod Neighbours
use allocator.Prelude.{
  ℕ, zero, suc, ◌+◌, ◌-◌, ◌%◌, ◌^◌, Bool, true, false, not, ◌&&◌, ◌||◌, Option, none, some, ltb,
  leb, ◌==◌, if◌then◌else◌, Ptr, null, update,
}
use allocator.OldDesign.Heap.{
  Block, Footer, header_size, overhead_size, add64, sub64, OldAllocator, Kernel, Cmd, returns, pure,
  stuck, ◌>>=◌, ◌>>◌, get, set, load, store, modify, block_span, block_end, footer_of, write_footer,
  next_phys, prev_phys, same_bool,
}
use allocator.OldDesign.Blocks.{
  insert_free, unlink_free, coalesce_around, split, add_available, sub_available,
}

-- `MMAP_THRESHOLD` of config.hpp
abbrev pub mmap_threshold : ℕ
mmap_threshold = 400

abbrev pub initial_chunk : ℕ
initial_chunk = 4096

-- `(void*)-1`
abbrev pub failed : Ptr
failed = 2 ^ 64 - 1

-- The loop of `allocate` up to a block that fits: `prev` and that block, or `nullptr`.
unfoldable pub search : (fuel size : ℕ) (prev curr : Ptr) → Cmd (Ptr × Ptr)
unfolding load
search zero size prev curr = stuck
search (suc fuel) size prev curr = if curr == null then pure (prev, null) else do
  b ← load curr
  if b.is_free && leb size b.size then pure (prev, curr) else do
    m ← get
    if m.prev_search_end == null
        then search fuel size curr b.next
        else if b.next == null
        then search fuel size null m.free_list
        else do
          e ← load m.prev_search_end
          if b.next == e.next then pure (curr, null) else search fuel size curr b.next

-- Where the search starts.
unfoldable pub search_start : Cmd (Ptr × Ptr)
unfolding load
search_start = do
  m ← get
  if m.prev_search_end == null then pure (null, m.free_list) else do
    e ← load m.prev_search_end
    pure (if e.next == null then (null, m.free_list) else (m.prev_search_end, e.next))

-- What `allocate` does with the block that it has found.
unfoldable pub take_block : (size : ℕ) (prev curr : Ptr) → Cmd Ptr
unfolding load modify split
take_block size prev curr = do
  split curr size
  b ← load curr
  (if prev == null then set (λ m. record m { free_list = b.next; prev_search_end = null }) else do
    modify prev (λ x. record x { next = b.next })
    set (λ m. record m { prev_search_end = prev }))
  modify curr (λ x. record x { next = null; is_free = false })
  sub_available b.size
  pure (add64 curr header_size)

module _ (kernel : Kernel) where
  abbrev request : (mapped : Bool) (bytes : ℕ) → Cmd (Option Ptr)
  request mapped bytes m =
      returns (if mapped then kernel.mmap m.calls bytes else kernel.sbrk m.calls bytes)
        (record m { calls = m.calls + 1 })

  unfoldable pub create_block : (size : ℕ) (is_free mapped : Bool) (next : Ptr) → Cmd Ptr
  unfolding write_footer
  create_block size is_free mapped next = do
    ok ← request mapped (add64 size overhead_size)
    elim ok [
      | none ↦ pure null
      | some block ↦ do
        let b : Block = record { size = size; is_free = is_free; mapped = mapped; next = next }
        store block b
        write_footer block
        (if mapped
            then pure tt
            else set (λ m. record m {
              brk_heap_start = if m.brk_heap_start == null then block else m.brk_heap_start;
              brk_heap_end = block_end block b;
            }))
        pure block
    ]

  -- The constructor.
  unfoldable pub create : Cmd (Unit {0})
  unfolding load create_block
  create = do
    start_block ← create_block initial_chunk true false null
    if start_block == null
        then set (λ m. record m { free_list = null; available_bytes = 0 })
        else do
          b ← load start_block
          set (λ m. record m { free_list = start_block; available_bytes = b.size })

  unfoldable pub allocate : (fuel size : ℕ) → Cmd Ptr
  unfolding search search_start take_block create_block
  allocate fuel size = do
    m ← get
    found ←
        (if leb size m.available_bytes
          then (do from ← search_start; search fuel size from.0 from.1)
          else pure (null, null))
    if found.1 == null
        then (do
          block ← create_block size false (leb mmap_threshold size) null
          pure (if block == null then failed else add64 block header_size))
        else take_block size found.0 found.1

  unfoldable pub return_back_unlocked : (fuel : ℕ) → Ptr → Cmd Bool
  unfolding load modify coalesce_around insert_free
  return_back_unlocked fuel block = if block == null then pure false else do
    b ← load block
    if b.is_free then pure false else do
      modify block (λ x. record x { is_free = true; next = null })
      add_available b.size
      merged ← coalesce_around fuel block
      (if merged == block then insert_free block else pure tt)
      pure true

  -- Memory that is given back holds no header and no footer.
  abbrev forget : Ptr → Block → OldAllocator → OldAllocator
  forget block b m = record m {
    blocks = update m.blocks block none;
    footers = update m.footers (footer_of block b) none;
  }

  -- `deallocate` from the `mapped` test on.
  unfoldable pub release : (fuel : ℕ) → Ptr → Block → Cmd Bool
  unfolding return_back_unlocked
  release fuel block b = do
    m ← get
    if b.mapped
        then (do
          set (λ m. record m { calls = m.calls + 1 })
          if kernel.munmap m.calls block (block_span b)
              then (do set (forget block b); pure true)
              else pure false)
        else (if not (block_end block b == m.brk_heap_end)
            then (do return_back_unlocked fuel block; pure true)
            else (do
              set (λ m. record m { calls = m.calls + 1 })
              if kernel.brk m.calls block
                  then (do
                    set (forget block b)
                    set (λ m. record m { brk_heap_end = block })
                    pure true)
                  else pure false))

  -- `deallocate(Block*)`
  unfoldable pub deallocate : (fuel : ℕ) → Ptr → Cmd Bool
  unfolding load unlink_free release
  deallocate fuel block = if block == null then pure false else do
    b ← load block
    if not b.is_free then release fuel block b else do
      ok ← unlink_free fuel block
      if not ok then pure false else do sub_available b.size; release fuel block b

  -- `deallocate(T*)`
  unfoldable pub deallocate_memory : (fuel : ℕ) → Ptr → Cmd Bool
  unfolding deallocate
  deallocate_memory fuel ptr = deallocate fuel (sub64 ptr header_size)

  -- The destructor.
  unfoldable pub destroy : (fuel rounds : ℕ) → Cmd (Unit {0})
  unfolding deallocate
  destroy fuel zero = stuck
  destroy fuel (suc rounds) = do
    m ← get
    if m.free_list == null then pure tt else do deallocate fuel m.free_list; destroy fuel rounds
