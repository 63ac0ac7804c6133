-- ===== src/OldDesign/Blocks.antt =====
-- old/old_design.hpp: the free list, and how blocks are split and merged.
use allocator.Prelude.{
  ℕ, zero, suc, Bool, true, false, not, ◌&&◌, ◌||◌, ltb, ◌==◌, if◌then◌else◌, Ptr, null,
}
use allocator.OldDesign.Heap.{
  Block, overhead_size, add64, sub64, Cmd, pure, stuck, ◌>>=◌, ◌>>◌, get, set, load, store, modify,
  block_end, write_footer, next_phys, prev_phys, same_bool,
}

unfoldable pub insert_free : Ptr → Cmd (Unit {0})
unfolding modify
insert_free block = do
  m ← get
  modify block (λ b. record b { next = m.free_list })
  set (λ m. record m { free_list = block })

-- The loop of `unlink_free`: the result is `prev` and `curr`.
unfoldable pub unlink_loop : (fuel : ℕ) (block prev curr : Ptr) → Cmd (Ptr × Ptr)
unfolding load
unlink_loop zero block prev curr = stuck
unlink_loop (suc fuel) block prev curr =
    if (curr == null) || (curr == block)
    then pure (prev, curr)
    else do b ← load curr; unlink_loop fuel block curr b.next

unfoldable pub unlink_free : (fuel : ℕ) → Ptr → Cmd Bool
unfolding load modify unlink_loop
unlink_free fuel block = do
  m ← get
  found ← unlink_loop fuel block null m.free_list
  let prev = found.0
  let curr = found.1
  if curr == null then pure false else do
    b ← load curr
    (if prev == null
        then set (λ m. record m { free_list = b.next })
        else modify prev (λ x. record x { next = b.next }))
    set (λ m. record m {
      prev_search_end = if curr == m.prev_search_end then prev else m.prev_search_end;
    })
    modify curr (λ x. record x { is_free = false; next = null })
    pure true

abbrev pub add_available : ℕ → Cmd (Unit {0})
add_available n = set (λ m. record m { available_bytes = add64 m.available_bytes n })

abbrev pub sub_available : ℕ → Cmd (Unit {0})
sub_available n = set (λ m. record m { available_bytes = sub64 m.available_bytes n })

-- A block takes in the one behind it.
unfoldable pub absorb : (owner : Ptr) → Block → Cmd (Unit {0})
unfolding modify write_footer
absorb owner b = do
  modify owner (λ x. record x { size = add64 x.size (add64 overhead_size b.size) })
  write_footer owner
  add_available overhead_size

-- The loop of `coalesce_around`.
unfoldable pub coalesce_next : (unlink_fuel fuel : ℕ) (owner : Ptr) → Cmd (Unit {0})
unfolding load next_phys unlink_free absorb
coalesce_next unlink_fuel zero owner = stuck
coalesce_next unlink_fuel (suc fuel) owner = do
  next ← next_phys owner
  if next == null then pure tt else do
    n ← load next
    o ← load owner
    if not n.is_free || not (same_bool n.mapped o.mapped) then pure tt else do
      unlink_free unlink_fuel next
      n ← load next
      absorb owner n
      coalesce_next unlink_fuel fuel owner

unfoldable pub coalesce_around : (fuel : ℕ) → Ptr → Cmd Ptr
unfolding load prev_phys absorb coalesce_next
coalesce_around fuel block = if block == null then pure block else do
  b ← load block
  if b.mapped then pure block else do
    prev ← prev_phys block
    owner ←
        (if prev == null then pure block else do
          p ← load prev
          if p.is_free && same_bool p.mapped b.mapped
              then (do absorb prev b; pure prev)
              else pure block)
    coalesce_next fuel fuel owner
    pure owner

unfoldable pub split : Ptr → (partition : ℕ) → Cmd Bool
unfolding load modify write_footer
split block partition = if block == null then pure false else do
  b ← load block
  if ltb b.size partition || ltb b.size (add64 (add64 partition overhead_size) 1)
      then pure false
      else do
        modify block (λ x. record x { size = partition })
        write_footer block
        let remainder = block_end block (record b { size = partition })
        store remainder (record {
          size = sub64 (sub64 b.size partition) overhead_size;
          is_free = true;
          mapped = b.mapped;
          next = b.next;
        })
        write_footer remainder
        modify block (λ x. record x { next = remainder })
        sub_available overhead_size
        pure true
