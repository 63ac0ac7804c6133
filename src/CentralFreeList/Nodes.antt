-- ===== src/CentralFreeList/Nodes.antt =====
-- The packed batch nodes of central_free_list.hpp, in the memory of a span.
-- Memory holds the `uint16_t` at each address. A node at address `a` has `next_idx` at `a`, `count`
-- at `a + 2` and its packed indexes from `a + 4` on.
pub mod Chain
pub mod Objects
pub mod Fill
use allocator.Prelude.{
  ℕ, zero, suc, ◌+◌, ◌-◌, ◌*◌, ◌/◌, ◌%◌, ◌^◌, Bool, ltb, ◌==◌, if◌then◌else◌, Ptr, update,
}
use allocator.Config.{add32}
use allocator.PageHeap.State.{invalid_index}

abbrev pub Memory : Type 0
Memory = Ptr → ℕ

-- `sizeof(PackedNode)`
abbrev pub node_size : ℕ
node_size = 4

unfoldable pub pack_capacity : (obj_size : ℕ) → ℕ
pack_capacity obj_size = if ltb obj_size node_size then 0 else (obj_size - node_size) / 2 % 2 ^ 16

unfoldable pub index_to_ptr : (idx : ℕ) (base : Ptr) (obj_size : ℕ) → Ptr
index_to_ptr idx base obj_size = (base + idx * obj_size) % 2 ^ 64

-- `ptr` is not below `base`, which is the start of the span that holds it.
unfoldable pub ptr_to_index : (ptr base : Ptr) (obj_size : ℕ) → ℕ
ptr_to_index ptr base obj_size = (ptr - base) / obj_size % 2 ^ 16

-- `&packed_indexes(node)[k]`
abbrev pub slot : (node : Ptr) (k : ℕ) → Ptr
slot node k = node + node_size + 2 * k

-- The inner loop of `populate_span`: `rounds` is `cap - packed`.
unfoldable pub pack_indexes : (node : Ptr) (chunk_end rounds packed i : ℕ) → Memory → ℕ × ℕ × Memory
pack_indexes node chunk_end zero packed i mem = (packed, i, mem)
pack_indexes node chunk_end (suc rounds) packed i mem =
    let rest =
      pack_indexes node chunk_end rounds (packed + 1) (i + 1)
        (update mem (slot node packed) (i % 2 ^ 16)) in
    if ltb i chunk_end then rest else (packed, i, mem)

-- What the outer loop of `populate_span` changes.
pub record Filling : Type 0 where
  pub mem : Memory
  pub freelist_head : ℕ
  pub num_free_objects : ℕ
  pub num_free : ℕ

-- One round of the outer loop: the object `i` becomes the head node, and takes in what fits of the
-- chunk. The result is the next `i`, and what changed.
unfoldable pub fill_node : (base : Ptr) (size chunk_end i : ℕ) → Filling → ℕ × Filling
fill_node base size chunk_end i f =
    let node_idx = i % 2 ^ 16 in
    let node = index_to_ptr node_idx base size in
    let (packed, i', mem) =
      pack_indexes node chunk_end (pack_capacity size) 0 (i + 1)
        (update f.mem node f.freelist_head) in
    (
      i',
      record {
        mem = update mem (node + 2) packed;
        freelist_head = node_idx;
        num_free_objects = add32 f.num_free_objects (1 + packed);
        num_free = add32 f.num_free (1 + packed);
      },
    )

-- The outer loop. Each round takes at least one object, so that `chunk_end - i` rounds are enough.
unfoldable pub fill_nodes : (base : Ptr) (size chunk_end rounds i : ℕ) → Filling → Filling
fill_nodes base size chunk_end zero i f = f
fill_nodes base size chunk_end (suc rounds) i f =
    let (i', f') = fill_node base size chunk_end i f in
    let rest = fill_nodes base size chunk_end rounds i' f' in if ltb i chunk_end then rest else f

-- The end of `allocate`: takes one object off the head node. The result is its address, the new
-- head, and the memory.
unfoldable pub take_object : (base : Ptr) (size head : ℕ) → Memory → Ptr × ℕ × Memory
take_object base size head mem =
    let node = index_to_ptr head base size in
    let count = mem (node + 2) in
    if ltb 0 count
    then (
      index_to_ptr (mem (slot node (count - 1))) base size,
      head,
      update mem (node + 2) (count - 1),
    )
    else (node, mem node, mem)

-- The part of `deallocate` that links a freed object in: into the head node if that has room, as a
-- new head node otherwise. The result is the new head and the memory.
unfoldable pub put_object : (base : Ptr) (size head : ℕ) (ptr : Ptr) → Memory → ℕ × Memory
put_object base size head ptr mem =
    let freed_idx = ptr_to_index ptr base size in
    let node = index_to_ptr head base size in
    let count = mem (node + 2) in
    let new_node : ℕ × Memory = (freed_idx, update (update mem ptr head) (ptr + 2) 0) in
    if head == invalid_index
    then new_node
    else if ltb count (pack_capacity size)
    then (head, update (update mem (slot node count) freed_idx) (node + 2) ((count + 1) % 2 ^ 16))
    else new_node
