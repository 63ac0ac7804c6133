-- ===== src/Tests/Objects.antt =====
-- Tests of the packed nodes of a span, and the theorems on them at concrete inputs.
use allocator.Prelude.{ℕ, ◌+◌, ◌*◌, ◌^◌, ◌≡◌, refl, ◌≤◌, false, [], ◌∷◌, arith}
use allocator.PageHeap.State.{invalid_index}
use allocator.CentralFreeList.Nodes.{
  Filling, index_to_ptr, fill_node, pack_indexes, fill_nodes, take_object, put_object,
  pack_capacity,
}
use allocator.CentralFreeList.Nodes.Chain.{contains, free_objects}
use allocator.CentralFreeList.Nodes.Objects.{IsChain, take_object-IsChain, put_object-IsChain}
use allocator.CentralFreeList.Nodes.Fill.{Filled, push_range, fill_nodes-Filled}

room : 4 ≤ 8
room = omega arith

fits : 4096 + 65536 * 8 ≤ 2 ^ 64
fits = omega arith

-- The start of an empty span of eight-byte objects.
abbrev empty_filling : Filling
empty_filling = record {
  mem = λ _. 0;
  freelist_head = invalid_index;
  num_free_objects = 0;
  num_free = 0;
}

no_objects : IsChain 4096 8 room fits empty_filling.mem invalid_index []
unfolding free_objects
no_objects = record { nodes = []; at_head = refl; objects = refl; chain = tt }

none_free : (k : ℕ) → contains k [] ≡ false
unfolding contains
none_free k = refl

fill_nodes-Filled_example :
    Filled 4096 8 room fits empty_filling (fill_nodes 4096 8 5 5 0 empty_filling) 0 5 []
fill_nodes-Filled_example =
    fill_nodes-Filled 4096 8 room fits 5 5 0 5 [] empty_filling (omega arith) refl (omega arith)
      no_objects (λ k h. none_free k) (omega arith) (omega arith)

-- Five objects of eight bytes.
abbrev five : Filling
five = fill_nodes 4096 8 5 5 0 empty_filling

five_objects : IsChain 4096 8 room fits five.mem five.freelist_head (4 ∷ 3 ∷ 2 ∷ 1 ∷ 0 ∷ [])
unfolding push_range
five_objects = fill_nodes-Filled_example.chain

take_first : (take_object 4096 8 five.freelist_head five.mem).0 ≡ 4096 + 4 * 8
unfolding fill_nodes take_object index_to_ptr fill_node pack_indexes pack_capacity
take_first = refl

take_object-IsChain_example :
    let (ptr, head, mem) = take_object 4096 8 five.freelist_head five.mem in
    (ptr ≡ index_to_ptr 4 4096 8) × IsChain 4096 8 room fits mem head (3 ∷ 2 ∷ 1 ∷ 0 ∷ [])
take_object-IsChain_example =
    take_object-IsChain 4096 8 room fits five.mem five.freelist_head 4 (3 ∷ 2 ∷ 1 ∷ 0 ∷ [])
      five_objects

not_free : contains 9 (4 ∷ 3 ∷ 2 ∷ 1 ∷ 0 ∷ []) ≡ false
unfolding contains
not_free = refl

put_object-IsChain_example :
    let (head, mem) = put_object 4096 8 five.freelist_head (index_to_ptr 9 4096 8) five.mem in
    IsChain 4096 8 room fits mem head (9 ∷ 4 ∷ 3 ∷ 2 ∷ 1 ∷ 0 ∷ [])
put_object-IsChain_example =
    put_object-IsChain 4096 8 room fits five.mem five.freelist_head 9 (4 ∷ 3 ∷ 2 ∷ 1 ∷ 0 ∷ [])
      five_objects (omega arith) not_free
