-- ===== src/Tests/Slab.antt =====
-- Tests of the slabs, and the theorems on them at concrete inputs.
use allocator.Prelude.{ℕ, ◌+◌, ◌*◌, ◌<◌, ◌≤◌, ◌≡◌, refl, true, [], ◌∷◌, arith, update, copy_out}
use allocator.Config.{size_class_offset, size_class_capacity}
use allocator.Slabs.{
  Slab, empty_slab, fallback_allocate, fallback_deallocate, get_slabs, slab_raw_byte_size,
  slab_stride_bytes, commit_pop, available, remaining, pop_source,
}
use allocator.Slabs.Spec
use allocator.Slabs.Spec.{put, get, stored, got}
use allocator.Slabs.Stack.{stack, IsValid}
use allocator.Slabs.Run.{run, run_refines}
use allocator.Slabs.Batch.{push_batch, push_batch-pop}
use allocator.Slabs.Stride.{get_slabs_apart}

-- Two pointers of class 5, no others.
abbrev pub two_items : Slab
two_items = record {
  currents = update (λ _. 0) 5 2;
  pointers = update (update (λ _. 0) (size_class_offset 5) 700) (size_class_offset 5 + 1) 800;
}

capacity_of_5 : 3 ≤ size_class_capacity 5
unfolding size_class_capacity
capacity_of_5 = omega arith

pub two_items-IsValid : IsValid two_items
two_items-IsValid i h = ground (arith, capacity_of_5)

room_for_one : 1 ≤ remaining two_items 5
unfolding remaining size_class_capacity
room_for_one = omega arith

two_items-stack : stack two_items 5 ≡ 800 ∷ 700 ∷ []
two_items-stack = ground arith

run_two_items :
    run empty_slab (get 3 ∷ put 3 40 ∷ put 3 48 ∷ get 3 ∷ [])
    ≡ got 0 ∷ stored true ∷ stored true ∷ got 48 ∷ []
unfolding run fallback_allocate fallback_deallocate size_class_offset size_class_capacity
run_two_items = refl

run_refines_example :
    run two_items (get 5 ∷ put 5 900 ∷ get 5 ∷ get 6 ∷ [])
    ≡ Spec.run (stack two_items) (get 5 ∷ put 5 900 ∷ get 5 ∷ get 6 ∷ [])
run_refines_example =
    run_refines (get 5 ∷ put 5 900 ∷ get 5 ∷ get 6 ∷ []) two_items (stack two_items)
      two_items-IsValid (λ i h. refl) (omega arith, (omega arith, (omega arith, (omega arith, tt))))

push_batch-pop_example :
    IsValid (push_batch two_items 5 (900 ∷ []))
    × (available (push_batch two_items 5 (900 ∷ [])) 5 ≡ available two_items 5 + 1)
    × (copy_out
          (push_batch two_items 5 (900 ∷ [])).pointers
          (pop_source (push_batch two_items 5 (900 ∷ [])) 5 1)
          1
        ≡ 900 ∷ [])
    × ((j : ℕ)
        → j < 48
        → stack (commit_pop (push_batch two_items 5 (900 ∷ [])) 5 1) j ≡ stack two_items j)
push_batch-pop_example =
    push_batch-pop two_items 5 (900 ∷ []) two_items-IsValid (omega arith) room_for_one

get_slabs_apart_example :
    (get_slabs 4096 1 + slab_raw_byte_size ≤ get_slabs 4096 3)
    × (get_slabs 4096 3 + slab_raw_byte_size ≤ 4096 + 4 * slab_stride_bytes)
unfolding slab_stride_bytes
get_slabs_apart_example = get_slabs_apart 4096 4 1 3 (omega arith) (omega arith) (omega arith)
