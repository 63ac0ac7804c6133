-- ===== src/Config/Offsets.antt =====
-- The layout of the source's own table: the classes' slices of the pointer array.
use allocator.Prelude.{
  ℕ, zero, suc, ◌+◌, ◌-◌, ◌≤◌, ◌<◌, ◌≡◌, refl, true, arith, leb, ◌==◌, leb→le, ==→eq, all_below,
  all_below-apply,
}
use allocator.SizeClasses.{size_class}
use allocator.Config.{size_class_offset, size_class_capacity, max_slab_pointers}

adjacent :
    all_below 48 (λ i. size_class_offset (i + 1) == size_class_offset i + size_class_capacity i)
    ≡ true
unfolding all_below size_class_offset size_class_capacity
adjacent = refl

pub size_class_offset_suc :
    (i : ℕ) → i < 48 → size_class_offset (i + 1) ≡ size_class_offset i + size_class_capacity i
size_class_offset_suc i h = ==→eq _ _ (all_below-apply 48 _ i adjacent h)

bounded : all_below 48 (λ i. leb (size_class_capacity i) 8000) ≡ true
unfolding all_below size_class_offset size_class_capacity
bounded = refl

-- A count of a class fits 16 bits.
pub size_class_capacity_bound : (i : ℕ) → i < 48 → size_class_capacity i ≤ 8000
size_class_capacity_bound i h = leb→le _ _ (all_below-apply 48 _ i bounded h)

pub offset_total : size_class_offset 48 ≤ max_slab_pointers
unfolding size_class_offset
offset_total = omega arith

-- A batch of a class fits its slice.
batches :
    all_below 47 (λ i. leb (size_class (i + 1)).batch_size (size_class_capacity (i + 1))) ≡ true
unfolding all_below size_class_offset size_class_capacity size_class
batches = refl

pub batch-le-capacity : (i : ℕ) → 0 < i → i < 48 → (size_class i).batch_size ≤ size_class_capacity i
batch-le-capacity i p h =
    let e : (i - 1) + 1 ≡ i = omega arith in
    rw e at (leb→le _ _ (all_below-apply 47 _ (i - 1) batches (omega arith)))

offset_mono_aux : (d i : ℕ) → i + d ≤ 48 → size_class_offset i ≤ size_class_offset (i + d)
offset_mono_aux zero i h = let e : i + 0 ≡ i = omega arith in rw e (omega arith)
offset_mono_aux (suc d) i h =
    let e : i + suc d ≡ (i + d) + 1 = omega arith in
    rw e (
      omega (arith, offset_mono_aux d i (omega arith), size_class_offset_suc (i + d) (omega arith)))

pub offset_mono : (i j : ℕ) → i ≤ j → j ≤ 48 → size_class_offset i ≤ size_class_offset j
offset_mono i j h k =
    let e : j ≡ i + (j - i) = omega arith in rw e (offset_mono_aux (j - i) i (omega arith))

-- In the table of the allocator the slice of a class ends before that of any later class begins,
-- and it begins within the budget of pointers of a slab; 48 stands for the end of the last slice.
pub slices_apart :
    (i j : ℕ)
    → i < j
    → j ≤ 48
    → (size_class_offset i + size_class_capacity i ≤ size_class_offset j)
      × (size_class_offset j ≤ max_slab_pointers)
slices_apart i j h k = (
  omega (arith, size_class_offset_suc i (omega arith), offset_mono (i + 1) j (omega arith) k),
  omega (arith, offset_mono j 48 k (omega arith), offset_total),
)
