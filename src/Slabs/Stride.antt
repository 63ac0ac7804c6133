-- ===== src/Slabs/Stride.antt =====
-- The byte layout: alignment, the size of a slab, and the distance of two slabs.
use allocator.Prelude.{ℕ, ◌+◌, ◌-◌, ◌*◌, ◌/◌, ◌%◌, ◌^◌, ◌≤◌, ◌<◌, ◌≡◌, refl, arith, ◌==◌, false}
use allocator.Slabs.{align_up, slab_raw_byte_size, slab_stride_bytes, get_slabs, add64}
use native.Mathlib.Nat.{div-add-mod, mod-lt, mod-eq_of_lt, mul_comm}

div_bounds : (x a : ℕ) → 0 < a → (x / a * a ≤ x) × (x < x / a * a + a)
div_bounds x a pos = omega (arith, div-add-mod x a, mul_comm a (x / a), mod-lt x pos)

align_up-eq :
    (value alignment : ℕ)
    → 0 < alignment
    → value + alignment ≤ 2 ^ 64
    → align_up value alignment ≡ (value + alignment - 1) / alignment * alignment
unfolding align_up
align_up-eq value alignment pos fits =
    let f : (alignment == 0) ≡ false = ground arith in
    let e : (2 ^ 64 + add64 value alignment - 1) % 2 ^ 64 ≡ value + alignment - 1 = omega arith in
    rw (f, e) (mod-eq_of_lt (omega (arith, (div_bounds (value + alignment - 1) alignment pos).0)))

-- For an alignment above 0, if the sum of value and alignment does not exceed `2 ^ 64`, `align_up`
-- is the least multiple of the alignment that is not below the value.
align_up_lem :
    (value alignment : ℕ)
    → 0 < alignment
    → value + alignment ≤ 2 ^ 64
    → (value ≤ align_up value alignment)
      × (align_up value alignment < value + alignment)
      × ((k : ℕ) × (align_up value alignment ≡ k * alignment))
align_up_lem value alignment pos fits =
    let b = div_bounds (value + alignment - 1) alignment pos in
    rw (align_up-eq value alignment pos fits)
      (omega (arith, b), omega (arith, b), ((value + alignment - 1) / alignment, refl))

-- If the mapping of `slab_count` slabs ends at `2 ^ 64` or below, then the slab that `get_slabs`
-- gives to a CPU ends before that of any later CPU below `slab_count` begins, and the later one
-- ends within the mapping.
pub get_slabs_apart :
    (slabs_base slab_count i j : ℕ)
    → slabs_base + slab_count * slab_stride_bytes ≤ 2 ^ 64
    → i < j
    → j < slab_count
    → (get_slabs slabs_base i + slab_raw_byte_size ≤ get_slabs slabs_base j)
      × (get_slabs slabs_base j + slab_raw_byte_size ≤ slabs_base + slab_count * slab_stride_bytes)
unfolding get_slabs
get_slabs_apart slabs_base slab_count i j fits lt lt' = omega arith
