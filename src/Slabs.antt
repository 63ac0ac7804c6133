-- ===== src/Slabs.antt =====
-- slabs.hpp: the per-CPU slabs, one bounded stack of pointers for each size class.
-- `pointers` and `currents` are arrays; as functions they have no bounds of their own, so that an
-- access stays inside its class's slice is a theorem.
pub mod Spec
pub mod Stack
pub mod Fallback
pub mod Batch
pub mod Run
pub mod Stride
pub mod Rseq
pub mod Access
use allocator.Prelude.{
  ℕ, ◌+◌, ◌-◌, ◌*◌, ◌/◌, ◌%◌, ◌^◌, Bool, true, false, Option, none, some, ltb, leb, ◌==◌, Ptr, null,
  update, if◌then◌else◌,
}
use allocator.Config.{
  cache_line_size, page_size, add32, sub32, size_class_offset, size_class_capacity,
}
use allocator.SizeClasses.{num_size_classes}

-- `struct Slabs`: `currents` are `uint16_t`.
pub record Slab : Type 0 where
  pub currents : ℕ → ℕ
  pub pointers : ℕ → Ptr

-- The zero pages that `mmap` returns.
abbrev pub empty_slab : Slab
empty_slab = record { currents = λ _. 0; pointers = λ _. null }

-- The methods of `struct Slabs`. A pointer into `pointers` is an index of it.
module _ (slab : Slab) (sc_idx : ℕ) where
  unfoldable pub push_destination : ℕ
  push_destination = add32 (size_class_offset sc_idx) (slab.currents sc_idx)

  unfoldable pub commit_push : (n : ℕ) → Slab
  commit_push n = record slab {
    currents = update slab.currents sc_idx ((slab.currents sc_idx + n) % 2 ^ 16);
  }

  unfoldable pub pop_source : (n : ℕ) → ℕ
  pop_source n = sub32 (add32 (size_class_offset sc_idx) (slab.currents sc_idx)) n

  unfoldable pub commit_pop : (n : ℕ) → Slab
  commit_pop n = record slab {
    currents = update slab.currents sc_idx (sub32 (slab.currents sc_idx) n % 2 ^ 16);
  }

  unfoldable pub available : ℕ
  available = slab.currents sc_idx

  unfoldable pub remaining : ℕ
  remaining = sub32 (size_class_capacity sc_idx) (slab.currents sc_idx)

unfoldable pub fallback_allocate : Slab → ℕ → Ptr × Slab
fallback_allocate slab sc_idx =
    let cur = slab.currents sc_idx in
    if ltb 0 cur
    then (
      slab.pointers (sub32 (add32 (size_class_offset sc_idx) cur) 1),
      record slab { currents = update slab.currents sc_idx ((cur - 1) % 2 ^ 16) },
    )
    else (null, slab)

unfoldable pub fallback_deallocate : Slab → Ptr → ℕ → Bool × Slab
fallback_deallocate slab mem sc_idx =
    let cur = slab.currents sc_idx in
    if ltb cur (size_class_capacity sc_idx)
    then (
      true,
      record {
        currents = update slab.currents sc_idx ((cur + 1) % 2 ^ 16);
        pointers = update slab.pointers (add32 (size_class_offset sc_idx) cur) mem;
      },
    )
    else (false, slab)

-- `size_t` arithmetic
abbrev pub add64 : ℕ → ℕ → ℕ
add64 a b = (a + b) % 2 ^ 64

abbrev pub mul64 : ℕ → ℕ → ℕ
mul64 a b = (a * b) % 2 ^ 64

-- `alignment` is not 0 where 1 is taken off.
unfoldable pub align_up : (value alignment : ℕ) → ℕ
align_up value alignment =
    if alignment == 0
    then value
    else mul64 ((2 ^ 64 + add64 value alignment - 1) % 2 ^ 64 / alignment) alignment

abbrev pub page_align_slab_stride : Bool
page_align_slab_stride = false

-- `SLAB_POINTERS_OFFSET`, with `sizeof(uint16_t)` 2
unfoldable pub slab_pointers_offset : ℕ
unfolding align_up num_size_classes
slab_pointers_offset = align_up (mul64 num_size_classes 2) cache_line_size

-- `SLAB_RAW_BYTE_SIZE`, with `sizeof(void*)` 8
unfoldable pub slab_raw_byte_size : ℕ
unfolding slab_pointers_offset size_class_offset
slab_raw_byte_size = add64 slab_pointers_offset (mul64 (size_class_offset num_size_classes) 8)

abbrev pub slab_stride_alignment : ℕ
slab_stride_alignment = if page_align_slab_stride then page_size else cache_line_size

-- `SLAB_STRIDE_BYTES`
unfoldable pub slab_stride_bytes : ℕ
unfolding slab_raw_byte_size
slab_stride_bytes = align_up slab_raw_byte_size slab_stride_alignment

-- The address of the slab of a CPU.
unfoldable pub get_slabs : (slabs_base cpu_id : ℕ) → ℕ
unfolding slab_stride_bytes
get_slabs slabs_base cpu_id = add64 slabs_base (mul64 cpu_id slab_stride_bytes)

unfoldable pub get_slabs_checked : (slabs_base slab_count cpu_id : ℕ) → Ptr
unfolding get_slabs
get_slabs_checked slabs_base slab_count cpu_id =
    if leb slab_count cpu_id then null else get_slabs slabs_base cpu_id
