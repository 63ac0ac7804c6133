-- ===== src/Config.antt =====
-- config.hpp: the constants, and the layout of a per-CPU slab computed from the size classes.
pub mod Capacities
pub mod Offsets
use allocator.Prelude.{
  ℕ, zero, suc, ◌+◌, ◌-◌, ◌*◌, ◌/◌, ◌%◌, ◌^◌, List, [], ◌∷◌, map, ltb, if◌then◌else◌, get_or,
}
use allocator.SizeClasses.{SizeClassInfo, size_class_table}

abbrev pub cache_line_size : ℕ
cache_line_size = 64

abbrev pub page_size : ℕ
page_size = 4096

abbrev pub max_pages : ℕ
max_pages = 255

abbrev pub transfer_cache_capacity : ℕ
transfer_cache_capacity = 100

abbrev pub max_slab_pointers : ℕ
max_slab_pointers = 20000

-- `uint32_t` arithmetic
abbrev pub add32 : ℕ → ℕ → ℕ
add32 a b = (a + b) % 2 ^ 32

abbrev pub sub32 : ℕ → ℕ → ℕ
sub32 a b = (2 ^ 32 + a - b) % 2 ^ 32

abbrev pub mul32 : ℕ → ℕ → ℕ
mul32 a b = (a * b) % 2 ^ 32

-- Rounds down to a multiple of the batch, with one batch at the least.
unfoldable pub whole_batches : (batch slots : ℕ) → ℕ
whole_batches batch slots = let cap = slots / batch * batch in if ltb cap batch then batch else cap

-- One round of the first loop of `compute_slab_offsets`.
unfoldable pub raw_capacity : SizeClassInfo → ℕ
unfolding whole_batches
raw_capacity sc = whole_batches sc.batch_size (sc.byte_budget / sc.size)

unfoldable pub total_capacity : List ℕ → ℕ
total_capacity [] = 0
total_capacity (c ∷ cs) = add32 c (total_capacity cs)

-- One round of the loop that scales down.
unfoldable pub scaled_capacity : (total : ℕ) → SizeClassInfo → ℕ
unfolding raw_capacity
scaled_capacity total sc =
    whole_batches sc.batch_size (mul32 (raw_capacity sc) max_slab_pointers / total)

-- `capacities[]` of the classes from 1 on, after both loops.
unfoldable pub class_capacities : List SizeClassInfo → List ℕ
unfolding scaled_capacity total_capacity
class_capacities scs =
    let raw = map raw_capacity scs in
    let total = total_capacity raw in
    if ltb max_slab_pointers total then map (scaled_capacity total) scs else raw

-- Class 0 has no slots.
unfoldable pub capacities : List SizeClassInfo → List ℕ
unfolding class_capacities
capacities [] = []
capacities (large ∷ scs) = 0 ∷ class_capacities scs

-- The prefix sums of the last loop, from `offset` on.
unfoldable pub prefix_sums : ℕ → List ℕ → List ℕ
prefix_sums offset [] = offset ∷ []
prefix_sums offset (c ∷ cs) = offset ∷ prefix_sums (add32 offset c) cs

unfoldable pub compute_slab_offsets : List SizeClassInfo → List ℕ
unfolding capacities prefix_sums
compute_slab_offsets table = prefix_sums 0 (capacities table)

-- `compute_slab_capacities`: the differences of neighbouring offsets.
unfoldable pub compute_slab_capacities : List ℕ → List ℕ
compute_slab_capacities [] = []
compute_slab_capacities (a ∷ rest) = elim rest [
  | [] ↦ []
  | b ∷ _ ↦ sub32 b a ∷ compute_slab_capacities rest
]

-- `SIZE_CLASS_OFFSETS[i]` and `SIZE_CLASS_CAPACITIES[i]`
unfoldable pub size_class_offset : ℕ → ℕ
unfolding compute_slab_offsets size_class_table
size_class_offset i = get_or (compute_slab_offsets size_class_table) i 0

unfoldable pub size_class_capacity : ℕ → ℕ
unfolding size_class_offset compute_slab_capacities
size_class_capacity i = get_or (compute_slab_capacities (compute_slab_offsets size_class_table)) i 0
