-- ===== src/SizeClasses.antt =====
-- size_classes.hpp: the table of size classes and the two binary searches over it.
pub mod Search
pub mod Table
pub mod Rounding
use allocator.Prelude.{
  ℕ, zero, suc, ◌+◌, ◌-◌, ◌/◌, List, [], ◌∷◌, ltb, leb, ◌==◌, if◌then◌else◌, get_or, length,
}

-- `struct SizeClassInfo`
pub record SizeClassInfo : Type 0 where
  pub size : ℕ
  pub pages : ℕ
  pub batch_size : ℕ
  pub byte_budget : ℕ

abbrev info : ℕ → ℕ → ℕ → ℕ → SizeClassInfo
info s p b g = record { size = s; pages = p; batch_size = b; byte_budget = g }

-- `MAX_BATCH_SIZE`
abbrev pub max_batch_size : ℕ
max_batch_size = 32

-- `SizeClasses[]`, row by row.
unfoldable pub size_class_table : List SizeClassInfo
size_class_table =
    info 0 0 0 0
    ∷ info 8 1 32 64000
    ∷ info 16 1 32 64000
    ∷ info 32 1 32 64000
    ∷ info 64 1 32 64000
    ∷ info 80 1 32 32000
    ∷ info 96 1 32 32000
    ∷ info 112 1 32 32000
    ∷ info 128 1 32 32000
    ∷ info 160 1 32 32000
    ∷ info 176 1 32 32000
    ∷ info 208 1 32 32000
    ∷ info 256 1 32 32000
    ∷ info 312 1 32 16000
    ∷ info 384 1 32 16000
    ∷ info 448 1 32 16000
    ∷ info 512 1 32 16000
    ∷ info 576 1 32 16000
    ∷ info 704 1 32 16000
    ∷ info 896 1 32 16000
    ∷ info 1024 1 32 16000
    ∷ info 1152 2 32 8000
    ∷ info 1408 2 32 8000
    ∷ info 1792 2 32 8000
    ∷ info 2048 2 32 8000
    ∷ info 2688 2 24 8000
    ∷ info 3456 3 18 8000
    ∷ info 4096 1 16 8000
    ∷ info 4736 3 13 4000
    ∷ info 6144 3 10 4000
    ∷ info 8192 1 8 4000
    ∷ info 9472 5 6 4000
    ∷ info 12288 3 5 4000
    ∷ info 16384 2 4 4000
    ∷ info 20480 5 3 2000
    ∷ info 28672 7 2 2000
    ∷ info 32768 4 2 2000
    ∷ info 40960 5 2 2000
    ∷ info 49152 6 2 2000
    ∷ info 65536 8 2 2000
    ∷ info 73728 9 2 2000
    ∷ info 81920 10 2 2000
    ∷ info 98304 12 2 2000
    ∷ info 114688 14 2 2000
    ∷ info 131072 16 2 2000
    ∷ info 155648 19 2 2000
    ∷ info 204800 25 2 2000
    ∷ info 262144 32 2 2000
    ∷ []

-- `SizeClasses[i]`. No index out of range is read; the default is never seen.
unfoldable pub size_class : ℕ → SizeClassInfo
unfolding size_class_table
size_class i = get_or size_class_table i (info 0 0 0 0)

-- `NUM_SIZE_CLASSES`
unfoldable pub num_size_classes : ℕ
unfolding size_class_table
num_size_classes = length size_class_table

-- The `while (lo < hi)` loop that both lookups run. Each round halves `hi - lo`, which is below 48.
unfoldable pub search_loop : (fuel lo hi : ℕ) (size : ℕ → ℕ) (wanted : ℕ) → ℕ
search_loop zero lo hi size wanted = lo
search_loop (suc fuel) lo hi size wanted =
    let mid = lo + (hi - lo) / 2 in
    let right = search_loop fuel (mid + 1) hi size wanted in
    let left = search_loop fuel lo mid size wanted in
    if ltb lo hi then (if ltb (size mid) wanted then right else left) else lo

-- `round_size_class`: the class and its index, `(SizeClasses[0], 0)` for a large request.
unfoldable pub round_size_class : ℕ → SizeClassInfo × ℕ
unfolding search_loop size_class num_size_classes
round_size_class wanted =
    let lo = search_loop 6 1 (num_size_classes - 1) (λ i. (size_class i).size) wanted in
    if wanted == 0
    then (size_class 1, 1)
    else if leb wanted (size_class lo).size
    then (size_class lo, lo)
    else (size_class 0, 0)

unfoldable pub size_class_to_idx : ℕ → ℕ
unfolding search_loop size_class num_size_classes
size_class_to_idx size = search_loop 6 0 (num_size_classes - 1) (λ i. (size_class i).size) size
