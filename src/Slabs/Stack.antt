-- ===== src/Slabs/Stack.antt =====
-- The stack that a class keeps in its slice of the pointer array, and the invariant of a slab.
use allocator.Prelude.{
  ℕ, zero, suc, ◌+◌, ◌≤◌, ◌<◌, ◌≡◌, ◌≢◌, refl, List, [], ◌∷◌, arith, length, ap₂, ap, ◌⊎◌, inl, inr,
}
use allocator.Config.{size_class_offset, size_class_capacity}
use allocator.Config.Offsets.{slices_apart}
use native.Mathlib.Decide.{dec_lt}
use allocator.Prelude.{Ptr, update}
use allocator.Slabs.{Slab}

-- The `n` cells from `base` on, the last of them first.
abbrev pub cells : (ℕ → Ptr) → (base n : ℕ) → List Ptr
cells f base zero = []
cells f base (suc n) = f (base + n) ∷ cells f base n

abbrev pub stack : Slab → ℕ → List Ptr
stack slab i = cells slab.pointers (size_class_offset i) (slab.currents i)

-- No count exceeds the capacity of its class.
abbrev pub IsValid : Slab → Type 0
IsValid slab = (i : ℕ) → i < 48 → slab.currents i ≤ size_class_capacity i

pub length-cells : (f : ℕ → Ptr) (base n : ℕ) → length (cells f base n) ≡ n
length-cells f base zero = refl
length-cells f base (suc n) = ap suc (length-cells f base n)

-- A write outside the cells leaves them.
pub cells-update :
    (f : ℕ → Ptr) (base n k : ℕ) (v : Ptr)
    → (k < base) ⊎ (base + n ≤ k)
    → cells (update f k v) base n ≡ cells f base n
cells-update f base zero k v out = refl
cells-update f base (suc n) k v out =
    ap₂ ◌∷◌ (ground arith) (cells-update f base n k v (ground arith))

-- The slices of two classes, and the bounds that keep the index arithmetic from wrapping.
pub slice_bounds :
    (i j : ℕ)
    → i < 48
    → j < 48
    → i ≢ j
    → (size_class_offset i + size_class_capacity i ≤ size_class_offset j)
      ⊎ (size_class_offset j + size_class_capacity j ≤ size_class_offset i)
slice_bounds i j h k ne = elim (dec_lt i j) [
  | yes lt ↦ inl (slices_apart i j lt (omega arith)).0
  | no ge ↦ inr (slices_apart j i (omega arith) (omega arith)).0
]

pub slice_total : (i : ℕ) → i < 48 → size_class_offset i + size_class_capacity i ≤ 20000
slice_total i h =
    omega (arith, (slices_apart i 48 h (omega arith)).0, (slices_apart i 48 h (omega arith)).1)
