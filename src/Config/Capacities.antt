-- ===== src/Config/Capacities.antt =====
-- The capacities, for any table of size classes.
use allocator.Prelude.{
  ℕ, ◌*◌, ◌/◌, ◌%◌, ◌^◌, ◌≤◌, ◌<◌, ◌≡◌, refl, List, [], ◌∷◌, map, ltb, arith, Bool-cases, inl, inr,
  ap₂,
}
use allocator.SizeClasses.{SizeClassInfo}
use allocator.Config.{
  add32, mul32, whole_batches, raw_capacity, scaled_capacity, class_capacities, total_capacity,
  capacities, prefix_sums, compute_slab_offsets, compute_slab_capacities, max_slab_pointers,
}

-- A whole number of batches, at least one.
abbrev pub IsWholeBatches : (batch cap : ℕ) → Type 0
IsWholeBatches batch cap = (batch ≤ cap) × ((k : ℕ) × (cap ≡ k * batch))

whole_batches-IsWholeBatches : (batch slots : ℕ) → IsWholeBatches batch (whole_batches batch slots)
unfolding whole_batches
whole_batches-IsWholeBatches batch slots = elim (Bool-cases (ltb (slots / batch * batch) batch)) [
  | inl t ↦ rw t (omega arith, (1, omega arith))
  | inr f ↦ rw f (ground arith, (slots / batch, refl))
]

-- Each class of a table has a capacity of its own, and it is a whole number of its batches.
abbrev pub AllWholeBatches : List SizeClassInfo → List ℕ → Type 0
AllWholeBatches [] [] = Unit
AllWholeBatches [] (c ∷ cs) = ⊥
AllWholeBatches (sc ∷ scs) [] = ⊥
AllWholeBatches (sc ∷ scs) (c ∷ cs) = IsWholeBatches sc.batch_size c × AllWholeBatches scs cs

map-AllWholeBatches :
    (f : SizeClassInfo → ℕ) (scs : List SizeClassInfo)
    → ((sc : SizeClassInfo) → IsWholeBatches sc.batch_size (f sc))
    → AllWholeBatches scs (map f scs)
map-AllWholeBatches f [] h = tt
map-AllWholeBatches f (sc ∷ scs) h = (h sc, map-AllWholeBatches f scs h)

class_capacities-AllWholeBatches :
    (scs : List SizeClassInfo) → AllWholeBatches scs (class_capacities scs)
unfolding class_capacities
class_capacities-AllWholeBatches scs =
    elim (Bool-cases (ltb max_slab_pointers (total_capacity (map raw_capacity scs)))) [
      | inl t ↦ rw t (map-AllWholeBatches _ scs scaled)
      | inr f ↦ rw f (map-AllWholeBatches _ scs raw)
    ]
  where
    scaled :
        (sc : SizeClassInfo)
        → IsWholeBatches sc.batch_size (scaled_capacity (total_capacity (map raw_capacity scs)) sc)
    scaled sc = whole_batches-IsWholeBatches sc.batch_size _

    raw : (sc : SizeClassInfo) → IsWholeBatches sc.batch_size (raw_capacity sc)
    raw sc = whole_batches-IsWholeBatches sc.batch_size _

-- Each capacity is a 32-bit number.
abbrev pub AllSmall : List ℕ → Type 0
AllSmall [] = Unit
AllSmall (c ∷ cs) = (c < 2 ^ 32) × AllSmall cs

diff-prefix_sums :
    (offset : ℕ) (cs : List ℕ)
    → offset < 2 ^ 32
    → AllSmall cs
    → compute_slab_capacities (prefix_sums offset cs) ≡ cs
unfolding compute_slab_capacities prefix_sums
diff-prefix_sums offset [] h small = refl
diff-prefix_sums offset (c ∷ []) h small = ap₂ ◌∷◌ (omega arith) refl
diff-prefix_sums offset (c ∷ d ∷ cs) h small =
    ap₂ ◌∷◌ (omega arith) (diff-prefix_sums (add32 offset c) (d ∷ cs) (omega arith) small.1)

-- The fields' machine widths: `uint8_t` batches and `uint16_t` budgets.
abbrev pub AllFields : List SizeClassInfo → Type 0
AllFields [] = Unit
AllFields (sc ∷ scs) = (sc.batch_size < 2 ^ 8) × (sc.byte_budget < 2 ^ 16) × AllFields scs

div-le : (a b : ℕ) → a / b ≤ a
div-le a b = omega arith

whole_batches_small :
    (batch slots : ℕ) → batch < 2 ^ 32 → slots < 2 ^ 32 → whole_batches batch slots < 2 ^ 32
unfolding whole_batches
whole_batches_small batch slots h k = elim (Bool-cases (ltb (slots / batch * batch) batch)) [
  | inl t ↦ rw t h
  | inr f ↦ rw f (grind arith)
]

raw_capacity_small :
    (sc : SizeClassInfo)
    → sc.batch_size < 2 ^ 8
    → sc.byte_budget < 2 ^ 16
    → raw_capacity sc < 2 ^ 32
unfolding raw_capacity
raw_capacity_small sc h k =
    whole_batches_small sc.batch_size (sc.byte_budget / sc.size) (omega arith)
      (omega (arith, div-le sc.byte_budget sc.size))

scaled_capacity_small :
    (total : ℕ) (sc : SizeClassInfo) → sc.batch_size < 2 ^ 8 → scaled_capacity total sc < 2 ^ 32
unfolding scaled_capacity
scaled_capacity_small total sc h =
    whole_batches_small sc.batch_size (mul32 (raw_capacity sc) max_slab_pointers / total)
      (omega arith) (omega (arith, div-le ((raw_capacity sc * max_slab_pointers) % 2 ^ 32) total))

map-AllSmall :
    (f : SizeClassInfo → ℕ) (scs : List SizeClassInfo)
    → ((sc : SizeClassInfo) → sc.batch_size < 2 ^ 8 → sc.byte_budget < 2 ^ 16 → f sc < 2 ^ 32)
    → AllFields scs
    → AllSmall (map f scs)
map-AllSmall f [] h w = tt
map-AllSmall f (sc ∷ scs) h w = (h sc w.0 w.1, map-AllSmall f scs h w.2)

class_capacities-AllSmall :
    (scs : List SizeClassInfo) → AllFields scs → AllSmall (class_capacities scs)
unfolding class_capacities
class_capacities-AllSmall scs w =
    elim (Bool-cases (ltb max_slab_pointers (total_capacity (map raw_capacity scs)))) [
      | inl t ↦ rw t (map-AllSmall _ scs (λ sc h k. scaled_capacity_small _ sc h) w)
      | inr f ↦ rw f (map-AllSmall _ scs raw_capacity_small w)
    ]

-- For any table of size classes whose batch sizes fit 8 bits and byte budgets 16 bits,
-- `compute_slab_capacities` of `compute_slab_offsets` gives back the capacities that the offsets
-- were summed from: none for the first class, and a whole number of batches, at least one, for
-- every other.
pub compute_slab_capacities-offsets :
    (large : SizeClassInfo) (scs : List SizeClassInfo)
    → AllFields scs
    → (compute_slab_capacities (compute_slab_offsets (large ∷ scs)) ≡ capacities (large ∷ scs))
      × (cs : List ℕ) × (capacities (large ∷ scs) ≡ 0 ∷ cs)
      × AllWholeBatches scs cs
unfolding compute_slab_offsets capacities
compute_slab_capacities-offsets large scs w = (
  diff-prefix_sums 0 (0 ∷ class_capacities scs) (omega arith)
      (omega arith, class_capacities-AllSmall scs w),
  class_capacities scs,
  refl,
  class_capacities-AllWholeBatches scs,
)
