-- ===== src/Tests/Classes.antt =====
-- Tests of the size classes and of the layout, and the theorems on them at concrete inputs.
use allocator.Prelude.{ℕ, ◌≡◌, refl, List, [], ◌∷◌, arith}
use allocator.SizeClasses.{SizeClassInfo, size_class, round_size_class, size_class_to_idx}
use allocator.SizeClasses.Rounding.{
  BestFit, round_size_class-BestFit, size_class_to_idx-round_size_class,
}
use allocator.Config.{compute_slab_offsets, compute_slab_capacities, capacities}
use allocator.Config.Capacities.{AllWholeBatches, compute_slab_capacities-offsets}

round_100 : (round_size_class 100).1 ≡ 7
unfolding round_size_class size_class
round_100 = refl

class_of_zero : (round_size_class 0).1 ≡ 1
unfolding round_size_class
class_of_zero = refl

round_size_class-BestFit_example : BestFit 100 (round_size_class 100).0 (round_size_class 100).1
round_size_class-BestFit_example = round_size_class-BestFit 100 (omega arith)

size_class_to_idx-round_size_class_example :
    size_class_to_idx (round_size_class 5000).0.size ≡ (round_size_class 5000).1
size_class_to_idx-round_size_class_example = size_class_to_idx-round_size_class 5000

-- A table of three classes.
abbrev three : List SizeClassInfo
three =
    record { size = 8; pages = 1; batch_size = 32; byte_budget = 16000 }
    ∷ record { size = 1000; pages = 1; batch_size = 8; byte_budget = 4000 }
    ∷ []

compute_slab_capacities-offsets_example :
    (compute_slab_capacities (compute_slab_offsets (size_class 0 ∷ three))
      ≡ capacities (size_class 0 ∷ three))
    × (cs : List ℕ) × (capacities (size_class 0 ∷ three) ≡ 0 ∷ cs)
    × AllWholeBatches three cs
compute_slab_capacities-offsets_example =
    compute_slab_capacities-offsets (size_class 0) three
      (omega arith, omega arith, (omega arith, omega arith, tt))
