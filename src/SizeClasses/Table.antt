-- ===== src/SizeClasses/Table.antt =====
-- What the table of size classes holds: it ascends, and no request of a batch is larger than a batch.
use allocator.Prelude.{
  ℕ, zero, suc, ◌+◌, ◌-◌, ◌≤◌, ◌<◌, ◌≡◌, refl, true, arith, ltb, leb, ◌&&◌, ltb→lt, all_below,
  all_below-apply,
}
use allocator.SizeClasses.{size_class, num_size_classes, max_batch_size, SizeClassInfo}

pub num_size_classes_lem : num_size_classes ≡ 48
unfolding num_size_classes
num_size_classes_lem = refl

ascending : all_below 47 (λ i. ltb (size_class i).size (size_class (i + 1)).size) ≡ true
unfolding all_below size_class
ascending = refl

pub size-lt-size_suc : (i : ℕ) → i < 47 → (size_class i).size < (size_class (i + 1)).size
size-lt-size_suc i h = ltb→lt _ _ (all_below-apply 47 _ i ascending h)

size_mono_aux : (d i : ℕ) → i + d ≤ 47 → (size_class i).size ≤ (size_class (i + d)).size
size_mono_aux zero i h = let e : i + 0 ≡ i = omega arith in rw e (omega arith)
size_mono_aux (suc d) i h =
    let e : i + suc d ≡ (i + d) + 1 = omega arith in
    rw e (omega (arith, size_mono_aux d i (omega arith), size-lt-size_suc (i + d) (omega arith)))

pub size_mono : (i j : ℕ) → i ≤ j → j ≤ 47 → (size_class i).size ≤ (size_class j).size
size_mono i j h k =
    let e : j ≡ i + (j - i) = omega arith in rw e (size_mono_aux (j - i) i (omega arith))

pub size_strict : (i j : ℕ) → i < j → j ≤ 47 → (size_class i).size < (size_class j).size
size_strict i j h k =
    omega (arith, size-lt-size_suc i (omega arith), size_mono (i + 1) j (omega arith) k)

-- Every field of a class other than 0 is positive, and a batch fits the caller's array.
pub record IsClass (sc : SizeClassInfo) : Type 0 where
  pub size_pos : 8 ≤ sc.size
  pub pages_pos : 0 < sc.pages
  pub batch_pos : 0 < sc.batch_size
  pub batch_fits : sc.batch_size ≤ max_batch_size

classes :
    all_below 47 (λ i.
      let sc = size_class (i + 1) in
      leb 8 sc.size
      && (ltb 0 sc.pages && (ltb 0 sc.batch_size && leb sc.batch_size max_batch_size)))
    ≡ true
unfolding all_below size_class
classes = refl

pub size_class-IsClass : (i : ℕ) → 0 < i → i < 48 → IsClass (size_class i)
size_class-IsClass i p h =
    let e : (i - 1) + 1 ≡ i = omega arith in
    ground (arith, rw e at (all_below-apply 47 _ (i - 1) classes (omega arith)))

pub size_class_largest : (size_class 47).size ≡ 262144
unfolding size_class
size_class_largest = refl

pub size_class_zero : (size_class 0).size ≡ 0
unfolding size_class
size_class_zero = refl
