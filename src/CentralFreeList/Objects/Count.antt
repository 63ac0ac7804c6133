-- ===== src/CentralFreeList/Objects/Count.antt =====
-- Distinct indexes below a bound are no more than the bound.
use allocator.Prelude.{
  ℕ, zero, suc, ◌≤◌, ◌<◌, ◌≡◌, refl, ap, ==→eq, true, not, ◌&&◌, List, [], ◌∷◌, arith, ◌==◌,
  if◌then◌else◌, length, Bool-cases, inl, inr,
}
use allocator.CentralFreeList.Nodes.Chain.{contains}
use allocator.CentralFreeList.Objects.{Distinct}

abbrev remove : ℕ → List ℕ → List ℕ
remove a [] = []
remove a (x ∷ xs) = if a == x then xs else x ∷ remove a xs

contains-remove :
    (a k : ℕ) (xs : List ℕ)
    → Distinct xs
    → contains k (remove a xs) ≡ (contains k xs && not (k == a))
unfolding contains
contains-remove a k [] d = refl
contains-remove a k (x ∷ xs) d = ground (arith, contains-remove a k xs d.1, d.0)

Distinct-remove : (a : ℕ) (xs : List ℕ) → Distinct xs → Distinct (remove a xs)
unfolding contains
Distinct-remove a [] d = tt
Distinct-remove a (x ∷ xs) d = elim (Bool-cases (a == x)) [
  | inl t ↦ rw t d.1
  | inr f ↦ rw f (ground (arith, contains-remove a x xs d.1, d.0), Distinct-remove a xs d.1)
]

length-remove :
    (a : ℕ) (xs : List ℕ) → contains a xs ≡ true → length xs ≡ suc (length (remove a xs))
unfolding contains
length-remove a [] h = absurd (ground (arith, h))
length-remove a (x ∷ xs) h = elim (Bool-cases (a == x)) [
  | inl t ↦ rw t refl
  | inr f ↦ rw f (omega (arith, length-remove a xs (ground arith)))
]

pub length-Distinct :
    (n : ℕ) (xs : List ℕ) → Distinct xs → ((k : ℕ) → contains k xs ≡ true → k < n) → length xs ≤ n
unfolding contains
length-Distinct n [] d below = omega arith
length-Distinct zero (x ∷ xs) d below = absurd (omega (arith, below x (ground arith)))
length-Distinct (suc n) (x ∷ xs) d below = elim (Bool-cases (contains n (x ∷ xs))) [
  | inl t ↦
      let out = length-remove n (x ∷ xs) t in
      let fewer =
        length-Distinct n (remove n (x ∷ xs)) (Distinct-remove n (x ∷ xs) d)
          (λ k h. ground (arith, contains-remove n k (x ∷ xs) d, below k)) in
      omega (arith, out, fewer)
  | inr f ↦ omega (
    arith,
    length-Distinct n (x ∷ xs) d (λ k h. elim (Bool-cases (k == n)) [
      | inl e ↦ absurd (cc (ap (λ m. contains m (x ∷ xs)) (==→eq _ _ e), h, f))
      | inr ne ↦ ground (arith, below k h)
    ]),
  )
]
