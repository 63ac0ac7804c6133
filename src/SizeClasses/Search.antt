-- ===== src/SizeClasses/Search.antt =====
-- The binary search loop, over any ascending table.
use allocator.Prelude.{
  ℕ, zero, suc, ◌+◌, ◌-◌, ◌/◌, ◌*◌, ◌^◌, ◌≤◌, ◌<◌, ◌≡◌, ◌⊎◌, inl, inr, arith, ltb, Bool-cases,
  ltb→lt, ltb→le,
}
use native.Mathlib.Nat.{pow-suc}
use allocator.SizeClasses.{search_loop}

-- Where a search for the first entry that reaches `wanted` may end, on `[lo, top]`.
pub record LowerBound (size : ℕ → ℕ) (lo top wanted i : ℕ) : Type 0 where
  pub from : lo ≤ i
  pub upto : i ≤ top
  pub below : (j : ℕ) → lo ≤ j → j < i → size j < wanted
  pub reaches : (i ≡ top) ⊎ (wanted ≤ size i)

module _ (size : ℕ → ℕ) (top wanted : ℕ)
    (mono : (i j : ℕ) → i ≤ j → j ≤ top → size i ≤ size j) where
  pub search_loop-LowerBound :
      (fuel lo hi start : ℕ)
      → start ≤ lo
      → lo ≤ hi
      → hi ≤ top
      → hi - lo < 2 ^ fuel
      → ((j : ℕ) → start ≤ j → j < lo → size j < wanted)
      → (hi ≡ top) ⊎ (wanted ≤ size hi)
      → LowerBound size start top wanted (search_loop fuel lo hi size wanted)
  unfolding search_loop
  search_loop-LowerBound zero lo hi start a b c d e f =
      let p : lo ≡ hi = omega arith in
      record { from = a; upto = omega arith; below = e; reaches = rw p f }
  search_loop-LowerBound (suc fuel) lo hi start a b c d e f = elim (Bool-cases (ltb lo hi)) [
    | inr out ↦ rw out (
        let p : lo ≡ hi = ground arith in
        record { from = a; upto = omega arith; below = e; reaches = rw p f })
    | inl more ↦
        let lt : lo < hi = ltb→lt lo hi more in
        let mid : ℕ = lo + (hi - lo) / 2 in
        let small : hi - lo < 2 * 2 ^ fuel = omega (arith, pow-suc 2 fuel) in
        elim (Bool-cases (ltb (size mid) wanted)) [
          | inl t ↦
              rw (more, t)
                (search_loop-LowerBound fuel (mid + 1) hi start (omega arith) (omega arith) c
                  (omega arith)
                  (λ j p q.
                    omega
                      (arith, mono j mid (omega arith) (omega arith), ltb→lt (size mid) wanted t))
                  f)
          | inr t ↦
              rw (more, t)
                (search_loop-LowerBound fuel lo mid start a (omega arith) (omega arith)
                  (omega arith) e (inr (ltb→le (size mid) wanted t)))
        ]
  ]
