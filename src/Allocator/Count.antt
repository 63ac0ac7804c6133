-- ===== src/Allocator/Count.antt =====
-- The number of slabs that the constructor of the allocator maps.
use allocator.Prelude.{
  ℕ, zero, suc, ◌+◌, ◌≤◌, ◌<◌, ◌≡◌, refl, ◌⊎◌, inl, inr, Bool, true, false, some, arith, ◌==◌,
  Bool-cases,
}
use allocator.CentralFreeList.Nodes.{Memory}
use allocator.Allocator.{Allocator, count_slabs, create}

-- `k` is above every CPU of the mask below `n`, and is one more than one of them, or 0.
record Counted (is_set : ℕ → Bool) (n k : ℕ) : Type 0 where
  above : (c : ℕ) → c < n → is_set c ≡ true → c < k
  last : (k ≡ 0) ⊎ ((c : ℕ) × (c < n) × (is_set c ≡ true) × (k ≡ c + 1))

count_slabs-Counted :
    (is_set : ℕ → Bool) (rounds cpu k : ℕ)
    → Counted is_set cpu k
    → k ≤ cpu
    → Counted is_set (cpu + rounds) (count_slabs rounds cpu is_set k)
unfolding count_slabs
count_slabs-Counted is_set zero cpu k c le = let e : cpu + 0 ≡ cpu = omega arith in rw e c
count_slabs-Counted is_set (suc rounds) cpu k c le =
    let e : cpu + suc rounds ≡ cpu + 1 + rounds = omega arith in
    elim (Bool-cases (is_set cpu)) [
      | inl t ↦
          rw (e, t)
            (count_slabs-Counted is_set rounds (cpu + 1) (cpu + 1)
              (record { above = λ d lt s. omega arith; last = inr (cpu, omega arith, t, refl) })
              (omega arith))
      | inr f ↦
          rw (e, f)
            (count_slabs-Counted is_set rounds (cpu + 1) k
              (record {
                above = λ d lt s. not_this d lt s f;
                last = elim c.last [
                  | inl z ↦ inl z
                  | inr (d, lt, s, p) ↦ inr (d, omega arith, s, p)
                ];
              })
              (omega arith))
    ]
  where
    not_this : (d : ℕ) → d < cpu + 1 → is_set d ≡ true → is_set cpu ≡ false → d < k
    not_this d lt s f = elim (Bool-cases (d == cpu)) [
      | inl same ↦ absurd (grind arith)
      | inr other ↦ c.above d (ground arith) s
    ]

-- If the mapping of the slabs succeeds, the constructor returns an allocator whose `slab_count` is
-- above every CPU of the affinity mask below `CPU_SETSIZE`, and is 1 or one more than a CPU of the
-- mask.
pub create-slab_count :
    (cpu_setsize : ℕ) (is_set : ℕ → Bool) (mem : Memory)
    → (a : Allocator) × (create cpu_setsize is_set true mem ≡ some a)
      × ((c : ℕ) → c < cpu_setsize → is_set c ≡ true → c < a.slab_count)
      × ((a.slab_count ≡ 1)
          ⊎ ((c : ℕ) × (c < cpu_setsize) × (is_set c ≡ true) × (a.slab_count ≡ c + 1)))
unfolding create
create-slab_count cpu_setsize is_set mem =
    let k = count_slabs cpu_setsize 0 is_set 0 in
    let r =
      count_slabs-Counted is_set cpu_setsize 0 0
        (record { above = λ c lt s. absurd (omega arith); last = inl refl }) (omega arith) in
    (
      _,
      refl,
      (λ c lt s. ground (arith, r.above c (omega arith) s)),
      elim r.last [
        | inl z ↦ inl (rw z refl)
        | inr (c, lt, s, p) ↦ inr (c, omega arith, s, ground arith)
      ],
    )
