-- ===== src/PageHeap/BestFit.antt =====
-- The scan of a free list for the span whose object size is closest.
use allocator.Prelude.{
  ℕ, zero, suc, ◌≤◌, ◌<◌, ◌≡◌, refl, ap, ◌⊎◌, inl, inr, some, [], ◌∷◌, arith, ltb, ◌==◌, Ptr, null,
  length, Bool-cases, ltb→lt, ltb→le, ==→eq,
}
use allocator.PageHeap.State.{Span, PageHeap}
use allocator.PageHeap.Steps.{not_null, load-ok}
use allocator.PageHeap.Dll.{Cells, head_of, Dll}
use allocator.PageHeap.{find_best, size_diff, uint32_max}

abbrev pub In : Ptr × Span → Cells → Type 0
In c [] = ⊥
In c (d ∷ ds) = (c ≡ d) ⊎ In c ds

-- Every span of the list is at least `n` away from `size`.
abbrev pub AllApart : (size n : ℕ) → Cells → Type 0
AllApart size n [] = Unit
AllApart size n ((x, s) ∷ xs) = (n ≤ size_diff s.size size) × AllApart size n xs

AllApart-le : (size m n : ℕ) (xs : Cells) → m ≤ n → AllApart size n xs → AllApart size m xs
AllApart-le size m n [] h a = tt
AllApart-le size m n ((x, s) ∷ xs) h a = (omega arith, AllApart-le size m n xs h a.1)

AllApart-zero : (size : ℕ) (xs : Cells) → AllApart size 0 xs
AllApart-zero size [] = tt
AllApart-zero size (x ∷ xs) = (omega arith, AllApart-zero size xs)

-- What the scan may return, started with `best` at distance `best_diff`.
abbrev pub Closest : (size : ℕ) (best : Ptr) (best_diff : ℕ) → Cells → Ptr → Type 0
Closest size best best_diff xs r =
    ((r ≡ best) × AllApart size best_diff xs)
    ⊎ ((t : Span) × In (r, t) xs
        × (size_diff t.size size < best_diff)
        × AllApart size (size_diff t.size size) xs)

module _ (h : PageHeap) (size : ℕ) where
  pub find_best-Closest :
      (fuel : ℕ) (prev : Ptr) (xs : Cells) (best : Ptr) (best_diff : ℕ)
      → Dll h.spans prev xs
      → length xs < fuel
      → (r : Ptr) × (find_best fuel size best best_diff (head_of xs) h ≡ some (r, h))
        × Closest size best best_diff xs r
  unfolding find_best
  find_best-Closest zero prev xs best best_diff d enough = absurd (omega arith)
  find_best-Closest (suc fuel) prev [] best best_diff d enough = (best, refl, inl (refl, tt))
  find_best-Closest (suc fuel) prev ((x, s) ∷ xs) best best_diff d enough =
      let diff = size_diff s.size size in
      elim (Bool-cases (diff == 0)) [
        | inl z ↦
            let e : diff ≡ 0 = ==→eq _ _ z in
            elim (Bool-cases (ltb diff best_diff)) [
              | inl t ↦ (
                x,
                rw (not_null h x _ d.0 d.1, load-ok h x _ d.0 d.1, z, t),
                inr (
                  s,
                  inl refl,
                  ltb→lt _ _ t,
                  (
                    omega arith,
                    AllApart-le size diff 0 xs (omega (arith, e)) (AllApart-zero size xs),
                  ),
                ),
              )
              | inr f ↦ (
                best,
                rw (not_null h x _ d.0 d.1, load-ok h x _ d.0 d.1, z, f),
                inl (
                  refl,
                  (
                    ltb→le _ _ f,
                    AllApart-le size best_diff 0 xs (omega (arith, ltb→le _ _ f))
                        (AllApart-zero size xs),
                  ),
                ),
              )
            ]
        | inr nz ↦ elim (Bool-cases (ltb diff best_diff)) [
          | inl t ↦
              let (r, ran, c) = find_best-Closest fuel x xs x diff d.2 (omega arith) in
              (
                r,
                rw (not_null h x _ d.0 d.1, load-ok h x _ d.0 d.1, nz, t) ran,
                elim c [
                  | inl (e, a) ↦ inr (s, inl (ap (λ y. (y, s)) e), ltb→lt _ _ t, (omega arith, a))
                  | inr (u, i, l, a) ↦ inr (u, inr i, omega (arith, ltb→lt _ _ t), (omega arith, a))
                ],
              )
          | inr f ↦
              let (r, ran, c) = find_best-Closest fuel x xs best best_diff d.2 (omega arith) in
              (
                r,
                rw (not_null h x _ d.0 d.1, load-ok h x _ d.0 d.1, nz, f) ran,
                elim c [
                  | inl (e, a) ↦ inl (e, (ltb→le _ _ f, a))
                  | inr (u, i, l, a) ↦ inr (u, inr i, l, (omega (arith, ltb→le _ _ f), a))
                ],
              )
        ]
      ]

  -- On a well-formed free list that is not empty, with fuel above its length and with the size of
  -- its first span and the size asked for below `UINT32_MAX`, the scan of `allocate_span` ends and
  -- changes nothing; it returns a span of the list, and none of the list has an object size that is
  -- closer to the one asked for.
  pub find_best-closest :
      (fuel : ℕ) (x : Ptr) (s : Span) (xs : Cells)
      → Dll h.spans null ((x, s) ∷ xs)
      → length xs < fuel
      → s.size < uint32_max
      → size < uint32_max
      → (r : Ptr) × (t : Span) × (find_best (suc fuel) size null uint32_max x h ≡ some (r, h))
        × In (r, t) ((x, s) ∷ xs)
        × AllApart size (size_diff t.size size) ((x, s) ∷ xs)
  find_best-closest fuel x s xs d enough small small' =
      let (r, ran, c) =
        find_best-Closest (suc fuel) null ((x, s) ∷ xs) null uint32_max d (omega arith) in
      elim c [ inl (e, a) ↦ absurd (ground arith) | inr (t, i, l, a) ↦ (r, t, ran, i, a) ]
