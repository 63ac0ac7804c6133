-- ===== src/SizeClasses/Rounding.antt =====
-- `round_size_class` and `size_class_to_idx` against the table.
use allocator.Prelude.{
  ℕ, ◌≤◌, ◌<◌, ◌≡◌, refl, inl, inr, arith, tests, leb, if◌then◌else◌, ◌==◌, Bool-cases, true, ◌∙◌,
  ap,
}
use native.Mathlib.Decide.{dec_le, dec_lt}
use allocator.SizeClasses.{
  SizeClassInfo, size_class, search_loop, round_size_class, size_class_to_idx,
}
use allocator.SizeClasses.Search.{LowerBound, search_loop-LowerBound}
use allocator.SizeClasses.Table.{size_mono, size_strict, size_class_largest}

-- `sc` is the smallest class that holds `wanted` bytes, and `i` is its index.
pub record BestFit (wanted : ℕ) (sc : SizeClassInfo) (i : ℕ) : Type 0 where
  pub entry : sc ≡ size_class i
  pub first : 0 < i
  pub last : i < 48
  pub fits : wanted ≤ sc.size
  pub tight : (j : ℕ) → 0 < j → j < i → (size_class j).size < wanted

search_from :
    (start wanted : ℕ)
    → start ≤ 1
    → LowerBound
        (λ i. (size_class i).size)
        start
        47
        wanted
        (search_loop 6 start 47 (λ i. (size_class i).size) wanted)
search_from start wanted h =
    search_loop-LowerBound (λ i. (size_class i).size) 47 wanted size_mono 6 start 47 start
      (omega arith) (omega arith) (omega arith) (omega arith) (λ j p q. absurd (omega arith))
      (inl refl)

rounded : ℕ → ℕ
rounded wanted = search_loop 6 1 47 (λ i. (size_class i).size) wanted

-- `round_size_class` with the loop's result named.
choose : (wanted lo : ℕ) → SizeClassInfo × ℕ
choose wanted lo =
    if wanted == 0
    then (size_class 1, 1)
    else if leb wanted (size_class lo).size
    then (size_class lo, lo)
    else (size_class 0, 0)

round_size_class-choose : (wanted : ℕ) → round_size_class wanted ≡ choose wanted (rounded wanted)
unfolding round_size_class rounded choose
round_size_class-choose wanted = refl

module _ (wanted : ℕ) where
  found : LowerBound (λ i. (size_class i).size) 1 47 wanted (rounded wanted)
  unfolding rounded
  found = search_from 1 wanted (omega arith)

  choose-BestFit :
      (lo : ℕ)
      → LowerBound (λ i. (size_class i).size) 1 47 wanted lo
      → wanted ≤ 262144
      → BestFit wanted (choose wanted lo).0 (choose wanted lo).1
  unfolding choose
  choose-BestFit lo b small = elim (Bool-cases (wanted == 0)) [
    | inl z ↦ rw z (record {
      entry = refl;
      first = omega arith;
      last = omega arith;
      fits = omega tests;
      tight = λ j p q. absurd (omega arith);
    })
    | inr nz ↦
        let ok : wanted ≤ (size_class lo).size =
          ground (arith, b.reaches, size_class_largest, size_mono 47 lo) in
        let t : leb wanted (size_class lo).size ≡ true = ground arith in
        rw (nz, t)
          (record {
            entry = refl;
            first = b.from;
            last = omega (arith, b.upto);
            fits = ok;
            tight = b.below;
          })
  ]

  -- For a request of at most 262144 bytes `round_size_class` returns a class from 1 to 47 with its
  -- index. The class holds the request, and no smaller one does.
  pub round_size_class-BestFit :
      wanted ≤ 262144 → BestFit wanted (round_size_class wanted).0 (round_size_class wanted).1
  round_size_class-BestFit small =
      rw round_size_class-choose (choose-BestFit (rounded wanted) found small)

  choose-large : (lo : ℕ) → lo ≤ 47 → 262144 < wanted → choose wanted lo ≡ (size_class 0, 0)
  unfolding choose
  choose-large lo h large = ground (arith, size_mono lo 47, size_class_largest)

  -- A larger request gets class 0.
  pub round_size_class-large : 262144 < wanted → round_size_class wanted ≡ (size_class 0, 0)
  round_size_class-large large =
      round_size_class-choose wanted ∙ choose-large (rounded wanted) found.upto large

size_class_to_idx-search :
    (size : ℕ) → size_class_to_idx size ≡ search_loop 6 0 47 (λ i. (size_class i).size) size
unfolding size_class_to_idx
size_class_to_idx-search size = refl

-- `size_class_to_idx` of the size of any class below 48 is the index of the class.
pub size_class_to_idx-size : (i : ℕ) → i < 48 → size_class_to_idx (size_class i).size ≡ i
size_class_to_idx-size i h =
    size_class_to_idx-search (size_class i).size
    ∙ exact _ (search_from 0 (size_class i).size (omega arith))
  where
    exact : (k : ℕ) → LowerBound (λ j. (size_class j).size) 0 47 (size_class i).size k → k ≡ i
    exact k b = elim (dec_lt k i) [
      | yes lt ↦ absurd (ground (arith, b.reaches, size_strict k i))
      | no ge ↦ elim (dec_lt i k) [
        | yes gt ↦ absurd (omega (arith, b.below i (omega arith) gt))
        | no le ↦ omega arith
      ]
    ]

-- `size_class_to_idx` of the size that `round_size_class` picks is the index that it picks, for
-- every request.
pub size_class_to_idx-round_size_class :
    (wanted : ℕ) → size_class_to_idx (round_size_class wanted).0.size ≡ (round_size_class wanted).1
size_class_to_idx-round_size_class wanted = elim (dec_le wanted 262144) [
  | yes small ↦
      let b = round_size_class-BestFit wanted small in
      ap (λ sc. size_class_to_idx (sc.size)) b.entry
      ∙ size_class_to_idx-size (round_size_class wanted).1 b.last
  | no large ↦
      rw (round_size_class-large wanted (omega arith)) (size_class_to_idx-size 0 (omega arith))
]
