-- ===== src/PageHeap/Shape.antt =====
-- Where the live spans lie, and a page map that agrees with it.
use allocator.Prelude.{
  ℕ, ◌+◌, ◌<◌, ◌≡◌, ◌≢◌, ◌∙◌, Bool, true, ◌&&◌, ◌⊎◌, inl, inr, Option, none, some, arith, leb, ltb,
  ◌==◌, if◌then◌else◌, Ptr, update, Bool-cases,
}
use allocator.PageHeap.State.{Span}

-- The first page of each live span, and the number of its pages.
abbrev pub Shape : Type 0
Shape = Ptr → Option (ℕ × ℕ)

abbrev pub extent : Option Span → Option (ℕ × ℕ)
extent none = none
extent (some s) = some (s.start, s.num_pages)

abbrev pub shape : (Ptr → Option Span) → Shape
shape spans p = extent (spans p)

-- Whether a page is one of the `n` from `start` on.
abbrev pub within : (start n q : ℕ) → Bool
within start n q = leb start q && ltb q (start + n)

-- Every page of a live span leads to it, and a page that leads to a span is one of its pages. So no
-- two live spans share a page.
pub record Pages (g : Shape) (map : ℕ → Option Ptr) : Type 0 where
  pub mapped :
      (p start n : ℕ)
      → g p ≡ some (start, n)
      → (0 < n) × ((q : ℕ) → within start n q ≡ true → map q ≡ some p)
  pub owned :
      (q p : ℕ)
      → map q ≡ some p
      → (start : ℕ) × (n : ℕ) × (g p ≡ some (start, n)) × (within start n q ≡ true)

pub Pages-same :
    (g g' : Shape) (map map' : ℕ → Option Ptr)
    → ((p : Ptr) → g' p ≡ g p)
    → ((q : ℕ) → map' q ≡ map q)
    → Pages g map
    → Pages g' map'
Pages-same g g' map map' same same' v = record {
  mapped = λ p start n e.
      let m = v.mapped p start n (ground (arith, same p)) in (m.0, λ q w. same' q ∙ m.1 q w);
  owned = λ q p e.
      let (start, n, at, w) = v.owned q p (ground (arith, same' q)) in (start, n, same p ∙ at, w);
}

-- Two pieces that make up the pages from `start` on.
abbrev pub Halves : (start k a m b n : ℕ) → Type 0
Halves start k a m b n =
    (0 < m)
    × (0 < n)
    × (m + n ≡ k)
    × (((a ≡ start) × (b ≡ start + m)) ⊎ ((b ≡ start) × (a ≡ start + n)))

module _ (g : Shape) (map map' : ℕ → Option Ptr) (v : Pages g map) (p r : Ptr) where
  -- A span gives a part of its pages to a new one.
  pub Pages-cut :
      (start k a m b n : ℕ)
      → g p ≡ some (start, k)
      → g r ≡ none
      → Halves start k a m b n
      → ((q : ℕ)
          → map' q ≡ (if within b n q then some r else if within a m q then some p else map q))
      → Pages (update (update g p (some (a, m))) r (some (b, n))) map'
  Pages-cut start k a m b n at dead halves new = record { mapped = mapped; owned = owned }
    where
      old : (q : ℕ) → within start k q ≡ true → map q ≡ some p
      old = (v.mapped p start k at).1

      mapped :
          (x c j : ℕ)
          → update (update g p (some (a, m))) r (some (b, n)) x ≡ some (c, j)
          → (0 < j) × ((q : ℕ) → within c j q ≡ true → map' q ≡ some x)
      mapped x c j e = elim (Bool-cases (r == x)) [
        | inl t ↦ (ground arith, λ q w. new q ∙ ground arith)
        | inr f ↦ elim (Bool-cases (p == x)) [
          | inl t ↦ (ground arith, λ q w. new q ∙ ground arith)
          | inr f' ↦
              let m' = v.mapped x c j (ground arith) in
              (m'.0, λ q w. new q ∙ ground (arith, m'.1 q w, old q))
        ]
      ]

      owned :
          (q x : ℕ)
          → map' q ≡ some x
          → (c : ℕ) × (j : ℕ) × (update (update g p (some (a, m))) r (some (b, n)) x ≡ some (c, j))
            × (within c j q ≡ true)
      owned q x e = elim (Bool-cases (within b n q)) [
        | inl t ↦ (b, n, ground (arith, new q), t)
        | inr f ↦ elim (Bool-cases (within a m q)) [
          | inl t ↦ (a, m, ground (arith, new q), t)
          | inr f' ↦
              let (c, j, at', w) = v.owned q x (ground (arith, new q)) in (c, j, ground arith, w)
        ]
      ]

  -- A span takes over the pages of a neighbour `r`, which is dead after it.
  pub Pages-join :
      (start k a m b n : ℕ)
      → g p ≡ some (a, m)
      → g r ≡ some (b, n)
      → p ≢ r
      → Halves start k a m b n
      → ((q : ℕ) → map' q ≡ (if within start k q then some p else map q))
      → Pages (update (update g p (some (start, k))) r none) map'
  Pages-join start k a m b n at at' ne halves new = record { mapped = mapped; owned = owned }
    where
      old : (q : ℕ) → within a m q ≡ true → map q ≡ some p
      old = (v.mapped p a m at).1

      old' : (q : ℕ) → within b n q ≡ true → map q ≡ some r
      old' = (v.mapped r b n at').1

      mapped :
          (x c j : ℕ)
          → update (update g p (some (start, k))) r none x ≡ some (c, j)
          → (0 < j) × ((q : ℕ) → within c j q ≡ true → map' q ≡ some x)
      mapped x c j e = elim (Bool-cases (p == x)) [
        | inl t ↦ (ground arith, λ q w. new q ∙ ground arith)
        | inr f' ↦
            let m' = v.mapped x c j (ground arith) in
            (m'.0, λ q w. new q ∙ ground (arith, m'.1 q w, old q, old' q))
      ]

      owned :
          (q x : ℕ)
          → map' q ≡ some x
          → (c : ℕ) × (j : ℕ) × (update (update g p (some (start, k))) r none x ≡ some (c, j))
            × (within c j q ≡ true)
      owned q x e = elim (Bool-cases (within start k q)) [
        | inl t ↦ (start, k, ground (arith, new q), t)
        | inr f ↦
            let (c, j, at'', w) = v.owned q x (ground (arith, new q)) in (c, j, ground arith, w)
      ]

-- A new span on pages that led nowhere.
pub Pages-new :
    (g : Shape) (map map' : ℕ → Option Ptr) (v : Pages g map) (r start k : ℕ)
    → g r ≡ none
    → 0 < k
    → ((q : ℕ) → within start k q ≡ true → map q ≡ none)
    → ((q : ℕ) → map' q ≡ (if within start k q then some r else map q))
    → Pages (update g r (some (start, k))) map'
Pages-new g map map' v r start k dead pos free new = record { mapped = mapped; owned = owned }
  where
    mapped :
        (x c j : ℕ)
        → update g r (some (start, k)) x ≡ some (c, j)
        → (0 < j) × ((q : ℕ) → within c j q ≡ true → map' q ≡ some x)
    mapped x c j e = elim (Bool-cases (r == x)) [
      | inl t ↦ (ground arith, λ q w. new q ∙ ground arith)
      | inr f ↦
          let m' = v.mapped x c j (ground arith) in
          (m'.0, λ q w. new q ∙ ground (arith, m'.1 q w, free q))
    ]

    owned :
        (q x : ℕ)
        → map' q ≡ some x
        → (c : ℕ) × (j : ℕ) × (update g r (some (start, k)) x ≡ some (c, j)) × (within c j q ≡ true)
    owned q x e = elim (Bool-cases (within start k q)) [
      | inl t ↦ (start, k, ground (arith, new q), t)
      | inr f ↦ let (c, j, at, w) = v.owned q x (ground (arith, new q)) in (c, j, ground arith, w)
    ]
