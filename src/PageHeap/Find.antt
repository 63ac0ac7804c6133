-- ===== src/PageHeap/Find.antt =====
-- The cell of a free list at an address.
use allocator.Prelude.{
  ◌≡◌, ◌≢◌, refl, ◌∙◌, true, false, Option, none, some, [], ◌∷◌, ◌++◌, arith, ltb, ◌==◌,
  if◌then◌else◌, Ptr, null, Bool-cases, inl, inr, ==→eq,
}
use allocator.PageHeap.State.{Span}
use allocator.PageHeap.Dll.{Cells, head_of, linked, Dll, has, insert_cell}

abbrev pub find : Ptr → Cells → Option Span
find a [] = none
find a ((x, s) ∷ xs) = if a == x then some s else find a xs

pub find_of_has : (a : Ptr) (xs : Cells) → has a xs ≡ true → (s : Span) × (find a xs ≡ some s)
find_of_has a [] i = absurd (ground arith)
find_of_has a ((x, s) ∷ xs) i = elim (Bool-cases (a == x)) [
  | inl t ↦ (s, rw t)
  | inr f ↦ let (u, e) = find_of_has a xs (ground arith) in (u, rw f e)
]

pub has_of_find : (a : Ptr) (s : Span) (xs : Cells) → find a xs ≡ some s → has a xs ≡ true
has_of_find a s [] e = absurd (ground arith)
has_of_find a s ((x, u) ∷ xs) e = ground (arith, has_of_find a s xs)

-- A cell's span is alive, with the fields that the cell has.
pub Dll-find :
    (spans : Ptr → Option Span) (prev : Ptr) (xs : Cells) (a : Ptr) (s : Span)
    → Dll spans prev xs
    → find a xs ≡ some s
    → (a ≢ null) × (p : Ptr) × (q : Ptr) × (spans a ≡ some (linked s p q))
Dll-find spans prev [] a s d e = absurd (ground arith)
Dll-find spans prev ((x, u) ∷ xs) a s d e = elim (Bool-cases (a == x)) [
  | inl t ↦ (ground arith, prev, head_of xs, ground (arith, ==→eq a x t))
  | inr f ↦ Dll-find spans x xs a s d.2 (ground arith)
]

-- A list in which the address occurs, taken apart there.
pub cut_at :
    (a : Ptr) (xs : Cells)
    → has a xs ≡ true
    → (front : Cells) × (t : Span) × (back : Cells) × (xs ≡ front ++ (a, t) ∷ back)
cut_at a [] i = absurd (ground arith)
cut_at a ((x, s) ∷ xs) i = elim (Bool-cases (a == x)) [
  | inl t ↦ ([], s, xs, ground (arith, ==→eq a x t))
  | inr f ↦ let (front, t, back, e) = cut_at a xs (ground arith) in ((x, s) ∷ front, t, back, rw e)
]

pub find-removed :
    (a x : Ptr) (t : Span) (xs ys : Cells) → a ≢ x → find a (xs ++ (x, t) ∷ ys) ≡ find a (xs ++ ys)
find-removed a x t [] ys ne = ground arith
find-removed a x t ((y, s) ∷ xs) ys ne = rw (find-removed a x t xs ys ne)

pub find-insert_cell :
    (a x : Ptr) (t : Span) (xs : Cells)
    → has x xs ≡ false
    → find a (insert_cell (x, t) xs) ≡ (if a == x then some t else find a xs)
unfolding insert_cell
find-insert_cell a x t [] out = refl
find-insert_cell a x t ((y, s) ∷ xs) out = elim (Bool-cases (ltb t.start s.start)) [
  | inl b ↦ rw b
  | inr b ↦ rw (b, find-insert_cell a x t xs (ground arith)) (ground arith)
]

-- Whether an address occurs is whether it is found.
pub has-find : (a : Ptr) (xs ys : Cells) → find a xs ≡ find a ys → has a xs ≡ has a ys
has-find a xs ys e = elim (Bool-cases (has a xs)) [
  | inl t ↦ let (s, f) = find_of_has a xs t in rw (t, has_of_find a s ys (ground arith))
  | inr t ↦ elim (Bool-cases (has a ys)) [
    | inl t' ↦ let (s, f) = find_of_has a ys t' in absurd (cc (has_of_find a s xs (e ∙ f)))
    | inr t' ↦ rw (t, t')
  ]
]
