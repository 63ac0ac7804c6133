-- ===== src/CentralFreeList/Release/Members.antt =====
-- The list of a class, whose spans are in use, without one of them.
use allocator.Prelude.{
  ◌≡◌, ◌≢◌, refl, inl, inr, false, Option, some, [], ◌∷◌, ◌++◌, arith, ◌==◌, if◌then◌else◌, Ptr,
  null, Bool-cases,
}
use allocator.PageHeap.State.{Span, PageHeap}
use allocator.PageHeap.Dll.{Cells, head_of, last_of, linked, Dll, has, has-append, Distinct}
use allocator.PageHeap.Removal.Cut.{Joined, last-mem, ne_of_has, not_has-append}
use allocator.PageHeap.Invariant.{Kept}
use allocator.CentralFreeList.Release.{AllUsed}

-- The list without the span.
pub Distinct-without :
    (x : Ptr) (t : Span) (xs ys : Cells)
    → Distinct (xs ++ (x, t) ∷ ys)
    → Distinct (xs ++ ys) × (has x (xs ++ ys) ≡ false)
Distinct-without x t [] ys d = (d.1, d.0)
Distinct-without x t ((q, u) ∷ xs) ys d =
    let (rest, out) = Distinct-without x t xs ys d.1 in
    let q_out = not_has-append q xs ((x, t) ∷ ys) d.0 in
    ((ground (arith, has-append q xs ys, q_out), rest), ground (arith, q_out, out))

pub AllUsed-without :
    (x : Ptr) (t : Span) (xs ys : Cells)
    → AllUsed (xs ++ (x, t) ∷ ys)
    → AllUsed (xs ++ ys) × (t.is_free ≡ false)
AllUsed-without x t [] ys d = (d.1, d.0)
AllUsed-without x t ((q, u) ∷ xs) ys d =
    let (rest, mine) = AllUsed-without x t xs ys d.1 in ((d.0, rest), mine)

-- A neighbour of the span in the list is in use.
abbrev UsedAt : (Ptr → Option Span) → Ptr → Type 0
UsedAt spans q = (s : Span) × (q ≢ null → spans q ≡ some s) × (q ≢ null → s.is_free ≡ false)

last_used :
    (spans : Ptr → Option Span) (prev : Ptr) (q : Ptr) (u : Span) (xs zs : Cells)
    → Dll spans prev ((q, u) ∷ xs ++ zs)
    → AllUsed ((q, u) ∷ xs ++ zs)
    → UsedAt spans (last_of q xs)
last_used spans prev q u [] zs d used = (linked u prev (head_of zs), (λ ne. d.1), (λ ne. used.0))
last_used spans prev q u ((r, w) ∷ xs) zs d used = last_used spans q r w xs zs d.2 used.1

pub left_used :
    (spans : Ptr → Option Span) (t : Span) (xs zs : Cells)
    → Dll spans null (xs ++ zs)
    → AllUsed (xs ++ zs)
    → UsedAt spans (last_of null xs)
left_used spans t [] zs d used = (t, (λ ne. absurd (ne refl)), (λ ne. absurd (ne refl)))
left_used spans t ((q, u) ∷ xs) zs d used = last_used spans null q u xs zs d used

pub right_used :
    (spans : Ptr → Option Span) (x : Ptr) (t : Span) (ys : Cells)
    → Dll spans x ys
    → AllUsed ys
    → UsedAt spans (head_of ys)
right_used spans x t [] d used = (t, (λ ne. absurd (ne refl)), (λ ne. absurd (ne refl)))
right_used spans x t ((y, v) ∷ ys) d used = (linked v x (head_of ys), (λ ne. d.1), (λ ne. used.0))

pub behind-used : (x : Ptr) (t : Span) (xs ys : Cells) → AllUsed (xs ++ (x, t) ∷ ys) → AllUsed ys
behind-used x t [] ys used = used.1
behind-used x t ((q, u) ∷ xs) ys used = behind-used x t xs ys used.1

-- A list of spans in use outlasts what changes no others.
pub Dll-Kept :
    (h h' : PageHeap) (p prev : Ptr) (xs : Cells)
    → Dll h.spans prev xs
    → AllUsed xs
    → Kept h h' p
    → has p xs ≡ false
    → Dll h'.spans prev xs
Dll-Kept h h' p prev [] d used k out = tt
Dll-Kept h h' p prev ((x, t) ∷ xs) d used k out = (
  d.0,
  (k x (linked t prev (head_of xs)) (ground (arith, out)) used.0).0 d.1,
  Dll-Kept h h' p x xs d.2 used.1 k (ground (arith, out)),
)

pub head-after :
    (head x : Ptr) (t : Span) (xs ys : Cells)
    → head ≡ head_of (xs ++ (x, t) ∷ ys)
    → (last_of null xs ≡ null → xs ≡ [])
    → (if last_of null xs == null then head_of ys else head) ≡ head_of (xs ++ ys)
head-after head x t [] ys e first = ground arith
head-after head x t ((q, u) ∷ xs) ys e first = elim (Bool-cases (last_of q xs == null)) [
  | inl p ↦ absurd (cc (first (ground arith)))
  | inr p ↦ rw p e
]

-- A live span outside the list is not written.
pub outside :
    (spans spans' : Ptr → Option Span) (x : Ptr) (t : Span) (xs ys : Cells) (a : Ptr)
    → Joined spans spans' (last_of null xs) x (head_of ys)
    → a ≢ null
    → has a (xs ++ (x, t) ∷ ys) ≡ false
    → spans' a ≡ spans a
outside spans spans' x t xs ys a j live out =
    let (left, right) = not_has-append a xs ((x, t) ∷ ys) out in
    j.same a (before_it xs left) (ground arith) (behind_it ys (ground arith))
  where
    before_it : (xs : Cells) → has a xs ≡ false → (a == last_of null xs) ≡ false
    before_it [] o = ground arith
    before_it ((q, u) ∷ xs) o = ne_of_has a (last_of q xs) ((q, u) ∷ xs) o (last-mem q u xs)

    behind_it : (ys : Cells) → has a ys ≡ false → (a == head_of ys) ≡ false
    behind_it [] o = ground arith
    behind_it ((y, v) ∷ ys) o = ground arith
