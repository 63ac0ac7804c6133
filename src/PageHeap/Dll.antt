-- ===== src/PageHeap/Dll.antt =====
-- Doubly linked lists of spans.
use mathlib.Core.Bool.{or_assoc}
use allocator.Prelude.{
  ◌≡◌, ◌≢◌, refl, sym, ap, ◌∙◌, Bool, true, false, ◌||◌, Option, some, List, [], ◌∷◌, ◌++◌, arith,
  ltb, ◌==◌, if◌then◌else◌, Ptr, null, update,
}
use allocator.PageHeap.State.{Span}

-- What a list stands for: the address of each span, and its fields; their `next` and `prev` are not
-- looked at.
abbrev pub Cells : Type 0
Cells = List (Ptr × Span)

abbrev pub head_of : Cells → Ptr
head_of [] = null
head_of ((x, _) ∷ _) = x

-- The address of the last cell, `prev` if there is none.
abbrev pub last_of : (prev : Ptr) → Cells → Ptr
last_of prev [] = prev
last_of prev ((x, _) ∷ xs) = last_of x xs

abbrev pub linked : Span → (prev next : Ptr) → Span
linked s p q = record s { next = q; prev = p }

-- The spans of the list, from its first, whose `prev` is given, to its last, whose `next` is null.
abbrev pub Dll : (Ptr → Option Span) → (prev : Ptr) → Cells → Type 0
Dll spans prev [] = Unit
Dll spans prev ((x, s) ∷ xs) =
    (x ≢ null) × (spans x ≡ some (linked s prev (head_of xs))) × Dll spans x xs

-- Whether a cell of the list has this address.
abbrev pub has : Ptr → Cells → Bool
has k [] = false
has k ((x, s) ∷ rest) = (k == x) || has k rest

abbrev pub Distinct : Cells → Type 0
Distinct [] = Unit
Distinct ((x, _) ∷ xs) = (has x xs ≡ false) × Distinct xs

pub has-append :
    (k : Ptr) (front back : Cells) → has k (front ++ back) ≡ (has k front || has k back)
has-append k [] back = refl
has-append k ((x, s) ∷ front) back =
    ap (λ b. (k == x) || b) (has-append k front back)
    ∙ sym (or_assoc (k == x) (has k front) (has k back))

-- A list survives any change that spares its own addresses.
pub frame :
    (spans spans' : Ptr → Option Span) (prev : Ptr) (xs : Cells)
    → Dll spans prev xs
    → ((a : Ptr) → has a xs ≡ true → spans' a ≡ spans a)
    → Dll spans' prev xs
frame spans spans' prev [] d same = tt
frame spans spans' prev ((x, s) ∷ xs) d same =
    (d.0, same x (ground arith) ∙ d.1, frame spans spans' x xs d.2 λ a i. same a (ground arith))

pub frame-update :
    (spans : Ptr → Option Span) (prev : Ptr) (xs : Cells) (k : Ptr) (c : Option Span)
    → Dll spans prev xs
    → has k xs ≡ false
    → Dll (update spans k c) prev xs
frame-update spans prev xs k c d out = frame spans _ prev xs d (ground arith)

-- The place of a span in a list that is ordered by page ids.
unfoldable pub insert_cell : Ptr × Span → Cells → Cells
insert_cell c [] = c ∷ []
insert_cell c (d ∷ ds) = if ltb c.1.start d.1.start then c ∷ d ∷ ds else d ∷ insert_cell c ds
