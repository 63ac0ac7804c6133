-- ===== src/PageHeap/Removal.antt =====
-- `remove_from_free_list` takes a span out of its free list.
pub mod Cut
use allocator.Prelude.{
  ℕ, ◌≤◌, ◌≡◌, ◌≢◌, refl, ◌∙◌, true, false, Option, some, [], ◌∷◌, ◌++◌, arith, ltb, ◌==◌,
  if◌then◌else◌, Ptr, null, update, Bool-cases, inl, inr, ◌⊎◌,
}
use allocator.Config.{max_pages}
use allocator.PageHeap.State.{Span, PageHeap}
use allocator.PageHeap.FreeLists.{remove_from_free_list}
use allocator.PageHeap.Steps.{load-ok, modify-ok}
use allocator.PageHeap.Dll.{Cells, head_of, last_of, linked, Dll, has, has-append, Distinct, frame}
use allocator.PageHeap.Insertion.{SameOutside}
use allocator.PageHeap.Removal.Cut.{
  detached, last-mem, ne_of_has, head-ne, not_has-append, middle, before, remove-Dll, cut,
  cut-Joined, remove-eq, Neighbour,
}

-- What `remove_from_free_list` leaves of a heap whose list `n` was `xs ++ (x, t) ∷ ys`.
pub record Removed (n : ℕ) (x : Ptr) (t : Span) (h h' : PageHeap) (xs ys : Cells) : Type 0 where
  pub chain : Dll h'.spans null (xs ++ ys)
  pub head : h'.free_lists n ≡ head_of (xs ++ ys)
  pub other_heads : (m : ℕ) → m ≢ n → h'.free_lists m ≡ h.free_lists m
  pub self : h'.spans x ≡ some (detached t)
  pub same : SameOutside h.spans h'.spans (xs ++ (x, t) ∷ ys)
  pub pages : h'.page_map ≡ h.page_map
  pub calls : h'.calls ≡ h.calls

left_of :
    (spans : Ptr → Option Span) (x : Ptr) (t : Span) (xs ys : Cells)
    → Dll spans null (xs ++ (x, t) ∷ ys)
    → Neighbour spans (last_of null xs)
left_of spans x t [] ys d = (t, λ ne. absurd (ne refl))
left_of spans x t ((q, u) ∷ xs) ys d = let b = before spans x t ys null xs q u d in (b.1, λ ne. b.2)

right_of :
    (spans : Ptr → Option Span) (x : Ptr) (t : Span) (ys : Cells)
    → Dll spans x ys
    → Neighbour spans (head_of ys)
right_of spans x t [] d = (t, λ ne. absurd (ne refl))
right_of spans x t ((y, v) ∷ ys) d = (linked v x (head_of ys), λ ne. d.1)

pub Dll-nonnull :
    (spans : Ptr → Option Span) (prev : Ptr) (xs : Cells) → Dll spans prev xs → has null xs ≡ false
Dll-nonnull spans prev [] d = refl
Dll-nonnull spans prev ((x, s) ∷ xs) d = ground (arith, Dll-nonnull spans x xs d.2)

last-outside :
    (q : Ptr) (u : Span) (xs zs : Cells) (k : Ptr)
    → Distinct ((q, u) ∷ xs ++ zs)
    → has k zs ≡ true
    → (last_of q xs == k) ≡ false
last-outside q u [] zs k dis i = ne_of_has q k zs dis.0 i
last-outside q u ((r, w) ∷ xs) zs k dis i = last-outside r w xs zs k dis.1 i

middle-Distinct :
    (x : Ptr) (t : Span) (xs ys : Cells) → Distinct (xs ++ (x, t) ∷ ys) → has x ys ≡ false
middle-Distinct x t [] ys dis = dis.0
middle-Distinct x t ((q, u) ∷ xs) ys dis = middle-Distinct x t xs ys dis.1

-- The three spans that are written differ.
pub record Apart (prev x nx : Ptr) : Type 0 where
  pub left : (prev == x) ≡ false
  pub right : (nx == x) ≡ false
  pub outer : prev ≢ null → (prev == nx) ≡ false

pub Apart-lem :
    (x : Ptr) (t : Span) (xs ys : Cells)
    → Distinct (xs ++ (x, t) ∷ ys)
    → x ≢ null
    → Apart (last_of null xs) x (head_of ys)
Apart-lem x t xs ys dis live = record { left = left xs dis; right = right; outer = outer xs ys dis }
  where
    right : (head_of ys == x) ≡ false
    right = ground (arith, head-ne x ys live (middle-Distinct x t xs ys dis))

    left : (xs : Cells) → Distinct (xs ++ (x, t) ∷ ys) → (last_of null xs == x) ≡ false
    left [] dis = ground arith
    left ((q, u) ∷ xs) dis = last-outside q u xs ((x, t) ∷ ys) x dis (ground arith)

    outer :
        (xs ys : Cells)
        → Distinct (xs ++ (x, t) ∷ ys)
        → last_of null xs ≢ null
        → (last_of null xs == head_of ys) ≡ false
    outer [] ys dis ne = absurd (ne refl)
    outer ((q, u) ∷ xs) [] dis ne = ground arith
    outer ((q, u) ∷ xs) ((y, v) ∷ ys) dis ne =
        last-outside q u xs ((x, t) ∷ (y, v) ∷ ys) y dis (ground arith)

-- The head of the list after the removal.
head_after :
    (lists : ℕ → Ptr) (n x : Ptr) (t : Span) (xs ys : Cells)
    → lists n ≡ head_of (xs ++ (x, t) ∷ ys)
    → (last_of null xs ≡ null → xs ≡ [])
    → (if last_of null xs == null then update lists n (head_of ys) else lists) n
      ≡ head_of (xs ++ ys)
head_after lists n x t [] ys e first = ground arith
head_after lists n x t ((q, u) ∷ xs) ys e first = elim (Bool-cases (last_of q xs == null)) [
  | inl p ↦ absurd (cc (first (ground arith)))
  | inr p ↦ rw p e
]

pub last-null :
    (spans : Ptr → Option Span) (x : Ptr) (t : Span) (ys xs : Cells)
    → Dll spans null (xs ++ (x, t) ∷ ys)
    → last_of null xs ≡ null
    → xs ≡ []
last-null spans x t ys [] d e = refl
last-null spans x t ys ((q, u) ∷ xs) d e = absurd ((before spans x t ys null xs q u d).0 e)

-- Nothing outside the list is written.
cut-same :
    (spans : Ptr → Option Span) (x : Ptr) (t : Span) (xs ys : Cells) (s v : Span) (a : Ptr)
    → has a (xs ++ (x, t) ∷ ys) ≡ false
    → cut spans (last_of null xs) x (head_of ys) s t v a ≡ spans a
cut-same spans x t xs ys s v a out = ground (
  arith,
  not_has-append a xs ((x, t) ∷ ys) out,
  left xs (not_has-append a xs ((x, t) ∷ ys) out).0,
  right ys,
)
  where
    left :
        (xs : Cells)
        → has a xs ≡ false
        → ((last_of null xs == null) ≡ true) ⊎ ((a == last_of null xs) ≡ false)
    left [] o = inl refl
    left ((q, u) ∷ xs) o = inr (ne_of_has a (last_of q xs) ((q, u) ∷ xs) o (last-mem q u xs))

    right :
        (ys : Cells)
        → has a ys ≡ false
        → ((head_of ys == null) ≡ true) ⊎ ((a == head_of ys) ≡ false)
    right [] o = inl refl
    right ((y, v) ∷ ys) o = inr (ground arith)

-- On a well-formed free list without repetitions, which the head for the span's number of pages
-- leads to, with that number at most `MAX_PAGES`, `remove_from_free_list` ends and unlinks the
-- span, wherever it stands: the list without it is well-formed and is what the head leads to, the
-- span has no links and is not free, and the other lists, the other spans and the page map are as
-- before.
pub remove-Removed :
    (h : PageHeap) (x : Ptr) (t : Span) (xs ys : Cells)
    → t.num_pages ≤ max_pages
    → Dll h.spans null (xs ++ (x, t) ∷ ys)
    → Distinct (xs ++ (x, t) ∷ ys)
    → h.free_lists t.num_pages ≡ head_of (xs ++ (x, t) ∷ ys)
    → (h' : PageHeap) × (remove_from_free_list x h ≡ some (tt, h'))
      × Removed t.num_pages x t h h' xs ys
remove-Removed h x t xs ys small d dis head =
    let prev = last_of null xs in
    let nx = head_of ys in
    let mid = middle h.spans x t ys null xs d in
    let apart = Apart-lem x t xs ys dis mid.0 in
    let (s, s_at) = left_of h.spans x t xs ys d in
    let (v, v_at) = right_of h.spans x t ys mid.2 in
    let nonnull = Dll-nonnull h.spans null _ d in
    let joined = cut-Joined h prev x nx s t v apart.left apart.right apart.outer s_at v_at in
    (
      record h {
        spans = cut h.spans prev x nx s t v;
        free_lists = if prev == null then update h.free_lists t.num_pages nx else h.free_lists;
      },
      remove-eq h prev x nx s t v small mid.0 mid.1 apart.left apart.right apart.outer s_at v_at,
      record {
        chain = remove-Dll h.spans x t ys _ null xs joined d dis nonnull;
        head = head_after h.free_lists t.num_pages x t xs ys head (last-null h.spans x t ys xs d);
        other_heads = λ m ne. ground arith;
        self = ground arith;
        same = λ a o. cut-same h.spans x t xs ys s v a o;
        pages = refl;
        calls = refl;
      },
    )
