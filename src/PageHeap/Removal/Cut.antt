-- ===== src/PageHeap/Removal/Cut.antt =====
-- The writes of `remove_from_free_list`, and the list without the span.
use allocator.Prelude.{
  ◌≤◌, ◌≡◌, ◌≢◌, ◌∙◌, true, false, Option, some, [], ◌∷◌, ◌++◌, arith, ltb, ◌==◌, if◌then◌else◌,
  Ptr, null, update, Bool-cases, inl, inr,
}
use allocator.Config.{max_pages}
use allocator.PageHeap.State.{Span, PageHeap}
use allocator.PageHeap.FreeLists.{remove_from_free_list}
use allocator.PageHeap.Steps.{load-ok, modify-ok}
use allocator.PageHeap.Dll.{Cells, head_of, last_of, linked, Dll, has, has-append, Distinct, frame}

-- A span as `remove_from_free_list` leaves it.
abbrev pub detached : Span → Span
detached t = record t { next = null; prev = null; is_free = false }

-- The neighbours `prev` and `nx` of `x` are joined, and nothing but these three is written.
pub record Joined (spans spans' : Ptr → Option Span) (prev x nx : Ptr) : Type 0 where
  pub left :
      (s : Span) → prev ≢ null → spans prev ≡ some s → spans' prev ≡ some (record s { next = nx })
  pub right :
      (s : Span) → nx ≢ null → spans nx ≡ some s → spans' nx ≡ some (record s { prev = prev })
  pub same :
      (a : Ptr) → (a == prev) ≡ false → (a == x) ≡ false → (a == nx) ≡ false → spans' a ≡ spans a

pub last-mem : (r : Ptr) (w : Span) (xs : Cells) → has (last_of r xs) ((r, w) ∷ xs) ≡ true
last-mem r w [] = ground arith
last-mem r w ((q, u) ∷ xs) = ground (arith, last-mem q u xs)

pub ne_of_has : (a b : Ptr) (xs : Cells) → has a xs ≡ false → has b xs ≡ true → (a == b) ≡ false
ne_of_has a b xs out i = ground arith

pub head-ne : (q : Ptr) (ys : Cells) → q ≢ null → has q ys ≡ false → (q == head_of ys) ≡ false
head-ne q [] live out = ground arith
head-ne q ((y, v) ∷ ys) live out = ground arith

pub not_has-append :
    (a : Ptr) (xs ys : Cells) → has a (xs ++ ys) ≡ false → (has a xs ≡ false) × (has a ys ≡ false)
not_has-append a xs ys h = ground (arith, has-append a xs ys)

-- A list whose middle is a given span.
module _ (spans : Ptr → Option Span) (x : Ptr) (t : Span) (ys : Cells) where
  pub middle :
      (prev : Ptr) (xs : Cells)
      → Dll spans prev (xs ++ (x, t) ∷ ys)
      → (x ≢ null) × (spans x ≡ some (linked t (last_of prev xs) (head_of ys))) × Dll spans x ys
  middle prev [] d = d
  middle prev ((q, u) ∷ xs) d = middle q xs d.2

  -- The span before it is alive.
  pub before :
      (prev : Ptr) (xs : Cells) (q : Ptr) (u : Span)
      → Dll spans prev ((q, u) ∷ xs ++ (x, t) ∷ ys)
      → (last_of q xs ≢ null) × (s : Span) × (spans (last_of q xs) ≡ some s)
  before prev [] q u d = (d.0, linked u prev x, d.1)
  before prev ((r, w) ∷ xs) q u d = before q xs r w d.2

  module _ (spans' : Ptr → Option Span) where
    -- The rest of the list, behind `x`, is joined to what was before it.
    tail-Dll :
        (prev : Ptr) (zs : Cells)
        → Joined spans spans' prev x (head_of zs)
        → Dll spans x zs
        → Distinct ((x, t) ∷ zs)
        → has prev zs ≡ false
        → Dll spans' prev zs
    tail-Dll prev [] j d dis out = tt
    tail-Dll prev ((y, v) ∷ zs) j d dis out = (
      d.0,
      j.right (linked v x (head_of zs)) d.0 d.1,
      frame spans spans' y zs d.2 λ a i.
          j.same a (ground (arith, ne_of_has prev a zs)) (ground (arith, ne_of_has x a zs))
            (ground (arith, ne_of_has y a zs)),
    )

    pub remove-Dll :
        (prev : Ptr) (xs : Cells)
        → Joined spans spans' (last_of prev xs) x (head_of ys)
        → Dll spans prev (xs ++ (x, t) ∷ ys)
        → Distinct (xs ++ (x, t) ∷ ys)
        → has prev (xs ++ (x, t) ∷ ys) ≡ false
        → Dll spans' prev (xs ++ ys)
    remove-Dll prev [] j d dis out = tail-Dll prev ys j d.2 dis (ground arith)
    remove-Dll prev ((q, u) ∷ []) j d dis out =
        (d.0, j.left (linked u prev x) d.0 d.1, tail-Dll q ys j d.2.2 dis.1 (ground arith))
    remove-Dll prev ((q, u) ∷ (r, w) ∷ xs) j d dis out =
        let o = not_has-append q ((r, w) ∷ xs) ((x, t) ∷ ys) dis.0 in
        (
          d.0,
          j.same q (ne_of_has q (last_of r xs) ((r, w) ∷ xs) o.0 (last-mem r w xs)) (ground arith)
                (head-ne q ys d.0 (ground arith))
              ∙ d.1,
          remove-Dll q ((r, w) ∷ xs) j d.2 dis.1 dis.0,
        )

-- The spans after the three writes.
abbrev pub cut : (Ptr → Option Span) → (prev x nx : Ptr) → (s t v : Span) → Ptr → Option Span
cut spans prev x nx s t v =
    let left = if prev == null then spans else update spans prev (some (record s { next = nx })) in
    let right = if nx == null then left else update left nx (some (record v { prev = prev })) in
    update right x (some (detached t))

module _ (h : PageHeap) (prev x nx : Ptr) (s t v : Span) where
  pub cut-Joined :
      (prev == x) ≡ false
      → (nx == x) ≡ false
      → (prev ≢ null → (prev == nx) ≡ false)
      → (prev ≢ null → h.spans prev ≡ some s)
      → (nx ≢ null → h.spans nx ≡ some v)
      → Joined h.spans (cut h.spans prev x nx s t v) prev x nx
  cut-Joined a b c d e = record {
    left = λ s' live at. ground (arith, c live);
    right = λ v' live at. ground (arith, e live);
    same = λ k p q r. ground arith;
  }

  pub remove-eq :
      t.num_pages ≤ max_pages
      → x ≢ null
      → h.spans x ≡ some (linked t prev nx)
      → (prev == x) ≡ false
      → (nx == x) ≡ false
      → (prev ≢ null → (prev == nx) ≡ false)
      → (prev ≢ null → h.spans prev ≡ some s)
      → (nx ≢ null → h.spans nx ≡ some v)
      → remove_from_free_list x h
        ≡ some (
          tt,
          record h {
            spans = cut h.spans prev x nx s t v;
            free_lists = if prev == null then update h.free_lists t.num_pages nx else h.free_lists;
          },
        )
  unfolding remove_from_free_list
  remove-eq small live at a b c d e =
      let small' : ltb max_pages t.num_pages ≡ false = ground arith in
      let lists = update h.free_lists t.num_pages nx in
      let h1 : PageHeap = record h { free_lists = lists } in
      let h2 : PageHeap = record h {
        spans = update h.spans prev (some (record s { next = nx }));
      } in
      elim (Bool-cases (prev == null)) [
        | inl p ↦ elim (Bool-cases (nx == null)) [
          | inl q ↦ rw (load-ok h x _ live at, small', p, q, modify-ok h1 x _ live at)
          | inr q ↦
              let h3 : PageHeap = record h1 {
                spans = update h.spans nx (some (record v { prev = prev }));
              } in
              rw (
                load-ok h x _ live at,
                small',
                p,
                q,
                modify-ok h1 nx v (ground arith) (ground arith),
                modify-ok h3 x (linked t prev nx) live (ground arith),
              )
        ]
        | inr p ↦ elim (Bool-cases (nx == null)) [
          | inl q ↦ rw (
            load-ok h x _ live at,
            small',
            p,
            q,
            modify-ok h prev s (ground arith) (ground arith),
            modify-ok h2 x (linked t prev nx) live (ground arith),
          )
          | inr q ↦
              let h3 : PageHeap = record h2 {
                spans = update h2.spans nx (some (record v { prev = prev }));
              } in
              rw (
                load-ok h x _ live at,
                small',
                p,
                q,
                modify-ok h prev s (ground arith) (ground arith),
                modify-ok h2 nx v (ground arith) (ground arith),
                modify-ok h3 x (linked t prev nx) live (ground arith),
              )
        ]
      ]

-- The span whose `next` is written, and the span whose `prev` is.
abbrev pub Neighbour : (Ptr → Option Span) → Ptr → Type 0
Neighbour spans p = (s : Span) × (p ≢ null → spans p ≡ some s)
