-- ===== src/CentralFreeList/Fetch.antt =====
-- The span that `allocate` takes an object of: one of the class that has objects left, or else one
-- that it fetches from the page heap.
pub mod Chosen
pub mod Choice
pub mod Outcome
pub mod Found
use allocator.Prelude.{
  ℕ, zero, suc, ◌+◌, ◌*◌, ◌/◌, ◌%◌, ◌^◌, ◌≤◌, ◌<◌, ◌≡◌, ◌≢◌, refl, sym, ap, ◌∙◌, inl, inr, Bool,
  true, false, Option, none, some, List, [], ◌∷◌, arith, ltb, ◌==◌, if◌then◌else◌, Ptr, null,
  update, update_self, length, Bool-cases, ==→eq,
}
use allocator.Config.{page_size, max_pages}
use allocator.PageHeap.State.{Span, System, PageHeap, invalid_index}
use allocator.PageHeap.Dll.{Cells}
use allocator.PageHeap.Lists.{free_of, used-Unlisted}
use allocator.PageHeap.Invariant.{WellFormed, WellFormed-write, WellFormed-out, nothing}
use allocator.CentralFreeList.{
  Central, CentralFreeList, load, modify, has_objects, find_loop, span_has_available_objects, pure,
}
use allocator.CentralFreeList.Objects.Populate.{central_load-ok, central_modify-ok}

-- The spans `ps`, linked by `next` from `head` on, are in use and have no object left.
abbrev pub Exhausted : (Ptr → Option Span) → (head : Ptr) → (ps : List Ptr) → Type 0
Exhausted spans head [] = head ≡ null
Exhausted spans head (p ∷ ps) =
    (head ≡ p)
    × (p ≢ null)
    × (s : Span) × (spans p ≡ some s)
    × (s.is_free ≡ false)
    × (has_objects s ≡ false)
    × Exhausted spans s.next ps

-- A write that changes no more than the links of spans in use.
abbrev pub Relinks : (Ptr → Option Span) → (Ptr → Option Span) → Type 0
Relinks spans spans' =
    (a : Ptr) (u : Span)
    → spans a ≡ some u
    → u.is_free ≡ false
    → (u' : Span) × (spans' a ≡ some u')
      × (u'.is_free ≡ false)
      × (u'.next ≡ u.next)
      × (has_objects u' ≡ has_objects u)

pub Exhausted-Relinks :
    (spans spans' : Ptr → Option Span) (head : Ptr) (ps : List Ptr)
    → Relinks spans spans'
    → Exhausted spans head ps
    → Exhausted spans' head ps
Exhausted-Relinks spans spans' head [] r e = e
Exhausted-Relinks spans spans' head (p ∷ ps) r (at_head, live, s, at, used, no_more, rest) =
    let (s', at', used', next, same) = r p s at used in
    (
      at_head,
      live,
      s',
      at',
      used',
      same ∙ no_more,
      rw next (Exhausted-Relinks spans spans' s.next ps r rest),
    )

-- The walk of `find_available_span` meets them all.
pub find_loop-Exhausted :
    (fuel : ℕ) (c : Central) (head : Ptr) (ps : List Ptr)
    → Exhausted c.heap.spans head ps
    → length ps < fuel
    → find_loop fuel head c ≡ some (null, c)
unfolding find_loop
find_loop-Exhausted zero c head ps e h = absurd (omega arith)
find_loop-Exhausted (suc fuel) c head [] e h = rw e refl
find_loop-Exhausted (suc fuel) c head (p ∷ ps) (at_head, live, s, at, used, no_more, rest) h =
    let nn : (p == null) ≡ false = ground arith in
    rw (at_head, nn, central_load-ok c p s live at, no_more)
      (find_loop-Exhausted fuel c s.next ps rest (omega arith))

module _ (sys : System) (h : PageHeap) (lists : ℕ → Cells) where
  -- A write to a span in use that does not move it.
  pub write-WellFormed :
      (p : Ptr) (s t : Span)
      → WellFormed sys h lists nothing
      → h.spans p ≡ some s
      → s.is_free ≡ false
      → (t.start ≡ s.start) × (t.num_pages ≡ s.num_pages)
      → t.is_free ≡ false
      → WellFormed sys (record h { spans = update h.spans p (some t) }) lists nothing
  write-WellFormed p s t v at used fields used' =
      WellFormed-out sys _ lists (update nothing p false) nothing (λ a. ground arith)
        (WellFormed-write sys h lists nothing p s t false v at
          (used-Unlisted h.spans h.free_lists lists nothing v.lists_ok p s at used) fields
          (λ e. absurd (cc e)) (λ e. v.small p s at refl))
