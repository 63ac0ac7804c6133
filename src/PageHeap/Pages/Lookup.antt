-- ===== src/PageHeap/Pages/Lookup.antt =====
-- What `span_for` finds after `register_span` and `unregister_span`.
use allocator.Prelude.{
  ℕ, zero, suc, ◌+◌, ◌*◌, ◌/◌, ◌≡◌, ◌≢◌, ◌∙◌, Bool, ◌&&◌, Option, none, some, arith, leb, ltb,
  if◌then◌else◌, Ptr, null, update,
}
use allocator.Config.{page_size}
use allocator.PageHeap.State.{Span, PageHeap}
use allocator.PageHeap.Steps.{load-ok}
use allocator.PageHeap.Pages.{map_pages, register_span, unregister_span, span_for}

-- The `n` pages from `page` on are set, and no other.
pub map_pages-eq :
    (f : ℕ → Option Ptr) (page n : ℕ) (entry : Option Ptr) (q : ℕ)
    → map_pages f page n entry q ≡ (if leb page q && ltb q (page + n) then entry else f q)
unfolding map_pages
map_pages-eq f page zero entry q = ground arith
map_pages-eq f page (suc n) entry q =
    map_pages-eq (update f page entry) (page + 1) n entry q ∙ ground arith

-- The span that a byte address is mapped to.
abbrev pub owner : PageHeap → (addr : ℕ) → Ptr
owner h addr = elim (h.page_map (addr / page_size)) [ none ↦ null | some p ↦ p ]

-- Whether an address lies in the bytes of a span.
abbrev pub covers : Span → (addr : ℕ) → Bool
covers s addr = leb (s.start * page_size) addr && ltb addr ((s.start + s.num_pages) * page_size)

covers-eq :
    (s : Span) (addr : ℕ)
    → covers s addr
      ≡ (leb s.start (addr / page_size) && ltb (addr / page_size) (s.start + s.num_pages))
covers-eq s addr = ground arith

module _ (h : PageHeap) (p : Ptr) (s : Span) (live : p ≢ null) (at : h.spans p ≡ some s) where
  -- `register_span` of a live span ends, and after it `span_for` of every address in the span's
  -- bytes is the span, and of any other address what it was before.
  pub register_span-span_for :
      (h' : PageHeap) × (register_span p h ≡ some (tt, h'))
      × ((addr : ℕ) → span_for addr h' ≡ some ((if covers s addr then p else owner h addr), h'))
  unfolding register_span span_for
  register_span-span_for = (
    record h { page_map = map_pages h.page_map s.start s.num_pages (some p) },
    rw (load-ok h p s live at),
    λ addr. rw map_pages-eq (ground (arith, covers-eq s addr)),
  )

  -- `unregister_span` of a live span ends, and after it `span_for` of every address in the span's
  -- bytes is `nullptr`, and of any other address what it was before.
  pub unregister_span-span_for :
      (h' : PageHeap) × (unregister_span p h ≡ some (tt, h'))
      × ((addr : ℕ) → span_for addr h' ≡ some ((if covers s addr then null else owner h addr), h'))
  unfolding unregister_span span_for
  unregister_span-span_for = (
    record h { page_map = map_pages h.page_map s.start s.num_pages none },
    rw (load-ok h p s live at),
    λ addr. rw map_pages-eq (ground (arith, covers-eq s addr)),
  )
