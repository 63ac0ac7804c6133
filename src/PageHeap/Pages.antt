-- ===== src/PageHeap/Pages.antt =====
-- The page map: `register_span`, `unregister_span`, `lookup` and `span_for`.
pub mod Lookup
use allocator.Prelude.{ℕ, zero, suc, ◌+◌, ◌/◌, Option, none, some, Ptr, null, update}
use allocator.Config.{page_size}
use allocator.PageHeap.State.{Span, PageHeap, Cmd, pure, ◌>>=◌, load}

-- The loops `page_map[start + p] = span` and `page_map.erase(start + p)`, `n` rounds from page `p`.
unfoldable pub map_pages : (ℕ → Option Ptr) → (page n : ℕ) → Option Ptr → ℕ → Option Ptr
map_pages map page zero entry = map
map_pages map page (suc n) entry = map_pages (update map page entry) (page + 1) n entry

unfoldable pub register_span : Ptr → Cmd (Unit {0})
unfolding map_pages load
register_span span = do
  s ← load span
  λ h. some (tt, record h { page_map = map_pages h.page_map s.start s.num_pages (some span) })

unfoldable pub unregister_span : Ptr → Cmd (Unit {0})
unfolding map_pages load
unregister_span span = do
  s ← load span
  λ h. some (tt, record h { page_map = map_pages h.page_map s.start s.num_pages none })

unfoldable pub lookup : (page_id : ℕ) → Cmd Ptr
lookup page_id h = some (elim (h.page_map page_id) [ none ↦ null | some span ↦ span ], h)

unfoldable pub span_for : Ptr → Cmd Ptr
unfolding lookup
span_for ptr = lookup (ptr / page_size)
