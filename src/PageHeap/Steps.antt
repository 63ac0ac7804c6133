-- ===== src/PageHeap/Steps.antt =====
-- Reads and writes of a live span go through.
use allocator.Prelude.{◌≡◌, ◌≢◌, false, none, some, ◌==◌, Ptr, null, update, arith}
use allocator.PageHeap.State.{Span, PageHeap, load, modify, delete}

module _ (h : PageHeap) (p : Ptr) (s : Span) (live : p ≢ null) (at : h.spans p ≡ some s) where
  pub not_null : (p == null) ≡ false
  not_null = ground arith

  pub load-ok : load p h ≡ some (s, h)
  unfolding load
  load-ok = rw (not_null, at)

  pub modify-ok :
      (f : Span → Span)
      → modify p f h ≡ some (tt, record h { spans = update h.spans p (some (f s)) })
  unfolding modify
  modify-ok f = rw load-ok

  pub delete-ok : delete p h ≡ some (tt, record h { spans = update h.spans p none })
  unfolding delete
  delete-ok = rw load-ok
