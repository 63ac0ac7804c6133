-- ===== src/PageHeap/State.antt =====
-- The state of page_heap.hpp: the live `Span` objects, the free lists and the page map; and the
-- commands that read and write it.
-- `none` is undefined behaviour: a read or write through a pointer that is no live span. A loop that
-- walks a list takes fuel, and `none` also stands for a lack of it.
use allocator.Prelude.{
  List, [], ◌∷◌, ◌++◌, ℕ, ◌+◌, Bool, false, Option, none, some, ◌==◌, if◌then◌else◌, Ptr, null,
  update,
}

-- `struct Span`
pub record Span : Type 0 where
  pub start : ℕ
  pub num_pages : ℕ
  pub next : Ptr
  pub prev : Ptr
  pub size : ℕ
  pub total_objects : ℕ
  pub num_free_objects : ℕ
  pub next_uninitialized : ℕ
  pub freelist_head : ℕ
  pub is_free : Bool

-- `INVALID_INDEX`
abbrev pub invalid_index : ℕ
invalid_index = 0xFFFF

-- `Span{}`
abbrev pub blank_span : Span
blank_span = record {
  start = 0;
  num_pages = 0;
  next = null;
  prev = null;
  size = 0;
  total_objects = 0;
  num_free_objects = 0;
  next_uninitialized = 0;
  freelist_head = invalid_index;
  is_free = false;
}

-- What `new`, `mmap` and `munmap` return. Each call of a run has its number, and `new` also sees which
-- objects are live. `none` is `MAP_FAILED`, and `munmap` tells whether it returned 0.
pub record System : Type 0 where
  pub new_span : (call : ℕ) → (spans : Ptr → Option Span) → Ptr
  pub mmap : (call bytes : ℕ) → Option ℕ
  pub munmap : (call addr bytes : ℕ) → Bool

-- `struct PageHeap`, with the `Span` objects that its pointers lead to, the number of calls of the
-- system so far, and the address and the size of each call of `munmap`, the first call first. Page
-- ids are addresses divided by the page size, so that sums of an id and a count of pages do not wrap.
pub record PageHeap : Type 0 where
  pub spans : Ptr → Option Span
  pub free_lists : ℕ → Ptr
  pub page_map : ℕ → Option Ptr
  pub calls : ℕ
  pub unmapped : List (ℕ × ℕ)

-- `PageHeap()`, with no span object alive
abbrev pub empty_heap : PageHeap
empty_heap = record {
  spans = λ _. none;
  free_lists = λ _. null;
  page_map = λ _. none;
  calls = 0;
  unmapped = [];
}

abbrev pub Cmd : Type 0 → Type 0
Cmd A = PageHeap → Option (A × PageHeap)

abbrev pub pure : {A : Type 0} → A → Cmd A
pure a h = some (a, h)

-- Out of fuel.
abbrev pub stuck : {A : Type 0} → Cmd A
stuck h = none

abbrev pub and_then : {A B : Type 0} → Option (A × PageHeap) → (A → Cmd B) → Option (B × PageHeap)
and_then none k = none
and_then (some (a, h)) k = k a h

infixl 5 ◌>>=◌ ◌>>◌
abbrev pub ◌>>=◌ : {A B : Type 0} → Cmd A → (A → Cmd B) → Cmd B
m >>= k = λ h. and_then (m h) k

abbrev pub ◌>>◌ : {A B : Type 0} → Cmd A → Cmd B → Cmd B
m >> n = m >>= λ _. n

-- `*p`
unfoldable pub load : Ptr → Cmd Span
load p h = if p == null then none else elim (h.spans p) [ none ↦ none | some s ↦ some (s, h) ]

-- A write to fields of `*p`.
unfoldable pub modify : Ptr → (Span → Span) → Cmd (Unit {0})
unfolding load
modify p f = do s ← load p; λ h. some (tt, record h { spans = update h.spans p (some (f s)) })

abbrev pub set_next : Ptr → Ptr → Cmd (Unit {0})
set_next p q = modify p (λ s. record s { next = q })

abbrev pub set_prev : Ptr → Ptr → Cmd (Unit {0})
set_prev p q = modify p (λ s. record s { prev = q })

abbrev pub get_list : ℕ → Cmd Ptr
get_list i h = some (h.free_lists i, h)

abbrev pub set_list : ℕ → Ptr → Cmd (Unit {0})
set_list i p h = some (tt, record h { free_lists = update h.free_lists i p })

-- `new Span{…}`
abbrev pub new_object : System → Span → Cmd Ptr
new_object sys s h =
    let p = sys.new_span h.calls h.spans in
    some (p, record h { spans = update h.spans p (some s); calls = h.calls + 1 })

unfoldable pub delete : Ptr → Cmd (Unit {0})
unfolding load
delete p = load p >> λ h. some (tt, record h { spans = update h.spans p none })

abbrev pub call_mmap : System → (bytes : ℕ) → Cmd (Option ℕ)
call_mmap sys bytes h = some (sys.mmap h.calls bytes, record h { calls = h.calls + 1 })

abbrev pub call_munmap : System → (addr bytes : ℕ) → Cmd Bool
call_munmap sys addr bytes h = some (
  sys.munmap h.calls addr bytes,
  record h { calls = h.calls + 1; unmapped = h.unmapped ++ ((addr, bytes) ∷ []) },
)
