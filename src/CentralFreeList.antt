-- ===== src/CentralFreeList.antt =====
-- central_free_list.hpp: the objects of one size class, carved from spans of the page heap.
pub mod Nodes
pub mod Objects
pub mod Fetch
pub mod Release
use allocator.Prelude.{
  ℕ, zero, suc, ◌+◌, ◌-◌, ◌*◌, ◌/◌, ◌%◌, ◌^◌, min, max, Bool, true, false, not, ◌||◌, Option, none,
  some, List, [], ◌∷◌, ltb, leb, ◌==◌, if◌then◌else◌, Ptr, null,
}
use allocator.Config.{page_size, add32, sub32}
use allocator.SizeClasses.{SizeClassInfo}
use allocator.PageHeap
use allocator.PageHeap.State
use allocator.PageHeap.State.{Span, System, PageHeap, invalid_index}
use allocator.PageHeap.Pages
use allocator.CentralFreeList.Nodes.{
  Memory, Filling, fill_node, pack_indexes, pack_capacity, index_to_ptr, ptr_to_index, fill_nodes,
  take_object, put_object,
}

-- `struct CentralFreeList`; its page heap is part of `Central` below.
pub record CentralFreeList : Type 0 where
  pub span_list : Ptr
  pub current_span : Ptr
  pub size : ℕ
  pub num_free : ℕ
  pub pages : ℕ

-- The constructor that takes a size class.
unfoldable pub central_free_list : SizeClassInfo → CentralFreeList
central_free_list sc = record {
  span_list = null;
  current_span = null;
  size = sc.size;
  num_free = 0;
  pages = sc.pages;
}

-- What the methods read and write.
pub record Central : Type 0 where
  pub heap : PageHeap
  pub mem : Memory
  pub cfl : CentralFreeList

abbrev pub Cmd : Type 0 → Type 0
Cmd A = Central → Option (A × Central)

abbrev pub pure : {A : Type 0} → A → Cmd A
pure a c = some (a, c)

abbrev pub stuck : {A : Type 0} → Cmd A
stuck c = none

abbrev pub and_then : {A B : Type 0} → Option (A × Central) → (A → Cmd B) → Option (B × Central)
and_then none k = none
and_then (some (a, c)) k = k a c

infixl 5 ◌>>=◌ ◌>>◌
abbrev pub ◌>>=◌ : {A B : Type 0} → Cmd A → (A → Cmd B) → Cmd B
m >>= k = λ c. and_then (m c) k

abbrev pub ◌>>◌ : {A B : Type 0} → Cmd A → Cmd B → Cmd B
m >> n = m >>= λ _. n

-- A command of the page heap.
abbrev pub in_heap : {A : Type 0} → State.Cmd A → Cmd A
in_heap m c = elim (m c.heap) [ none ↦ none | some (a, h) ↦ some (a, record c { heap = h }) ]

abbrev pub get : Cmd Central
get c = some (c, c)

abbrev pub set_cfl : (CentralFreeList → CentralFreeList) → Cmd (Unit {0})
set_cfl f c = some (tt, record c { cfl = f c.cfl })

abbrev pub set_mem : Memory → Cmd (Unit {0})
set_mem m c = some (tt, record c { mem = m })

unfoldable pub load : Ptr → Cmd Span
unfolding State.load
load p = in_heap (State.load p)

unfoldable pub modify : Ptr → (Span → Span) → Cmd (Unit {0})
unfolding State.modify
modify p f = in_heap (State.modify p f)

-- `span_has_available_objects`, on the fields of the span.
abbrev pub has_objects : Span → Bool
has_objects s = not (s.freelist_head == invalid_index) || ltb s.next_uninitialized s.total_objects

unfoldable pub span_has_available_objects : Ptr → Cmd Bool
unfolding load
span_has_available_objects span =
    if span == null then pure false else do s ← load span; pure (has_objects s)

unfoldable pub find_loop : (fuel : ℕ) → Ptr → Cmd Ptr
unfolding load
find_loop zero s = stuck
find_loop (suc fuel) s =
    if s == null
    then pure null
    else do span ← load s; if has_objects span then pure s else find_loop fuel span.next

unfoldable pub populate_span : Ptr → Cmd (Unit {0})
unfolding load modify fill_nodes fill_node pack_indexes pack_capacity index_to_ptr
populate_span span = if span == null then pure tt else do
  s ← load span
  if leb s.total_objects s.next_uninitialized then pure tt else do
    c ← get
    let size = c.cfl.size
    let base = s.start * page_size % 2 ^ 64
    let objects_per_chunk = max (page_size / size) 1
    let chunk_end = min s.total_objects (add32 s.next_uninitialized objects_per_chunk)
    let f =
        fill_nodes base size chunk_end (chunk_end - s.next_uninitialized) s.next_uninitialized
          (record {
            mem = c.mem;
            freelist_head = s.freelist_head;
            num_free_objects = s.num_free_objects;
            num_free = c.cfl.num_free;
          })
    set_mem f.mem
    set_cfl (λ l. record l { num_free = f.num_free })
    modify span (λ t. record t {
      num_free_objects = f.num_free_objects;
      next_uninitialized = chunk_end;
      freelist_head = f.freelist_head;
    })

module _ (sys : System) (fuel : ℕ) where
  unfoldable pub find_available_span : Cmd Ptr
  unfolding find_loop
  find_available_span = do c ← get; find_loop fuel c.cfl.span_list

  -- `count` objects in a span, `size_t` divided and cut to 32 bits.
  abbrev pub objects_in : (num_pages size : ℕ) → ℕ
  objects_in num_pages size = num_pages * page_size % 2 ^ 64 / size % 2 ^ 32

  unfoldable pub fetch_from_page_heap : Cmd (Unit {0})
  unfolding load modify PageHeap.allocate_span
  fetch_from_page_heap = do
    c ← get
    if (c.cfl.size == 0) || (c.cfl.pages == 0) then pure tt else do
      span ← in_heap (PageHeap.allocate_span sys fuel c.cfl.pages c.cfl.size)
      if span == null then pure tt else do
        modify span (λ t. record t { next = c.cfl.span_list; prev = null })
        (if c.cfl.span_list == null
            then pure tt
            else modify c.cfl.span_list (λ t. record t { prev = span }))
        s ← load span
        let count = objects_in s.num_pages c.cfl.size
        if ltb 0xFFFF count then stuck else pure tt
        modify span (λ t. record t {
          total_objects = count;
          freelist_head = invalid_index;
          num_free_objects = 0;
          next_uninitialized = 0;
        })
        set_cfl (λ l. record l { span_list = span; current_span = span })

  -- The first half of `allocate`: a current span, fetched if no other has objects.
  unfoldable pub choose_span : Cmd (Unit {0})
  unfolding span_has_available_objects find_available_span fetch_from_page_heap
  choose_span = do
    c ← get
    ok ← span_has_available_objects c.cfl.current_span
    (if ok
        then pure tt
        else do s ← find_available_span; set_cfl (λ l. record l { current_span = s }))
    c ← get
    if c.cfl.current_span == null then fetch_from_page_heap else pure tt

  -- The second half: an object of the current span.
  unfoldable pub take_from : Ptr → Cmd Ptr
  unfolding load modify take_object index_to_ptr populate_span
  take_from span = do
    s ← load span
    (if s.freelist_head == invalid_index then populate_span span else pure tt)
    s ← load span
    if s.freelist_head == invalid_index then pure null else do
      c ← get
      let (result, head, mem) =
          take_object (s.start * page_size % 2 ^ 64) c.cfl.size s.freelist_head c.mem
      set_mem mem
      modify span
          (λ t. record t { freelist_head = head; num_free_objects = sub32 t.num_free_objects 1 })
      set_cfl (λ l. record l { num_free = sub32 l.num_free 1 })
      pure result

  unfoldable pub allocate : Cmd Ptr
  unfolding choose_span take_from
  allocate = do
    choose_span
    c ← get
    if c.cfl.current_span == null then pure null else take_from c.cfl.current_span

  unfoldable pub release_to_page_heap : Ptr → Cmd (Unit {0})
  unfolding load modify PageHeap.return_span
  release_to_page_heap span = do
    set_cfl
        (λ l. record l { current_span = if l.current_span == span then null else l.current_span })
    s ← load span
    set_cfl (λ l. record l { num_free = sub32 l.num_free s.num_free_objects })
    (if s.prev == null
        then set_cfl (λ l. record l { span_list = s.next })
        else modify s.prev (λ t. record t { next = s.next }))
    (if s.next == null then pure tt else modify s.next (λ t. record t { prev = s.prev }))
    modify span (λ t. record t {
      next = null;
      prev = null;
      freelist_head = invalid_index;
      num_free_objects = 0;
      total_objects = 0;
      next_uninitialized = 0;
    })
    in_heap (PageHeap.return_span sys fuel span)

  unfoldable pub deallocate : Ptr → Cmd (Unit {0})
  unfolding load modify put_object index_to_ptr ptr_to_index pack_capacity release_to_page_heap
      Pages.span_for
  deallocate ptr = if ptr == null then pure tt else do
    span ← in_heap (Pages.span_for ptr)
    if span == null then pure tt else do
      s ← load span
      c ← get
      let (head, mem) =
          put_object (s.start * page_size % 2 ^ 64) c.cfl.size s.freelist_head ptr c.mem
      set_mem mem
      modify span
          (λ t. record t { freelist_head = head; num_free_objects = add32 t.num_free_objects 1 })
      set_cfl (λ l. record l { num_free = add32 l.num_free 1 })
      s ← load span
      if s.num_free_objects == s.total_objects then release_to_page_heap span else pure tt

  -- `allocate_batch` with the pointers that it stored, `rounds` of them still wanted.
  unfoldable pub allocate_batch : (rounds : ℕ) → Cmd (List Ptr)
  unfolding allocate
  allocate_batch zero = pure []
  allocate_batch (suc rounds) = do
    p ← allocate
    if p == null then pure [] else do ps ← allocate_batch rounds; pure (p ∷ ps)

  unfoldable pub deallocate_batch : List Ptr → Cmd (Unit {0})
  unfolding deallocate
  deallocate_batch [] = pure tt
  deallocate_batch (p ∷ ps) = deallocate p >> deallocate_batch ps

  -- The loop of `~CentralFreeList`.
  unfoldable pub return_all : (rounds : ℕ) → Ptr → Cmd (Unit {0})
  unfolding load modify PageHeap.return_span
  return_all zero curr = stuck
  return_all (suc rounds) curr = if curr == null then pure tt else do
    s ← load curr
    modify curr (λ t. record t {
      next = null;
      prev = null;
      freelist_head = invalid_index;
      num_free_objects = 0;
      total_objects = 0;
      next_uninitialized = 0;
    })
    in_heap (PageHeap.return_span sys fuel curr)
    return_all rounds s.next

  unfoldable pub destroy : Cmd (Unit {0})
  unfolding return_all
  destroy = do
    c ← get
    return_all fuel c.cfl.span_list
    set_cfl (λ l. record l { span_list = null; current_span = null; num_free = 0 })
