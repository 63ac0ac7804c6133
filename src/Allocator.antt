-- ===== src/Allocator.antt =====
-- allocator.hpp: the per-CPU slabs, the transfer caches, the central free lists and the page heap
-- put together.
pub mod Count
pub mod Front
pub mod Shutdown
use allocator.Prelude.{
  ℕ, zero, suc, ◌+◌, Bool, Option, none, some, List, [], ◌∷◌, ltb, ◌==◌, if◌then◌else◌, Ptr, null,
  update, length, drop,
}
use mathlib.Core.List.{reverse}
use allocator.SizeClasses.{size_class, num_size_classes, round_size_class, size_class_to_idx}
use allocator.Slabs.{empty_slab}
use allocator.Slabs.Rseq.{SlabArray}
use allocator.Slabs.Access.{Thread, slab_pop, slab_push}
use allocator.TransferCache.{TransferCache, insert_range, remove_range}
use allocator.PageHeap
use allocator.PageHeap.State
use allocator.PageHeap.State.{System, PageHeap, empty_heap}
use allocator.PageHeap.Pages
use allocator.CentralFreeList
use allocator.CentralFreeList.{CentralFreeList, Central, central_free_list}
use allocator.CentralFreeList.Nodes.{Memory}

-- `struct Allocator`, with the memory that it hands out, and the number of slab accesses so far.
pub record Allocator : Type 0 where
  pub page_heap : PageHeap
  pub mem : Memory
  pub free_list : ℕ → CentralFreeList
  pub transfer_caches : ℕ → TransferCache
  pub per_cpu_caches : SlabArray
  pub slab_count : ℕ
  pub slab_calls : ℕ

-- The loop over the affinity mask: one more than the last CPU that is set.
unfoldable pub count_slabs : (rounds cpu : ℕ) → (is_set : ℕ → Bool) → (slab_count : ℕ) → ℕ
count_slabs zero cpu is_set slab_count = slab_count
count_slabs (suc rounds) cpu is_set slab_count =
    count_slabs rounds (cpu + 1) is_set (if is_set cpu then cpu + 1 else slab_count)

-- `Allocator()` on Linux: `cpu_setsize` is `CPU_SETSIZE`, and `mapped` tells whether `mmap` returned
-- a region for the slabs. `none` is the exception.
unfoldable pub create :
    (cpu_setsize : ℕ) → (is_set : ℕ → Bool) → (mapped : Bool) → Memory → Option Allocator
unfolding count_slabs central_free_list
create cpu_setsize is_set mapped mem =
    let counted = count_slabs cpu_setsize 0 is_set 0 in
    if mapped
    then some (record {
      page_heap = empty_heap;
      mem = mem;
      free_list = λ i. central_free_list (size_class i);
      transfer_caches = λ _. record { slots = λ _. null; used_slots = 0 };
      per_cpu_caches = λ _. empty_slab;
      slab_count = if counted == 0 then 1 else counted;
      slab_calls = 0;
    })
    else none

abbrev pub Cmd : Type 0 → Type 0
Cmd A = Allocator → Option (A × Allocator)

abbrev pub pure : {A : Type 0} → A → Cmd A
pure x a = some (x, a)

abbrev pub and_then : {A B : Type 0} → Option (A × Allocator) → (A → Cmd B) → Option (B × Allocator)
and_then none k = none
and_then (some (x, a)) k = k x a

infixl 5 ◌>>=◌ ◌>>◌
abbrev pub ◌>>=◌ : {A B : Type 0} → Cmd A → (A → Cmd B) → Cmd B
m >>= k = λ a. and_then (m a) k

abbrev pub ◌>>◌ : {A B : Type 0} → Cmd A → Cmd B → Cmd B
m >> n = m >>= λ _. n

abbrev pub get : Cmd Allocator
get a = some (a, a)

abbrev pub in_heap : {A : Type 0} → State.Cmd A → Cmd A
in_heap m a = elim (m a.page_heap) [
  | none ↦ none
  | some (x, h) ↦ some (x, record a { page_heap = h })
]

-- A method of `free_list[i]`.
abbrev pub in_central : {A : Type 0} → ℕ → CentralFreeList.Cmd A → Cmd A
in_central i m a = elim (m (record { heap = a.page_heap; mem = a.mem; cfl = a.free_list i })) [
  | none ↦ none
  | some (x, c) ↦
      some (x, record a { page_heap = c.heap; mem = c.mem; free_list = update a.free_list i c.cfl })
]

-- The environment: the system's calls, what the thread meets in each of its accesses to the slabs,
-- and fuel for the walks along lists.
module _ (sys : System) (threads : ℕ → Thread) (fuel : ℕ) where
  unfoldable pub pop_slab : (sc_idx : ℕ) → Cmd Ptr
  unfolding slab_pop
  pop_slab sc_idx a = elim (slab_pop a.slab_count sc_idx (threads a.slab_calls) a.per_cpu_caches) [
    | none ↦ none
    | some (p, slabs) ↦ some (p, record a { per_cpu_caches = slabs; slab_calls = a.slab_calls + 1 })
  ]

  unfoldable pub push_slab : (sc_idx : ℕ) → Ptr → Cmd Bool
  unfolding slab_push
  push_slab sc_idx p a =
      elim (slab_push a.slab_count sc_idx (threads a.slab_calls) p a.per_cpu_caches) [
        | none ↦ none
        | some (ok, slabs) ↦
            some (ok, record a { per_cpu_caches = slabs; slab_calls = a.slab_calls + 1 })
      ]

  unfoldable pub refill_batch : (sc_idx count : ℕ) → Cmd (List Ptr)
  unfolding remove_range CentralFreeList.allocate_batch
  refill_batch sc_idx count = do
    a ← get
    let (got, batch, cache) = remove_range (a.transfer_caches sc_idx) count
    λ b. some (tt, record b { transfer_caches = update b.transfer_caches sc_idx cache })
    if got == 0
        then in_central sc_idx (CentralFreeList.allocate_batch sys fuel count)
        else pure batch

  unfoldable pub release_batch : (sc_idx : ℕ) → (batch : List Ptr) → Cmd (Unit {0})
  unfolding insert_range CentralFreeList.deallocate_batch
  release_batch sc_idx batch = do
    a ← get
    let (inserted, cache) = insert_range (a.transfer_caches sc_idx) batch (length batch)
    λ b. some (tt, record b { transfer_caches = update b.transfer_caches sc_idx cache })
    if ltb inserted (length batch)
        then in_central sc_idx (CentralFreeList.deallocate_batch sys fuel (drop inserted batch))
        else pure tt

  -- The `while (got > 0)` loop of `allocate`; the batch is given from its end.
  unfoldable pub publish : (sc_idx : ℕ) → (rest : List Ptr) → Cmd (Unit {0})
  unfolding push_slab release_batch
  publish sc_idx [] = pure tt
  publish sc_idx (p ∷ rest) = do
    ok ← push_slab sc_idx p
    if ok then publish sc_idx rest else release_batch sc_idx (reverse (p ∷ rest))

  -- The end of `allocate`: the last object of the batch is the result.
  unfoldable pub hand_out : (sc_idx : ℕ) → (from_end : List Ptr) → Cmd Ptr
  unfolding publish
  hand_out sc_idx [] = pure null
  hand_out sc_idx (result ∷ rest) = publish sc_idx rest >> pure result

  unfoldable pub allocate : (input_size : ℕ) → Cmd Ptr
  unfolding pop_slab refill_batch hand_out
  allocate input_size =
      let (sc, sc_idx) = round_size_class input_size in
      if sc.size == 0 then pure null else do
        ptr ← pop_slab sc_idx
        if ptr == null
            then (do batch ← refill_batch sc_idx sc.batch_size; hand_out sc_idx (reverse batch))
            else pure ptr

  -- The loop of `deallocate` that pops a batch.
  unfoldable pub drain : (sc_idx rounds : ℕ) → Cmd (List Ptr)
  unfolding pop_slab
  drain sc_idx zero = pure []
  drain sc_idx (suc rounds) = do
    p ← pop_slab sc_idx
    if p == null then pure [] else do ps ← drain sc_idx rounds; pure (p ∷ ps)

  -- The slow path of `deallocate`.
  unfoldable pub make_room : (sc_idx batch_size : ℕ) → Ptr → Cmd (Unit {0})
  unfolding drain release_batch push_slab CentralFreeList.deallocate
  make_room sc_idx batch_size p = do
    batch ← drain sc_idx batch_size
    (if ltb 0 (length batch) then release_batch sc_idx batch else pure tt)
    ok ← push_slab sc_idx p
    if ok then pure tt else in_central sc_idx (CentralFreeList.deallocate sys fuel p)

  unfoldable pub deallocate : Ptr → Cmd (Unit {0})
  unfolding make_room Pages.span_for State.load
  deallocate p = do
    span ← in_heap (Pages.span_for p)
    if span == null then pure tt else do
      s ← in_heap (State.load span)
      let sc_idx = size_class_to_idx s.size
      let sc = size_class sc_idx
      if sc.size == 0
          then pure tt
          else do ok ← push_slab sc_idx p; if ok then pure tt else make_room sc_idx sc.batch_size p

module _ (sys : System) (fuel : ℕ) where
  -- The destructors of the `n` first central free lists, the last of them first.
  unfoldable pub destroy_lists : (n : ℕ) → Cmd (Unit {0})
  unfolding CentralFreeList.destroy
  destroy_lists zero = pure tt
  destroy_lists (suc n) = in_central n (CentralFreeList.destroy sys fuel) >> destroy_lists n

  -- `~Allocator`: the members are destroyed in the reverse of their order. The slabs stay mapped.
  unfoldable pub destroy : Cmd (Unit {0})
  unfolding destroy_lists PageHeap.destroy num_size_classes
  destroy = destroy_lists num_size_classes >> in_heap (PageHeap.destroy sys fuel)
