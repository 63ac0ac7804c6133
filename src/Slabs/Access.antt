-- ===== src/Slabs/Access.antt =====
-- The unified wrappers of slabs.hpp: the restartable sequence where it is available, and the fallback
-- code on the slab of the current CPU where it is not or its CPU is out of range.
-- Without restartable sequences the fallback code is not protected from other threads of the CPU;
-- here it runs as one step.
pub mod Outcome
pub mod Alone
pub mod Committed
use allocator.Prelude.{
  ℕ, Bool, true, false, Option, none, some, List, leb, if◌then◌else◌, Ptr, null, update,
}
use allocator.Slabs.{fallback_allocate, fallback_deallocate}
use allocator.Slabs.Rseq.{
  SlabArray, Attempt, RseqSlabPopResult, RseqSlabPushResult, rseq_slab_pop, rseq_slab_push,
}

-- What a thread meets in a call: `cpu_id` of its rseq area, and what `sched_getcpu` and `getcpu`
-- return; `none` is a negative result.
pub record Thread : Type 0 where
  pub rseq_available : Bool
  pub tries : List Attempt
  pub rseq_cpu_id : Option ℕ
  pub sched_getcpu : Option ℕ
  pub getcpu : Option ℕ

unfoldable pub fallback_get_cpu : Thread → ℕ
fallback_get_cpu t = elim t.sched_getcpu [
  | some cpu_id ↦ cpu_id
  | none ↦ elim t.getcpu [ some cpu ↦ cpu | none ↦ 0 ]
]

unfoldable pub current_cpu_id : Thread → ℕ
unfolding fallback_get_cpu
current_cpu_id t =
    if t.rseq_available
    then (elim t.rseq_cpu_id [ some cpu_id ↦ cpu_id | none ↦ fallback_get_cpu t ])
    else fallback_get_cpu t

module _ (slab_count sc_idx : ℕ) (t : Thread) where
  -- The last two lines of `slab_pop`. `get_slabs_checked` is `nullptr` at a CPU out of range.
  unfoldable pub pop_fallback : SlabArray → Ptr × SlabArray
  unfolding current_cpu_id
  pop_fallback slabs =
      let cpu_id = current_cpu_id t in
      let (ptr, slab) = fallback_allocate (slabs cpu_id) sc_idx in
      if leb slab_count cpu_id then (null, slabs) else (ptr, update slabs cpu_id slab)

  unfoldable pub finish_pop : Option (RseqSlabPopResult × SlabArray) → Option (Ptr × SlabArray)
  unfolding pop_fallback
  finish_pop none = none
  finish_pop (some (r, slabs)) =
      if r.used_fastpath then some (r.ptr, slabs) else some (pop_fallback slabs)

  unfoldable pub slab_pop : SlabArray → Option (Ptr × SlabArray)
  unfolding finish_pop
  slab_pop slabs =
      if t.rseq_available
      then finish_pop (rseq_slab_pop slab_count sc_idx slabs t.tries)
      else some (pop_fallback slabs)

  module _ (ptr : Ptr) where
    unfoldable pub push_fallback : SlabArray → Bool × SlabArray
    unfolding current_cpu_id
    push_fallback slabs =
        let cpu_id = current_cpu_id t in
        let (ok, slab) = fallback_deallocate (slabs cpu_id) ptr sc_idx in
        if leb slab_count cpu_id then (false, slabs) else (ok, update slabs cpu_id slab)

    unfoldable pub finish_push : Option (RseqSlabPushResult × SlabArray) → Option (Bool × SlabArray)
    unfolding push_fallback
    finish_push none = none
    finish_push (some (r, slabs)) =
        if r.used_fastpath then some (r.ok, slabs) else some (push_fallback slabs)

    unfoldable pub slab_push : SlabArray → Option (Bool × SlabArray)
    unfolding finish_push
    slab_push slabs =
        if t.rseq_available
        then finish_push (rseq_slab_push slab_count sc_idx ptr slabs t.tries)
        else some (push_fallback slabs)
