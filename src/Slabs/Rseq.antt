-- ===== src/Slabs/Rseq.antt =====
-- The restartable sequences of slabs.hpp, `rseq_slab_pop` and `rseq_slab_push`.
-- A run of the assembly is a list of attempts, one for each entry at label 12 (22). The kernel sends
-- a thread that it preempts in the section back to that label, and other threads may run between
-- two attempts. A preemption before the first store of an attempt is `early`; one between the two
-- stores of a push, of the pointer and of the count, is `late`; one after the store of the count,
-- the commit, and before `rseq_cs` is cleared, is `committed`: the section has not ended, so the
-- thread goes back although its push or pop is done. An empty list of attempts leaves the thread in
-- its loop, `none`.
pub mod Outcome
pub mod Progress
use allocator.Prelude.{
  ℕ, ◌+◌, ◌%◌, ◌^◌, Bool, true, false, Option, none, some, List, [], ◌∷◌, ltb, leb, ◌==◌,
  if◌then◌else◌, Ptr, null, update,
}
use allocator.Config.{add32, sub32, size_class_offset, size_class_capacity}
use allocator.Slabs.{Slab}

-- The slab of each CPU.
abbrev pub SlabArray : Type 0
SlabArray = ℕ → Slab

pub data Interrupt : Type 0 where
  calm early late committed : Interrupt

-- What the thread meets: the two CPU ids that it reads, the preemption, and what other threads do
-- before the next attempt.
pub record Attempt : Type 0 where
  pub cpu_id_start : ℕ
  pub cpu_id : ℕ
  pub interrupt : Interrupt
  pub others : SlabArray → SlabArray

pub record RseqSlabPopResult : Type 0 where
  pub ptr : Ptr
  pub used_fastpath : Bool

pub record RseqSlabPushResult : Type 0 where
  pub ok : Bool
  pub used_fastpath : Bool

abbrev pub is_early : Interrupt → Bool
is_early early = true
is_early _ = false

abbrev pub is_late : Interrupt → Bool
is_late late = true
is_late _ = false

abbrev pub is_committed : Interrupt → Bool
is_committed committed = true
is_committed _ = false

abbrev pub pop_result : Ptr → Bool → RseqSlabPopResult
pop_result p fast = record { ptr = p; used_fastpath = fast }

abbrev pub push_result : Bool → Bool → RseqSlabPushResult
push_result ok fast = record { ok = ok; used_fastpath = fast }

module _ (slab_count sc_idx : ℕ) where
  -- A pop stores once, at the commit.
  unfoldable pub rseq_slab_pop : SlabArray → List Attempt → Option (RseqSlabPopResult × SlabArray)
  rseq_slab_pop slabs [] = none
  rseq_slab_pop slabs (a ∷ rest) =
      let restart = rseq_slab_pop (a.others slabs) rest in
      let slab = slabs a.cpu_id_start in
      let cur = slab.currents sc_idx in
      let idx = add32 (size_class_offset sc_idx) (sub32 cur 1) in
      let slab' = record slab { currents = update slab.currents sc_idx (sub32 cur 1 % 2 ^ 16) } in
      let restart_popped = rseq_slab_pop (a.others (update slabs a.cpu_id_start slab')) rest in
      if is_early a.interrupt
      then restart
      else if leb slab_count a.cpu_id_start
      then some (pop_result null false, slabs)
      else if a.cpu_id == a.cpu_id_start
      then (if cur == 0
          then some (pop_result null true, slabs)
          else if is_late a.interrupt
          then restart
          else if is_committed a.interrupt
          then restart_popped
          else some (pop_result (slab.pointers idx) true, update slabs a.cpu_id_start slab'))
      else restart

  unfoldable pub rseq_slab_push :
      (ptr : Ptr) → SlabArray → List Attempt → Option (RseqSlabPushResult × SlabArray)
  rseq_slab_push ptr slabs [] = none
  rseq_slab_push ptr slabs (a ∷ rest) =
      let slab = slabs a.cpu_id_start in
      let cur = slab.currents sc_idx in
      let idx = add32 (size_class_offset sc_idx) cur in
      let stored = record slab { pointers = update slab.pointers idx ptr } in
      let slab' = record stored { currents = update slab.currents sc_idx (add32 cur 1 % 2 ^ 16) } in
      let restart = rseq_slab_push ptr (a.others slabs) rest in
      let restart_stored =
        rseq_slab_push ptr (a.others (update slabs a.cpu_id_start stored)) rest in
      let restart_pushed = rseq_slab_push ptr (a.others (update slabs a.cpu_id_start slab')) rest in
      if is_early a.interrupt
      then restart
      else if leb slab_count a.cpu_id_start
      then some (push_result false false, slabs)
      else if a.cpu_id == a.cpu_id_start
      then (if leb (size_class_capacity sc_idx) cur
          then some (push_result false true, slabs)
          else if is_late a.interrupt
          then restart_stored
          else if is_committed a.interrupt
          then restart_pushed
          else some (push_result true true, update slabs a.cpu_id_start slab'))
      else restart
