-- ===== src/Slabs/Rseq/Progress.antt =====
-- A restartable sequence returns at the latest in the first attempt that nothing disturbs.
use allocator.Prelude.{
  ℕ, ◌%◌, ◌^◌, ◌≡◌, ◌⊎◌, inl, inr, Option, none, List, [], ◌∷◌, Ptr, arith, ◌≢◌, update,
}
use allocator.Config.{add32, sub32, size_class_offset}
use allocator.Slabs.Rseq.{SlabArray, Attempt, calm, rseq_slab_pop, rseq_slab_push}

-- Some attempt runs to its end on the CPU it began on.
abbrev pub HasCalm : List Attempt → Type 0
HasCalm [] = ⊥
HasCalm (a ∷ tries) = ((a.interrupt ≡ calm) × (a.cpu_id ≡ a.cpu_id_start)) ⊎ HasCalm tries

abbrev pub IsDone : {A : Type 0} → Option A → Type 0
IsDone o = o ≢ none

module _ (slab_count i : ℕ) where
  -- `rseq_slab_push` returns if some attempt is not preempted and stays on its CPU.
  pub rseq_slab_push-IsDone :
      (p : Ptr) (tries : List Attempt) (slabs : SlabArray)
      → HasCalm tries
      → IsDone (rseq_slab_push slab_count i p slabs tries)
  unfolding rseq_slab_push
  rseq_slab_push-IsDone p [] slabs h = elim h [ ]
  rseq_slab_push-IsDone p (a ∷ tries) slabs (inl h) = ground arith
  rseq_slab_push-IsDone p (a ∷ tries) slabs (inr h) =
      let again = λ (s : SlabArray). rseq_slab_push-IsDone p tries s h in
      let slab = slabs a.cpu_id_start in
      let cur = slab.currents i in
      ground (
        arith,
        again (a.others slabs),
        again (
            a.others (
              update slabs a.cpu_id_start (record slab {
                currents = update slab.currents i (add32 cur 1 % 2 ^ 16);
                pointers = update slab.pointers (add32 (size_class_offset i) cur) p;
              }))),
        again (
            a.others (
              update slabs a.cpu_id_start (record (slabs a.cpu_id_start) {
                pointers =
                    update (slabs a.cpu_id_start).pointers
                      (add32 (size_class_offset i) ((slabs a.cpu_id_start).currents i)) p;
              }))),
      )

  -- `rseq_slab_pop` returns if some attempt is not preempted and stays on its CPU.
  pub rseq_slab_pop-IsDone :
      (tries : List Attempt) (slabs : SlabArray)
      → HasCalm tries
      → IsDone (rseq_slab_pop slab_count i slabs tries)
  unfolding rseq_slab_pop
  rseq_slab_pop-IsDone [] slabs h = elim h [ ]
  rseq_slab_pop-IsDone (a ∷ tries) slabs (inl h) = ground arith
  rseq_slab_pop-IsDone (a ∷ tries) slabs (inr h) =
      let again = λ (s : SlabArray). rseq_slab_pop-IsDone tries s h in
      let slab = slabs a.cpu_id_start in
      ground (
        arith,
        again (a.others slabs),
        again (
            a.others (
              update slabs a.cpu_id_start (record slab {
                currents = update slab.currents i (sub32 (slab.currents i) 1 % 2 ^ 16);
              }))),
      )
