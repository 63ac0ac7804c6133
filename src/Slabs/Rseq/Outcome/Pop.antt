-- ===== src/Slabs/Rseq/Outcome/Pop.antt =====
-- A run of `rseq_slab_pop` that returns.
use allocator.Prelude.{
  ℕ, ◌%◌, ◌^◌, ◌<◌, ◌≡◌, refl, sym, inl, inr, true, false, List, [], ◌∷◌, leb, ◌==◌, null, update,
  arith, Bool-cases, leb→lt,
}
use allocator.Config.{add32, sub32, size_class_offset}
use allocator.Slabs.{fallback_allocate}
use allocator.Slabs.Rseq.{SlabArray, Attempt, is_early, is_late, rseq_slab_pop}
use allocator.Slabs.Rseq.Outcome.{
  AllValid, SameStacks, here, KeepValid, NoneCommitted, update_same, Returned, Returned-after,
  Popped,
}

module _ (slab_count i : ℕ) (lt : i < 48) where
  pub pop-commit :
      (slabs : SlabArray) (c : ℕ)
      → ((slabs c).currents i == 0) ≡ false
      → fallback_allocate (slabs c) i ≡ (
        (slabs c).pointers (add32 (size_class_offset i) (sub32 ((slabs c).currents i) 1)),
        record (slabs c) {
          currents = update (slabs c).currents i (sub32 ((slabs c).currents i) 1 % 2 ^ 16);
        },
      )
  unfolding fallback_allocate
  pop-commit slabs c f = ground arith

  pub pop-empty :
      (slabs : SlabArray) (c : ℕ)
      → ((slabs c).currents i == 0) ≡ true
      → fallback_allocate (slabs c) i ≡ (null, slabs c)
  unfolding fallback_allocate
  pop-empty slabs c t = ground arith

  -- If every slab is valid and the other threads keep the slabs valid, and no attempt is
  -- preempted between its commit and the end of the section, a run of `rseq_slab_pop` on
  -- a class below 48 that returns has left what its last attempt found unchanged and asks for the
  -- slow path, or has popped once on the slab of a CPU below `slab_count`, with the result of
  -- `fallback_allocate`. The attempts before changed no stack.
  pub rseq_slab_pop-Returned :
      (tries : List Attempt) (slabs : SlabArray)
      → AllValid slabs
      → KeepValid tries
      → NoneCommitted tries
      → Returned (Popped slab_count i lt) slabs tries (rseq_slab_pop slab_count i slabs tries)
  unfolding rseq_slab_pop
  rseq_slab_pop-Returned [] slabs v keep once = tt
  rseq_slab_pop-Returned (a ∷ tries) slabs v keep once =
      let same : SameStacks slabs slabs = λ c j k. refl in
      let c = a.cpu_id_start in
      let again : Returned (Popped slab_count i lt) slabs (a ∷ tries)
          (rseq_slab_pop slab_count i (a.others slabs) tries) =
        Returned-after (Popped slab_count i lt) slabs slabs a tries _ same
          (rseq_slab_pop-Returned tries (a.others slabs) (keep.0 slabs v) keep.1 once.1) in
      elim (Bool-cases (is_early a.interrupt)) [
        | inl t ↦ rw t again
        | inr not_early ↦ elim (Bool-cases (leb slab_count c)) [
          | inl t ↦ rw (not_early, t) (slabs, here, v, inl (refl, refl))
          | inr in_range ↦ elim (Bool-cases (a.cpu_id == c)) [
            | inr f ↦ rw (not_early, in_range, f) again
            | inl on_cpu ↦ elim (Bool-cases ((slabs c).currents i == 0)) [
              | inl t ↦
                  let e = pop-empty slabs c t in
                  rw (not_early, in_range, on_cpu, t)
                    (
                      slabs,
                      here,
                      v,
                      inr (c, leb→lt _ _ in_range, rw e, rw e (sym (update_same slabs c))),
                    )
              | inr f ↦ elim (Bool-cases (is_late a.interrupt)) [
                | inl t ↦ rw (not_early, in_range, on_cpu, f, t) again
                | inr calm ↦
                    let e = pop-commit slabs c f in
                    rw (not_early, in_range, on_cpu, f, calm, once.0)
                      (slabs, here, v, inr (c, leb→lt _ _ in_range, rw e, rw e))
              ]
            ]
          ]
        ]
      ]
