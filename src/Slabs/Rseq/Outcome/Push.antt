-- ===== src/Slabs/Rseq/Outcome/Push.antt =====
-- A run of `rseq_slab_push` that returns.
use allocator.Prelude.{
  ℕ, ◌+◌, ◌%◌, ◌^◌, ◌≤◌, ◌<◌, ◌≡◌, refl, sym, ap, ◌∙◌, inl, inr, true, false, List, [], ◌∷◌, leb,
  ◌==◌, Ptr, update, arith, Bool-cases, leb→le, leb→lt, ==→eq,
}
use native.Mathlib.Decide.{ℕ_discrete}
use allocator.Config.{add32, size_class_offset, size_class_capacity}
use allocator.Config.Offsets.{size_class_capacity_bound}
use allocator.Slabs.{fallback_deallocate}
use allocator.Slabs.Stack.{cells, stack, cells-update, slice_bounds, slice_total}
use allocator.Slabs.Rseq.{SlabArray, Attempt, is_early, is_late, rseq_slab_push}
use allocator.Slabs.Rseq.Outcome.{
  AllValid, SameStacks, here, KeepValid, NoneCommitted, update_same, Returned, Returned-after,
  Pushed,
}

module _ (slab_count i : ℕ) (lt : i < 48) where
  -- The slabs after the first store of a push.
  abbrev stored_slabs : Ptr → SlabArray → ℕ → SlabArray
  stored_slabs p slabs c =
      let slab = slabs c in
      update slabs c (record slab {
        pointers = update slab.pointers (add32 (size_class_offset i) (slab.currents i)) p;
      })

  stored-AllValid :
      (p : Ptr) (slabs : SlabArray) (c : ℕ) → AllValid slabs → AllValid (stored_slabs p slabs c)
  stored-AllValid p slabs c v d j k = elim (Bool-cases (c == d)) [
    | inl t ↦ rw t (v c j k)
    | inr f ↦ rw f (v d j k)
  ]

  -- The store of the pointer alone lies above the top of the stack.
  stored-SameStacks :
      (p : Ptr) (slabs : SlabArray) (c : ℕ)
      → AllValid slabs
      → (slabs c).currents i < size_class_capacity i
      → SameStacks slabs (stored_slabs p slabs c)
  stored-SameStacks p slabs c v room d j k = elim (Bool-cases (c == d)) [
    | inr f ↦ rw f
    | inl t ↦ let e : c ≡ d = ==→eq c d t in rw t (outside j k ∙ ap (λ b. stack (slabs b) j) e)
  ]
    where
      at :
          add32 (size_class_offset i) ((slabs c).currents i)
          ≡ size_class_offset i + (slabs c).currents i
      at = omega (arith, slice_total i lt)

      outside :
          (j : ℕ)
          → j < 48
          → cells
              (update (slabs c).pointers (add32 (size_class_offset i) ((slabs c).currents i)) p)
              (size_class_offset j)
              ((slabs c).currents j)
            ≡ stack (slabs c) j
      outside j k = rw at (
          cells-update (slabs c).pointers (size_class_offset j) ((slabs c).currents j)
            (size_class_offset i + (slabs c).currents i) p
            (elim (ℕ_discrete i j) [
              | yes same ↦ inr (rw same (omega arith))
              | no ne ↦ ground (arith, slice_bounds i j lt k ne, v c j k, v c i lt)
            ]))

  pub push-commit :
      (p : Ptr) (slabs : SlabArray) (c : ℕ)
      → AllValid slabs
      → ((slabs c).currents i < size_class_capacity i)
      → fallback_deallocate (slabs c) p i ≡ (
        true,
        record {
          currents = update (slabs c).currents i (add32 ((slabs c).currents i) 1 % 2 ^ 16);
          pointers =
              update (slabs c).pointers (add32 (size_class_offset i) ((slabs c).currents i)) p;
        },
      )
  unfolding fallback_deallocate
  push-commit p slabs c v room = ground (arith, size_class_capacity_bound i lt)

  pub push-full :
      (p : Ptr) (slabs : SlabArray) (c : ℕ)
      → size_class_capacity i ≤ (slabs c).currents i
      → fallback_deallocate (slabs c) p i ≡ (false, slabs c)
  unfolding fallback_deallocate
  push-full p slabs c full = ground arith

  -- If every slab is valid and the other threads keep the slabs valid, and no attempt is
  -- preempted between its commit and the end of the section, a run of `rseq_slab_push` on
  -- a class below 48 that returns has left what its last attempt found unchanged and asks for the
  -- slow path, or has pushed once on the slab of a CPU below `slab_count`, with the reply of
  -- `fallback_deallocate`. The attempts before changed no stack.
  pub rseq_slab_push-Returned :
      (p : Ptr) (tries : List Attempt) (slabs : SlabArray)
      → AllValid slabs
      → KeepValid tries
      → NoneCommitted tries
      → Returned (Pushed slab_count i lt p) slabs tries (rseq_slab_push slab_count i p slabs tries)
  unfolding rseq_slab_push
  rseq_slab_push-Returned p [] slabs v keep once = tt
  rseq_slab_push-Returned p (a ∷ tries) slabs v keep once =
      let same : SameStacks slabs slabs = λ c j k. refl in
      let c = a.cpu_id_start in
      let again : Returned (Pushed slab_count i lt p) slabs (a ∷ tries)
          (rseq_slab_push slab_count i p (a.others slabs) tries) =
        Returned-after (Pushed slab_count i lt p) slabs slabs a tries _ same
          (rseq_slab_push-Returned p tries (a.others slabs) (keep.0 slabs v) keep.1 once.1) in
      elim (Bool-cases (is_early a.interrupt)) [
        | inl t ↦ rw t again
        | inr not_early ↦ elim (Bool-cases (leb slab_count c)) [
          | inl t ↦ rw (not_early, t) (slabs, here, v, inl (refl, refl))
          | inr in_range ↦ elim (Bool-cases (a.cpu_id == c)) [
            | inr f ↦ rw (not_early, in_range, f) again
            | inl on_cpu ↦ elim (Bool-cases (leb (size_class_capacity i) ((slabs c).currents i))) [
              | inl t ↦
                  let e = push-full p slabs c (leb→le _ _ t) in
                  rw (not_early, in_range, on_cpu, t)
                    (
                      slabs,
                      here,
                      v,
                      inr (c, leb→lt _ _ in_range, rw e, rw e (sym (update_same slabs c))),
                    )
              | inr f ↦
                  let room = leb→lt _ _ f in
                  let stored = stored_slabs p slabs c in
                  elim (Bool-cases (is_late a.interrupt)) [
                    | inl t ↦
                        rw (not_early, in_range, on_cpu, f, t)
                          (Returned-after (Pushed slab_count i lt p) slabs stored a tries _
                            (stored-SameStacks p slabs c v room)
                            (rseq_slab_push-Returned p tries (a.others stored)
                              (keep.0 stored (stored-AllValid p slabs c v)) keep.1 once.1))
                    | inr calm ↦
                        let e = push-commit p slabs c v room in
                        rw (not_early, in_range, on_cpu, f, calm, once.0)
                          (slabs, here, v, inr (c, leb→lt _ _ in_range, rw e, rw e))
                  ]
            ]
          ]
        ]
      ]
