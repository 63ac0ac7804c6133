-- ===== src/Slabs/Access/Alone.antt =====
-- A thread that nothing disturbs: its calls of `slab_push` and `slab_pop` are those of the fallback
-- code on the slab of its CPU, with restartable sequences or without.
use allocator.Prelude.{
  ℕ, ◌<◌, ◌≡◌, refl, ap, ◌∙◌, inl, inr, true, false, some, List, ◌∷◌, leb, ◌==◌, if◌then◌else◌, Ptr,
  null, update, arith, Bool-cases, leb→le, leb→lt,
}
use allocator.Config.{size_class_capacity}
use allocator.Slabs.{fallback_allocate, fallback_deallocate}
use allocator.Slabs.Rseq.{SlabArray, Attempt, calm, rseq_slab_pop, rseq_slab_push}
use allocator.Slabs.Rseq.Outcome.{AllValid, update_same}
use allocator.Slabs.Rseq.Outcome.Push.{push-commit, push-full}
use allocator.Slabs.Rseq.Outcome.Pop.{pop-commit, pop-empty}
use allocator.Slabs.Access.{
  Thread, current_cpu_id, pop_fallback, push_fallback, finish_pop, finish_push, slab_pop, slab_push,
}

-- In the call the thread stays on the CPU `c`, and its first attempt is left in peace.
pub data Alone (c : ℕ) (t : Thread) : Type 0 where
  fast :
      (a : Attempt) (rest : List Attempt)
      → t.rseq_available ≡ true
      → t.tries ≡ a ∷ rest
      → a.cpu_id_start ≡ c
      → a.cpu_id ≡ c
      → a.interrupt ≡ calm
      → Alone c t
  slow : t.rseq_available ≡ false → current_cpu_id t ≡ c → Alone c t

module _ (slab_count i : ℕ) (lt : i < 48) (c : ℕ) (t : Thread) (slabs : SlabArray)
    (v : AllValid slabs) (in_range : c < slab_count) where
  -- The fallback code, at the CPU that it reads.
  push_fallback-at :
      (p : Ptr)
      → current_cpu_id t ≡ c
      → push_fallback slab_count i t p slabs ≡ (
        (fallback_deallocate (slabs c) p i).0,
        update slabs c (fallback_deallocate (slabs c) p i).1,
      )
  unfolding push_fallback
  push_fallback-at p on_cpu =
      let below : leb slab_count c ≡ false = ground arith in
      ap
        (λ k. if leb slab_count k then (false, slabs) else (
          (fallback_deallocate (slabs k) p i).0,
          update slabs k (fallback_deallocate (slabs k) p i).1,
        ))
        on_cpu
      ∙ rw below refl

  pop_fallback-at :
      current_cpu_id t ≡ c
      → pop_fallback slab_count i t slabs
        ≡ ((fallback_allocate (slabs c) i).0, update slabs c (fallback_allocate (slabs c) i).1)
  unfolding pop_fallback
  pop_fallback-at on_cpu =
      let below : leb slab_count c ≡ false = ground arith in
      ap
        (λ k. if leb slab_count k then (null, slabs) else (
          (fallback_allocate (slabs k) i).0,
          update slabs k (fallback_allocate (slabs k) i).1,
        ))
        on_cpu
      ∙ rw below refl

  pub slab_push-Alone :
      (p : Ptr)
      → Alone c t
      → slab_push slab_count i t p slabs
        ≡ some (
          (fallback_deallocate (slabs c) p i).0,
          update slabs c (fallback_deallocate (slabs c) p i).1,
        )
  unfolding slab_push finish_push push_fallback rseq_slab_push
  slab_push-Alone p (slow off on_cpu) =
      ap
        (λ b.
          if b
          then finish_push slab_count i t p (rseq_slab_push slab_count i p slabs t.tries)
          else some (push_fallback slab_count i t p slabs))
        off
      ∙ ap some (push_fallback-at p on_cpu)
  slab_push-Alone p (fast a rest on tries start same quiet) =
      let below : leb slab_count c ≡ false = ground arith in
      let on_cpu : (c == c) ≡ true = ground arith in
      elim (Bool-cases (leb (size_class_capacity i) ((slabs c).currents i))) [
        | inl full ↦
            rw
              (
                on,
                tries,
                quiet,
                start,
                same,
                below,
                on_cpu,
                full,
                push-full slab_count i lt p slabs c (leb→le _ _ full),
                update_same slabs c,
              )
              refl
        | inr open_slab ↦
            rw
              (
                on,
                tries,
                quiet,
                start,
                same,
                below,
                on_cpu,
                open_slab,
                push-commit slab_count i lt p slabs c v (leb→lt _ _ open_slab),
              )
              refl
      ]

  pub slab_pop-Alone :
      Alone c t
      → slab_pop slab_count i t slabs
        ≡ some ((fallback_allocate (slabs c) i).0, update slabs c (fallback_allocate (slabs c) i).1)
  unfolding slab_pop finish_pop pop_fallback rseq_slab_pop
  slab_pop-Alone (slow off on_cpu) =
      ap
        (λ b.
          if b
          then finish_pop slab_count i t (rseq_slab_pop slab_count i slabs t.tries)
          else some (pop_fallback slab_count i t slabs))
        off
      ∙ ap some (pop_fallback-at on_cpu)
  slab_pop-Alone (fast a rest on tries start same quiet) =
      let below : leb slab_count c ≡ false = ground arith in
      let on_cpu : (c == c) ≡ true = ground arith in
      elim (Bool-cases ((slabs c).currents i == 0)) [
        | inl empty ↦
            rw
              (
                on,
                tries,
                quiet,
                start,
                same,
                below,
                on_cpu,
                empty,
                pop-empty slab_count i lt slabs c empty,
                update_same slabs c,
              )
              refl
        | inr some_left ↦
            rw
              (
                on,
                tries,
                quiet,
                start,
                same,
                below,
                on_cpu,
                some_left,
                pop-commit slab_count i lt slabs c some_left,
              )
              refl
      ]
