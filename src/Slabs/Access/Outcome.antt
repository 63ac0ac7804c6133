-- ===== src/Slabs/Access/Outcome.antt =====
-- A call of `slab_push` or `slab_pop` that returns has done one push or pop on one slab within the
-- mapping, or nothing.
use allocator.Prelude.{
  ℕ, ◌<◌, ◌≡◌, refl, ◌⊎◌, inl, inr, Bool, false, Option, none, some, List, leb, Ptr, null, update,
  arith, Bool-cases, if_ind, leb→lt, ap,
}
use mathlib.Core.Path.{subst}
use allocator.Slabs.{fallback_allocate, fallback_deallocate}
use allocator.Slabs.Rseq.{SlabArray, Attempt, RseqSlabPopResult, RseqSlabPushResult}
use allocator.Slabs.Rseq.Outcome.{
  AllValid, KeepValid, NoneCommitted, here, Returned, Pushed, Popped,
}
use allocator.Slabs.Rseq.Outcome.Push.{rseq_slab_push-Returned}
use allocator.Slabs.Rseq.Outcome.Pop.{rseq_slab_pop-Returned}
use allocator.Slabs.Rseq.Progress.{HasCalm, IsDone, rseq_slab_push-IsDone, rseq_slab_pop-IsDone}
use allocator.Slabs.Access.{
  Thread, current_cpu_id, pop_fallback, push_fallback, finish_pop, finish_push, slab_pop, slab_push,
}

-- A run that returns, with what `Returned` says of it.
abbrev pub Done :
    {R : Type 0}
    → (R → SlabArray → SlabArray → Type 0)
    → SlabArray
    → List Attempt
    → Option (R × SlabArray)
    → Type 0
Done {R} Did slabs tries o =
    (r : R) × (slabs' : SlabArray) × (o ≡ some (r, slabs'))
    × Returned Did slabs tries (some (r, slabs'))

Done-lem :
    {R : Type 0} (Did : R → SlabArray → SlabArray → Type 0) (slabs : SlabArray)
    (tries : List Attempt) (o : Option (R × SlabArray))
    → Returned Did slabs tries o
    → IsDone o
    → Done Did slabs tries o
Done-lem Did slabs tries none r d = absurd (d refl)
Done-lem Did slabs tries (some (r, slabs')) h d = (r, slabs', refl, h)

module _ (slab_count i : ℕ) where
  abbrev pub DidPush : Ptr → Bool → SlabArray → SlabArray → Type 0
  DidPush p ok slabs slabs' =
      ((ok ≡ false) × (slabs' ≡ slabs))
      ⊎ ((c : ℕ) × (c < slab_count)
          × (ok ≡ (fallback_deallocate (slabs c) p i).0)
          × (slabs' ≡ update slabs c (fallback_deallocate (slabs c) p i).1))

  abbrev pub DidPop : Ptr → SlabArray → SlabArray → Type 0
  DidPop p slabs slabs' =
      ((p ≡ null) × (slabs' ≡ slabs))
      ⊎ ((c : ℕ) × (c < slab_count)
          × (p ≡ (fallback_allocate (slabs c) i).0)
          × (slabs' ≡ update slabs c (fallback_allocate (slabs c) i).1))

  module _ (lt : i < 48) (t : Thread) where
    push_fallback-DidPush :
        (p : Ptr) (slabs : SlabArray)
        → DidPush p
            (push_fallback slab_count i t p slabs).0
            slabs
            (push_fallback slab_count i t p slabs).1
    unfolding push_fallback
    push_fallback-DidPush p slabs = elim (Bool-cases (leb slab_count (current_cpu_id t))) [
      | inl out ↦ rw out (inl (refl, refl))
      | inr in_range ↦ rw in_range (inr (current_cpu_id t, leb→lt _ _ in_range, refl, refl))
    ]

    pop_fallback-DidPop :
        (slabs : SlabArray)
        → DidPop (pop_fallback slab_count i t slabs).0 slabs (pop_fallback slab_count i t slabs).1
    unfolding pop_fallback
    pop_fallback-DidPop slabs = elim (Bool-cases (leb slab_count (current_cpu_id t))) [
      | inl out ↦ rw out (inl (refl, refl))
      | inr in_range ↦ rw in_range (inr (current_cpu_id t, leb→lt _ _ in_range, refl, refl))
    ]

    finish_push-Returned :
        (p : Ptr) (slabs : SlabArray) (o : Option (RseqSlabPushResult × SlabArray))
        → Returned (Pushed slab_count i lt p) slabs t.tries o
        → Returned (DidPush p) slabs t.tries (finish_push slab_count i t p o)
    unfolding finish_push
    finish_push-Returned p slabs none h = tt
    finish_push-Returned p slabs (some (r, slabs')) h = elim h.3 [
      | inl (e, same) ↦ rw (ap (λ q. q.used_fastpath) e) (
        h.0,
        h.1,
        h.2,
        subst
            (λ s.
              DidPush p (push_fallback slab_count i t p slabs').0 s
                (push_fallback slab_count i t p slabs').1)
            same (push_fallback-DidPush p slabs'),
      )
      | inr (c, k, e, e') ↦
          rw (ap (λ q. q.used_fastpath) e) (h.0, h.1, h.2, inr (c, k, ap (λ q. q.ok) e, e'))
    ]

    finish_pop-Returned :
        (slabs : SlabArray) (o : Option (RseqSlabPopResult × SlabArray))
        → Returned (Popped slab_count i lt) slabs t.tries o
        → Returned DidPop slabs t.tries (finish_pop slab_count i t o)
    unfolding finish_pop
    finish_pop-Returned slabs none h = tt
    finish_pop-Returned slabs (some (r, slabs')) h = elim h.3 [
      | inl (e, same) ↦ rw (ap (λ q. q.used_fastpath) e) (
        h.0,
        h.1,
        h.2,
        subst
            (λ s.
              DidPop (pop_fallback slab_count i t slabs').0 s
                (pop_fallback slab_count i t slabs').1)
            same (pop_fallback-DidPop slabs'),
      )
      | inr (c, k, e, e') ↦
          rw (ap (λ q. q.used_fastpath) e) (h.0, h.1, h.2, inr (c, k, ap (λ q. q.ptr) e, e'))
    ]

    slab_push-Returned :
        (p : Ptr) (slabs : SlabArray)
        → AllValid slabs
        → KeepValid t.tries
        → NoneCommitted t.tries
        → Returned (DidPush p) slabs t.tries (slab_push slab_count i t p slabs)
    unfolding slab_push
    slab_push-Returned p slabs v keep once =
        if_ind (Returned (DidPush p) slabs t.tries) t.rseq_available _ _
          (finish_push-Returned p slabs _
            (rseq_slab_push-Returned slab_count i lt p t.tries slabs v keep once))
          (slabs, here, v, push_fallback-DidPush p slabs)

    slab_pop-Returned :
        (slabs : SlabArray)
        → AllValid slabs
        → KeepValid t.tries
        → NoneCommitted t.tries
        → Returned DidPop slabs t.tries (slab_pop slab_count i t slabs)
    unfolding slab_pop
    slab_pop-Returned slabs v keep once =
        if_ind (Returned DidPop slabs t.tries) t.rseq_available _ _
          (finish_pop-Returned slabs _
            (rseq_slab_pop-Returned slab_count i lt t.tries slabs v keep once))
          (slabs, here, v, pop_fallback-DidPop slabs)

    finish_push-IsDone :
        (p : Ptr) (o : Option (RseqSlabPushResult × SlabArray))
        → IsDone o
        → IsDone (finish_push slab_count i t p o)
    unfolding finish_push
    finish_push-IsDone p none d = absurd (d refl)
    finish_push-IsDone p (some (r, slabs)) d = ground arith

    finish_pop-IsDone :
        (o : Option (RseqSlabPopResult × SlabArray))
        → IsDone o
        → IsDone (finish_pop slab_count i t o)
    unfolding finish_pop
    finish_pop-IsDone none d = absurd (d refl)
    finish_pop-IsDone (some (r, slabs)) d = ground arith

    -- If every slab is valid, the other threads keep the slabs valid, one attempt is left in peace,
    -- and no attempt is preempted between its commit and the end of the section, then `slab_push`
    -- on a class below 48 returns, wherever else it is preempted. In what its last attempt found, it has then pushed once as `fallback_deallocate` does, on the slab of a CPU
    -- below `slab_count`, and reports whether there was room; or it has changed nothing and reports
    -- a failure.
    pub slab_push-Done :
        (p : Ptr) (slabs : SlabArray)
        → AllValid slabs
        → KeepValid t.tries
        → NoneCommitted t.tries
        → HasCalm t.tries
        → Done (DidPush p) slabs t.tries (slab_push slab_count i t p slabs)
    unfolding slab_push
    slab_push-Done p slabs v keep once calm =
        Done-lem (DidPush p) slabs t.tries _ (slab_push-Returned p slabs v keep once) (
          if_ind IsDone t.rseq_available _ _
            (finish_push-IsDone p _ (rseq_slab_push-IsDone slab_count i p t.tries slabs calm))
            (ground arith))

    -- If every slab is valid, the other threads keep the slabs valid, one attempt is left in peace,
    -- and no attempt is preempted between its commit and the end of the section, then `slab_pop` on
    -- a class below 48 returns, wherever else it is preempted. In what its last attempt found, it has then popped once as `fallback_allocate` does, on the slab of a CPU
    -- below `slab_count`; or it has changed nothing and returns `nullptr`.
    pub slab_pop-Done :
        (slabs : SlabArray)
        → AllValid slabs
        → KeepValid t.tries
        → NoneCommitted t.tries
        → HasCalm t.tries
        → Done DidPop slabs t.tries (slab_pop slab_count i t slabs)
    unfolding slab_pop
    slab_pop-Done slabs v keep once calm =
        Done-lem DidPop slabs t.tries _ (slab_pop-Returned slabs v keep once) (
          if_ind IsDone t.rseq_available _ _
            (finish_pop-IsDone _ (rseq_slab_pop-IsDone slab_count i t.tries slabs calm))
            (ground arith))
