-- ===== src/Slabs/Access/Committed.antt =====
-- A thread that is preempted after the commit of a push or a pop, and before `rseq_cs` is cleared: it
-- begins the section again, and does its push or pop a second time.
use allocator.Prelude.{
  ℕ, ◌+◌, ◌≤◌, ◌<◌, ◌≡◌, refl, sym, ap, ◌∙◌, true, false, Option, none, some, List, ◌∷◌, leb, ◌==◌,
  if◌then◌else◌, Ptr, update, update_self, length, arith, Bool-cases, inl, inr, lt→ltb,
}
use allocator.Config.{size_class_offset, size_class_capacity}
use allocator.Slabs.{Slab, fallback_allocate, fallback_deallocate}
use allocator.Slabs.Spec
use allocator.Slabs.Stack.{stack, IsValid, length-cells}
use allocator.Slabs.Fallback.{fallback_allocate_refines, fallback_deallocate_refines}
use allocator.Slabs.Rseq.{
  SlabArray, Attempt, committed, RseqSlabPushResult, RseqSlabPopResult, rseq_slab_pop,
  rseq_slab_push,
}
use allocator.Slabs.Rseq.Outcome.{AllValid}
use allocator.Slabs.Rseq.Outcome.Push.{push-commit}
use allocator.Slabs.Rseq.Outcome.Pop.{pop-commit}
use allocator.Slabs.Access.{
  Thread, current_cpu_id, fallback_get_cpu, pop_fallback, push_fallback, finish_pop, finish_push,
  slab_pop, slab_push,
}
use allocator.Slabs.Access.Alone.{Alone, slab_push-Alone, slab_pop-Alone}

-- On the CPU `c`, the first attempt is preempted after its commit, and no other thread runs there
-- before the second, which is left in peace.
pub record Interrupted (c : ℕ) (t : Thread) : Type 0 where
  pub first : Attempt
  pub rest : List Attempt
  pub fast_path : t.rseq_available ≡ true
  pub tries : t.tries ≡ first ∷ rest
  pub start : first.cpu_id_start ≡ c
  pub same : first.cpu_id ≡ c
  pub after_commit : first.interrupt ≡ committed
  pub undisturbed : (slabs : SlabArray) → first.others slabs ≡ slabs
  pub then_alone : Alone c (record t { tries = rest })

module _ (slab_count i : ℕ) (t : Thread) (on : t.rseq_available ≡ true) where
  slab_push-fast :
      (p : Ptr) (slabs : SlabArray)
      → slab_push slab_count i t p slabs
        ≡ finish_push slab_count i t p (rseq_slab_push slab_count i p slabs t.tries)
  unfolding slab_push
  slab_push-fast p slabs =
      ap
        (λ b.
          if b
          then finish_push slab_count i t p (rseq_slab_push slab_count i p slabs t.tries)
          else some (push_fallback slab_count i t p slabs))
        on

  slab_pop-fast :
      (slabs : SlabArray)
      → slab_pop slab_count i t slabs
        ≡ finish_pop slab_count i t (rseq_slab_pop slab_count i slabs t.tries)
  unfolding slab_pop
  slab_pop-fast slabs =
      ap
        (λ b.
          if b
          then finish_pop slab_count i t (rseq_slab_pop slab_count i slabs t.tries)
          else some (pop_fallback slab_count i t slabs))
        on

module _ (slab_count i : ℕ) (lt : i < 48) (c : ℕ) (t : Thread) (slabs : SlabArray)
    (v : AllValid slabs) (in_range : c < slab_count) (q : Interrupted c t) where
  abbrev again : Thread
  again = record t { tries = q.rest }

  finish_push-again :
      (p : Ptr) (o : Option (RseqSlabPushResult × SlabArray))
      → finish_push slab_count i t p o ≡ finish_push slab_count i again p o
  unfolding finish_push push_fallback current_cpu_id fallback_get_cpu
  finish_push-again p none = refl
  finish_push-again p (some (r, s)) = refl

  rseq_slab_push-again :
      (p : Ptr)
      → (slabs c).currents i < size_class_capacity i
      → rseq_slab_push slab_count i p slabs (q.first ∷ q.rest)
        ≡ rseq_slab_push slab_count i p
            (update slabs c (fallback_deallocate (slabs c) p i).1)
            q.rest
  unfolding rseq_slab_push
  rseq_slab_push-again p room =
      let below : leb slab_count c ≡ false = ground arith in
      let on_cpu : (c == c) ≡ true = ground arith in
      let open_slab : leb (size_class_capacity i) ((slabs c).currents i) ≡ false = ground arith in
      rw
        (
          q.after_commit,
          q.start,
          q.same,
          below,
          on_cpu,
          open_slab,
          push-commit slab_count i lt p slabs c v room,
          q.undisturbed _,
        )
        refl

  slab_push-again :
      (p : Ptr)
      → (slabs c).currents i < size_class_capacity i
      → slab_push slab_count i t p slabs
        ≡ slab_push slab_count i again p (update slabs c (fallback_deallocate (slabs c) p i).1)
  slab_push-again p room =
      let once = update slabs c (fallback_deallocate (slabs c) p i).1 in
      slab_push-fast slab_count i t q.fast_path p slabs
      ∙ ap (λ l. finish_push slab_count i t p (rseq_slab_push slab_count i p slabs l)) q.tries
      ∙ ap (finish_push slab_count i t p) (rseq_slab_push-again p room)
      ∙ finish_push-again p (rseq_slab_push slab_count i p once q.rest)
      ∙ sym (slab_push-fast slab_count i again q.fast_path p once)

  finish_pop-again :
      (o : Option (RseqSlabPopResult × SlabArray))
      → finish_pop slab_count i t o ≡ finish_pop slab_count i again o
  unfolding finish_pop pop_fallback current_cpu_id fallback_get_cpu
  finish_pop-again none = refl
  finish_pop-again (some (r, s)) = refl

  rseq_slab_pop-again :
      ((slabs c).currents i == 0) ≡ false
      → rseq_slab_pop slab_count i slabs (q.first ∷ q.rest)
        ≡ rseq_slab_pop slab_count i (update slabs c (fallback_allocate (slabs c) i).1) q.rest
  unfolding rseq_slab_pop
  rseq_slab_pop-again some_left =
      let below : leb slab_count c ≡ false = ground arith in
      let on_cpu : (c == c) ≡ true = ground arith in
      rw
        (
          q.after_commit,
          q.start,
          q.same,
          below,
          on_cpu,
          some_left,
          pop-commit slab_count i lt slabs c some_left,
          q.undisturbed _,
        )
        refl

  slab_pop-again :
      ((slabs c).currents i == 0) ≡ false
      → slab_pop slab_count i t slabs
        ≡ slab_pop slab_count i again (update slabs c (fallback_allocate (slabs c) i).1)
  slab_pop-again some_left =
      let once = update slabs c (fallback_allocate (slabs c) i).1 in
      slab_pop-fast slab_count i t q.fast_path slabs
      ∙ ap (λ l. finish_pop slab_count i t (rseq_slab_pop slab_count i slabs l)) q.tries
      ∙ ap (finish_pop slab_count i t) (rseq_slab_pop-again some_left)
      ∙ finish_pop-again (rseq_slab_pop slab_count i once q.rest)
      ∙ sym (slab_pop-fast slab_count i again q.fast_path once)

  still_valid : (s : Slab) → IsValid s → AllValid (update slabs c s)
  still_valid s w d j k = elim (Bool-cases (c == d)) [
    | inl e ↦ rw e (w j k)
    | inr e ↦ rw e (v d j k)
  ]

  -- A thread with the fast path on, on a CPU in range, whose slab has room for two objects more, and
  -- all slabs well-formed: if it is preempted between the commit of its push and the clearing of
  -- `rseq_cs`, and nothing else disturbs it, then `slab_push` returns true and has pushed the one
  -- object twice.
  pub slab_push-twice :
      (p : Ptr)
      → length (stack (slabs c) i) + 2 ≤ size_class_capacity i
      → (slabs' : SlabArray) × (slab_push slab_count i t p slabs ≡ some (true, slabs'))
        × (stack (slabs' c) i ≡ p ∷ p ∷ stack (slabs c) i)
  unfolding Spec.push
  slab_push-twice p room =
      let xs = stack (slabs c) i in
      let first = fallback_deallocate (slabs c) p i in
      let once = update slabs c first.1 in
      let second = fallback_deallocate (once c) p i in
      let r = fallback_deallocate_refines (slabs c) i (v c) lt p in
      let one : stack first.1 i ≡ p ∷ xs =
        ap (λ z. z.1) r.0 ∙ rw (lt→ltb (length xs) (size_class_capacity i) (omega arith)) refl in
      let here : once c ≡ first.1 = update_self slabs c first.1 in
      let valid = still_valid first.1 r.1.valid in
      let r' = fallback_deallocate_refines (once c) i (valid c) lt p in
      let before : stack (once c) i ≡ p ∷ xs = ap (λ s. stack s i) here ∙ one in
      let both : (second.0, stack second.1 i) ≡ (true, p ∷ p ∷ xs) =
        r'.0
        ∙ ap (λ z. Spec.push (size_class_capacity i) p z) before
        ∙ rw (lt→ltb (length (p ∷ xs)) (size_class_capacity i) (omega arith)) refl in
      (
        update once c second.1,
        slab_push-again p (omega (arith, length-cells (slabs c).pointers _ ((slabs c).currents i)))
            ∙ slab_push-Alone slab_count i lt c again once valid in_range p q.then_alone
            ∙ ap (λ b. some (b, update once c second.1)) (ap (λ z. z.0) both),
        ap (λ s. stack s i) (update_self once c second.1) ∙ ap (λ z. z.1) both,
      )

  -- A thread with the fast path on, on a CPU in range, whose slab holds two objects or more, and all
  -- slabs well-formed: if it is preempted between the commit of its pop and the clearing of `rseq_cs`,
  -- and nothing else disturbs it, then `slab_pop` returns the second object, and leaves those below
  -- it in the slab: the first is lost.
  slab_pop-lost :
      (x y : Ptr) (xs : List Ptr)
      → stack (slabs c) i ≡ x ∷ y ∷ xs
      → (slabs' : SlabArray) × (slab_pop slab_count i t slabs ≡ some (y, slabs'))
        × (stack (slabs' c) i ≡ xs)
  unfolding Spec.pop
  slab_pop-lost x y xs held =
      let first = fallback_allocate (slabs c) i in
      let once = update slabs c first.1 in
      let second = fallback_allocate (once c) i in
      let r = fallback_allocate_refines (slabs c) i (v c) lt in
      let one : stack first.1 i ≡ y ∷ xs = ap (λ z. z.1) (r.0 ∙ ap Spec.pop held) in
      let here : once c ≡ first.1 = update_self slabs c first.1 in
      let valid = still_valid first.1 r.1.valid in
      let r' = fallback_allocate_refines (once c) i (valid c) lt in
      let both : (second.0, stack second.1 i) ≡ (y, xs) =
        r'.0 ∙ ap Spec.pop (ap (λ s. stack s i) here ∙ one) in
      let count : (slabs c).currents i ≡ length (x ∷ y ∷ xs) =
        sym (length-cells (slabs c).pointers (size_class_offset i) ((slabs c).currents i))
        ∙ ap length held in
      (
        update once c second.1,
        slab_pop-again (ground (arith, count))
            ∙ slab_pop-Alone slab_count i lt c again once valid in_range q.then_alone
            ∙ ap (λ b. some (b, update once c second.1)) (ap (λ z. z.0) both),
        ap (λ s. stack s i) (update_self once c second.1) ∙ ap (λ z. z.1) both,
      )
