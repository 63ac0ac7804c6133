-- ===== src/Slabs/Fallback.antt =====
-- `fallback_allocate` and `fallback_deallocate` on a valid slab are pop and push of the class's
-- stack. They leave every other class alone, and stay inside the slice.
use allocator.Prelude.{
  ℕ, suc, ◌+◌, ◌-◌, ◌<◌, ◌≡◌, ◌≢◌, refl, true, false, [], ◌∷◌, arith, ltb, if◌then◌else◌, ap, ap₂,
  sym, Bool-cases, inl, inr, ltb→lt,
}
use allocator.Config.{size_class_offset, size_class_capacity}
use allocator.Config.Offsets.{size_class_capacity_bound}
use allocator.Prelude.{Ptr, null, update}
use allocator.Slabs.{Slab, fallback_allocate, fallback_deallocate}
use allocator.Slabs.Stack.{
  cells, stack, IsValid, length-cells, cells-update, slice_bounds, slice_total,
}
use allocator.Slabs.Spec

-- What a step on class `i` keeps: the invariant, and the stacks of the other classes.
pub record Keeps (slab slab' : Slab) (i : ℕ) : Type 0 where
  pub valid : IsValid slab'
  pub others : (j : ℕ) → j < 48 → j ≢ i → stack slab' j ≡ stack slab j

module _ (slab : Slab) (i : ℕ) (v : IsValid slab) (h : i < 48) where
  -- A push of `p`, when there is room.
  pushed : Ptr → Slab
  pushed p = record {
    currents = update slab.currents i (slab.currents i + 1);
    pointers = update slab.pointers (size_class_offset i + slab.currents i) p;
  }

  fallback_deallocate-eq :
      (p : Ptr)
      → fallback_deallocate slab p i ≡ (
          if ltb (slab.currents i) (size_class_capacity i) then (true, pushed p) else (false, slab))
  unfolding fallback_deallocate pushed
  fallback_deallocate-eq p = ground (arith, slice_total i h, size_class_capacity_bound i h, v i h)

  pushed-Keeps : (p : Ptr) → slab.currents i < size_class_capacity i → Keeps slab (pushed p) i
  unfolding pushed
  pushed-Keeps p room = record {
    valid = λ j k. ground (arith, v j k);
    others = λ j k ne. rw (e j ne) (
        cells-update slab.pointers (size_class_offset j) (slab.currents j) _ p
          (ground (arith, slice_bounds i j h k, v j k)));
  }
    where
      e : (j : ℕ) → j ≢ i → update slab.currents i (slab.currents i + 1) j ≡ slab.currents j
      e j ne = ground arith

  stack-pushed : (p : Ptr) → stack (pushed p) i ≡ p ∷ stack slab i
  unfolding pushed
  stack-pushed p =
      let e : update slab.currents i (slab.currents i + 1) i ≡ suc (slab.currents i) =
        ground arith in
      rw e (
        ap₂ ◌∷◌ (ground arith) (
          cells-update slab.pointers (size_class_offset i) (slab.currents i) _ p
            (inr (omega arith))))

  -- On a slab with no count above its capacity, `fallback_deallocate` on a class below 48 is the
  -- push on the class's bounded stack, and reports whether there was room; it keeps the invariant
  -- and the stacks of all other classes.
  pub fallback_deallocate_refines :
      (p : Ptr)
      → let (ok, slab') = fallback_deallocate slab p i in
        ((ok, stack slab' i) ≡ Spec.push (size_class_capacity i) p (stack slab i))
        × Keeps slab slab' i
  unfolding Spec.push
  fallback_deallocate_refines p =
      rw (fallback_deallocate-eq p, length-cells)
        (elim (Bool-cases (ltb (slab.currents i) (size_class_capacity i))) [
          | inl t ↦ rw t (ap (λ xs. (true, xs)) (stack-pushed p), pushed-Keeps p (ltb→lt _ _ t))
          | inr f ↦ rw f (refl, record { valid = v; others = λ j k ne. refl })
        ])

  popped : Slab
  popped = record slab { currents = update slab.currents i (slab.currents i - 1) }

  fallback_allocate-eq : fallback_allocate slab i ≡ (
      if ltb 0 (slab.currents i)
      then (slab.pointers (size_class_offset i + (slab.currents i - 1)), popped)
      else (null, slab))
  unfolding fallback_allocate popped
  fallback_allocate-eq = ground (arith, slice_total i h, size_class_capacity_bound i h, v i h)

  popped-Keeps : Keeps slab popped i
  unfolding popped
  popped-Keeps = record { valid = λ j k. ground (arith, v j k); others = λ j k ne. rw (e j ne) }
    where
      e : (j : ℕ) → j ≢ i → update slab.currents i (slab.currents i - 1) j ≡ slab.currents j
      e j ne = ground arith

  stack_of_pos :
      0 < slab.currents i
      → stack slab i ≡ slab.pointers (size_class_offset i + (slab.currents i - 1)) ∷ stack popped i
  unfolding popped
  stack_of_pos pos =
      let e : slab.currents i ≡ suc (slab.currents i - 1) = omega arith in
      let e' : update slab.currents i (slab.currents i - 1) i ≡ slab.currents i - 1 =
        ground arith in
      rw e' (ap (cells slab.pointers (size_class_offset i)) e)

  stack_of_zero : (n : ℕ) → n ≡ 0 → cells slab.pointers (size_class_offset i) n ≡ []
  stack_of_zero n e = rw e

  -- On a slab with no count above its capacity, `fallback_allocate` on a class below 48 is the pop
  -- of the class's stack, `nullptr` if it is empty; it keeps the invariant and the stacks of all
  -- other classes.
  pub fallback_allocate_refines :
      let (p, slab') = fallback_allocate slab i in
      ((p, stack slab' i) ≡ Spec.pop (stack slab i)) × Keeps slab slab' i
  unfolding Spec.pop
  fallback_allocate_refines = rw fallback_allocate-eq (elim (Bool-cases (ltb 0 (slab.currents i))) [
    | inl t ↦ rw t (ap Spec.pop (sym (stack_of_pos (ltb→lt _ _ t))), popped-Keeps)
    | inr f ↦
        let e : stack slab i ≡ [] = stack_of_zero (slab.currents i) (ground arith) in
        rw (f, e) (refl, record { valid = v; others = λ j k ne. refl })
  ])
