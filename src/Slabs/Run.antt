-- ===== src/Slabs/Run.antt =====
-- A whole run of pushes and pops on a slab, against the family of bounded stacks.
use allocator.Prelude.{
  ℕ, ◌<◌, ◌≡◌, refl, sym, ap, ap₂, ◌∙◌, List, [], ◌∷◌, Ptr, update, arith, ◌==◌, Bool-cases, ==→eq,
  inl, inr,
}
use allocator.Config.{size_class_capacity}
use allocator.Slabs.{Slab, fallback_allocate, fallback_deallocate}
use allocator.Slabs.Spec
use allocator.Slabs.Spec.{Op, Reply, put, get, stored, got}
use allocator.Slabs.Stack.{stack, IsValid}
use allocator.Slabs.Fallback.{Keeps, fallback_allocate_refines, fallback_deallocate_refines}

-- The calls in order, with what each returns.
unfoldable pub run : Slab → List Op → List Reply
run slab [] = []
run slab (put i p ∷ ops) =
    let (ok, slab') = fallback_deallocate slab p i in stored ok ∷ run slab' ops
run slab (get i ∷ ops) = let (p, slab') = fallback_allocate slab i in got p ∷ run slab' ops

abbrev pub InRange : List Op → Type 0
InRange [] = Unit
InRange (put i p ∷ ops) = (i < 48) × InRange ops
InRange (get i ∷ ops) = (i < 48) × InRange ops

-- `stacks` says what the slab holds for each class.
abbrev pub Holds : Slab → (ℕ → List Ptr) → Type 0
Holds slab stacks = (i : ℕ) → i < 48 → stack slab i ≡ stacks i

Holds-update :
    (slab slab' : Slab) (stacks : ℕ → List Ptr) (i : ℕ) (xs : List Ptr)
    → Holds slab stacks
    → Keeps slab slab' i
    → stack slab' i ≡ xs
    → Holds slab' (update stacks i xs)
Holds-update slab slab' stacks i xs h k e j lt = elim (Bool-cases (i == j)) [
  | inl t ↦ let p : i ≡ j = ==→eq i j t in rw t (ap (stack slab') (sym p) ∙ e)
  | inr f ↦ rw f (k.others j lt (ground arith) ∙ h j lt)
]

-- For any sequence of `fallback_deallocate` and `fallback_allocate` calls on classes below 48, the
-- replies of a slab with no count above its capacity are those of the family of bounded stacks that
-- it holds.
pub run_refines :
    (ops : List Op) (slab : Slab) (stacks : ℕ → List Ptr)
    → IsValid slab
    → Holds slab stacks
    → InRange ops
    → run slab ops ≡ Spec.run stacks ops
unfolding run Spec.run
run_refines [] slab stacks v h r = refl
run_refines (put i p ∷ ops) slab stacks v h r =
    let step = fallback_deallocate_refines slab i v r.0 p in
    let slab' = (fallback_deallocate slab p i).1 in
    let e = step.0 ∙ ap (Spec.push (size_class_capacity i) p) (h i r.0) in
    ap₂ (λ ok rest. stored ok ∷ rest) (ap (λ q. q.0) e)
      (run_refines ops slab' (update stacks i (Spec.push (size_class_capacity i) p (stacks i)).1)
        step.1.valid (Holds-update slab slab' stacks i _ h step.1 (ap (λ q. q.1) e)) r.1)
run_refines (get i ∷ ops) slab stacks v h r =
    let step = fallback_allocate_refines slab i v r.0 in
    let slab' = (fallback_allocate slab i).1 in
    let e = step.0 ∙ ap Spec.pop (h i r.0) in
    ap₂ (λ p rest. got p ∷ rest) (ap (λ q. q.0) e)
      (run_refines ops slab' (update stacks i (Spec.pop (stacks i)).1) step.1.valid
        (Holds-update slab slab' stacks i _ h step.1 (ap (λ q. q.1) e)) r.1)
