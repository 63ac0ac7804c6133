-- ===== src/Slabs/Rseq/Outcome.antt =====
-- What a restartable sequence that returns has done, if it was not preempted after a commit: one push
-- or one pop, on one slab, as the fallback code does.
pub mod Push
pub mod Pop
use allocator.Prelude.{
  ℕ, ◌+◌, ◌%◌, ◌^◌, ◌≤◌, ◌<◌, ◌≡◌, refl, sym, ap, ◌∙◌, ◌⊎◌, inl, inr, true, false, Option, none,
  some, List, [], ◌∷◌, leb, ◌==◌, Ptr, null, update, arith, Bool-cases, leb→le, leb→lt, ==→eq,
}
use mathlib.Core.Path.{fun_ext}
use native.Mathlib.Decide.{ℕ_discrete}
use allocator.Config.{add32, sub32, size_class_offset, size_class_capacity}
use allocator.Config.Offsets.{size_class_capacity_bound}
use allocator.Slabs.{fallback_allocate, fallback_deallocate}
use allocator.Slabs.Stack.{cells, stack, IsValid, cells-update, slice_bounds, slice_total}
use allocator.Slabs.Rseq.{
  SlabArray, Attempt, is_early, is_late, is_committed, RseqSlabPopResult, RseqSlabPushResult,
  pop_result, push_result, rseq_slab_pop, rseq_slab_push,
}

abbrev pub AllValid : SlabArray → Type 0
AllValid slabs = (c : ℕ) → IsValid (slabs c)

-- No stack of any slab is changed. (Cells above the top of a stack may be.)
abbrev pub SameStacks : SlabArray → SlabArray → Type 0
SameStacks slabs slabs' = (c i : ℕ) → i < 48 → stack (slabs' c) i ≡ stack (slabs c) i

-- What the thread finds at its last attempt: between the attempts the other threads ran, and its own
-- unfinished attempts changed no stack.
pub data Interleaved : SlabArray → List Attempt → SlabArray → Type 0 where
  here : {slabs : SlabArray} {tries : List Attempt} → Interleaved slabs tries slabs
  after :
      {slabs stored slabs' : SlabArray} {tries : List Attempt} (a : Attempt)
      → SameStacks slabs stored
      → Interleaved (a.others stored) tries slabs'
      → Interleaved slabs (a ∷ tries) slabs'

-- The other threads keep the invariant of the slabs.
abbrev pub KeepValid : List Attempt → Type 0
KeepValid [] = Unit
KeepValid (a ∷ tries) =
    ((slabs : SlabArray) → AllValid slabs → AllValid (a.others slabs)) × KeepValid tries

-- No attempt is preempted between its commit and the end of the section.
abbrev pub NoneCommitted : List Attempt → Type 0
NoneCommitted [] = Unit
NoneCommitted (a ∷ tries) = (is_committed a.interrupt ≡ false) × NoneCommitted tries

-- A write back of the same slab.
pub update_same : (slabs : SlabArray) (c : ℕ) → update slabs c (slabs c) ≡ slabs
update_same slabs c =
    fun_ext λ j. elim (Bool-cases (c == j)) [ inl t ↦ rw t (ap slabs (==→eq c j t)) | inr f ↦ rw f ]

-- A run that returns `r`, left the slabs `slabs'`, and did `Did r found slabs'` to what its last
-- attempt found.
abbrev pub Returned :
    {R : Type 0}
    → (R → SlabArray → SlabArray → Type 0)
    → SlabArray
    → List Attempt
    → Option (R × SlabArray)
    → Type 0
Returned Did slabs tries none = Unit
Returned Did slabs tries (some (r, slabs')) =
    (found : SlabArray) × Interleaved slabs tries found × AllValid found × Did r found slabs'

pub Returned-after :
    {R : Type 0} (Did : R → SlabArray → SlabArray → Type 0) (slabs stored : SlabArray) (a : Attempt)
    (tries : List Attempt) (o : Option (R × SlabArray))
    → SameStacks slabs stored
    → Returned Did (a.others stored) tries o
    → Returned Did slabs (a ∷ tries) o
Returned-after Did slabs stored a tries none same h = tt
Returned-after Did slabs stored a tries (some (r, slabs')) same h =
    (h.0, after a same h.1, h.2, h.3)

module _ (slab_count i : ℕ) (lt : i < 48) where
  -- The slow path leaves all as it was. Otherwise one CPU's slab is pushed to.
  abbrev pub Pushed : Ptr → RseqSlabPushResult → SlabArray → SlabArray → Type 0
  Pushed p r slabs slabs' =
      ((r ≡ push_result false false) × (slabs' ≡ slabs))
      ⊎ ((c : ℕ) × (c < slab_count)
          × (r ≡ push_result (fallback_deallocate (slabs c) p i).0 true)
          × (slabs' ≡ update slabs c (fallback_deallocate (slabs c) p i).1))

  abbrev pub Popped : RseqSlabPopResult → SlabArray → SlabArray → Type 0
  Popped r slabs slabs' =
      ((r ≡ pop_result null false) × (slabs' ≡ slabs))
      ⊎ ((c : ℕ) × (c < slab_count)
          × (r ≡ pop_result (fallback_allocate (slabs c) i).0 true)
          × (slabs' ≡ update slabs c (fallback_allocate (slabs c) i).1))
