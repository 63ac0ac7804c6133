-- ===== src/Slabs/Batch.antt =====
-- The batch methods of `struct Slabs`: a caller copies pointers to `push_destination` and commits, or
-- copies them from `pop_source` and commits.
use allocator.Prelude.{
  ℕ, ◌+◌, ◌≤◌, ◌<◌, ◌≡◌, refl, ap, ap₂, ◌∙◌, List, [], ◌∷◌, length, Ptr, update, copy_in, copy_out,
  copy_in-below, copy_out-copy_in, arith, zero, suc,
}
use native.Mathlib.Decide.{dec_lt, ℕ_discrete}
use allocator.Config.{size_class_offset, size_class_capacity}
use allocator.Config.Offsets.{size_class_capacity_bound}
use allocator.Slabs.{
  Slab, push_destination, commit_push, pop_source, commit_pop, available, remaining,
}
use allocator.Slabs.Stack.{cells, stack, IsValid, slice_bounds, slice_total}

-- What a caller does to push the pointers `xs`.
abbrev pub push_batch : Slab → ℕ → List Ptr → Slab
push_batch slab i xs =
    commit_push (record slab { pointers = copy_in slab.pointers (push_destination slab i) xs }) i
      (length xs)

copy_in-above :
    (xs : List Ptr) (f : ℕ → Ptr) (base k : ℕ) → base + length xs ≤ k → copy_in f base xs k ≡ f k
unfolding copy_in
copy_in-above [] f base k h = refl
copy_in-above (x ∷ xs) f base k h =
    copy_in-above xs (update f base x) (base + 1) k (omega arith) ∙ ground arith

cells_ext :
    (f g : ℕ → Ptr) (base n : ℕ)
    → ((k : ℕ) → base ≤ k → k < base + n → f k ≡ g k)
    → cells f base n ≡ cells g base n
cells_ext f g base zero h = refl
cells_ext f g base (suc n) h =
    ap₂ ◌∷◌ (h (base + n) (omega arith) (omega arith))
      (cells_ext f g base n λ k a b. h k a (omega arith))

module _ (slab : Slab) (i : ℕ) (xs : List Ptr) (v : IsValid slab) (h : i < 48)
    (fits : length xs ≤ remaining slab i) where
  room : slab.currents i + length xs ≤ size_class_capacity i
  unfolding remaining
  room = omega (arith, v i h, size_class_capacity_bound i h, fits)

  destination : push_destination slab i ≡ size_class_offset i + slab.currents i
  unfolding push_destination
  destination = omega (arith, slice_total i h, v i h)

  count :
      (j : ℕ)
      → (push_batch slab i xs).currents j ≡ update slab.currents i (slab.currents i + length xs) j
  unfolding commit_push
  count j = ground (arith, room, size_class_capacity_bound i h)

  count_self : (push_batch slab i xs).currents i ≡ slab.currents i + length xs
  count_self = count i ∙ ground arith

  pointers-eq :
      (push_batch slab i xs).pointers
      ≡ copy_in slab.pointers (size_class_offset i + slab.currents i) xs
  unfolding commit_push
  pointers-eq = rw destination

  source : pop_source (push_batch slab i xs) i (length xs) ≡ size_class_offset i + slab.currents i
  unfolding pop_source
  source = rw count_self (omega (arith, slice_total i h, room))

  popped_count :
      (j : ℕ) → (commit_pop (push_batch slab i xs) i (length xs)).currents j ≡ slab.currents j
  unfolding commit_pop
  popped_count j = ground (arith, count j, count_self, room, size_class_capacity_bound i h)

  popped_pointers :
      (commit_pop (push_batch slab i xs) i (length xs)).pointers
      ≡ copy_in slab.pointers (size_class_offset i + slab.currents i) xs
  unfolding commit_pop
  popped_pointers = pointers-eq

  popped_stack :
      (j : ℕ) → j < 48 → stack (commit_pop (push_batch slab i xs) i (length xs)) j ≡ stack slab j
  popped_stack j k =
      ap (cells (commit_pop (push_batch slab i xs) i (length xs)).pointers (size_class_offset j))
        (popped_count j)
      ∙ ap (λ f. cells f (size_class_offset j) (slab.currents j)) popped_pointers
      ∙ cells_ext _ slab.pointers (size_class_offset j) (slab.currents j) outside
    where
      outside :
          (m : ℕ)
          → size_class_offset j ≤ m
          → m < size_class_offset j + slab.currents j
          → copy_in slab.pointers (size_class_offset i + slab.currents i) xs m ≡ slab.pointers m
      outside m a b = elim (dec_lt m (size_class_offset i + slab.currents i)) [
        | yes below ↦ copy_in-below xs slab.pointers _ m below
        | no above ↦ copy_in-above xs slab.pointers _ m (elim (ℕ_discrete i j) [
          | yes same ↦ absurd (above (rw same b))
          | no ne ↦ ground (arith, slice_bounds i j h k ne, v j k, room)
        ])
      ]

  -- On a slab with no count above its capacity, pushing a batch of at most `remaining` pointers on
  -- a class below 48 (`push_destination`, the copy, `commit_push`) keeps the invariant and adds the
  -- length to `available`; the pointers at `pop_source` are then that batch in its order, and
  -- `commit_pop` leaves the stack of every class as it was before the push.
  pub push_batch-pop :
      IsValid (push_batch slab i xs)
      × (available (push_batch slab i xs) i ≡ available slab i + length xs)
      × (copy_out
            (push_batch slab i xs).pointers
            (pop_source (push_batch slab i xs) i (length xs))
            (length xs)
          ≡ xs)
      × ((j : ℕ)
          → j < 48
          → stack (commit_pop (push_batch slab i xs) i (length xs)) j ≡ stack slab j)
  unfolding available
  push_batch-pop = (
    (λ j k. ground (arith, count j, room, v j k)),
    count_self,
    ap₂ (λ f b. copy_out f b (length xs)) pointers-eq source
        ∙ copy_out-copy_in xs slab.pointers (size_class_offset i + slab.currents i),
    popped_stack,
  )
