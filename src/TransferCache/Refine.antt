-- ===== src/TransferCache/Refine.antt =====
-- A transfer cache as the list of its pointers, oldest first.
use allocator.Prelude.{
  ℕ, ◌+◌, ◌-◌, ◌≤◌, ◌≡◌, refl, sym, ap, ap₂, ◌∙◌, min, List, [], ◌++◌, ltb, if◌then◌else◌, Ptr,
  copy_in, copy_out, take, length, length-take, copy_in-below, length-copy_out, copy_out-add,
  copy_out_ext, copy_out-copy_in, Bool-cases, inl, inr, arith,
}
use mathlib.Core.List.{append-nil}
use allocator.Config.{transfer_cache_capacity}
use allocator.TransferCache.{TransferCache, insert_range, remove_range}

abbrev pub IsValid : TransferCache → Type 0
IsValid cache = cache.used_slots ≤ transfer_cache_capacity

abbrev pub contents : TransferCache → List Ptr
contents cache = copy_out cache.slots 0 cache.used_slots

-- Copying in behind the first `base` cells extends them.
copy_out-extend :
    (f : ℕ → Ptr) (base : ℕ) (xs : List Ptr) (n : ℕ)
    → n ≡ length xs
    → copy_out (copy_in f base xs) 0 (base + n) ≡ copy_out f 0 base ++ xs
copy_out-extend f base xs n e =
    copy_out-add (copy_in f base xs) 0 base n
    ∙ ap₂ ◌++◌
        (copy_out_ext (copy_in f base xs) f 0 base
          (λ i p q. copy_in-below xs f base i (omega arith)))
        (ap₂ (copy_out (copy_in f base xs)) (omega arith) e ∙ copy_out-copy_in xs f base)

take-zero : (n : ℕ) (xs : List Ptr) → n ≡ 0 → take n xs ≡ []
take-zero n xs e = rw e

insert_range-eq :
    (cache : TransferCache) (batch : List Ptr) (n k : ℕ)
    → IsValid cache
    → k ≡ min n (transfer_cache_capacity - cache.used_slots)
    → insert_range cache batch n ≡ (
        if ltb 0 k
        then (
          k,
          record {
            slots = copy_in cache.slots cache.used_slots (take k batch);
            used_slots = cache.used_slots + k;
          },
        )
        else (k, cache))
unfolding insert_range
insert_range-eq cache batch n k v e = ground arith

-- On a cache whose count is within the capacity, with a batch of at least `n` pointers,
-- `InsertRange` takes as many of the `n` as fit, from the front of the batch, and returns their
-- number; they go behind what the cache holds, and the count stays within the capacity.
pub insert_range_lem :
    (cache : TransferCache) (batch : List Ptr) (n : ℕ)
    → IsValid cache
    → n ≤ length batch
    → let (inserted, cache') = insert_range cache batch n in
      (inserted ≡ min n (transfer_cache_capacity - length (contents cache)))
      × (contents cache' ≡ contents cache ++ take inserted batch)
      × IsValid cache'
insert_range_lem cache batch n v fits =
    let k = min n (transfer_cache_capacity - cache.used_slots) in
    let e : k ≡ length (take k batch) = omega (arith, length-take k batch) in
    rw (insert_range-eq cache batch n k v refl, length-copy_out cache.slots 0 cache.used_slots)
      (elim (Bool-cases (ltb 0 k)) [
        | inl t ↦
            rw t
              (refl, copy_out-extend cache.slots cache.used_slots (take k batch) k e, omega arith)
        | inr f ↦ rw f (
          refl,
          sym (ap (λ xs. contents cache ++ xs) (take-zero k batch (ground arith)) ∙ append-nil _),
          v,
        )
      ])

remove_range-eq :
    (cache : TransferCache) (n k : ℕ)
    → IsValid cache
    → k ≡ min n cache.used_slots
    → remove_range cache n ≡ (
        if ltb 0 k
        then (
          k,
          copy_out cache.slots (cache.used_slots - k) k,
          record cache { used_slots = cache.used_slots - k },
        )
        else (k, [], cache))
unfolding remove_range
remove_range-eq cache n k v e = ground arith

-- On a cache whose count is within the capacity, `RemoveRange` returns as many pointers as were
-- asked for and are there, and their number: the last of the contents, in their order. What is
-- before them stays, and the count stays within the capacity.
pub remove_range_lem :
    (cache : TransferCache) (n : ℕ)
    → IsValid cache
    → let (removed, batch, cache') = remove_range cache n in
      (removed ≡ min n (length (contents cache)))
      × (length batch ≡ removed)
      × (contents cache ≡ contents cache' ++ batch)
      × IsValid cache'
remove_range_lem cache n v =
    let k = min n cache.used_slots in
    let e : 0 + (cache.used_slots - k) ≡ cache.used_slots - k = omega arith in
    let e' : cache.used_slots - k + k ≡ cache.used_slots = omega arith in
    rw (remove_range-eq cache n k v refl, length-copy_out cache.slots 0 cache.used_slots)
      (elim (Bool-cases (ltb 0 k)) [
        | inl t ↦ rw t (
          refl,
          length-copy_out cache.slots (cache.used_slots - k) k,
          ap (copy_out cache.slots 0) (sym e')
              ∙ copy_out-add cache.slots 0 (cache.used_slots - k) k
              ∙ ap (λ b. copy_out cache.slots 0 (cache.used_slots - k) ++ copy_out cache.slots b k)
                  e,
          omega arith,
        )
        | inr f ↦ rw f (refl, ground arith, sym (append-nil _), v)
      ])
