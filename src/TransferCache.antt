-- ===== src/TransferCache.antt =====
-- transfer_cache.hpp: a bounded stack of pointers for each size class.
pub mod Refine
use allocator.Prelude.{
  ℕ, ◌+◌, ◌-◌, ◌%◌, ◌^◌, min, List, [], ltb, if◌then◌else◌, Ptr, copy_in, copy_out, take,
}
use allocator.Config.{add32, sub32, transfer_cache_capacity}

pub record TransferCache : Type 0 where
  pub slots : ℕ → Ptr
  pub used_slots : ℕ

-- `TransferCache::InsertRange`: `batch` is the caller's array, of at least `n` pointers.
unfoldable pub insert_range : TransferCache → (batch : List Ptr) → (n : ℕ) → ℕ × TransferCache
insert_range cache batch n =
    let space = sub32 transfer_cache_capacity cache.used_slots in
    let to_insert = min n space in
    if ltb 0 to_insert
    then (
      to_insert,
      record {
        slots = copy_in cache.slots cache.used_slots (take to_insert batch);
        used_slots = add32 cache.used_slots to_insert;
      },
    )
    else (to_insert, cache)

-- `TransferCache::RemoveRange`: the count, and the pointers copied to the caller's array.
unfoldable pub remove_range : TransferCache → (n : ℕ) → ℕ × List Ptr × TransferCache
remove_range cache n =
    let to_remove = min n cache.used_slots in
    let used = sub32 cache.used_slots to_remove in
    if ltb 0 to_remove
    then (to_remove, copy_out cache.slots used to_remove, record cache { used_slots = used })
    else (to_remove, [], cache)
