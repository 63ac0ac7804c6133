-- ===== src/Tests/Cache.antt =====
-- Tests of the transfer cache, and the theorems on it at concrete inputs.
use allocator.Prelude.{◌-◌, ◌≡◌, refl, min, [], ◌∷◌, ◌++◌, length, take, update, copy_out, arith}
use allocator.Config.{transfer_cache_capacity}
use allocator.TransferCache.{TransferCache, insert_range, remove_range}
use allocator.TransferCache.Refine.{IsValid, contents, insert_range_lem, remove_range_lem}

abbrev one_slot : TransferCache
one_slot = record { slots = update (λ _. 0) 0 40; used_slots = 1 }

insert_two : (insert_range one_slot (48 ∷ 56 ∷ 64 ∷ []) 2).0 ≡ 2
unfolding insert_range
insert_two = refl

remove_two : (remove_range one_slot 2).1 ≡ 40 ∷ []
unfolding remove_range copy_out
remove_two = refl

insert_range_lem_example :
    let (inserted, cache') = insert_range one_slot (48 ∷ 56 ∷ 64 ∷ []) 2 in
    (inserted ≡ min 2 (transfer_cache_capacity - length (contents one_slot)))
    × (contents cache' ≡ contents one_slot ++ take inserted (48 ∷ 56 ∷ 64 ∷ []))
    × IsValid cache'
insert_range_lem_example =
    insert_range_lem one_slot (48 ∷ 56 ∷ 64 ∷ []) 2 (omega arith) (omega arith)

remove_range_lem_example :
    let (removed, batch, cache') = remove_range one_slot 2 in
    (removed ≡ min 2 (length (contents one_slot)))
    × (length batch ≡ removed)
    × (contents one_slot ≡ contents cache' ++ batch)
    × IsValid cache'
remove_range_lem_example = remove_range_lem one_slot 2 (omega arith)
