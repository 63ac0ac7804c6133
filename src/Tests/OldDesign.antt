-- ===== src/Tests/OldDesign.antt =====
-- The theorems on the earlier allocator, at small heaps.
use allocator.Prelude.{
  ◌||◌, ◌≡◌, refl, Bool, true, false, ◌⊎◌, inl, inr, none, some, [], ◌∷◌, ◌==◌, Ptr, null, arith,
  update,
}
use allocator.OldDesign
use allocator.OldDesign.{search}
use allocator.OldDesign.Heap.{
  Block, OldAllocator, Kernel, returns, out_of_fuel, next_phys, prev_phys,
}
use allocator.OldDesign.Search.{
  Unfit, EndsAtTail, allocate-out_of_fuel, first_fit, search-first_fit,
}
use allocator.OldDesign.Neighbours.{Adjacent, next_phys-prev_phys}

abbrev kernel : Kernel
kernel = record {
  mmap = λ call bytes. none;
  sbrk = λ call bytes. some 4096;
  munmap = λ call p bytes. true;
  brk = λ call p. true;
}

abbrev first : Block
first = record { size = 64; is_free = true; mapped = false; next = 5000 }

abbrev second : Block
second = record { size = 100; is_free = true; mapped = false; next = null }

-- Two free blocks, one behind the other; the last search ended at `end`.
abbrev heap : (end : Ptr) → OldAllocator
heap end = record {
  blocks = update (update (λ _. none) 4896 (some first)) 5000 (some second);
  footers = update (λ _. none) 4984 (some (record { size = 64; mapped = false }));
  calls = 1;
  free_list = 4896;
  prev_search_end = end;
  available_bytes = 164;
  brk_heap_start = 4096;
  brk_heap_end = 5140;
}

abbrev inside : Ptr → Bool
inside p = (p == 4896) || (p == 5000)

too_small : Unfit (heap 5000) 150 inside
too_small = record {
  head = refl;
  node = λ p i. elim (cases p i) [
    | inl e ↦ (ground arith, first, ground arith, refl, inr refl)
    | inr e ↦ (ground arith, second, ground arith, refl, inl refl)
  ];
}
  where
    cases : (p : Ptr) → inside p ≡ true → (p ≡ 4896) ⊎ (p ≡ 5000)
    cases p i = ground arith

ends_at_tail : EndsAtTail (heap 5000)
ends_at_tail = record { tail = second; live = ground arith; at = refl; last = refl }

allocate-out_of_fuel_example : OldDesign.allocate kernel 1000 150 (heap 5000) ≡ out_of_fuel
allocate-out_of_fuel_example =
    allocate-out_of_fuel (heap 5000) 150 inside too_small ends_at_tail kernel 1000 (omega arith)

search-first_fit_example :
    search 5 80 null 4896 (heap null)
    ≡ returns (first_fit 80 null ((4896, first) ∷ (5000, second) ∷ [])) (heap null)
search-first_fit_example =
    search-first_fit (heap null) 5 80 null 4896 ((4896, first) ∷ (5000, second) ∷ []) refl
      (refl, ground arith, refl, (refl, ground arith, refl, refl)) (omega arith)

adjacent : Adjacent (heap null) 4896 5000 first second
adjacent = record {
  live = ground arith;
  at = refl;
  behind = refl;
  place = refl;
  footer = refl;
  unmapped = (refl, refl);
  start = (ground arith, omega arith);
  end = (omega arith, omega arith);
}

next_phys-prev_phys_example :
    (next_phys 4896 (heap null) ≡ returns 5000 (heap null))
    × (prev_phys 5000 (heap null) ≡ returns 4896 (heap null))
next_phys-prev_phys_example = next_phys-prev_phys (heap null) 4896 5000 first second adjacent
