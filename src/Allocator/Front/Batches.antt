-- ===== src/Allocator/Front/Batches.antt =====
-- The batches that move between the slab of the CPU and the transfer caches.
use allocator.Prelude.{
  ℕ, zero, suc, ◌+◌, ◌≤◌, ◌<◌, ◌≡◌, ◌≢◌, refl, sym, ap, ◌∙◌, inl, inr, false, List, [], ◌∷◌, ◌++◌,
  arith, ltb, ◌==◌, Ptr, null, length, take, min, update, update_self, Bool-cases,
}
use mathlib.Core.Path.{subst}
use mathlib.Core.List.{reverse, reverse-cons, append_assoc}
use allocator.Config.{size_class_capacity, transfer_cache_capacity}
use allocator.TransferCache.{TransferCache, insert_range, remove_range}
use allocator.TransferCache.Refine
use allocator.TransferCache.Refine.{contents, insert_range_lem, remove_range_lem}
use allocator.Slabs.Access.{Thread}
use allocator.Slabs.Access.Alone.{Alone}
use allocator.PageHeap.State.{System}
use allocator.Allocator.{Allocator, and_then, pure, refill_batch, release_batch, publish, drain}
use allocator.Allocator.Front.{
  in_slab, in_cache, NoNull, FrontOk, Holds, Holds-refl, SameCentral-refl,
}
use allocator.Allocator.Front.Steps.{Ends, Ends-after, pop_slab-cons, push_slab-room}

pub NoNull-append : (xs ys : List Ptr) → NoNull xs → NoNull ys → NoNull (xs ++ ys)
NoNull-append [] ys h k = k
NoNull-append (x ∷ xs) ys h k = (h.0, NoNull-append xs ys h.1 k)

pub NoNull-left : (xs ys : List Ptr) → NoNull (xs ++ ys) → NoNull xs
NoNull-left [] ys h = tt
NoNull-left (x ∷ xs) ys h = (h.0, NoNull-left xs ys h.1)

pub NoNull-right : (xs ys : List Ptr) → NoNull (xs ++ ys) → NoNull ys
NoNull-right [] ys h = h
NoNull-right (x ∷ xs) ys h = NoNull-right xs ys h.1

take-all : (n : ℕ) (xs : List Ptr) → n ≡ length xs → take n xs ≡ xs
take-all zero [] e = refl
take-all zero (x ∷ xs) e = absurd (omega arith)
take-all (suc n) [] e = refl
take-all (suc n) (x ∷ xs) e = ap (λ r. x ∷ r) (take-all n xs (omega arith))

pub length-pos : (xs : List Ptr) → xs ≢ [] → 0 < length xs
length-pos [] ne = absurd (ne refl)
length-pos (x ∷ xs) ne = omega arith

-- The allocator after an access to a transfer cache.
abbrev cached : Allocator → (i : ℕ) → TransferCache → Allocator
cached a i cache = record a { transfer_caches = update a.transfer_caches i cache }

cached-Holds :
    (a : Allocator) (c i : ℕ) (cache : TransferCache)
    → FrontOk a c
    → Refine.IsValid cache
    → NoNull (contents cache)
    → Holds a (cached a i cache) c i (in_slab a c i) (contents cache)
cached-Holds a c i cache v ok live =
    let here = update_self a.transfer_caches i cache in
    record {
      ok = record {
        in_range = v.in_range;
        slabs = v.slabs;
        caches = λ j. elim (Bool-cases (i == j)) [ inl t ↦ rw t ok | inr f ↦ rw f (v.caches j) ];
        slab_live = v.slab_live;
        cache_live =
            λ j. elim (Bool-cases (i == j)) [ inl t ↦ rw t live | inr f ↦ rw f (v.cache_live j) ];
      };
      slab = refl;
      cache = ap contents here;
      other_classes = λ j l ne. refl;
      other_cpus = λ d ne. refl;
      other_caches = λ j ne. ground arith;
    }

module _ (sys : System) (threads : ℕ → Thread) (fuel c i : ℕ)
    (alone : (n : ℕ) → Alone c (threads n)) (lt : i < 48) where
  -- A batch of at most `n` pointers, the last that the cache holds.
  pub refill_batch-Ends :
      (n : ℕ) (a : Allocator)
      → FrontOk a c
      → 0 < n
      → in_cache a i ≢ []
      → (batch : List Ptr) × (behind : List Ptr) × (in_cache a i ≡ behind ++ batch)
        × (length batch ≡ min n (length (in_cache a i)))
        × Ends a c i (refill_batch sys threads fuel i n a) batch (in_slab a c i) behind
  unfolding refill_batch
  refill_batch-Ends n a v pos some_left =
      let r = remove_range (a.transfer_caches i) n in
      let (count, len, split, ok) = remove_range_lem (a.transfer_caches i) n (v.caches i) in
      let few = length-pos (in_cache a i) some_left in
      let got : (r.0 == 0) ≡ false = ground arith in
      let live = subst NoNull split (v.cache_live i) in
      (
        r.1,
        contents r.2,
        split,
        len ∙ count,
        (
          cached a i r.2,
          rw got refl,
          cached-Holds a c i r.2 v ok (NoNull-left (contents r.2) r.1 live),
          record { page_heap = refl; mem = refl; free_list = refl; slab_count = refl },
        ),
      )

  -- A batch for which the cache has room.
  pub release_batch-Ends :
      (batch : List Ptr) (a : Allocator)
      → FrontOk a c
      → NoNull batch
      → length (in_cache a i) + length batch ≤ transfer_cache_capacity
      → Ends a c i
          (release_batch sys threads fuel i batch a)
          tt
          (in_slab a c i)
          (in_cache a i ++ batch)
  unfolding release_batch
  release_batch-Ends batch a v live room =
      let r = insert_range (a.transfer_caches i) batch (length batch) in
      let (count, now, ok) =
        insert_range_lem (a.transfer_caches i) batch (length batch) (v.caches i) (omega arith) in
      let all : r.0 ≡ length batch = omega arith in
      let e : contents r.1 ≡ in_cache a i ++ batch =
        now ∙ ap (λ xs. in_cache a i ++ xs) (take-all r.0 batch all) in
      let fits : ltb r.0 (length batch) ≡ false = ground arith in
      (
        cached a i r.1,
        rw fits refl,
        subst (Holds a (cached a i r.1) c i (in_slab a c i)) e (
            cached-Holds a c i r.1 v ok
              (subst NoNull (sym e) (NoNull-append (in_cache a i) batch (v.cache_live i) live))),
        record { page_heap = refl; mem = refl; free_list = refl; slab_count = refl },
      )

  -- The rest of a batch goes into a slab with room for it.
  pub publish-Ends :
      (rest : List Ptr) (a : Allocator)
      → FrontOk a c
      → NoNull rest
      → length rest + length (in_slab a c i) ≤ size_class_capacity i
      → Ends a c i
          (publish sys threads fuel i rest a)
          tt
          (reverse rest ++ in_slab a c i)
          (in_cache a i)
  unfolding publish
  publish-Ends [] a v live room = (a, refl, Holds-refl a c i v, SameCentral-refl a)
  publish-Ends (p ∷ rest) a v live room =
      let (b, run, h, same) =
        push_slab-room sys threads fuel c alone i lt a v p live.0 (omega arith) in
      let room' : length rest + length (in_slab b c i) ≤ size_class_capacity i =
        omega (arith, ap length h.slab) in
      Ends-after a b c i (p ∷ in_slab a c i) (in_cache a i) _ _ _ _ _ _ tt h same (rw run refl)
        (publish-Ends rest b h.ok live.1 room')
        (ap (λ zs. reverse rest ++ zs) h.slab
          ∙ sym (append_assoc (reverse rest) (p ∷ []) (in_slab a c i))
          ∙ ap (λ zs. zs ++ in_slab a c i) (sym (reverse-cons p rest)))
        h.cache

  -- The loop of `deallocate` takes the first `n` pointers.
  pub drain-Ends :
      (xs ys : List Ptr) (a : Allocator)
      → FrontOk a c
      → in_slab a c i ≡ xs ++ ys
      → Ends a c i (drain sys threads fuel i (length xs) a) xs ys (in_cache a i)
  unfolding drain
  drain-Ends [] ys a v e = (
    a,
    refl,
    subst (λ zs. Holds a a c i zs (in_cache a i)) e (Holds-refl a c i v),
    SameCentral-refl a,
  )
  drain-Ends (x ∷ xs) ys a v e =
      let (b, run, h, same) = pop_slab-cons sys threads fuel c alone i lt a v x (xs ++ ys) e in
      let (d, run', k, same') = drain-Ends xs ys b h.ok h.slab in
      let live : (x == null) ≡ false = ground (arith, (subst NoNull e (v.slab_live i lt)).0) in
      let tail = and_then (drain sys threads fuel i (length xs) b) (λ zs. pure (x ∷ zs)) in
      Ends-after a b c i (xs ++ ys) (in_cache a i) ys ys _ _ _ tail (x ∷ xs) h same
        (rw (run, live) refl) (d, rw run' refl, k, same') refl h.cache
