-- ===== src/OldDesign/Search.antt =====
-- The search for a free block in the earlier allocator.
use allocator.Prelude.{
  ℕ, zero, suc, ◌<◌, ◌≤◌, ◌≡◌, ◌≢◌, refl, Bool, true, false, ◌&&◌, ◌⊎◌, inl, inr, some, List, [],
  ◌∷◌, leb, ◌==◌, if◌then◌else◌, Ptr, null, arith, length, Bool-cases,
}
use allocator.OldDesign.Heap.{Block, OldAllocator, Kernel, returns, out_of_fuel, load}
use allocator.OldDesign.{search, search_start, allocate}

pub load-ok :
    (m : OldAllocator) (p : Ptr) (b : Block)
    → p ≢ null
    → m.blocks p ≡ some b
    → load p m ≡ returns b m
unfolding load
load-ok m p b live at = let nn : (p == null) ≡ false = ground arith in rw (nn, at) refl

-- The blocks that the search passes: none of them fits, and it meets no others.
pub record Unfit (m : OldAllocator) (size : ℕ) (inside : Ptr → Bool) : Type 0 where
  pub head : inside m.free_list ≡ true
  pub node :
      (p : Ptr)
      → inside p ≡ true
      → (p ≢ null)
        × (b : Block) × (m.blocks p ≡ some b)
        × ((b.is_free && leb size b.size) ≡ false)
        × ((b.next ≡ null) ⊎ (inside b.next ≡ true))

-- The last search ended at the tail of the list.
pub record EndsAtTail (m : OldAllocator) : Type 0 where
  pub tail : Block
  pub live : m.prev_search_end ≢ null
  pub at : m.blocks m.prev_search_end ≡ some tail
  pub last : tail.next ≡ null

module _ (m : OldAllocator) (size : ℕ) (inside : Ptr → Bool) (u : Unfit m size inside)
    (e : EndsAtTail m) where
  search-out_of_fuel :
      (fuel : ℕ) (prev curr : Ptr) → inside curr ≡ true → search fuel size prev curr m ≡ out_of_fuel
  unfolding search
  search-out_of_fuel zero prev curr i = refl
  search-out_of_fuel (suc fuel) prev curr i =
      let (live, b, at, unfit, more) = u.node curr i in
      let nn : (curr == null) ≡ false = ground arith in
      let pse : (m.prev_search_end == null) ≡ false = ground (arith, e.live) in
      let here = load-ok m curr b live at in
      elim more [
        | inl stop ↦
            let t : (b.next == null) ≡ true = ground arith in
            rw (nn, here, unfit, pse, t) (search-out_of_fuel fuel null m.free_list u.head)
        | inr go ↦
            let further = (u.node b.next go).0 in
            let f : (b.next == null) ≡ false = ground (arith, further) in
            let f' : (b.next == e.tail.next) ≡ false = ground (arith, further, e.last) in
            rw (nn, here, unfit, pse, f, load-ok m m.prev_search_end e.tail e.live e.at, f')
              (search-out_of_fuel fuel curr b.next go)
      ]

  -- In the earlier allocator, if the last search ended at the tail of the free list, the request is
  -- within `available_bytes`, and no block that the search meets is free and large enough, then
  -- `allocate` runs out of fuel with every amount of fuel: it loops forever, without undefined
  -- behaviour.
  pub allocate-out_of_fuel :
      (kernel : Kernel) (fuel : ℕ)
      → size ≤ m.available_bytes
      → allocate kernel fuel size m ≡ out_of_fuel
  unfolding allocate search_start
  allocate-out_of_fuel kernel fuel le =
      let t : leb size m.available_bytes ≡ true = ground arith in
      let pse : (m.prev_search_end == null) ≡ false = ground (arith, e.live) in
      let stop : (e.tail.next == null) ≡ true = ground (arith, e.last) in
      rw
        (
          t,
          pse,
          load-ok m m.prev_search_end e.tail e.live e.at,
          stop,
          search-out_of_fuel fuel null m.free_list u.head,
        )
        refl

-- A chain of blocks from `p` on.
abbrev pub Blocks : OldAllocator → Ptr → List (Ptr × Block) → Type 0
Blocks m p [] = p ≡ null
Blocks m p ((q, b) ∷ bs) = (p ≡ q) × (q ≢ null) × (m.blocks q ≡ some b) × Blocks m b.next bs

-- The first block that fits, and the one before it.
abbrev pub first_fit : (size : ℕ) (prev : Ptr) → List (Ptr × Block) → Ptr × Ptr
first_fit size prev [] = (prev, null)
first_fit size prev ((q, b) ∷ bs) =
    if b.is_free && leb size b.size then (prev, q) else first_fit size q bs

-- In the earlier allocator, when `prev_search_end` is `nullptr` and `curr` is the first of a chain
-- of blocks, the loop of `allocate` with fuel above the length of the chain ends. It has found the
-- first block that is free and large enough, with the one before it, or none.
pub search-first_fit :
    (m : OldAllocator) (fuel size : ℕ) (prev curr : Ptr) (bs : List (Ptr × Block))
    → m.prev_search_end ≡ null
    → Blocks m curr bs
    → length bs < fuel
    → search fuel size prev curr m ≡ returns (first_fit size prev bs) m
unfolding search
search-first_fit m zero size prev curr bs pse l enough = absurd (omega arith)
search-first_fit m (suc fuel) size prev curr [] pse l enough =
    let t : (curr == null) ≡ true = ground arith in rw t refl
search-first_fit m (suc fuel) size prev curr ((q, b) ∷ bs) pse (e, live, at, l) enough =
    let nn : (q == null) ≡ false = ground arith in
    let none_before : (m.prev_search_end == null) ≡ true = ground (arith, pse) in
    elim (Bool-cases (b.is_free && leb size b.size)) [
      | inl t ↦ rw (e, nn, load-ok m q b live at, t) refl
      | inr f ↦
          rw (e, nn, load-ok m q b live at, f, none_before)
            (search-first_fit m fuel size q b.next bs pse l (omega arith))
    ]
