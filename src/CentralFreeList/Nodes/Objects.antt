-- ===== src/CentralFreeList/Nodes/Objects.antt =====
-- Taking an object off the chain and putting one on it: a stack of indexes.
use native.Mathlib.Nat.{mul-le-mul_right, mod-eq_of_lt, mul-div_cancel}
use allocator.Prelude.{
  ℕ, suc, ◌+◌, ◌-◌, ◌*◌, ◌%◌, ◌^◌, ◌≤◌, ◌<◌, ◌≡◌, refl, ◌∙◌, true, false, inl, inr, List, [], ◌∷◌,
  arith, ltb, ◌==◌, Ptr, update, update_self, update-ne, length, Bool-cases, ltb→lt,
}
use allocator.PageHeap.State.{invalid_index}
use allocator.CentralFreeList.Nodes.{
  Memory, slot, pack_capacity, index_to_ptr, ptr_to_index, take_object, put_object,
}
use allocator.CentralFreeList.Nodes.Chain.{
  Nodes, head_index, free_objects, contains, is_node, is_node_of_contains, Chain, Stored-same,
  Chain-update, capacity-le,
}

-- The objects of a span lie below 2 ^ 64.
module _ (base : Ptr) (size : ℕ) (room : 4 ≤ size) (fits : base + 65536 * size ≤ 2 ^ 64) where
  pub index_to_ptr-eq : (i : ℕ) → i < 65536 → index_to_ptr i base size ≡ base + i * size
  unfolding index_to_ptr
  index_to_ptr-eq i h = mod-eq_of_lt (omega (arith, mul-le-mul_right size h))

  -- `ptr_to_index` of the address of the object `i` below 65536 is `i`, for a span whose objects
  -- have at least 4 bytes and lie below `2 ^ 64`.
  pub ptr_to_index-object : (i : ℕ) → i < 65536 → ptr_to_index (base + i * size) base size ≡ i
  unfolding ptr_to_index
  ptr_to_index-object i h =
      let e : base + i * size - base ≡ i * size = omega arith in
      rw (e, mul-div_cancel i {n = size} (omega arith)) (mod-eq_of_lt h)

  -- What an operation leaves.
  pub record IsChain (mem : Memory) (head : ℕ) (free : List ℕ) : Type 0 where
    pub nodes : Nodes
    pub at_head : head ≡ head_index nodes
    pub objects : free_objects nodes ≡ free
    pub chain : Chain base size mem nodes

  popped :
      (mem : Memory) (i p : ℕ) (ps : List ℕ) (ns : Nodes)
      → Chain base size mem ((i, p ∷ ps) ∷ ns)
      → Chain base size (update mem (base + i * size + 2) (length ps)) ((i, ps) ∷ ns)
  popped mem i p ps ns c =
      let node = base + i * size in
      let same = update-ne mem (node + 2) (length ps) in
      (
        c.0,
        c.1,
        omega (arith, c.2),
        same node (omega arith) ∙ c.3,
        update_self mem (node + 2) (length ps),
        Stored-same base size mem (update mem (node + 2) (length ps)) i ps
            (λ k h. same (slot node k) (omega arith)) c.5.1,
        Chain-update base size room mem ns i (base + i * size + 2) (length ps) c.1 (omega arith)
            (omega arith) c.6,
      )

  -- What `take_object` returns is the first free object, and the rest stays free.
  take_nodes :
      (mem : Memory) (ns : Nodes) (k : ℕ) (rest : List ℕ)
      → Chain base size mem ns
      → free_objects ns ≡ k ∷ rest
      → let (ptr, head, mem') = take_object base size (head_index ns) mem in
        (ptr ≡ index_to_ptr k base size) × IsChain mem' head rest
  unfolding take_object free_objects
  take_nodes mem [] k rest c e = absurd (ground arith)
  take_nodes mem ((i, []) ∷ ns) k rest c e =
      let a = index_to_ptr-eq i (omega (arith, c.0)) in
      rw (a, c.4) ((cc, record { nodes = ns; at_head = c.3; objects = cc; chain = c.6 }))
  take_nodes mem ((i, p ∷ ps) ∷ ns) k rest c e =
      let a = index_to_ptr-eq i (omega (arith, c.0)) in
      let t : ltb 0 (suc (length ps)) ≡ true = ground arith in
      let d : suc (length ps) - 1 ≡ length ps = omega arith in
      rw (a, c.4, t, d, c.5.0)
        (
          cc,
          record {
            nodes = (i, ps) ∷ ns;
            at_head = refl;
            objects = cc;
            chain = popped mem i p ps ns c;
          },
        )

  -- On packed nodes that hold the free objects `k ∷ rest`, of a span whose objects have at least 4
  -- bytes and lie below `2 ^ 64`, the code by which `allocate` takes an object returns the address
  -- of `k`, and leaves packed nodes that hold `rest`.
  pub take_object-IsChain :
      (mem : Memory) (head k : ℕ) (rest : List ℕ)
      → IsChain mem head (k ∷ rest)
      → let (ptr, head', mem') = take_object base size head mem in
        (ptr ≡ index_to_ptr k base size) × IsChain mem' head' rest
  take_object-IsChain mem head k rest c =
      rw (c.at_head) (take_nodes mem c.nodes k rest c.chain c.objects)

  capacity_small : pack_capacity size < 65536
  unfolding pack_capacity
  capacity_small = ground arith

  -- A freed object as a node of its own, in front.
  new_node :
      (mem : Memory) (j : ℕ) (ns : Nodes)
      → j < invalid_index
      → is_node j ns ≡ false
      → Chain base size mem ns
      → Chain base size
          (update (update mem (base + j * size) (head_index ns)) (base + j * size + 2) 0)
          ((j, []) ∷ ns)
  new_node mem j ns small out c =
      let node = base + j * size in
      let mem1 = update mem node (head_index ns) in
      (
        small,
        out,
        omega arith,
        update-ne mem1 (node + 2) 0 node (omega arith) ∙ update_self mem node (head_index ns),
        update_self mem1 (node + 2) 0,
        tt,
        Chain-update base size room mem1 ns j (node + 2) 0 out (omega arith) (omega arith) (
            Chain-update base size room mem ns j node (head_index ns) out (omega arith)
              (omega arith) c),
      )

  -- A freed object packed into the head node.
  packed :
      (mem : Memory) (i j : ℕ) (ps : List ℕ) (ns : Nodes)
      → length ps < pack_capacity size
      → Chain base size mem ((i, ps) ∷ ns)
      → Chain base size
          (update
            (update mem (slot (base + i * size) (length ps)) j)
            (base + i * size + 2)
            (suc (length ps)))
          ((i, j ∷ ps) ∷ ns)
  packed mem i j ps ns more c =
      let node = base + i * size in
      let at = slot node (length ps) in
      let mem1 = update mem at j in
      let cap = capacity-le base size room in
      let low = update-ne mem at j in
      let high = update-ne mem1 (node + 2) (suc (length ps)) in
      (
        c.0,
        c.1,
        more,
        high node (omega arith) ∙ low node (omega arith) ∙ c.3,
        update_self mem1 (node + 2) (suc (length ps)),
        (
          high at (omega arith) ∙ update_self mem at j,
          Stored-same base size mem (update mem1 (node + 2) (suc (length ps))) i ps
              (λ k h. high (slot node k) (omega arith) ∙ low (slot node k) (omega arith)) c.5,
        ),
        Chain-update base size room mem1 ns i (node + 2) (suc (length ps)) c.1 (omega arith)
            (omega arith)
            (Chain-update base size room mem ns i at j c.1 (omega arith) (omega (arith, cap)) c.6),
      )

  put_nodes :
      (mem : Memory) (ns : Nodes) (j : ℕ)
      → Chain base size mem ns
      → j < invalid_index
      → contains j (free_objects ns) ≡ false
      → let (head, mem') = put_object base size (head_index ns) (base + j * size) mem in
        IsChain mem' head (j ∷ free_objects ns)
  unfolding put_object free_objects
  put_nodes mem [] j c small out = rw (ptr_to_index-object j (omega arith)) (record {
    nodes = (j, []) ∷ [];
    at_head = refl;
    objects = refl;
    chain = new_node mem j [] small refl c;
  })
  put_nodes mem ((i, ps) ∷ ns) j c small out =
      let valid : (i == invalid_index) ≡ false = ground (arith, c.0) in
      let a = index_to_ptr-eq i (omega (arith, c.0)) in
      let alone = is_node_of_contains j ((i, ps) ∷ ns) out in
      elim (Bool-cases (ltb (length ps) (pack_capacity size))) [
        | inl t ↦
            let d : (length ps + 1) % 2 ^ 16 ≡ suc (length ps) =
              omega (arith, ltb→lt _ _ t, capacity_small) in
            rw (ptr_to_index-object j (omega arith), valid, a, c.4, t, d)
              (record {
                nodes = (i, j ∷ ps) ∷ ns;
                at_head = refl;
                objects = refl;
                chain = packed mem i j ps ns (ltb→lt _ _ t) c;
              })
        | inr f ↦
            rw (ptr_to_index-object j (omega arith), valid, a, c.4, f)
              (record {
                nodes = (j, []) ∷ (i, ps) ∷ ns;
                at_head = refl;
                objects = refl;
                chain = new_node mem j ((i, ps) ∷ ns) small alone c;
              })
      ]

  -- On packed nodes that hold the free objects `free`, of a span whose objects have at least 4
  -- bytes and lie below `2 ^ 64`, the code by which `deallocate` puts back an object `j` that is
  -- not free and below `INVALID_INDEX` leaves packed nodes that hold `j ∷ free`, whether or not the
  -- head node has room.
  pub put_object-IsChain :
      (mem : Memory) (head j : ℕ) (free : List ℕ)
      → IsChain mem head free
      → j < invalid_index
      → contains j free ≡ false
      → let (head', mem') = put_object base size head (index_to_ptr j base size) mem in
        IsChain mem' head' (j ∷ free)
  put_object-IsChain mem head j free c small out =
      let out' = rw (← c.objects) at out in
      rw (c.at_head, index_to_ptr-eq j (omega arith))
        (rw (← c.objects) (put_nodes mem c.nodes j c.chain small out'))
