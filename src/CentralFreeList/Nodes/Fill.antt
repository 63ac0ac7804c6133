-- ===== src/CentralFreeList/Nodes/Fill.antt =====
-- The loops of `populate_span`: objects that were never used become free.
use allocator.Prelude.{
  ℕ, zero, suc, ◌+◌, ◌-◌, ◌*◌, ◌%◌, ◌^◌, ◌≤◌, ◌<◌, ◌≡◌, refl, sym, ap, ap₂, ◌∙◌, true, false, ◌⊎◌,
  List, [], ◌∷◌, ◌++◌, arith, ltb, ◌==◌, Ptr, update, update_self, update-ne, length, lt→ltb, min,
}
use mathlib.Core.Path.{subst}
use allocator.Config.{add32}
use allocator.PageHeap.State.{invalid_index}
use allocator.CentralFreeList.Nodes.{
  Memory, Filling, slot, pack_capacity, pack_indexes, fill_node, fill_nodes,
}
use allocator.CentralFreeList.Nodes.Chain.{
  Nodes, head_index, free_objects, contains, is_node, is_node_of_contains, Stored, Chain,
  Chain-same, Stored-same, objects_apart, capacity-le,
}
use allocator.CentralFreeList.Nodes.Objects.{IsChain, index_to_ptr-eq}

-- `i`, `i + 1`, … `i + n - 1`, each put in front.
unfoldable pub push_range : (i n : ℕ) → List ℕ → List ℕ
push_range i zero acc = acc
push_range i (suc n) acc = push_range (i + 1) n (i ∷ acc)

push_range-append : (i n : ℕ) (xs ys : List ℕ) → push_range i n xs ++ ys ≡ push_range i n (xs ++ ys)
unfolding push_range
push_range-append i zero xs ys = refl
push_range-append i (suc n) xs ys = push_range-append (i + 1) n (i ∷ xs) ys

push_range-add :
    (i m n : ℕ) (xs : List ℕ) → push_range i (m + n) xs ≡ push_range (i + m) n (push_range i m xs)
unfolding push_range
push_range-add i zero n xs =
    let e : zero + n ≡ n = omega arith in
    let e' : i ≡ i + zero = omega arith in ap₂ (λ a b. push_range a b xs) e' e
push_range-add i (suc m) n xs =
    let e : suc m + n ≡ suc (m + n) = omega arith in
    let e' : i + 1 + m ≡ i + suc m = omega arith in
    ap (λ k. push_range i k xs) e
    ∙ push_range-add (i + 1) m n (i ∷ xs)
    ∙ ap (λ k. push_range k n (push_range (i + 1) m (i ∷ xs))) e'

pub length-push_range : (i n : ℕ) (xs : List ℕ) → length (push_range i n xs) ≡ n + length xs
unfolding push_range
length-push_range i zero xs = omega arith
length-push_range i (suc n) xs = omega (arith, length-push_range (i + 1) n (i ∷ xs))

contains-push_range :
    (i n k : ℕ) (xs : List ℕ)
    → i + n ≤ k
    → contains k xs ≡ false
    → contains k (push_range i n xs) ≡ false
unfolding push_range contains
contains-push_range i zero k xs h out = out
contains-push_range i (suc n) k xs h out =
    contains-push_range (i + 1) n k (i ∷ xs) (omega arith) (ground arith)

-- A write to a slot above those in use.
Stored-below :
    (mem : Memory) (node : Ptr) (packed v : ℕ) (ps : List ℕ)
    → Stored mem node ps
    → length ps ≤ packed
    → Stored (update mem (slot node packed) v) node ps
Stored-below mem node packed v [] s h = tt
Stored-below mem node packed v (p ∷ ps) s h = (
  update-ne mem (slot node packed) v (slot node (length ps)) (omega arith) ∙ s.0,
  Stored-below mem node packed v ps s.1 (omega arith),
)

-- What the inner loop returns: `n` indexes are packed, from `i` on.
record Packed (node : Ptr) (n packed i : ℕ) (ps : List ℕ) (mem : Memory) (out : ℕ × ℕ × Memory)
    : Type 0 where
  count : out.0 ≡ packed + n
  next : out.1 ≡ i + n
  stored : Stored out.2 node (push_range i n ps)
  same : (a : Ptr) → (a < slot node packed) ⊎ (slot node (packed + n) ≤ a) → out.2 a ≡ mem a

pack_indexes-Packed :
    (node : Ptr) (chunk_end rounds packed i n : ℕ) (ps : List ℕ) (mem : Memory)
    → n ≡ min rounds (chunk_end - i)
    → chunk_end ≤ 65536
    → length ps ≡ packed
    → Stored mem node ps
    → Packed node n packed i ps mem (pack_indexes node chunk_end rounds packed i mem)
unfolding pack_indexes push_range
pack_indexes-Packed node chunk_end zero packed i zero ps mem e small l s = record {
  count = omega arith;
  next = omega arith;
  stored = s;
  same = λ a o. refl;
}
pack_indexes-Packed node chunk_end zero packed i (suc n) ps mem e small l s = absurd (omega arith)
pack_indexes-Packed node chunk_end (suc rounds) packed i zero ps mem e small l s =
    let f : ltb i chunk_end ≡ false = ground arith in
    rw f (record { count = omega arith; next = omega arith; stored = s; same = λ a o. refl })
pack_indexes-Packed node chunk_end (suc rounds) packed i (suc n) ps mem e small l s =
    let t : ltb i chunk_end ≡ true = lt→ltb _ _ (omega arith) in
    let w : i % 2 ^ 16 ≡ i = omega arith in
    let at = slot node packed in
    let mem1 = update mem at i in
    let s' : Stored mem1 node (i ∷ ps) = (
      ap mem1 (ap (slot node) l) ∙ update_self mem at i,
      Stored-below mem node packed i ps s (omega arith),
    ) in
    let r =
      pack_indexes-Packed node chunk_end rounds (packed + 1) (i + 1) n (i ∷ ps) mem1 (omega arith)
        small (omega arith) s' in
    rw (t, w)
      (record {
        count = omega (arith, r.count);
        next = omega (arith, r.next);
        stored = r.stored;
        same = λ a o. r.same a (omega arith) ∙ update-ne mem at i a (omega arith);
      })

module _ (base : Ptr) (size : ℕ) (room : 4 ≤ size) (fits : base + 65536 * size ≤ 2 ^ 64) where
  -- One node filled: the object `i`, with the `n` after it packed in.
  filled :
      (mem : Memory) (i n : ℕ) (ns : Nodes) (out : ℕ × ℕ × Memory)
      → i < invalid_index
      → is_node i ns ≡ false
      → n ≤ pack_capacity size
      → Chain base size mem ns
      → Packed (base + i * size) n 0 (i + 1) [] (update mem (base + i * size) (head_index ns)) out
      → Chain base size
          (update out.2 (base + i * size + 2) out.0)
          ((i, push_range (i + 1) n []) ∷ ns)
  filled mem i n ns out small alone few c r =
      let node = base + i * size in
      let mem0 = update mem node (head_index ns) in
      let high = update-ne out.2 (node + 2) out.0 in
      let cap = capacity-le base size room in
      let len = length-push_range (i + 1) n [] in
      (
        small,
        alone,
        omega (arith, len),
        high node (omega arith) ∙ r.same node (omega arith) ∙ update_self mem node (head_index ns),
        update_self out.2 (node + 2) out.0 ∙ omega (arith, r.count, len),
        Stored-same base size out.2 (update out.2 (node + 2) out.0) i (push_range (i + 1) n [])
            (λ k h. high (slot node k) (omega arith)) r.stored,
        Chain-same base size room mem (update out.2 (node + 2) out.0) ns
            (λ j h a p q. untouched j a (objects_apart base size room i j (differ j h)) p q) c,
      )
    where
      differ : (j : ℕ) → is_node j ns ≡ true → (i == j) ≡ false
      differ j h = ground arith

      untouched :
          (j : ℕ) (a : Ptr)
          → (base + i * size + size ≤ base + j * size) ⊎ (base + j * size + size ≤ base + i * size)
          → base + j * size ≤ a
          → a < base + j * size + size
          → update out.2 (base + i * size + 2) out.0 a ≡ mem a
      untouched j a apart p q =
          update-ne out.2 (base + i * size + 2) out.0 a (omega arith)
          ∙ r.same a (omega (arith, capacity-le base size room))
          ∙ update-ne mem (base + i * size) (head_index ns) a (omega arith)

  -- What the outer loop leaves, from object `i` up to `chunk_end`.
  pub record Filled (f f' : Filling) (i n : ℕ) (free : List ℕ) : Type 0 where
    pub chain : IsChain base size room fits f'.mem f'.freelist_head (push_range i n free)
    pub span_count : f'.num_free_objects ≡ add32 f.num_free_objects n
    pub class_count : f'.num_free ≡ add32 f.num_free n

  fill_node-Filled :
      (chunk_end i m : ℕ) (free : List ℕ) (f : Filling)
      → chunk_end ≤ invalid_index
      → i < chunk_end
      → m ≡ min (pack_capacity size) (chunk_end - (i + 1))
      → IsChain base size room fits f.mem f.freelist_head free
      → contains i free ≡ false
      → ((fill_node base size chunk_end i f).0 ≡ i + 1 + m)
        × Filled f (fill_node base size chunk_end i f).1 i (suc m) free
  unfolding fill_node push_range free_objects
  fill_node-Filled chunk_end i m free f small lt e c fresh =
      let w : i % 2 ^ 16 ≡ i = omega arith in
      let node = base + i * size in
      let alone : is_node i c.nodes ≡ false = is_node_of_contains i c.nodes (rw c.objects fresh) in
      let r =
        pack_indexes-Packed node chunk_end (pack_capacity size) 0 (i + 1) m []
          (update f.mem node (head_index c.nodes)) e (omega arith) refl tt in
      rw (w, index_to_ptr-eq base size room fits i (omega arith), c.at_head)
        (
          r.next,
          record {
            chain = record {
              nodes = (i, push_range (i + 1) m []) ∷ c.nodes;
              at_head = refl;
              objects =
                  push_range-append (i + 1) m [] (i ∷ free_objects c.nodes)
                  ∙ ap (λ xs. push_range (i + 1) m (i ∷ xs)) c.objects;
              chain = filled f.mem i m c.nodes _ (omega arith) alone (omega arith) c.chain r;
            };
            span_count = omega (arith, r.count);
            class_count = omega (arith, r.count);
          },
        )

  -- The loops of `populate_span`, with a round for each object from `i` up to `chunk_end`, which is
  -- at most `INVALID_INDEX`, on packed nodes that hold no object from `i` on, of a span whose
  -- objects have at least 4 bytes and lie below `2 ^ 64`, with both counts below `2 ^ 32`, make
  -- exactly these objects free, on top of those that were, and add their number to both 32-bit
  -- counts.
  pub fill_nodes-Filled :
      (chunk_end rounds i n : ℕ) (free : List ℕ) (f : Filling)
      → chunk_end ≤ invalid_index
      → n ≡ chunk_end - i
      → n ≤ rounds
      → IsChain base size room fits f.mem f.freelist_head free
      → ((k : ℕ) → i ≤ k → contains k free ≡ false)
      → f.num_free_objects < 2 ^ 32
      → f.num_free < 2 ^ 32
      → Filled f (fill_nodes base size chunk_end rounds i f) i n free
  unfolding fill_nodes push_range
  fill_nodes-Filled chunk_end zero i zero free f small e enough c fresh b1 b2 = record {
    chain = c;
    span_count = omega arith;
    class_count = omega arith;
  }
  fill_nodes-Filled chunk_end zero i (suc n) free f small e enough c fresh b1 b2 =
      absurd (omega arith)
  fill_nodes-Filled chunk_end (suc rounds) i zero free f small e enough c fresh b1 b2 =
      let t : ltb i chunk_end ≡ false = ground arith in
      rw t (record { chain = c; span_count = omega arith; class_count = omega arith })
  fill_nodes-Filled chunk_end (suc rounds) i (suc n) free f small e enough c fresh b1 b2 =
      let t : ltb i chunk_end ≡ true = lt→ltb _ _ (omega arith) in
      let m = min (pack_capacity size) (chunk_end - (i + 1)) in
      let (next, r) =
        fill_node-Filled chunk_end i m free f small (omega arith) refl c (fresh i (omega arith)) in
      let f' = (fill_node base size chunk_end i f).1 in
      let rest =
        fill_nodes-Filled chunk_end rounds (i + 1 + m) (n - m) (push_range i (suc m) free) f' small
          (omega arith) (omega arith) r.chain
          (λ k h. contains-push_range i (suc m) k free (omega arith) (fresh k (omega arith)))
          (omega (arith, r.span_count)) (omega (arith, r.class_count)) in
      let e1 : i + suc m ≡ i + 1 + m = omega arith in
      let e2 : suc n ≡ suc m + (n - m) = omega arith in
      let split : push_range i (suc n) free
          ≡ push_range (i + 1 + m) (n - m) (push_range i (suc m) free) =
        ap (λ k. push_range i k free) e2
        ∙ push_range-add i (suc m) (n - m) free
        ∙ ap (λ k. push_range k (n - m) (push_range i (suc m) free)) e1 in
      let whole = fill_nodes base size chunk_end rounds (i + 1 + m) f' in
      rw (t, next)
        (record {
          chain =
              subst (IsChain base size room fits whole.mem whole.freelist_head) (sym split)
                rest.chain;
          span_count = omega (arith, rest.span_count, r.span_count);
          class_count = omega (arith, rest.class_count, r.class_count);
        })
