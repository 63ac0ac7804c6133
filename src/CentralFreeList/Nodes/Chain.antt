-- ===== src/CentralFreeList/Nodes/Chain.antt =====
-- The chain of packed nodes in the memory of a span.
use native.Mathlib.Nat.{mul-le-mul_right}
use native.Mathlib.Decide.{dec_lt}
use allocator.Prelude.{
  ℕ, suc, ◌+◌, ◌*◌, ◌≤◌, ◌<◌, ◌≡◌, refl, ◌∙◌, Bool, true, false, ◌||◌, ◌⊎◌, inl, inr, List, [], ◌∷◌,
  ◌++◌, arith, ◌==◌, Ptr, update, length,
}
use allocator.PageHeap.State.{invalid_index}
use allocator.CentralFreeList.Nodes.{Memory, slot, pack_capacity}

-- Each node is one free object, with the indexes that are packed into it, the last packed first.
abbrev pub Nodes : Type 0
Nodes = List (ℕ × List ℕ)

abbrev pub head_index : Nodes → ℕ
head_index [] = invalid_index
head_index ((i, _) ∷ _) = i

-- The free objects, in the order in which `allocate` hands them out.
unfoldable pub free_objects : Nodes → List ℕ
free_objects [] = []
free_objects ((i, ps) ∷ ns) = ps ++ i ∷ free_objects ns

unfoldable pub contains : ℕ → List ℕ → Bool
contains a [] = false
contains a (x ∷ xs) = (a == x) || contains a xs

abbrev pub is_node : ℕ → Nodes → Bool
is_node a [] = false
is_node a ((i, _) ∷ ns) = (a == i) || is_node a ns

contains-append :
    (a : ℕ) (xs ys : List ℕ) → contains a (xs ++ ys) ≡ (contains a xs || contains a ys)
unfolding contains
contains-append a [] ys = refl
contains-append a (x ∷ xs) ys = ground (arith, contains-append a xs ys)

-- An object that is not free is no node.
pub is_node_of_contains :
    (a : ℕ) (ns : Nodes) → contains a (free_objects ns) ≡ false → is_node a ns ≡ false
unfolding free_objects contains
is_node_of_contains a [] out = refl
is_node_of_contains a ((i, ps) ∷ ns) out =
    ground (arith, contains-append a ps (i ∷ free_objects ns), is_node_of_contains a ns)

-- The packed indexes of a node in its slots.
abbrev pub Stored : Memory → Ptr → List ℕ → Type 0
Stored mem node [] = Unit
Stored mem node (p ∷ ps) = (mem (slot node (length ps)) ≡ p) × Stored mem node ps

-- A class's objects: the addresses of a span's objects do not wrap.
module _ (base : Ptr) (size : ℕ) where
  -- The address of an object.
  abbrev pub object : ℕ → Ptr
  object i = base + i * size

  abbrev pub Chain : Memory → Nodes → Type 0
  Chain mem [] = Unit
  Chain mem ((i, ps) ∷ ns) =
      (i < invalid_index)
      × (is_node i ns ≡ false)
      × (length ps ≤ pack_capacity size)
      × (mem (object i) ≡ head_index ns)
      × (mem (object i + 2) ≡ length ps)
      × Stored mem (object i) ps
      × Chain mem ns

  -- Two memories agree on the bytes of an object.
  abbrev pub SameObject : Memory → Memory → ℕ → Type 0
  SameObject mem mem' i = (a : Ptr) → object i ≤ a → a < object i + size → mem' a ≡ mem a

  pub Stored-same :
      (mem mem' : Memory) (i : ℕ) (ps : List ℕ)
      → ((k : ℕ) → k < length ps → mem' (slot (object i) k) ≡ mem (slot (object i) k))
      → Stored mem (object i) ps
      → Stored mem' (object i) ps
  Stored-same mem mem' i [] same s = tt
  Stored-same mem mem' i (p ∷ ps) same s = (
    same (length ps) (omega arith) ∙ s.0,
    Stored-same mem mem' i ps (λ k h. same k (omega arith)) s.1,
  )

  module _ (room : 4 ≤ size) where
    pub capacity-le : 4 + 2 * pack_capacity size ≤ size
    unfolding pack_capacity
    capacity-le = ground arith

    pub Chain-same :
        (mem mem' : Memory) (ns : Nodes)
        → ((i : ℕ) → is_node i ns ≡ true → SameObject mem mem' i)
        → Chain mem ns
        → Chain mem' ns
    Chain-same mem mem' [] same c = tt
    Chain-same mem mem' ((i, ps) ∷ ns) same c =
        let here = same i (ground arith) in
        (
          c.0,
          c.1,
          c.2,
          here (object i) (omega arith) (omega arith) ∙ c.3,
          here (object i + 2) (omega arith) (omega arith) ∙ c.4,
          Stored-same mem mem' i ps
              (λ k h. here (slot (object i) k) (omega arith) (omega (arith, capacity-le, c.2))) c.5,
          Chain-same mem mem' ns (λ j h. same j (ground arith)) c.6,
        )

    -- Two objects do not overlap.
    pub objects_apart :
        (i j : ℕ) → (i == j) ≡ false → (object i + size ≤ object j) ⊎ (object j + size ≤ object i)
    objects_apart i j ne = elim (dec_lt i j) [
      | yes lt ↦ inl (omega (arith, mul-le-mul_right size lt))
      | no ge ↦ inr (omega (arith, mul-le-mul_right {m = suc j} {n = i} size (ground arith)))
    ]

    -- A write inside an object that is no node leaves the chain.
    pub Chain-update :
        (mem : Memory) (ns : Nodes) (j : ℕ) (a v : ℕ)
        → is_node j ns ≡ false
        → object j ≤ a
        → a < object j + size
        → Chain mem ns
        → Chain (update mem a v) ns
    Chain-update mem ns j a v out lo hi c =
        Chain-same mem (update mem a v) ns
          (λ i h b p q. ground (arith, objects_apart i j (apart i h))) c
      where
        apart : (i : ℕ) → is_node i ns ≡ true → (i == j) ≡ false
        apart i h = ground arith
