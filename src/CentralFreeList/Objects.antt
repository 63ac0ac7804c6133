-- ===== src/CentralFreeList/Objects.antt =====
-- The objects of one span: which are free, never used, or in use.
pub mod Count
pub mod Populate
pub mod Take
pub mod Put
use allocator.Prelude.{
  ℕ, zero, suc, ◌+◌, ◌-◌, ◌*◌, ◌/◌, ◌%◌, ◌^◌, ◌≤◌, ◌<◌, ◌≡◌, ◌≢◌, refl, sym, ap, ◌∙◌, Bool, true,
  false, not, ◌&&◌, ◌||◌, List, [], ◌∷◌, arith, ltb, leb, ◌==◌, if◌then◌else◌, Ptr, null, length,
  Option, some,
}
use allocator.Config.{page_size}
use allocator.PageHeap.State.{Span, invalid_index}
use allocator.CentralFreeList.{Central}
use allocator.CentralFreeList.Nodes.{Memory}
use allocator.CentralFreeList.Nodes.Chain.{Nodes, head_index, contains, free_objects, Chain}
use allocator.CentralFreeList.Nodes.Objects.{IsChain}

-- No object is listed twice.
abbrev pub Distinct : List ℕ → Type 0
Distinct [] = Unit
Distinct (x ∷ xs) = (contains x xs ≡ false) × Distinct xs

-- Whether the object `k` of a span is in a client's hands.
unfoldable pub in_use : Span → (free : List ℕ) → (k : ℕ) → Bool
unfolding contains
in_use s free k = ltb k s.next_uninitialized && not (contains k free)

-- The span `p` of a central free list, with its free objects in the order in which they are handed
-- out. Its memory does not wrap, and the class's count holds all that may become free.
pub record SpanOk (c : Central) (p : Ptr) (s : Span) (free : List ℕ) : Type 0 where
  pub live : p ≢ null
  pub at : c.heap.spans p ≡ some s
  pub room : 4 ≤ c.cfl.size
  pub fits : s.start * page_size + 65536 * c.cfl.size ≤ 2 ^ 64
  pub chain : IsChain (s.start * page_size) c.cfl.size room fits c.mem s.freelist_head free
  pub distinct : Distinct free
  pub started : (k : ℕ) → contains k free ≡ true → k < s.next_uninitialized
  pub upto : s.next_uninitialized ≤ s.total_objects
  pub small : s.total_objects ≤ invalid_index
  pub counted : s.num_free_objects ≡ length free
  pub class_counted : length free ≤ c.cfl.num_free
  pub class_small : c.cfl.num_free + s.total_objects < 2 ^ 32 + length free

-- `base` as the code computes it.
pub base-eq :
    (start size : ℕ)
    → 0 < size
    → start * page_size + 65536 * size ≤ 2 ^ 64
    → start * page_size % 2 ^ 64 ≡ start * page_size
base-eq start size pos fits = omega arith

nodes_empty :
    (base size : ℕ) (mem : Memory) (ns : Nodes)
    → Chain base size mem ns
    → (head_index ns == invalid_index) ≡ true
    → free_objects ns ≡ []
unfolding free_objects
nodes_empty base size mem [] c e = refl
nodes_empty base size mem ((i, ps) ∷ ns) c e = absurd (ground (arith, c.0))

empty_nodes : (ns : Nodes) → free_objects ns ≡ [] → (head_index ns == invalid_index) ≡ true
unfolding free_objects
empty_nodes [] e = refl
empty_nodes ((i, []) ∷ ns) e = absurd (cc e)
empty_nodes ((i, p ∷ ps) ∷ ns) e = absurd (cc e)

-- The list of free objects is empty exactly if the head is `INVALID_INDEX`.
pub empty_of_head :
    (c : Central) (p : Ptr) (s : Span) (free : List ℕ)
    → SpanOk c p s free
    → (s.freelist_head == invalid_index) ≡ true
    → free ≡ []
empty_of_head c p s free v e =
    sym v.chain.objects
    ∙ nodes_empty (s.start * page_size) c.cfl.size c.mem v.chain.nodes v.chain.chain
        (ap (λ h. h == invalid_index) (sym v.chain.at_head) ∙ e)

pub head_of_empty :
    (c : Central) (p : Ptr) (s : Span) → SpanOk c p s [] → (s.freelist_head == invalid_index) ≡ true
head_of_empty c p s v =
    ap (λ h. h == invalid_index) v.chain.at_head ∙ empty_nodes v.chain.nodes v.chain.objects
