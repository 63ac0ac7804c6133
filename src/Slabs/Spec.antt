-- ===== src/Slabs/Spec.antt =====
-- What a slab promises: for each size class a stack of bounded size, apart from all the others.
use allocator.Prelude.{ℕ, Bool, true, false, List, [], ◌∷◌, ltb, if◌then◌else◌, length}
use allocator.Prelude.{Ptr, null, update}
use allocator.Config.{size_class_capacity}

unfoldable pub push : (cap : ℕ) → Ptr → List Ptr → Bool × List Ptr
push cap p xs = if ltb (length xs) cap then (true, p ∷ xs) else (false, xs)

unfoldable pub pop : List Ptr → Ptr × List Ptr
pop [] = (null, [])
pop (x ∷ xs) = (x, xs)

-- What a client asks of a slab, and what it is told.
pub data Op : Type 0 where
  put : (sc_idx : ℕ) → Ptr → Op
  get : (sc_idx : ℕ) → Op

pub data Reply : Type 0 where
  stored : Bool → Reply
  got : Ptr → Reply

unfoldable pub run : (ℕ → List Ptr) → List Op → List Reply
run stacks [] = []
run stacks (put i p ∷ ops) =
    let (ok, xs) = push (size_class_capacity i) p (stacks i) in
    stored ok ∷ run (update stacks i xs) ops
run stacks (get i ∷ ops) = let (p, xs) = pop (stacks i) in got p ∷ run (update stacks i xs) ops
