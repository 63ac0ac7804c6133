-- ===== src/Allocator/Front/Runs.antt =====
-- Sequences of `allocate` and `deallocate` by a thread that nothing disturbs, as long as the front of
-- the allocator serves them.
use allocator.Prelude.{
  ℕ, ◌+◌, ◌/◌, ◌≤◌, ◌<◌, ◌≡◌, ◌≢◌, sym, ap, ◌∙◌, ◌⊎◌, inl, inr, some, List, [], ◌∷◌, ◌++◌, arith,
  ◌==◌, Ptr, null, length, update, Bool-cases, ==→eq,
}
use mathlib.Core.Path.{subst, subst₂}
use mathlib.Core.List.{
  append_assoc, Perm, Nodup, perm_middle, perm_append_singleton, perm_append_comm,
}
use mathlib.Core.List.Perm
use allocator.Config.{page_size, size_class_capacity, transfer_cache_capacity}
use allocator.SizeClasses.{size_class, round_size_class}
use allocator.Slabs.Access.{Thread}
use allocator.Slabs.Access.Alone.{Alone}
use allocator.TransferCache.Refine.{contents}
use allocator.PageHeap.State.{Span, System}
use allocator.SizeClasses.Rounding.{round_size_class-BestFit}
use allocator.Allocator.{Allocator, allocate, deallocate}
use allocator.Allocator.Front.{
  in_slab, in_cache, FrontOk, Holds, SameCentral, SameCentral-refl, SameCentral-trans,
}
use allocator.Allocator.Front.Served.{Served, allocate-Served}
use allocator.Allocator.Front.Returned.{Returned, deallocate-Returned}

-- All that the front holds of a class.
abbrev pub stock : Allocator → (c i : ℕ) → List Ptr
stock a c i = in_slab a c i ++ in_cache a i

stock-Holds :
    (a a' : Allocator) (c i : ℕ) (xs ys : List Ptr) → Holds a a' c i xs ys → stock a' c i ≡ xs ++ ys
stock-Holds a a' c i xs ys h = ap (λ zs. zs ++ in_cache a' i) h.slab ∙ ap (λ zs. xs ++ zs) h.cache

stock-other :
    (a a' : Allocator) (c i j : ℕ) (xs ys : List Ptr)
    → Holds a a' c i xs ys
    → j < 48
    → j ≢ i
    → stock a' c j ≡ stock a c j
stock-other a a' c i j xs ys h l ne =
    ap (λ zs. zs ++ in_cache a' j) (h.other_classes j l ne)
    ∙ ap (λ t. in_slab a c j ++ contents t) (h.other_caches j ne)

-- A batch behind what is left is a batch in front of it.
last_first : (xs ys : List Ptr) (p : Ptr) → Perm (ys ++ (xs ++ p ∷ [])) (p ∷ (xs ++ ys))
last_first xs ys p =
    Perm.trans (perm_append_comm ys (xs ++ p ∷ []))
      (Perm.append_right ys (perm_append_singleton p xs))

Served-perm :
    (a a' : Allocator) (c i : ℕ) (p : Ptr)
    → Served a a' c i p
    → Perm (stock a c i) (p ∷ stock a' c i)
Served-perm a a' c i p s =
    subst (λ zs. Perm (stock a c i) (p ∷ zs)) (sym (stock-Holds a a' c i _ _ s.holds))
      (elim s.source [
        | inl (e, e') ↦
            subst (λ zs. Perm zs (p ∷ (s.in_hand ++ s.behind)))
              (sym (ap (λ zs. zs ++ in_cache a i) e ∙ ap (λ zs. (p ∷ s.in_hand) ++ zs) e'))
              (Perm.refl _)
        | inr (e, e', len) ↦
            subst (λ zs. Perm zs (p ∷ (s.in_hand ++ s.behind)))
              (sym (ap (λ zs. zs ++ in_cache a i) e ∙ e')) (last_first s.in_hand s.behind p)
      ])

Returned-perm :
    (a a' : Allocator) (c i : ℕ) (p : Ptr)
    → Returned a a' c i p
    → Perm (p ∷ stock a c i) (stock a' c i)
Returned-perm a a' c i p r =
    subst (Perm (p ∷ stock a c i)) (sym (stock-Holds a a' c i _ _ r.holds)) (Perm.cons p inner)
  where
    inner : Perm (stock a c i) (r.in_hand ++ r.behind)
    inner = elim r.target [
      | inl (room, e, e') ↦
          subst (Perm (stock a c i))
            (ap (λ zs. zs ++ in_cache a i) (sym e) ∙ ap (λ zs. r.in_hand ++ zs) (sym e'))
            (Perm.refl _)
      | inr (batch, full, len, e, e') ↦
          let before =
            ap (λ zs. zs ++ in_cache a i) e ∙ append_assoc batch r.in_hand (in_cache a i) in
          let after =
            append_assoc r.in_hand (in_cache a i) batch ∙ ap (λ zs. r.in_hand ++ zs) (sym e') in
          subst₂ Perm (sym before) after (perm_append_comm batch (r.in_hand ++ in_cache a i))
    ]

-- What a thread holds of each class.
abbrev pub Held : Type 0
Held = ℕ → List Ptr

-- All objects of a class, with the thread of the CPU `c` or in the front.
abbrev pub objects : (c : ℕ) → Held → Allocator → (i : ℕ) → List Ptr
objects c held a i = held i ++ stock a c i

-- A step on the class `i` leaves the objects of every class.
objects-step :
    (c i : ℕ) (held : Held) (a a' : Allocator) (mine xs ys : List Ptr)
    → Holds a a' c i xs ys
    → Perm (objects c held a i) (mine ++ stock a' c i)
    → (j : ℕ) → j < 48
    → Perm (objects c held a j) (objects c (update held i mine) a' j)
objects-step c i held a a' mine xs ys h e j l = elim (Bool-cases (i == j)) [
  | inl t ↦
      let k = ==→eq i j t in
      rw t (subst (λ m. Perm (objects c held a m) (mine ++ stock a' c m)) k e)
  | inr f ↦ rw f (
      subst (λ zs. Perm (objects c held a j) (held j ++ zs))
        (sym (stock-other a a' c i j xs ys h l (ground arith))) (Perm.refl _))
]

Served-objects :
    (c i : ℕ) (held : Held) (a a' : Allocator) (p : Ptr)
    → Served a a' c i p
    → (j : ℕ) → j < 48
    → Perm (objects c held a j) (objects c (update held i (p ∷ held i)) a' j)
Served-objects c i held a a' p s =
    objects-step c i held a a' (p ∷ held i) s.in_hand s.behind s.holds (
      Perm.trans (Perm.append_left (held i) (Served-perm a a' c i p s))
        (perm_middle (held i) (stock a' c i)))

Returned-objects :
    (c i : ℕ) (held : Held) (a a' : Allocator) (p : Ptr) (xs ys : List Ptr)
    → Returned a a' c i p
    → held i ≡ xs ++ p ∷ ys
    → (j : ℕ) → j < 48
    → Perm (objects c held a j) (objects c (update held i (xs ++ ys)) a' j)
Returned-objects c i held a a' p xs ys r mine =
    objects-step c i held a a' (xs ++ ys) (p ∷ r.in_hand) r.behind r.holds (
      Perm.trans
        (subst (λ zs. Perm (zs ++ stock a c i) (p ∷ ((xs ++ ys) ++ stock a c i))) (sym mine)
          (Perm.append_right (stock a c i) (perm_middle xs ys)))
        (Perm.trans (Perm.symm (perm_middle (xs ++ ys) (stock a c i)))
          (Perm.append_left (xs ++ ys) (Returned-perm a a' c i p r))))

module _ (sys : System) (threads : ℕ → Thread) (fuel c : ℕ) where
  -- The allocators after some calls, with what the thread holds. It frees only what it holds, in
  -- spans of the class. Each call is one that the front serves.
  pub data Run (held : Held) (a : Allocator) : Held → Allocator → Type 0 where
    start : Run held a held a
    took :
        {held' : Held} {a' a'' : Allocator} (n : ℕ) (p : Ptr)
        → Run held a held' a'
        → n ≤ 262144
        → (in_slab a' c (round_size_class n).1 ≢ []) ⊎ (in_cache a' (round_size_class n).1 ≢ [])
        → allocate sys threads fuel n a' ≡ some (p, a'')
        → Run held a (update held' (round_size_class n).1 (p ∷ held' (round_size_class n).1)) a''
    gave :
        {held' : Held} {a' a'' : Allocator} (i : ℕ) (p : Ptr) (xs ys : List Ptr) (q : Ptr)
        (s : Span)
        → Run held a held' a'
        → 0 < i
        → i < 48
        → p ≢ null
        → held' i ≡ xs ++ p ∷ ys
        → q ≢ null
        → a'.page_heap.page_map (p / page_size) ≡ some q
        → a'.page_heap.spans q ≡ some s
        → s.size ≡ (size_class i).size
        → (length (in_slab a' c i) < size_class_capacity i)
          ⊎ (length (in_cache a' i) + (size_class i).batch_size ≤ transfer_cache_capacity)
        → deallocate sys threads fuel p a' ≡ some (tt, a'')
        → Run held a (update held' i (xs ++ ys)) a''

  module _ (alone : (n : ℕ) → Alone c (threads n)) where
    -- What holds of a run from `held` and `a`.
    record Ran (held held' : Held) (a a' : Allocator) : Type 0 where
      ok : FrontOk a' c
      central : SameCentral a a'
      same : (i : ℕ) → i < 48 → Perm (objects c held a i) (objects c held' a' i)

    Run-Ran :
        {held : Held} {a : Allocator} {held' : Held} {a' : Allocator}
        → FrontOk a c
        → Run held a held' a'
        → Ran held held' a a'
    Run-Ran v start = record { ok = v; central = SameCentral-refl _; same = λ i l. Perm.refl _ }
    Run-Ran {held} {a} v (took {held' = k} {a' = b} {a'' = d} n p r small some_left run) =
        let before = Run-Ran v r in
        let (p', d', run', s) =
          allocate-Served sys threads fuel c alone n b before.ok small some_left in
        let same_p : p' ≡ p = cc in
        let same_d : d' ≡ d = cc in
        let s' = subst₂ (λ x y. Served b x c (round_size_class n).1 y) same_d same_p s in
        let lt = (round_size_class-BestFit n small).last in
        record {
          ok = s'.holds.ok;
          central = SameCentral-trans a b d before.central s'.central;
          same = λ j l.
              Perm.trans (before.same j l) (Served-objects c (round_size_class n).1 k b d p s' j l);
        }
    Run-Ran {held} {a} v
          (gave {held' = k} {a' = b} {a'' = d} i p xs ys q s r pos lt live mine q_live mapped at
            size room run) =
        let before = Run-Ran v r in
        let (d', run', t) =
          deallocate-Returned sys threads fuel c i alone pos lt p live b q s before.ok q_live mapped
            at size room in
        let same_d : d' ≡ d = cc in
        let t' = subst (λ x. Returned b x c i p) same_d t in
        record {
          ok = t'.holds.ok;
          central = SameCentral-trans a b d before.central t'.central;
          same =
              λ j l. Perm.trans (before.same j l) (Returned-objects c i k b d p xs ys t' mine j l);
        }

    -- Take any sequence of `allocate` and `deallocate` calls of a thread that nothing disturbs, on
    -- a front in order, in which the thread frees only what it holds and the front serves each
    -- call. Then the objects of every class below 48 that the thread holds, and that its slab and
    -- the transfer cache hold, are together those from before, each as often: if they differed,
    -- they differ, so that no object is handed out twice. The front is in order, and the layers
    -- behind it are as before.
    pub Run-Conserved :
        (held : Held) (a : Allocator) (held' : Held) (a' : Allocator) (i : ℕ)
        → FrontOk a c
        → Run held a held' a'
        → i < 48
        → Perm (objects c held a i) (objects c held' a' i)
          × (Nodup (objects c held a i) → Nodup (objects c held' a' i))
          × FrontOk a' c
          × SameCentral a a'
    Run-Conserved held a held' a' i v r lt =
        let x = Run-Ran v r in (x.same i lt, Perm.nodup (x.same i lt), x.ok, x.central)
