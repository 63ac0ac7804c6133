-- ===== src/Allocator/Front/Served.antt =====
-- `allocate` where the front of the allocator serves it, in a thread that nothing disturbs.
use allocator.Prelude.{
  ℕ, ◌+◌, ◌≤◌, ◌<◌, ◌≡◌, ◌≢◌, refl, sym, ap, ◌∙◌, ◌⊎◌, inl, inr, false, some, List, [], ◌∷◌, ◌++◌,
  arith, ◌==◌, Ptr, null, length, min, length-append, if◌then◌else◌,
}
use mathlib.Core.Path.{subst}
use mathlib.Core.List.{reverse, reverse-cons, reverse-reverse, append-nil}
use allocator.Config.{size_class_capacity}
use allocator.Config.Offsets.{batch-le-capacity}
use allocator.SizeClasses.{size_class, round_size_class}
use allocator.SizeClasses.Rounding.{round_size_class-BestFit}
use allocator.SizeClasses.Table.{size_class-IsClass}
use allocator.Slabs.Access.{Thread}
use allocator.Slabs.Access.Alone.{Alone}
use allocator.PageHeap.State.{System}
use allocator.Allocator.{Allocator, Cmd, ◌>>=◌, pure, allocate, hand_out, pop_slab, refill_batch}
use allocator.Allocator.Front.{
  in_slab, in_cache, NoNull, FrontOk, Holds, SameCentral, SameCentral-trans, Holds-trans,
}
use allocator.Allocator.Front.Steps.{Ends, pop_slab-nil, pop_slab-cons}
use allocator.Allocator.Front.Batches.{
  NoNull-append, NoNull-right, refill_batch-Ends, publish-Ends, length-pos,
}

-- What a client gets: the pointer in front of the slab; or, if the slab is empty, the newest of the
-- transfer cache, with the rest of the batch now in the slab.
pub record Served (a a' : Allocator) (c i : ℕ) (p : Ptr) : Type 0 where
  pub in_hand : List Ptr
  pub behind : List Ptr
  pub holds : Holds a a' c i in_hand behind
  pub central : SameCentral a a'
  pub live : p ≢ null
  pub source :
      ((in_slab a c i ≡ p ∷ in_hand) × (in_cache a i ≡ behind))
      ⊎ ((in_slab a c i ≡ [])
          × (in_cache a i ≡ behind ++ (in_hand ++ p ∷ []))
          × (length in_hand + 1 ≡ min (size_class i).batch_size (length (in_cache a i))))

pub List-cases : (xs : List Ptr) → (xs ≡ []) ⊎ ((x : Ptr) × (r : List Ptr) × (xs ≡ x ∷ r))
List-cases [] = inl refl
List-cases (x ∷ r) = inr (x, r, refl)

length-reverse : (xs : List Ptr) → length (reverse xs) ≡ length xs
length-reverse [] = refl
length-reverse (x ∷ xs) =
    ap length (reverse-cons x xs)
    ∙ omega (arith, length-append (reverse xs) (x ∷ []), length-reverse xs)

NoNull-reverse : (xs : List Ptr) → NoNull xs → NoNull (reverse xs)
NoNull-reverse [] h = tt
NoNull-reverse (x ∷ xs) h =
    subst NoNull (sym (reverse-cons x xs))
      (NoNull-append (reverse xs) (x ∷ []) (NoNull-reverse xs h.1) (h.0, tt))

module _ (sys : System) (threads : ℕ → Thread) (fuel c : ℕ)
    (alone : (n : ℕ) → Alone c (threads n)) where
  -- `allocate` once the class is known.
  abbrev allocate_class : (i : ℕ) → Cmd Ptr
  allocate_class i = do
    ptr ← pop_slab sys threads fuel i
    if ptr == null
        then (do
          batch ← refill_batch sys threads fuel i (size_class i).batch_size
          hand_out sys threads fuel i (reverse batch))
        else pure ptr

  allocate-eq :
      (n : ℕ) (a : Allocator)
      → n ≤ 262144
      → allocate sys threads fuel n a ≡ allocate_class (round_size_class n).1 a
  unfolding allocate
  allocate-eq n a small =
      let b = round_size_class-BestFit n small in
      let k = size_class-IsClass (round_size_class n).1 b.first b.last in
      let some_size : ((size_class (round_size_class n).1).size == 0) ≡ false =
        ground (arith, k.size_pos) in
      rw (b.entry, some_size) refl

  hand_out-Ends :
      (i : ℕ) (batch : List Ptr) (a : Allocator)
      → i < 48
      → FrontOk a c
      → NoNull batch
      → 0 < length batch
      → in_slab a c i ≡ []
      → length batch ≤ size_class_capacity i
      → (p : Ptr) × (in_hand : List Ptr) × (batch ≡ in_hand ++ p ∷ [])
        × Ends a c i (hand_out sys threads fuel i (reverse batch) a) p in_hand (in_cache a i)
  unfolding hand_out
  hand_out-Ends i batch a lt v live some_left empty fits = elim (List-cases (reverse batch)) [
    | inl none_left ↦ absurd (omega (arith, length-reverse batch, ap length none_left))
    | inr (p, rest, e) ↦
        let live' = subst NoNull e (NoNull-reverse batch live) in
        let room : length rest + length (in_slab a c i) ≤ size_class_capacity i =
          omega (arith, length-reverse batch, ap length e, ap length empty) in
        let (b, run, h, same) = publish-Ends sys threads fuel c i alone lt rest a v live'.1 room in
        let all = ap (λ xs. reverse rest ++ xs) empty ∙ append-nil (reverse rest) in
        (
          p,
          reverse rest,
          sym (reverse-reverse batch) ∙ ap reverse e ∙ reverse-cons p rest,
          (b, rw (e, run) refl, subst (λ xs. Holds a b c i xs (in_cache a i)) all h, same),
        )
  ]

  refilled-Served :
      (i : ℕ) (a : Allocator)
      → 0 < i
      → i < 48
      → FrontOk a c
      → in_slab a c i ≡ []
      → in_cache a i ≢ []
      → (p : Ptr) × (a' : Allocator) × (allocate_class i a ≡ some (p, a')) × Served a a' c i p
  refilled-Served i a pos lt v empty some_left =
      let k = size_class-IsClass i pos lt in
      let (b, run, h, same) = pop_slab-nil sys threads fuel c alone i lt a v empty in
      let some_left' : in_cache b i ≢ [] = λ z. some_left (sym h.cache ∙ z) in
      let (batch, behind, split, len, refilled) =
        refill_batch-Ends sys threads fuel c i alone lt (size_class i).batch_size b h.ok k.batch_pos
          some_left' in
      let (d, run', h', same') = refilled in
      let live = NoNull-right behind batch (subst NoNull split (h.ok.cache_live i)) in
      let few = length-pos (in_cache b i) some_left' in
      let (p, in_hand, e, handed) =
        hand_out-Ends i batch d lt h'.ok live (omega (arith, k.batch_pos)) (h'.slab ∙ h.slab)
          (omega (arith, batch-le-capacity i pos lt)) in
      let (a', run'', h'', same'') = handed in
      (
        p,
        a',
        rw (run, run', run'') refl,
        record {
          in_hand = in_hand;
          behind = behind;
          holds = subst (Holds a a' c i in_hand) h'.cache (
              Holds-trans a d a' c i _ _ in_hand (in_cache d i)
                (Holds-trans a b d c i _ _ _ behind h h') h'');
          central = SameCentral-trans a d a' (SameCentral-trans a b d same same') same'';
          live = (NoNull-right in_hand (p ∷ []) (subst NoNull e live)).0;
          source = inr (
            empty,
            sym h.cache ∙ split ∙ ap (λ xs. behind ++ xs) e,
            omega (arith, len, ap length h.cache, ap length e, length-append in_hand (p ∷ [])),
          );
        },
      )

  class-Served :
      (i : ℕ) (a : Allocator)
      → 0 < i
      → i < 48
      → FrontOk a c
      → (in_slab a c i ≢ []) ⊎ (in_cache a i ≢ [])
      → (p : Ptr) × (a' : Allocator) × (allocate_class i a ≡ some (p, a')) × Served a a' c i p
  class-Served i a pos lt v some_left = elim (List-cases (in_slab a c i)) [
    | inl empty ↦
        refilled-Served i a pos lt v empty
          (elim some_left [ inl ne ↦ absurd (ne empty) | inr ne ↦ ne ])
    | inr (p, rest, e) ↦
        let (b, run, h, same) = pop_slab-cons sys threads fuel c alone i lt a v p rest e in
        let live = (subst NoNull e (v.slab_live i lt)).0 in
        let found : (p == null) ≡ false = ground (arith, live) in
        (
          p,
          b,
          rw (run, found) refl,
          record {
            in_hand = rest;
            behind = in_cache a i;
            holds = h;
            central = same;
            live = live;
            source = inl (e, refl);
          },
        )
  ]

  -- In a thread that nothing disturbs, on a front in order, `allocate` of at most 262144 bytes ends
  -- if the slab of the CPU or the transfer cache holds an object of the class. It returns the
  -- object in front of the slab; or, if the slab is empty, the newest of the cache, after which the
  -- slab holds the rest of a batch that was taken from the cache in its order. The front is in
  -- order again, and nothing else has changed.
  pub allocate-Served :
      (n : ℕ) (a : Allocator)
      → FrontOk a c
      → n ≤ 262144
      → let i = (round_size_class n).1 in
        (in_slab a c i ≢ []) ⊎ (in_cache a i ≢ [])
        → (p : Ptr) × (a' : Allocator) × (allocate sys threads fuel n a ≡ some (p, a'))
          × Served a a' c i p
  allocate-Served n a v small some_left =
      let b = round_size_class-BestFit n small in
      let (p, a', run, s) = class-Served (round_size_class n).1 a b.first b.last v some_left in
      (p, a', allocate-eq n a small ∙ run, s)
