-- ===== src/CentralFreeList/Objects/Put.antt =====
-- `deallocate` takes back an object that a client holds.
use allocator.Prelude.{
  if◌then◌else◌, ℕ, suc, ◌*◌, ◌/◌, ◌<◌, ◌≤◌, ◌≡◌, ◌≢◌, ◌⊎◌, refl, sym, ap, ap₂, ◌∙◌, Bool, true,
  false, not, ◌&&◌, ◌||◌, List, [], ◌∷◌, arith, ltb, ◌==◌, Ptr, null, length, some, Bool-cases, inl,
  inr, update, update_self, ==→eq,
}
use mathlib.Core.Path.{subst}
use allocator.Config.{page_size, add32}
use allocator.PageHeap.State.{Span}
use allocator.PageHeap.State.{System}
use allocator.CentralFreeList.{Central, deallocate, take_from, release_to_page_heap, pure}
use allocator.CentralFreeList.Nodes.{Memory, put_object, index_to_ptr}
use allocator.CentralFreeList.Nodes.Chain.{contains}
use allocator.CentralFreeList.Nodes.Objects.{put_object-IsChain}
use allocator.CentralFreeList.Objects.{in_use, SpanOk, base-eq}
use allocator.CentralFreeList.Objects.Count.{length-Distinct}
use allocator.CentralFreeList.Objects.Populate.{central_load-ok, central_modify-ok}
use allocator.CentralFreeList.Objects.Take.{take_from-Taken}

-- What a caller leaves: the object is the first that will be handed out again.
pub record Freed (c : Central) (p : Ptr) (s : Span) (free : List ℕ) (k : ℕ) (c' : Central)
    : Type 0 where
  pub s' : Span
  pub ok : SpanOk c' p s' (k ∷ free)
  pub same_start : s'.start ≡ s.start
  pub same_size : c'.cfl.size ≡ c.cfl.size
  pub same_total : s'.total_objects ≡ s.total_objects
  pub now : (j : ℕ) → in_use s' (k ∷ free) j ≡ (in_use s free j && not (j == k))

used_not_free :
    (s : Span) (k : ℕ) (free : List ℕ) → in_use s free k ≡ true → contains k free ≡ false
unfolding in_use
used_not_free s k free h = ground arith

used_started :
    (s : Span) (k : ℕ) (free : List ℕ) → in_use s free k ≡ true → k < s.next_uninitialized
unfolding in_use
used_started s k free h = ground arith

now_free :
    (n k j : ℕ) (free : List ℕ)
    → (ltb j n && not (contains j (k ∷ free)))
      ≡ ((ltb j n && not (contains j free)) && not (j == k))
unfolding contains
now_free n k j free = ground arith

started_cons :
    (n k : ℕ) (free : List ℕ)
    → k < n
    → ((j : ℕ) → contains j free ≡ true → j < n)
    → (j : ℕ) → contains j (k ∷ free) ≡ true
    → j < n
unfolding contains
started_cons n k free lt below j h = elim (Bool-cases (j == k)) [
  | inl t ↦ omega (arith, ==→eq j k t)
  | inr f ↦ below j (rw f at h)
]

restored :
    (s : Span) (free : List ℕ) (j k k' : ℕ) (b : Bool)
    → in_use s free k ≡ true
    → k' ≡ k
    → b ≡ (in_use s free j && not (j == k))
    → ((j == k') || b) ≡ in_use s free j
restored s free j k k' b used e h =
    rw (e, h)
      (elim (Bool-cases (j == k)) [
        | inl t ↦ rw t (sym (ap (in_use s free) (==→eq j k t) ∙ used))
        | inr f ↦ rw f (ground arith)
      ])

-- What `put_object` leaves of the span.
abbrev pub put_span : (size : ℕ) → Memory → Span → (k : ℕ) → Span
put_span size mem s k =
    let base = s.start * page_size in
    record s {
      freelist_head = (put_object base size s.freelist_head (index_to_ptr k base size) mem).0;
      num_free_objects = add32 s.num_free_objects 1;
    }

-- The class after `deallocate` of the object `k` of the span `p`, before a release.
abbrev pub put : Central → Ptr → Span → (k : ℕ) → Central
put c p s k =
    let base = s.start * page_size in
    record {
      heap = record c.heap { spans = update c.heap.spans p (some (put_span c.cfl.size c.mem s k)) };
      mem = (put_object base c.cfl.size s.freelist_head (index_to_ptr k base c.cfl.size) c.mem).1;
      cfl = record c.cfl { num_free = add32 c.cfl.num_free 1 };
    }

module _ (c : Central) (p : Ptr) (s : Span) (free : List ℕ) (k : ℕ) (v : SpanOk c p s free)
    (used : in_use s free k ≡ true) where
  -- The objects that are free are among those that were used.
  put-few : suc (length free) ≤ s.next_uninitialized
  put-few =
      length-Distinct s.next_uninitialized (k ∷ free) (used_not_free s k free used, v.distinct)
        (started_cons s.next_uninitialized k free (used_started s k free used) v.started)

  pub put-counted : (put_span c.cfl.size c.mem s k).num_free_objects ≡ suc (length free)
  put-counted = omega (arith, v.counted, put-few, v.upto, v.small)

  put-SpanOk : SpanOk (put c p s k) p (put_span c.cfl.size c.mem s k) (k ∷ free)
  put-SpanOk =
      let here = used_started s k free used in
      let out = used_not_free s k free used in
      record {
        live = v.live;
        at = update_self c.heap.spans p (some (put_span c.cfl.size c.mem s k));
        room = v.room;
        fits = v.fits;
        chain =
            put_object-IsChain (s.start * page_size) c.cfl.size v.room v.fits c.mem s.freelist_head
              k free v.chain (omega (arith, here, v.upto, v.small)) out;
        distinct = (out, v.distinct);
        started = started_cons s.next_uninitialized k free here v.started;
        upto = v.upto;
        small = v.small;
        counted = put-counted;
        class_counted = omega (arith, put-few, v.class_counted, v.class_small, v.upto);
        class_small = omega (arith, put-few, v.class_small, v.upto);
      }

  pub deallocate-put :
      (sys : System) (fuel : ℕ)
      → index_to_ptr k (s.start * page_size) c.cfl.size ≢ null
      → c.heap.page_map (index_to_ptr k (s.start * page_size) c.cfl.size / page_size) ≡ some p
      → deallocate sys fuel (index_to_ptr k (s.start * page_size) c.cfl.size) c
        ≡ (if (put_span c.cfl.size c.mem s k).num_free_objects == s.total_objects
              then release_to_page_heap sys fuel p
              else pure tt)
            (put c p s k)
  unfolding deallocate
  deallocate-put sys fuel live mapped =
      let base = s.start * page_size in
      let size = c.cfl.size in
      let ptr = index_to_ptr k base size in
      let w = put_object base size s.freelist_head ptr c.mem in
      let add = (λ (t : Span). record t {
        freelist_head = w.0;
        num_free_objects = add32 t.num_free_objects 1;
      }) in
      let c1 : Central = record c { mem = w.1 } in
      let base_ok = base-eq s.start size (omega (arith, v.room)) v.fits in
      let nn : (p == null) ≡ false = ground (arith, v.live) in
      let nptr : (ptr == null) ≡ false = ground (arith, live) in
      rw
        (
          nptr,
          mapped,
          nn,
          central_load-ok c p s v.live v.at,
          base_ok,
          central_modify-ok c1 p s add v.live v.at,
          central_load-ok (put c p s k) p (add s) v.live
              (update_self c.heap.spans p (some (add s))),
        )
        refl

module _ (sys : System) (fuel : ℕ) where
  -- On a span in order, to which the page map leads from the address of an object in use, not null,
  -- `deallocate` of that address ends, if other objects of the span stay in use. It leaves the span
  -- in order, with the object in front of those that were free, and in use are those from before
  -- without it.
  pub deallocate-Freed :
      (c : Central) (p : Ptr) (s : Span) (free : List ℕ) (k : ℕ)
      → SpanOk c p s free
      → in_use s free k ≡ true
      → index_to_ptr k (s.start * page_size) c.cfl.size ≢ null
      → c.heap.page_map (index_to_ptr k (s.start * page_size) c.cfl.size / page_size) ≡ some p
      → suc (length free) ≢ s.total_objects
      → (c' : Central) × (deallocate sys fuel (index_to_ptr k (s.start * page_size) c.cfl.size) c
          ≡ some (tt, c'))
        × Freed c p s free k c'
  unfolding in_use
  deallocate-Freed c p s free k v used live mapped more =
      let partial : ((put_span c.cfl.size c.mem s k).num_free_objects == s.total_objects) ≡ false =
        ground (arith, put-counted c p s free k v used, more) in
      (
        put c p s k,
        deallocate-put c p s free k v used sys fuel live mapped ∙ rw partial refl,
        record {
          s' = put_span c.cfl.size c.mem s k;
          ok = put-SpanOk c p s free k v used;
          same_start = refl;
          same_size = refl;
          same_total = refl;
          now = λ j. now_free s.next_uninitialized k j free;
        },
      )

  same_order :
      (k k' : ℕ) (free rest : List ℕ)
      → ((k ∷ free) ≡ []) ⊎ ((k ∷ free) ≡ k' ∷ rest)
      → (k' ≡ k) × (rest ≡ free)
  same_order k k' free rest (inl e) = absurd (cc e)
  same_order k k' free rest (inr e) = (cc, cc)

  -- On a span in order, to which the page map leads from the address of an object in use, not null,
  -- and of which other objects stay in use, `deallocate` of that address ends, and the second half
  -- of `allocate` on the span then returns this address. The span is in order again with the same
  -- free objects, and the same objects are in use.
  pub deallocate-take_from :
      (c : Central) (p : Ptr) (s : Span) (free : List ℕ) (k : ℕ)
      → SpanOk c p s free
      → in_use s free k ≡ true
      → index_to_ptr k (s.start * page_size) c.cfl.size ≢ null
      → c.heap.page_map (index_to_ptr k (s.start * page_size) c.cfl.size / page_size) ≡ some p
      → suc (length free) ≢ s.total_objects
      → let ptr = index_to_ptr k (s.start * page_size) c.cfl.size in
        (c' : Central) × (c'' : Central) × (s'' : Span) × (deallocate sys fuel ptr c
          ≡ some (tt, c'))
        × (take_from sys fuel p c' ≡ some (ptr, c''))
        × SpanOk c'' p s'' free
        × ((j : ℕ) → in_use s'' free j ≡ in_use s free j)
  deallocate-take_from c p s free k v used live mapped more =
      let (c1, run, f) = deallocate-Freed c p s free k v used live mapped more in
      let (ptr, c2, run2, t) = take_from-Taken sys fuel c1 p f.s' (k ∷ free) f.ok (omega arith) in
      let (same_k, same_rest) = same_order k t.k free t.rest t.order in
      let address =
        t.address
        ∙ ap₂ (λ a b. index_to_ptr t.k (a * page_size) b) f.same_start f.same_size
        ∙ ap (λ a. index_to_ptr a (s.start * page_size) c.cfl.size) same_k in
      (
        c1,
        c2,
        t.s',
        run,
        run2 ∙ ap (λ a. some (a, c2)) address,
        subst (SpanOk c2 p t.s') same_rest t.ok,
        λ j.
            ap (λ xs. in_use t.s' xs j) (sym same_rest)
            ∙ t.now j
            ∙ restored s free j k t.k (in_use f.s' (k ∷ free) j) used same_k (f.now j),
      )
