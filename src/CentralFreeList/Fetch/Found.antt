-- ===== src/CentralFreeList/Fetch/Found.antt =====
-- `allocate` when a span of the class has objects left.
use allocator.Prelude.{
  ℕ, zero, suc, ◌+◌, ◌-◌, ◌<◌, ◌≡◌, ◌≢◌, ◌⊎◌, refl, ap, ◌∙◌, inl, inr, true, false, Option, some,
  List, [], ◌∷◌, arith, ltb, ◌==◌, if◌then◌else◌, Ptr, null, length, Bool-cases,
}
use allocator.PageHeap.State.{Span, System, invalid_index}
use allocator.CentralFreeList.{
  Central, has_objects, find_loop, span_has_available_objects, find_available_span, choose_span,
  allocate, take_from, and_then, pure,
}
use allocator.CentralFreeList.Objects.{SpanOk, empty_of_head}
use allocator.CentralFreeList.Objects.Take.{Taken, take_from-Taken}
use allocator.CentralFreeList.Objects.Populate.{central_load-ok}

-- The spans `ps`, linked by `next` from `head` on, have no object left, and `p` comes behind them.
abbrev pub LeadsTo : (Ptr → Option Span) → (head : Ptr) → (ps : List Ptr) → (p : Ptr) → Type 0
LeadsTo spans head [] p = head ≡ p
LeadsTo spans head (q ∷ qs) p =
    (head ≡ q)
    × (q ≢ null)
    × (s : Span) × (spans q ≡ some s)
    × (has_objects s ≡ false)
    × LeadsTo spans s.next qs p

-- There is no current span, or it has no object left.
abbrev pub Unavailable : Central → Type 0
Unavailable c =
    (c.cfl.current_span ≡ null)
    ⊎ ((s : Span) × (c.cfl.current_span ≢ null)
        × (c.heap.spans c.cfl.current_span ≡ some s)
        × (has_objects s ≡ false))

find_loop-first :
    (fuel : ℕ) (c : Central) (head : Ptr) (ps : List Ptr) (p : Ptr) (s : Span)
    → LeadsTo c.heap.spans head ps p
    → p ≢ null
    → c.heap.spans p ≡ some s
    → has_objects s ≡ true
    → length ps < fuel
    → find_loop fuel head c ≡ some (p, c)
unfolding find_loop
find_loop-first zero c head ps p s l live at more h = absurd (omega arith)
find_loop-first (suc fuel) c head [] p s l live at more h =
    let nn : (p == null) ≡ false = ground arith in
    rw (l, nn, central_load-ok c p s live at, more) refl
find_loop-first (suc fuel) c head (q ∷ qs) p s (here, q_live, t, q_at, no_more, rest) live at more
      h =
    let nn : (q == null) ≡ false = ground arith in
    rw (here, nn, central_load-ok c q t q_live q_at, no_more)
      (find_loop-first fuel c t.next qs p s rest live at more (omega arith))

-- A span in order that has an object says so.
SpanOk-has_objects :
    (c : Central) (p : Ptr) (s : Span) (free : List ℕ)
    → SpanOk c p s free
    → 0 < length free + (s.total_objects - s.next_uninitialized)
    → has_objects s ≡ true
SpanOk-has_objects c p s free v more = elim (Bool-cases (s.freelist_head == invalid_index)) [
  | inr f ↦ rw f refl
  | inl t ↦
      let none_free : length free ≡ 0 = ap length (empty_of_head c p s free v t) in
      let unused : ltb s.next_uninitialized s.total_objects ≡ true = ground arith in
      rw (t, unused) refl
]

module _ (sys : System) (fuel : ℕ) (c : Central) (p : Ptr) (s : Span) (free : List ℕ)
    (v : SpanOk c p s free)
    (more : 0 < length free + (s.total_objects - s.next_uninitialized)) where
  -- The class with `p` as its current span.
  abbrev pub chosen : Central
  chosen = record c { cfl = record c.cfl { current_span = p } }

  chosen-SpanOk : SpanOk chosen p s free
  chosen-SpanOk = record {
    live = v.live;
    at = v.at;
    room = v.room;
    fits = v.fits;
    chain = v.chain;
    distinct = v.distinct;
    started = v.started;
    upto = v.upto;
    small = v.small;
    counted = v.counted;
    class_counted = v.class_counted;
    class_small = v.class_small;
  }

  has_some : span_has_available_objects p c ≡ some (true, c)
  unfolding span_has_available_objects
  has_some =
      let nn : (p == null) ≡ false = ground (arith, v.live) in
      rw (nn, central_load-ok c p s v.live v.at, SpanOk-has_objects c p s free v more) refl

  unavailable : Unavailable c → span_has_available_objects c.cfl.current_span c ≡ some (false, c)
  unfolding span_has_available_objects
  unavailable (inl e) = rw e refl
  unavailable (inr (t, live, at, no_more)) =
      let nn : (c.cfl.current_span == null) ≡ false = ground arith in
      rw (nn, central_load-ok c c.cfl.current_span t live at, no_more) refl

  found :
      (ps : List Ptr)
      → LeadsTo c.heap.spans c.cfl.span_list ps p
      → length ps < fuel
      → find_available_span sys fuel c ≡ some (p, c)
  unfolding find_available_span
  found ps l le =
      find_loop-first fuel c c.cfl.span_list ps p s l v.live v.at
        (SpanOk-has_objects c p s free v more) le

  -- The current span is `p`, or there is none with objects and `p` is the first in the list that has.
  abbrev pub IsNext : Type 0
  IsNext =
      (c.cfl.current_span ≡ p)
      ⊎ (Unavailable c
          × ((ps : List Ptr) × LeadsTo c.heap.spans c.cfl.span_list ps p × (length ps < fuel)))

  choose_span-chosen : IsNext → choose_span sys fuel c ≡ some (tt, chosen)
  unfolding choose_span
  choose_span-chosen (inl e) =
      let nn : (c.cfl.current_span == null) ≡ false = ground (arith, v.live) in
      rw (ap (λ q. span_has_available_objects q c) e ∙ has_some, nn)
        (ap (λ q. some (tt, record c { cfl = record c.cfl { current_span = q } })) e)
  choose_span-chosen (inr (none_there, (ps, l, le))) =
      let nn : (p == null) ≡ false = ground (arith, v.live) in
      rw (unavailable none_there, found ps l le, nn) refl

  -- Let a span of a class be in order, with an object that is free or was never used. If it is the
  -- current span, or if there is no current span or one without objects left, and it is the first
  -- span of the list with objects, with fuel for the walk there, then `allocate` ends and returns the
  -- address of an object of this span which no client holds. The span is then the current one and is
  -- in order, with the objects in use from before and this one; the class's list and the other spans
  -- are as before.
  pub allocate-Taken :
      IsNext
      → (ptr : Ptr) × (c' : Central) × (allocate sys fuel c ≡ some (ptr, c'))
        × Taken chosen p s free ptr c'
        × (c'.cfl ≡ record c.cfl { current_span = p; num_free = c'.cfl.num_free })
  unfolding allocate
  allocate-Taken next =
      let (ptr, c', run, t) = take_from-Taken sys fuel chosen p s free chosen-SpanOk more in
      let nn : (p == null) ≡ false = ground (arith, v.live) in
      (
        ptr,
        c',
        ap
              (λ (o : Option (Unit {0} × Central)). and_then o (λ _ d.
                (if d.cfl.current_span == null
                    then pure null
                    else take_from sys fuel d.cfl.current_span)
                  d))
              (choose_span-chosen next)
            ∙ ap (λ b. (if b then pure null else take_from sys fuel p) chosen) nn
            ∙ run,
        t,
        t.cfl,
      )
