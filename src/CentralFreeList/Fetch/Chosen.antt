-- ===== src/CentralFreeList/Fetch/Chosen.antt =====
-- A span that the page heap gives becomes the first span of the class, and its current one.
use allocator.Prelude.{
  ℕ, ◌+◌, ◌*◌, ◌/◌, ◌%◌, ◌^◌, ◌≤◌, ◌<◌, ◌≡◌, ◌≢◌, refl, sym, ap, ◌∙◌, inl, inr, true, false, Option,
  some, List, [], ◌∷◌, arith, ltb, ◌==◌, ◌⊎◌, if◌then◌else◌, Ptr, null, update, update_self, length,
  Bool-cases, ==→eq,
}
use allocator.Config.{page_size, max_pages}
use allocator.PageHeap.State.{Span, System, PageHeap, invalid_index}
use allocator.PageHeap.Dll.{Cells}
use allocator.PageHeap.Invariant.{WellFormed, Leaves, nothing}
use allocator.PageHeap.Invariant.Split.{IsFor}
use allocator.PageHeap.Invariant.Allocate.{MmapFresh}
use allocator.CentralFreeList.{
  Central, CentralFreeList, Cmd, load, modify, has_objects, pure, stuck, set_cfl, ◌>>=◌, ◌>>◌,
  objects_in,
}
use allocator.CentralFreeList.Objects.Populate.{central_load-ok, central_modify-ok}
use allocator.CentralFreeList.Fetch.{Exhausted, Relinks, Exhausted-Relinks, write-WellFormed}

-- A class none of whose spans has an object left, over a well-formed page heap, with fuel for the
-- walks. A span of the class holds at most `UINT16_MAX` objects.
pub record Ready (sys : System) (fuel : ℕ) (c : Central) (lists : ℕ → Cells) (ps : List Ptr)
    : Type 0 where
  pub ok : WellFormed sys c.heap lists nothing
  pub pages_pos : 0 < c.cfl.pages
  pub pages_max : c.cfl.pages ≤ max_pages
  pub size_pos : 0 < c.cfl.size
  pub few : c.cfl.pages * page_size / c.cfl.size ≤ invalid_index
  pub fresh : MmapFresh sys c.heap c.cfl.pages
  pub enough : (m : ℕ) → length (lists m) + 1 < fuel
  pub exhausted : Exhausted c.heap.spans c.cfl.span_list ps
  pub walk : length ps < fuel
  pub current :
      (c.cfl.current_span ≡ null)
      ⊎ ((s : Span) × (c.cfl.current_span ≢ null)
          × (c.heap.spans c.cfl.current_span ≡ some s)
          × (has_objects s ≡ false))

-- A new span of the class, in front of the exhausted ones. None of its objects has been used.
pub record Fetched (sys : System) (c c' : Central) (ps : List Ptr) (p : Ptr) : Type 0 where
  pub t : Span
  pub lists : ℕ → Cells
  pub ok : WellFormed sys c'.heap lists nothing
  pub at : c'.heap.spans p ≡ some t
  pub used : t.is_free ≡ false
  pub pages : t.num_pages ≡ c.cfl.pages
  pub total : t.total_objects ≡ c.cfl.pages * page_size / c.cfl.size
  pub no_free : t.num_free_objects ≡ 0
  pub no_used : t.next_uninitialized ≡ 0
  pub no_node : t.freelist_head ≡ invalid_index
  pub new : (u : Span) → c.heap.spans p ≡ some u → u.is_free ≡ true
  pub behind : Exhausted c'.heap.spans t.next ps
  pub cfl : c'.cfl ≡ record c.cfl { span_list = p; current_span = p }
  pub mem : c'.mem ≡ c.mem

in_use_apart :
    (spans : Ptr → Option Span) (p a : Ptr) (u : Span)
    → ((w : Span) → spans p ≡ some w → w.is_free ≡ true)
    → spans a ≡ some u
    → u.is_free ≡ false
    → a ≢ p
in_use_apart spans p a u new at used e = let free = new u (ap spans (sym e) ∙ at) in cc

Relinks-new :
    (spans spans' : Ptr → Option Span) (p : Ptr) (t : Option Span)
    → ((w : Span) → spans p ≡ some w → w.is_free ≡ true)
    → Relinks spans spans'
    → Relinks spans (update spans' p t)
Relinks-new spans spans' p t new r a u at used =
    let ne = in_use_apart spans p a u new at used in
    let (u', at', used', next, same) = r a u at used in (u', ground arith, used', next, same)

Relinks-prev :
    (spans spans' : Ptr → Option Span) (head p : Ptr) (w : Span)
    → spans' head ≡ some w
    → Relinks spans spans'
    → Relinks spans (update spans' head (some (record w { prev = p })))
Relinks-prev spans spans' head p w at_head r a u at used =
    let (u', at', used', next, same) = r a u at used in
    elim (Bool-cases (head == a)) [
      | inl t ↦
          let e : u' ≡ w = some_eq (sym at' ∙ ap spans' (sym (==→eq head a t)) ∙ at_head) in
          (
            record w { prev = p },
            ground arith,
            ap (λ x. x.is_free) (sym e) ∙ used',
            ap (λ x. x.next) (sym e) ∙ next,
            ap has_objects (sym e) ∙ same,
          )
      | inr f ↦ (u', ground arith, used', next, same)
    ]
  where
    some_eq : {x y : Span} → some x ≡ some y → x ≡ y
    some_eq e = cc

-- What the write to the first of the exhausted spans leaves.
record Behind (sys : System) (spans : Ptr → Option Span) (lists : ℕ → Cells) (q : Ptr)
    (c c' : Central) : Type 0 where
  ok : WellFormed sys c'.heap lists nothing
  relinks : Relinks spans c'.heap.spans
  at : c'.heap.spans q ≡ c.heap.spans q
  mem : c'.mem ≡ c.mem
  cfl : c'.cfl ≡ c.cfl

link-Behind :
    (sys : System) (spans : Ptr → Option Span) (lists : ℕ → Cells) (q head : Ptr) (ps : List Ptr)
    (c : Central)
    → WellFormed sys c.heap lists nothing
    → Relinks spans c.heap.spans
    → Exhausted spans head ps
    → ((w : Span) → spans q ≡ some w → w.is_free ≡ true)
    → (c' : Central) × ((if head == null then pure tt else modify head (λ t. record t { prev = q }))
          c
        ≡ some (tt, c'))
      × Behind sys spans lists q c c'
link-Behind sys spans lists q head [] c v r e new =
    (c, rw e refl, record { ok = v; relinks = r; at = refl; mem = refl; cfl = refl })
link-Behind sys spans lists q head (p ∷ ps) c v r (here, live, s, at, used, none_left, rest) new =
    let (w, at', used', next, same) = r p s at used in
    let nn : (p == null) ≡ false = ground arith in
    let ne = in_use_apart spans q p s new at used in
    (
      record c {
        heap = record c.heap { spans = update c.heap.spans p (some (record w { prev = q })) };
      },
      rw (here, nn, central_modify-ok c p w (λ t. record t { prev = q }) live at') refl,
      record {
        ok =
            write-WellFormed sys c.heap lists p w (record w { prev = q }) v at' used' (refl, refl)
              used';
        relinks = Relinks-prev spans c.heap.spans p q w at' r;
        at = ground arith;
        mem = refl;
        cfl = refl;
      },
    )

-- The count of objects does not wrap.
count-eq :
    (n m size : ℕ)
    → n ≡ m
    → m ≤ max_pages
    → m * page_size / size ≤ invalid_index
    → n * page_size % 2 ^ 64 / size % 2 ^ 32 ≡ m * page_size / size
count-eq n m size e le few =
    let w : n * page_size % 2 ^ 64 ≡ m * page_size = omega arith in rw w (omega arith)

module _ (sys : System) (fuel : ℕ) (c : Central) (lists : ℕ → Cells) (ps : List Ptr)
    (r : Ready sys fuel c lists ps) where
  -- What `fetch_from_page_heap` does with the span that it gets.
  abbrev pub adopt : Ptr → Cmd (Unit {0})
  adopt span = do
    modify span (λ t. record t { next = c.cfl.span_list; prev = null })
    (if c.cfl.span_list == null
        then pure tt
        else modify c.cfl.span_list (λ t. record t { prev = span }))
    s ← load span
    let count = objects_in sys fuel s.num_pages c.cfl.size
    if ltb 0xFFFF count then stuck else pure tt
    modify span (λ t. record t {
      total_objects = count;
      freelist_head = invalid_index;
      num_free_objects = 0;
      next_uninitialized = 0;
    })
    set_cfl (λ l. record l { span_list = span; current_span = span })

  pub adopt-Fetched :
      (p : Ptr) (h1 : PageHeap) (t : Span)
      → IsFor c.cfl.pages c.cfl.size t
      → ((u : Span) → c.heap.spans p ≡ some u → u.is_free ≡ true)
      → Leaves sys c.heap h1 lists nothing p t 2
      → (c' : Central) × (adopt p (record c { heap = h1 }) ≡ some (tt, c'))
        × (f : Fetched sys c c' ps p) × (f.t.start ≡ t.start)
  adopt-Fetched p h1 t for new l =
      let live : p ≢ null = ground (arith, l.ok.lists_ok.null_dead, l.at) in
      let link = λ (u : Span). record u { next = c.cfl.span_list; prev = null } in
      let t2 = link t in
      let c1 : Central = record c { heap = h1 } in
      let c2 : Central = record c { heap = record h1 { spans = update h1.spans p (some t2) } } in
      let old : Relinks c.heap.spans h1.spans = λ a u at used. (
        u,
        (l.kept a u (in_use_apart c.heap.spans p a u new at used) used).0 at,
        used,
        refl,
        refl,
      ) in
      let v2 = write-WellFormed sys h1 l.lists' p t t2 l.ok l.at for.2 (refl, refl) for.2 in
      let (c3, run3, b) =
        link-Behind sys c.heap.spans l.lists' p c.cfl.span_list ps c2 v2
          (Relinks-new c.heap.spans h1.spans p (some t2) new old) r.exhausted new in
      let at3 = b.at ∙ update_self h1.spans p (some t2) in
      let count = objects_in sys fuel t.num_pages c.cfl.size in
      let count_eq : count ≡ c.cfl.pages * page_size / c.cfl.size =
        count-eq t.num_pages c.cfl.pages c.cfl.size for.0 r.pages_max r.few in
      let fits : ltb 0xFFFF count ≡ false = ground (arith, count_eq, r.few) in
      let fill = λ (u : Span). record u {
        total_objects = count;
        freelist_head = invalid_index;
        num_free_objects = 0;
        next_uninitialized = 0;
      } in
      let t4 = fill t2 in
      let spans4 = update c3.heap.spans p (some t4) in
      (
        record c3 {
          heap = record c3.heap { spans = spans4 };
          cfl = record c3.cfl { span_list = p; current_span = p };
        },
        rw
            (
              central_modify-ok c1 p t link live l.at,
              run3,
              central_load-ok c3 p t2 live at3,
              fits,
              central_modify-ok c3 p t2 fill live at3,
            )
            refl,
        record {
          t = t4;
          lists = l.lists';
          ok = write-WellFormed sys c3.heap l.lists' p t2 t4 b.ok at3 for.2 (refl, refl) for.2;
          at = update_self c3.heap.spans p (some t4);
          used = for.2;
          pages = for.0;
          total = count_eq;
          no_free = refl;
          no_used = refl;
          no_node = refl;
          new = new;
          behind =
              Exhausted-Relinks c.heap.spans spans4 c.cfl.span_list ps
                (Relinks-new c.heap.spans c3.heap.spans p (some t4) new b.relinks) r.exhausted;
          cfl = ap (λ (x : CentralFreeList). record x { span_list = p; current_span = p }) b.cfl;
          mem = b.mem;
        },
        refl,
      )
