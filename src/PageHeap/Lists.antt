-- ===== src/PageHeap/Lists.antt =====
-- The invariant of the free lists.
pub mod Change
pub mod Relink
use allocator.Prelude.{
  ℕ, ◌≤◌, ◌<◌, ◌≡◌, ◌≢◌, refl, sym, ap, ◌∙◌, Bool, true, false, ◌||◌, Option, none, some, ◌++◌, [],
  ◌∷◌, arith, leb, ltb, ◌==◌, if◌then◌else◌, Ptr, null, update, Bool-cases, inl, inr, ==→eq, ◌⊎◌,
}
use allocator.Config.{max_pages}
use allocator.PageHeap.State.{Span}
use allocator.PageHeap.Dll.{Cells, head_of, linked, Dll, has, Distinct, frame, frame-update}
use allocator.PageHeap.Find.{find, find_of_has, has_of_find, Dll-find}

-- Fields of a span that may be dead.
abbrev pub pages_of : Option Span → ℕ
pages_of none = 0
pages_of (some s) = s.num_pages

abbrev pub free_of : Option Span → Bool
free_of none = false
free_of (some s) = s.is_free

-- No list holds a span at this address.
abbrev pub Unlisted : Ptr → (ℕ → Cells) → Type 0
Unlisted a lists = (n : ℕ) → has a (lists n) ≡ false

-- The lists hold the live free spans, each in the list of its number of pages, except those of
-- `out`, which a method has taken in hand and which no list holds.
pub record Lists (spans : Ptr → Option Span) (heads : ℕ → Ptr) (lists : ℕ → Cells)
    (out : Ptr → Bool) : Type 0 where
  pub null_dead : spans null ≡ none
  pub chain : (n : ℕ) → Dll spans null (lists n)
  pub distinct : (n : ℕ) → Distinct (lists n)
  pub head : (n : ℕ) → n ≤ max_pages → heads n ≡ head_of (lists n)
  pub sizes :
      (n a : ℕ) (s : Span) → find a (lists n) ≡ some s → (s.num_pages ≡ n) × (s.is_free ≡ true)
  pub listed :
      (p : Ptr) (s : Span)
      → spans p ≡ some s
      → s.is_free ≡ true
      → out p ≡ false
      → (s.num_pages ≤ max_pages) × (has p (lists s.num_pages) ≡ true)
  pub unlisted : (p : Ptr) → out p ≡ true → Unlisted p lists

module _ (spans : Ptr → Option Span) (heads : ℕ → Ptr) (lists : ℕ → Cells) (out : Ptr → Bool)
    (v : Lists spans heads lists out) where
  -- What a list holds is alive and free, with the number of pages that the list is for.
  pub Lists-has :
      (n a : ℕ)
      → has a (lists n) ≡ true
      → (s : Span) × (find a (lists n) ≡ some s)
        × (p : Ptr) × (q : Ptr) × (spans a ≡ some (linked s p q))
        × (s.num_pages ≡ n)
        × (s.is_free ≡ true)
  Lists-has n a i =
      let (s, e) = find_of_has a (lists n) i in
      let (live, p, q, at) = Dll-find spans null (lists n) a s (v.chain n) e in
      let (size, free) = v.sizes n a s e in (s, e, p, q, at, size, free)

  -- No span is in two lists.
  pub Lists-apart : (m n a : ℕ) → has a (lists m) ≡ true → has a (lists n) ≡ true → m ≡ n
  Lists-apart m n a i j =
      let (s, e, p, q, at, size, free) = Lists-has m a i in
      let (s', e', p', q', at', size', free') = Lists-has n a j in
      sym size ∙ ap pages_of (sym at ∙ at') ∙ size'

  -- A span in use, or a dead one, is in no list.
  pub used-Unlisted : (a : Ptr) (s : Span) → spans a ≡ some s → s.is_free ≡ false → Unlisted a lists
  used-Unlisted a s at used n = elim (Bool-cases (has a (lists n))) [
    | inr f ↦ f
    | inl t ↦ let (u, e, p, q, at', size, free) = Lists-has n a t in absurd (ground arith)
  ]

  pub dead-Unlisted : (a : Ptr) → spans a ≡ none → Unlisted a lists
  dead-Unlisted a dead n = elim (Bool-cases (has a (lists n))) [
    | inr f ↦ f
    | inl t ↦ let (u, e, p, q, at', size, free) = Lists-has n a t in absurd (ground arith)
  ]

  -- A change of one span that no list holds. `b` tells whether the span is in hand after it.
  pub Lists-touch :
      (k : Ptr) (c : Option Span) (b : Bool)
      → k ≢ null
      → Unlisted k lists
      → ((s : Span) → c ≡ some s → s.is_free ≡ true → b ≡ true)
      → Lists (update spans k c) heads lists (update out k b)
  Lists-touch k c b live alone free = record {
    null_dead = ground (arith, v.null_dead);
    chain = λ n. frame-update spans null (lists n) k c (v.chain n) (alone n);
    distinct = v.distinct;
    head = v.head;
    sizes = v.sizes;
    listed = λ p s e f o. elim (Bool-cases (k == p)) [
      | inl t ↦ absurd (ground (arith, free s))
      | inr ne ↦ v.listed p s (ground arith) f (ground arith)
    ];
    unlisted = λ p o n. elim (Bool-cases (k == p)) [
      | inl t ↦ ground (arith, alone n)
      | inr ne ↦ v.unlisted p (ground arith) n
    ];
  }

  pub Lists-out : (out' : Ptr → Bool) → ((p : Ptr) → out' p ≡ out p) → Lists spans heads lists out'
  Lists-out out' same = record {
    null_dead = v.null_dead;
    chain = v.chain;
    distinct = v.distinct;
    head = v.head;
    sizes = v.sizes;
    listed = λ p s e f o. v.listed p s e f (sym (same p) ∙ o);
    unlisted = λ p o. v.unlisted p (sym (same p) ∙ o);
  }
