-- ===== src/PageHeap/Lists/Change.antt =====
-- A span is taken out of one list, or put into one.
use allocator.Prelude.{
  ℕ, ◌≤◌, ◌≡◌, ◌≢◌, sym, ap, ap₂, ◌∙◌, Bool, true, false, Option, some, arith, ◌==◌, Ptr, null,
  update, Bool-cases, inl, inr, ==→eq,
}
use allocator.Config.{max_pages}
use allocator.PageHeap.State.{Span}
use allocator.PageHeap.Dll.{Cells, head_of, linked, Dll, has, Distinct, frame}
use allocator.PageHeap.Find.{find, Dll-find, has-find}
use allocator.PageHeap.Shape.{extent, shape}
use allocator.PageHeap.Lists.{pages_of, free_of, Lists, Unlisted, Lists-apart, Lists-has}

-- The list `n`, once `xs`, is now `ys`: they differ at most in the span `p`, which becomes `t`.
pub record Changed (spans spans' : Ptr → Option Span) (heads heads' : ℕ → Ptr) (n : ℕ)
    (xs ys : Cells) (p : Ptr) (s t : Span) : Type 0 where
  pub small : n ≤ max_pages
  pub live : p ≢ null
  pub before : spans p ≡ some s
  pub after : spans' p ≡ some t
  pub same_start : t.start ≡ s.start
  pub same_pages : t.num_pages ≡ s.num_pages
  pub size : s.num_pages ≡ n
  pub chain : Dll spans' null ys
  pub distinct : Distinct ys
  pub head : heads' n ≡ head_of ys
  pub other_heads : (m : ℕ) → m ≢ n → heads' m ≡ heads m
  pub others : (a : Ptr) → a ≢ p → find a ys ≡ find a xs
  pub same : (a : Ptr) → a ≢ p → has a xs ≡ false → spans' a ≡ spans a
  pub sized : (u : Span) → find p ys ≡ some u → (u.num_pages ≡ n) × (u.is_free ≡ true)
  pub listed : t.is_free ≡ true → has p ys ≡ true

module _ (spans spans' : Ptr → Option Span) (heads heads' : ℕ → Ptr) (lists : ℕ → Cells)
    (out : Ptr → Bool) (n : ℕ) (ys : Cells) (p : Ptr) (s t : Span) (v : Lists spans heads lists out)
    (elsewhere : (m : ℕ) → m ≢ n → has p (lists m) ≡ false)
    (c : Changed spans spans' heads heads' n (lists n) ys p s t) where
  lists' : ℕ → Cells
  lists' = update lists n ys

  same_has : (a : Ptr) → a ≢ p → has a ys ≡ has a (lists n)
  same_has a ne = has-find a ys (lists n) (c.others a ne)

  -- A span of the list other than `p` keeps its fields but for the links.
  kept :
      (a : Ptr)
      → a ≢ p
      → has a (lists n) ≡ true
      → (u : Span) × (q : Ptr) × (r : Ptr) × (q' : Ptr) × (r' : Ptr) × (spans a
          ≡ some (linked u q r))
        × (spans' a ≡ some (linked u q' r'))
        × (u.num_pages ≡ n)
  kept a ne i =
      let (u, e, q, r, at, size, free) = Lists-has spans heads lists out v n a i in
      let (live, q', r', at') = Dll-find spans' null ys a u c.chain (c.others a ne ∙ e) in
      (u, q, r, q', r', at, at', size)

  pub Changed-shape : (a : Ptr) → shape spans' a ≡ shape spans a
  Changed-shape a = elim (Bool-cases (a == p)) [
    | inl e ↦
        let e' = ==→eq a p e in
        ap (shape spans') e'
        ∙ ap extent c.after
        ∙ ap₂ (λ x y. some (x, y)) c.same_start c.same_pages
        ∙ sym (ap extent c.before)
        ∙ ap (shape spans) (sym e')
    | inr ne ↦ elim (Bool-cases (has a (lists n))) [
      | inl i ↦ let (u, q, r, q', r', at, at', size) = kept a (ground arith) i in rw (at, at')
      | inr o ↦ rw (c.same a (ground arith) o)
    ]
  ]

  -- Apart from `p`, a span is free as it was.
  pub Changed-free : (a : Ptr) → a ≢ p → free_of (spans' a) ≡ free_of (spans a)
  Changed-free a ne = elim (Bool-cases (has a (lists n))) [
    | inl i ↦ let (u, q, r, q', r', at, at', size) = kept a ne i in rw (at, at')
    | inr o ↦ rw (c.same a ne o)
  ]

  -- What no list holds is as before.
  pub Changed-loose : (a : Ptr) → a ≢ p → Unlisted a lists → spans' a ≡ spans a
  Changed-loose a ne alone = c.same a ne (alone n)

  pub Changed-Lists : Lists spans' heads' (update lists n ys) (update out p false)
  Changed-Lists = record {
    null_dead = c.same null (λ e. c.live (sym e)) (nowhere n) ∙ v.null_dead;
    chain = λ m. elim (Bool-cases (n == m)) [
      | inl e ↦ rw e c.chain
      | inr ne ↦ rw ne (
          frame spans spans' null (lists m) (v.chain m)
            λ a i. c.same a (not_p a m ne i) (apart a m ne i))
    ];
    distinct =
        λ m. elim (Bool-cases (n == m)) [ inl e ↦ rw e c.distinct | inr ne ↦ rw ne (v.distinct m) ];
    head = λ m le. elim (Bool-cases (n == m)) [
      | inl e ↦ rw e (ap heads' (sym (==→eq n m e)) ∙ c.head)
      | inr ne ↦ rw ne (c.other_heads m (ground arith) ∙ v.head m le)
    ];
    sizes = λ m a u e. elim (Bool-cases (n == m)) [
      | inl k ↦ let r = sized a u (rw k at e) in (r.0 ∙ ==→eq n m k, r.1)
      | inr ne ↦ v.sizes m a u (ground arith)
    ];
    listed = listed;
    unlisted = λ a o m. elim (Bool-cases (p == a)) [
      | inl e ↦ absurd (ground arith)
      | inr ne ↦ elim (Bool-cases (n == m)) [
        | inl k ↦ rw k (same_has a (ground arith) ∙ v.unlisted a (ground arith) n)
        | inr k ↦ rw k (v.unlisted a (ground arith) m)
      ]
    ];
  }
    where
      sized : (a : Ptr) (u : Span) → find a ys ≡ some u → (u.num_pages ≡ n) × (u.is_free ≡ true)
      sized a u e = elim (Bool-cases (a == p)) [
        | inl k ↦ c.sized u (ap (λ x. find x ys) (sym (==→eq a p k)) ∙ e)
        | inr ne ↦ v.sizes n a u (sym (c.others a (ground arith)) ∙ e)
      ]

      nowhere : Unlisted null lists
      nowhere m = elim (Bool-cases (has null (lists m))) [
        | inr f ↦ f
        | inl i ↦
            let (u, e, q, r, at, size, free) = Lists-has spans heads lists out v m null i in
            absurd (ground (arith, v.null_dead))
      ]

      apart :
          (a : Ptr) (m : ℕ) → (n == m) ≡ false → has a (lists m) ≡ true → has a (lists n) ≡ false
      apart a m ne i = elim (Bool-cases (has a (lists n))) [
        | inr f ↦ f
        | inl j ↦ absurd (ground (arith, Lists-apart spans heads lists out v n m a j i))
      ]

      not_p : (a : Ptr) (m : ℕ) → (n == m) ≡ false → has a (lists m) ≡ true → a ≢ p
      not_p a m ne i e = absurd (ground (arith, elsewhere m))

      in_list : (a : Ptr) (m : ℕ) → m ≡ n → has a ys ≡ true → has a (update lists n ys m) ≡ true
      in_list a m e i = rw e (ground arith)

      other_list :
          (a : Ptr) (m : ℕ)
          → has a (lists n) ≡ false
          → has a (lists m) ≡ true
          → has a (update lists n ys m) ≡ true
      other_list a m i j = elim (Bool-cases (n == m)) [
        | inl e ↦ absurd (cc (ap (λ k. has a (lists k)) (==→eq n m e)))
        | inr ne ↦ rw ne j
      ]

      listed :
          (a : Ptr) (u : Span)
          → spans' a ≡ some u
          → u.is_free ≡ true
          → update out p false a ≡ false
          → (u.num_pages ≤ max_pages) × (has a (update lists n ys u.num_pages) ≡ true)
      listed a u e f o = elim (Bool-cases (p == a)) [
        | inl k ↦
            let same_u : some u ≡ some t = sym e ∙ ap spans' (sym (==→eq p a k)) ∙ c.after in
            let size : u.num_pages ≡ n = ap pages_of same_u ∙ c.same_pages ∙ c.size in
            let i = c.listed (sym (ap free_of same_u) ∙ f) in
            (
              omega (arith, size, c.small),
              in_list a u.num_pages size (ap (λ x. has x ys) (sym (==→eq p a k)) ∙ i),
            )
        | inr ne ↦ elim (Bool-cases (has a (lists n))) [
          | inl i ↦
              let (w, q, r, q', r', at, at', size) = kept a (ground arith) i in
              let size' : u.num_pages ≡ n = ap pages_of (sym e ∙ at') ∙ size in
              (
                omega (arith, size', c.small),
                in_list a u.num_pages size' (same_has a (ground arith) ∙ i),
              )
          | inr i ↦
              let old = v.listed a u (sym (c.same a (ground arith) i) ∙ e) f (ground arith) in
              (old.0, other_list a u.num_pages i old.1)
        ]
      ]
