-- ===== src/OldDesign/Neighbours.antt =====
-- The neighbours of a block in the earlier allocator.
use allocator.Prelude.{
  ◌+◌, ◌^◌, ◌<◌, ◌≤◌, ◌≡◌, ◌≢◌, refl, ap, Option, false, ◌||◌, none, some, leb, ltb, ◌==◌, Ptr,
  null, arith,
}
use allocator.OldDesign.Heap.{
  Block, Footer, OldAllocator, overhead_size, footer_size, add64, sub64, block_end, footer_of,
  next_phys, prev_phys, load_footer, returns, undefined,
}
use allocator.OldDesign.Search.{load-ok}

footer-ok :
    (m : OldAllocator) (p : Ptr) (f : Footer) → m.footers p ≡ some f → load_footer p m ≡ returns f m
unfolding load_footer
footer-ok m p f at =
    ap (λ (o : Option Footer). elim o [ none ↦ undefined | some g ↦ returns g m ]) at

-- Two blocks of the break-allocated part, one behind the other, the first with its footer.
pub record Adjacent (m : OldAllocator) (p q : Ptr) (b c : Block) : Type 0 where
  pub live : p ≢ null
  pub at : m.blocks p ≡ some b
  pub behind : m.blocks q ≡ some c
  pub place : q ≡ p + overhead_size + b.size
  pub footer : m.footers (footer_of p b) ≡ some (record { size = b.size; mapped = b.mapped })
  pub unmapped : (b.mapped ≡ false) × (c.mapped ≡ false)
  pub start : (m.brk_heap_start ≢ null) × (m.brk_heap_start ≤ p)
  pub end : (q < m.brk_heap_end) × (m.brk_heap_end < 2 ^ 64)

-- In the earlier allocator, of two adjacent blocks of the heap below its end, the first with its
-- footer, `next_phys` of the first is the second, and `prev_phys` of the second is the first.
pub next_phys-prev_phys :
    (m : OldAllocator) (p q : Ptr) (b c : Block)
    → Adjacent m p q b c
    → (next_phys p m ≡ returns q m) × (prev_phys q m ≡ returns p m)
unfolding next_phys prev_phys
next_phys-prev_phys m p q b c a =
    let np : (p == null) ≡ false = ground (arith, a.live) in
    let nq : (q == null) ≡ false = ground (arith, a.place) in
    let to : block_end p b ≡ q = omega (arith, a.place, a.end) in
    let inside : ((m.brk_heap_end == null) || leb m.brk_heap_end q) ≡ false =
      ground (arith, a.end) in
    let started : (m.brk_heap_start == null) ≡ false = ground (arith, a.start) in
    let above : leb q (m.brk_heap_start + 24) ≡ false = ground (arith, a.place, a.start) in
    let foot : sub64 q footer_size ≡ footer_of p b = omega (arith, a.place, a.end) in
    let back : sub64 q (add64 overhead_size b.size) ≡ p = omega (arith, a.place, a.end) in
    let low : ltb p m.brk_heap_start ≡ false = ground (arith, a.start) in
    (
      rw (np, load-ok m p b a.live a.at, a.unmapped.0, to, inside) refl,
      rw
          (
            nq,
            load-ok m q c (ground (arith, a.place)) a.behind,
            a.unmapped.1,
            started,
            above,
            foot,
            footer-ok m (footer_of p b) (record { size = b.size; mapped = b.mapped }) a.footer,
            back,
            low,
            load-ok m p b a.live a.at,
            a.unmapped.0,
          )
          refl,
    )
