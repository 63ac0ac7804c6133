-- ===== src/OldDesign/Heap.antt =====
-- old/old_design.hpp: blocks with a header and a footer, and where a block's neighbours lie.
-- A header or footer is at its address from when it is written until its memory is given back. What
-- users write into their memory is not modelled.
use allocator.Prelude.{
  ℕ, ◌+◌, ◌-◌, ◌%◌, ◌^◌, Bool, not, ◌||◌, Option, none, some, ltb, leb, ◌==◌, if◌then◌else◌, Ptr,
  null, update,
}

-- `struct Block`, without the user memory behind it.
pub record Block : Type 0 where
  pub size : ℕ
  pub is_free : Bool
  pub mapped : Bool
  pub next : Ptr

-- `struct Footer`
pub record Footer : Type 0 where
  pub size : ℕ
  pub mapped : Bool

-- `offsetof(Block, memory)` and `sizeof(Footer)`, with pointers of 8 bytes.
abbrev pub header_size : ℕ
header_size = 24

abbrev pub footer_size : ℕ
footer_size = 16

abbrev pub overhead_size : ℕ
overhead_size = header_size + footer_size

-- Sums and differences of `size_t`.
abbrev pub add64 : ℕ → ℕ → ℕ
add64 a b = (a + b) % 2 ^ 64

abbrev pub sub64 : ℕ → ℕ → ℕ
sub64 a b = (2 ^ 64 + a - b) % 2 ^ 64

-- `struct Allocator`, with the headers and footers in memory and the number of system calls so far.
pub record OldAllocator : Type 0 where
  pub blocks : Ptr → Option Block
  pub footers : Ptr → Option Footer
  pub calls : ℕ
  pub free_list : Ptr
  pub prev_search_end : Ptr
  pub available_bytes : ℕ
  pub brk_heap_start : Ptr
  pub brk_heap_end : Ptr

-- The system calls: a failure is `none` or `false`.
pub record Kernel : Type 0 where
  pub mmap : (call bytes : ℕ) → Option Ptr
  pub sbrk : (call bytes : ℕ) → Option Ptr
  pub munmap : (call : ℕ) → Ptr → (bytes : ℕ) → Bool
  pub brk : (call : ℕ) → Ptr → Bool

-- How a run ends: it returns, or reads or writes where no header or footer is, which is undefined
-- behaviour, or a loop goes on after the rounds that its fuel allows.
pub data Outcome (A : Type 0) : Type 0 where
  returns : A → OldAllocator → Outcome A
  undefined : Outcome A
  out_of_fuel : Outcome A

abbrev pub Cmd : Type 0 → Type 0
Cmd A = OldAllocator → Outcome A

abbrev pub pure : {A : Type 0} → A → Cmd A
pure a m = returns a m

abbrev pub stuck : {A : Type 0} → Cmd A
stuck m = out_of_fuel

abbrev pub and_then : {A B : Type 0} → Outcome A → (A → Cmd B) → Outcome B
and_then (returns a m) k = k a m
and_then undefined k = undefined
and_then out_of_fuel k = out_of_fuel

infixl 5 ◌>>=◌ ◌>>◌
abbrev pub ◌>>=◌ : {A B : Type 0} → Cmd A → (A → Cmd B) → Cmd B
m >>= k = λ s. and_then (m s) k

abbrev pub ◌>>◌ : {A B : Type 0} → Cmd A → Cmd B → Cmd B
m >> n = m >>= λ _. n

abbrev pub get : Cmd OldAllocator
get m = returns m m

abbrev pub set : (OldAllocator → OldAllocator) → Cmd (Unit {0})
set f m = returns tt (f m)

unfoldable pub load : Ptr → Cmd Block
load p m =
    if p == null then undefined else elim (m.blocks p) [ none ↦ undefined | some b ↦ returns b m ]

unfoldable pub load_footer : Ptr → Cmd Footer
load_footer p m = elim (m.footers p) [ none ↦ undefined | some f ↦ returns f m ]

abbrev pub store : Ptr → Block → Cmd (Unit {0})
store p b = set (λ m. record m { blocks = update m.blocks p (some b) })

unfoldable pub modify : Ptr → (Block → Block) → Cmd (Unit {0})
unfolding load
modify p f = do b ← load p; store p (f b)

abbrev pub block_span : Block → ℕ
block_span b = add64 overhead_size b.size

abbrev pub block_end : Ptr → Block → Ptr
block_end p b = add64 p (block_span b)

abbrev pub footer_of : Ptr → Block → Ptr
footer_of p b = add64 (p + header_size) b.size

unfoldable pub write_footer : Ptr → Cmd (Unit {0})
unfolding load
write_footer p = do
  b ← load p
  set (λ m. record m {
    footers = update m.footers (footer_of p b) (some (record { size = b.size; mapped = b.mapped }));
  })

unfoldable pub next_phys : Ptr → Cmd Ptr
unfolding load
next_phys block = if block == null then pure null else do
  b ← load block
  if b.mapped then pure null else do
    m ← get
    let next_addr = block_end block b
    pure (if (m.brk_heap_end == null) || leb m.brk_heap_end next_addr then null else next_addr)

abbrev pub same_bool : Bool → Bool → Bool
same_bool a b = if a then b else not b

unfoldable pub prev_phys : Ptr → Cmd Ptr
unfolding load load_footer
prev_phys block = if block == null then pure null else do
  b ← load block
  m ← get
  if b.mapped || (m.brk_heap_start == null)
      then pure null
      else if leb block (m.brk_heap_start + header_size)
      then pure null
      else do
        f ← load_footer (sub64 block footer_size)
        let prev_addr = sub64 block (add64 overhead_size f.size)
        if ltb prev_addr m.brk_heap_start then pure null else do
          prev ← load prev_addr
          pure (if same_bool prev.mapped f.mapped then prev_addr else null)
