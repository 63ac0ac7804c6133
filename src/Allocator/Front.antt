-- ===== src/Allocator/Front.antt =====
-- The front of the allocator, the slab of a CPU and the transfer caches, as lists of pointers.
pub mod Steps
pub mod Batches
pub mod Served
pub mod Returned
pub mod Runs
pub mod RoundTrip
use allocator.Prelude.{
  ℕ, ◌+◌, ◌<◌, ◌≡◌, ◌≢◌, refl, sym, ap, ◌∙◌, inl, inr, List, [], ◌∷◌, ◌++◌, arith, ◌==◌, Ptr, null,
  update, update_self, Bool-cases, ==→eq,
}
use mathlib.Core.Path.{subst}
use allocator.Slabs.{Slab}
use allocator.Slabs.Stack
use allocator.Slabs.Stack.{stack}
use allocator.Slabs.Rseq.Outcome.{AllValid}
use allocator.Slabs.Fallback.{Keeps}
use allocator.TransferCache.Refine
use allocator.TransferCache.Refine.{contents}
use allocator.Allocator.{Allocator}

-- What the slab of the CPU `c` holds of the class `i`, the next to be handed out first.
abbrev pub in_slab : Allocator → (c i : ℕ) → List Ptr
in_slab a c i = stack (a.per_cpu_caches c) i

-- What the transfer cache of the class holds, the next to be handed out last.
abbrev pub in_cache : Allocator → (i : ℕ) → List Ptr
in_cache a i = contents (a.transfer_caches i)

abbrev pub NoNull : List Ptr → Type 0
NoNull [] = Unit
NoNull (x ∷ xs) = (x ≢ null) × NoNull xs

-- What the thread of the CPU `c` relies on.
pub record FrontOk (a : Allocator) (c : ℕ) : Type 0 where
  pub in_range : c < a.slab_count
  pub slabs : AllValid a.per_cpu_caches
  pub caches : (i : ℕ) → Refine.IsValid (a.transfer_caches i)
  pub slab_live : (i : ℕ) → i < 48 → NoNull (in_slab a c i)
  pub cache_live : (i : ℕ) → NoNull (in_cache a i)

-- The slab of `c` has come to hold `in_hand` of the class `i`, and the class's cache `behind`; all
-- else of the front is as before.
pub record Holds (a a' : Allocator) (c i : ℕ) (in_hand behind : List Ptr) : Type 0 where
  pub ok : FrontOk a' c
  pub slab : in_slab a' c i ≡ in_hand
  pub cache : in_cache a' i ≡ behind
  pub other_classes : (j : ℕ) → j < 48 → j ≢ i → in_slab a' c j ≡ in_slab a c j
  pub other_cpus : (d : ℕ) → d ≢ c → a'.per_cpu_caches d ≡ a.per_cpu_caches d
  pub other_caches : (j : ℕ) → j ≢ i → a'.transfer_caches j ≡ a.transfer_caches j

-- The layers behind the front are as before, and so is the number of slabs.
pub record SameCentral (a a' : Allocator) : Type 0 where
  pub page_heap : a'.page_heap ≡ a.page_heap
  pub mem : a'.mem ≡ a.mem
  pub free_list : a'.free_list ≡ a.free_list
  pub slab_count : a'.slab_count ≡ a.slab_count

pub Holds-trans :
    (a b d : Allocator) (c i : ℕ) (xs ys zs ws : List Ptr)
    → Holds a b c i xs ys
    → Holds b d c i zs ws
    → Holds a d c i zs ws
Holds-trans a b d c i xs ys zs ws h k = record {
  ok = k.ok;
  slab = k.slab;
  cache = k.cache;
  other_classes = λ j l ne. k.other_classes j l ne ∙ h.other_classes j l ne;
  other_cpus = λ e ne. k.other_cpus e ne ∙ h.other_cpus e ne;
  other_caches = λ j ne. k.other_caches j ne ∙ h.other_caches j ne;
}

pub SameCentral-trans : (a b d : Allocator) → SameCentral a b → SameCentral b d → SameCentral a d
SameCentral-trans a b d h k = record {
  page_heap = k.page_heap ∙ h.page_heap;
  mem = k.mem ∙ h.mem;
  free_list = k.free_list ∙ h.free_list;
  slab_count = k.slab_count ∙ h.slab_count;
}

pub Holds-refl :
    (a : Allocator) (c i : ℕ) → FrontOk a c → Holds a a c i (in_slab a c i) (in_cache a i)
Holds-refl a c i v = record {
  ok = v;
  slab = refl;
  cache = refl;
  other_classes = λ j l ne. refl;
  other_cpus = λ d ne. refl;
  other_caches = λ j ne. refl;
}

pub SameCentral-refl : (a : Allocator) → SameCentral a a
SameCentral-refl a = record { page_heap = refl; mem = refl; free_list = refl; slab_count = refl }

-- The allocator after an access to the slab of `c`.
abbrev pub accessed : Allocator → (c : ℕ) → Slab → Allocator
accessed a c slab = record a {
  per_cpu_caches = update a.per_cpu_caches c slab;
  slab_calls = a.slab_calls + 1;
}

pub accessed-Holds :
    (a : Allocator) (c i : ℕ) (slab : Slab) (xs : List Ptr)
    → FrontOk a c
    → Keeps (a.per_cpu_caches c) slab i
    → stack slab i ≡ xs
    → NoNull xs
    → Holds a (accessed a c slab) c i xs (in_cache a i)
accessed-Holds a c i slab xs v k e live =
    let here = update_self a.per_cpu_caches c slab in
    let same : (j : ℕ) → j < 48 → j ≢ i → in_slab (accessed a c slab) c j ≡ in_slab a c j =
      λ j l ne. ap (λ s. stack s j) here ∙ k.others j l ne in
    let top : in_slab (accessed a c slab) c i ≡ xs = ap (λ s. stack s i) here ∙ e in
    record {
      ok = record {
        in_range = v.in_range;
        slabs = λ d. elim (Bool-cases (c == d)) [ inl t ↦ rw t k.valid | inr f ↦ rw f (v.slabs d) ];
        caches = v.caches;
        slab_live = λ j l. elim (Bool-cases (j == i)) [
          | inl t ↦ subst NoNull (sym (ap (in_slab (accessed a c slab) c) (==→eq j i t) ∙ top)) live
          | inr f ↦ subst NoNull (sym (same j l (ground arith))) (v.slab_live j l)
        ];
        cache_live = v.cache_live;
      };
      slab = top;
      cache = refl;
      other_classes = same;
      other_cpus = λ d ne. ground arith;
      other_caches = λ j ne. refl;
    }

pub accessed-SameCentral : (a : Allocator) (c : ℕ) (slab : Slab) → SameCentral a (accessed a c slab)
accessed-SameCentral a c slab = record {
  page_heap = refl;
  mem = refl;
  free_list = refl;
  slab_count = refl;
}
