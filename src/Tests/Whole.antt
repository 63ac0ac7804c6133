-- ===== src/Tests/Whole.antt =====
-- The whole allocator on a system of one thread.
use allocator.Prelude.{
  Bool, ◌<◌, ◌⊎◌, ◌||◌, ◌==◌, ℕ, ◌+◌, ◌*◌, ◌≡◌, refl, true, Option, none, some, [], ◌∷◌, Ptr, null,
}
use allocator.PageHeap.State.{System}
use allocator.Allocator
use allocator.Allocator.Count.{create-slab_count}
use allocator.Allocator.{◌>>=◌, ◌>>◌}
use allocator.Slabs.Access.{Thread}
use allocator.Slabs.Rseq.{calm, rseq_slab_pop}
use allocator.SizeClasses.{round_size_class}

-- A system in which each call gets fresh pages and a fresh object.
abbrev sys : System
sys = record {
  new_span = λ call spans. 100 + call;
  mmap = λ call bytes. some (4096 * 1000 * (call + 1));
  munmap = λ call addr bytes. true;
}

abbrev thread : Thread
thread = record {
  rseq_available = true;
  tries = record { cpu_id_start = 0; cpu_id = 0; interrupt = calm; others = λ s. s } ∷ [];
  rseq_cpu_id = some 0;
  sched_getcpu = some 0;
  getcpu = some 0;
}

abbrev result : {A B : Type 0} → Option (A × B) → Option A
result none = none
result (some (a, b)) = some a

abbrev run_once : (sz : ℕ) → Option Ptr
run_once sz = elim (Allocator.create 4 (λ c. true) true (λ _. 0)) [
  | none ↦ none
  | some a ↦ result (Allocator.allocate sys (λ _. thread) 10 sz a)
]

-- A request of 8192 bytes gets a span of one page of 4096, in which no object fits.
run_8192 : run_once 8192 ≡ some null
unfolding Allocator.create Allocator.allocate round_size_class rseq_slab_pop
run_8192 = refl

-- A request that no class holds.
run_large : run_once 262145 ≡ some null
unfolding Allocator.create Allocator.allocate round_size_class
run_large = refl

-- CPUs 0 and 2 of four.
abbrev mask : ℕ → Bool
mask c = (c == 0) || (c == 2)

create-slab_count_example :
    (a : Allocator.Allocator) × (Allocator.create 4 mask true (λ _. 0) ≡ some a)
    × ((c : ℕ) → c < 4 → mask c ≡ true → c < a.slab_count)
    × ((a.slab_count ≡ 1) ⊎ ((c : ℕ) × (c < 4) × (mask c ≡ true) × (a.slab_count ≡ c + 1)))
create-slab_count_example = create-slab_count 4 mask (λ _. 0)
