-- ===== src/Tests/Sequences.antt =====
-- Tests of the restartable sequences and their wrappers, and the theorems on them at concrete inputs.
use allocator.Prelude.{
  ◌≡◌, refl, ◌<◌, true, Option, none, some, List, [], ◌∷◌, null, arith, inl, inr,
}
use allocator.Config.{size_class_offset, size_class_capacity}
use allocator.Slabs.Rseq.{SlabArray, Attempt, calm, late, committed, rseq_slab_pop}
use allocator.Slabs.Rseq.Outcome.{AllValid, KeepValid, NoneCommitted}
use allocator.Slabs.Rseq.Progress.{HasCalm}
use allocator.Slabs.Access.{Thread, slab_pop, slab_push}
use allocator.Slabs.Access.Committed.{Interrupted, slab_push-twice}
use allocator.Slabs.Access.Alone.{fast}
use allocator.Slabs.Stack.{stack}
use allocator.Slabs.Access.Outcome.{Done, DidPush, DidPop, slab_push-Done, slab_pop-Done}
use allocator.Tests.Slab.{two_items, two_items-IsValid}

abbrev slabs : SlabArray
slabs c = two_items

abbrev attempt : Attempt
attempt = record { cpu_id_start = 1; cpu_id = 1; interrupt = calm; others = λ s. s }

-- Preempted before the commit, then left in peace.
abbrev twice : List Attempt
twice = record attempt { interrupt = late } ∷ attempt ∷ []

abbrev thread : Thread
thread = record {
  rseq_available = true;
  tries = twice;
  rseq_cpu_id = some 1;
  sched_getcpu = some 1;
  getcpu = some 1;
}

valid : AllValid slabs
valid c = two_items-IsValid

kept : KeepValid twice
kept = ((λ s v. v), ((λ s v. v), tt))

once : NoneCommitted twice
once = (refl, (refl, tt))

calm_at_last : HasCalm twice
calm_at_last = inr (inl (refl, refl))

abbrev result : {A B : Type 0} → Option (A × B) → Option A
result none = none
result (some (a, b)) = some a

pop_twice : result (slab_pop 4 5 thread slabs) ≡ some 800
unfolding slab_pop rseq_slab_pop size_class_offset
pop_twice = refl

pop_out_of_range : result (slab_pop 1 5 thread slabs) ≡ some null
unfolding slab_pop rseq_slab_pop
pop_out_of_range = refl

slab_push-Done_example : Done (DidPush 4 5 900) slabs twice (slab_push 4 5 thread 900 slabs)
slab_push-Done_example =
    slab_push-Done 4 5 (omega arith) thread 900 slabs valid kept once calm_at_last

slab_pop-Done_example : Done (DidPop 4 5) slabs twice (slab_pop 4 5 thread slabs)
slab_pop-Done_example = slab_pop-Done 4 5 (omega arith) thread slabs valid kept once calm_at_last

-- Preempted after the commit, then left in peace.
abbrev again : List Attempt
again = record attempt { interrupt = committed } ∷ attempt ∷ []

abbrev preempted : Thread
preempted = record thread { tries = again }

interrupted : Interrupted 1 preempted
interrupted = record {
  first = record attempt { interrupt = committed };
  rest = attempt ∷ [];
  fast_path = refl;
  tries = refl;
  start = refl;
  same = refl;
  after_commit = refl;
  undisturbed = λ s. refl;
  then_alone = fast attempt [] refl refl refl refl refl;
}

slab_push-twice_example :
    (slabs' : SlabArray) × (slab_push 4 5 preempted 900 slabs ≡ some (true, slabs'))
    × (stack (slabs' 1) 5 ≡ 900 ∷ 900 ∷ stack (slabs 1) 5)
unfolding size_class_capacity
slab_push-twice_example =
    slab_push-twice 4 5 (omega arith) 1 preempted slabs valid (omega arith) interrupted 900
      (omega arith)

five : 5 < 48
five = omega arith
