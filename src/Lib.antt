-- ===== src/Lib.antt =====
-- The verification library of the allocator: a thread-caching memory allocator with per-CPU slabs,
-- written in C++ headers at the root of the repository.
--
-- A request is rounded to one of 47 size classes (size_classes.hpp). `Allocator::allocate` pops an
-- object of the class from the slab of the current CPU (slabs.hpp); if that is empty, a batch comes
-- from the class's transfer cache (transfer_cache.hpp) or else from its central free list
-- (central_free_list.hpp), which carves objects from spans of pages. Spans come from the page heap
-- (page_heap.hpp), which keeps free lists and a page map and asks the system for memory.
-- `Allocator::deallocate` finds the span of a pointer in the page map, and goes the other way.
--
-- Which file models which part:
--   SizeClasses      size_classes.hpp: the table row by row, `round_size_class`, `size_class_to_idx`.
--                    Search: the binary search; Table: facts on the table; Rounding: both searches.
--   Config           config.hpp: the constants, `compute_slab_offsets`, `compute_slab_capacities`, as
--                    functions of a table, and applied to the source's table. Capacities, Offsets.
--   Slabs            slabs.hpp: the methods of `Slabs`, `fallback_allocate`, `fallback_deallocate`,
--                    `align_up` and the byte layout. A slab is its counts and its pointers.
--                    Spec and Stack: bounded stacks and the slab seen as stacks; Fallback, Run, Batch
--                    and Stride: the proofs.
--   Slabs/Rseq       slabs.hpp: `rseq_slab_pop` and `rseq_slab_push`. Outcome, Progress.
--   Slabs/Access     slabs.hpp: `slab_pop`, `slab_push`, `current_cpu_id`. Outcome: whatever interrupts
--                    the thread up to the commit; Committed: when it is interrupted between the
--                    commit and the clearing of `rseq_cs`; Alone: when nothing interrupts it.
--   TransferCache    transfer_cache.hpp: `InsertRange`, `RemoveRange`. Refine.
--   PageHeap         page_heap.hpp. State: spans behind pointers, the free lists, the page map, and the
--                    commands on them; Pages: the page map; FreeLists: the linked lists; the file
--                    itself: `allocate_span`, `return_span`, `deallocate_span`, `split`, `coalesce`,
--                    the destructor. Dll: doubly linked lists; Steps, Insertion, Removal,
--                    BestFit, Pages/Lookup: the proofs on lists and page map.
--                    Shape, Find, Lists: parts of the invariant of the whole heap; Invariant:
--                    `allocate_span` and `return_span` keep it, also over sequences of calls
--                    (Invariant/Runs). Destructor: `~PageHeap`.
--   CentralFreeList  central_free_list.hpp. Nodes: the packed nodes in the memory of a span; the file
--                    itself: all methods. Nodes/Chain, Nodes/Objects, Nodes/Fill: packed nodes as a
--                    list of free objects. Objects: what it is for a span to be in order, and that
--                    the second half of `allocate`, and `deallocate`, keep it so. Fetch: `allocate`
--                    when a span of the class has an object left (Found), and when none has (Chosen,
--                    Choice, Outcome).
--                    Release: spans that go back to the page heap (Unlink, Members, Outcome), from
--                    `deallocate` (LastObject) and from the destructor (Destructor).
--   Allocator        allocator.hpp: the constructor, `allocate`, `deallocate`, the batch helpers.
--                    Count: the number of slabs. Front: slab and transfer caches as lists of
--                    pointers, for a thread that nothing disturbs: single accesses and batches
--                    (Steps, Batches), `allocate` (Served), `deallocate` (Returned), one after
--                    the other (RoundTrip), and sequences of calls (Runs). Shutdown: the destructor.
--   OldDesign        old/old_design.hpp, an earlier allocator with a list of free blocks, which stands
--                    alone. Heap: headers and footers, neighbours; Blocks: the free list, splitting
--                    and merging; the file itself: the other methods. Search, Neighbours: proofs.
--   Prelude          shared: Boolean tests, lists, arrays. Tests: runs and examples.
--
-- How the code is read. Pointers and page ids are numbers, 0 is `nullptr`. A class with state is a
-- record, and a method is a function from the state to `Option` of a result and a state. `none` is
-- undefined behaviour (a read or write through a pointer to no live span), a failed assertion, an
-- exception of the constructor, or a lack of fuel. Machine integers wrap where the source's type does:
-- `add32`, `sub32`, `mul32`, `% 2 ^ 16`, `% 2 ^ 64`; the page ids are addresses divided by the page
-- size, so that their sums do not wrap.
--
-- Fuel and rounds. The binary searches have 6 rounds, enough for 48 classes. A walk along a free list
-- takes fuel, and more than the length of the list is enough. The loops of `populate_span`,
-- `compute_slab_offsets`, the page map and the batches have their number of rounds from their bounds.
-- A restartable sequence takes a list of attempts, and returns at the first that nothing disturbs.
--
-- In the earlier design a run returns, ends in undefined behaviour, or runs out of fuel, and these are
-- told apart.
--
-- What stands for the surroundings: `mmap`, `munmap` and `new` are the fields of `System`, by the number
-- of the call, `new` also by the objects that are live then; a theorem that needs it asks that `new`
-- return no live object, and lets it return one that was deleted before. The page heap keeps what it has
-- called `munmap` with. `mmap`, `munmap`, `sbrk` and `brk` are the fields of `Kernel` in the earlier
-- design. What a thread meets in an access to the slabs (the CPU ids, preemptions, the other threads) is
-- a `Thread` with its `Attempt`s.
--
-- Not modelled: the mutexes (a method under a lock is one step), races in the fallback code of a
-- slab, the registration of the restartable sequences and their signature, systems other than Linux
-- on x86-64, the empty radix_tree.hpp, main.cpp, tests/, scripts/, and the test programs
-- of the earlier design, old/main.cpp and old/tests.hpp, which call methods that old_design.hpp has
-- commented out. What users write into the memory of a block of the earlier design is not modelled
-- either.
pub mod Prelude
pub mod SizeClasses
pub mod Config
pub mod Slabs
pub mod TransferCache
pub mod PageHeap
pub mod CentralFreeList
pub mod Allocator
pub mod OldDesign
pub mod Tests
