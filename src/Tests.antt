-- ===== src/Tests.antt =====
-- Tests: the definitions run at concrete inputs, and each theorem at an input that meets its
-- hypotheses.
pub mod Classes
pub mod Slab
pub mod Sequences
pub mod Cache
pub mod Heap
pub mod Invariant
pub mod Runs
pub mod Objects
pub mod Central
pub mod Fetch
pub mod Release
pub mod Shutdown
pub mod Front
pub mod Whole
pub mod OldDesign
