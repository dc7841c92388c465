-- ===== src/Backend/Optimizations/ConstantFold.antt =====
-- compiler/backend/optimizations/constant_fold.py: `Arith` computes with constants, `Folding` folds
-- one instruction, `Pass` is the pass over a block. `Meaning` says what the
-- language promises. `Growth`, `Joins`, `Defined`, `Rising` and `Ends` are about the end of the iteration.
pub mod Arith
pub mod Wrap
pub mod Meaning
pub mod Folding
pub mod Correct
pub mod Pass
pub mod Known
pub mod Transfer
pub mod Merge
pub mod Incoming
pub mod Invariant
pub mod Growth
pub mod Joins
pub mod Entries
pub mod Declared
pub mod Defined
pub mod Rising
pub mod Ends
pub mod Arrives
pub mod Runs
pub mod Kept
pub mod Sound
