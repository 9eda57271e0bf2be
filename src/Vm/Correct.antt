-- ===== src/Vm/Correct.antt =====
-- The compiler and the machine against the meaning of a script.
pub mod Runs
pub mod Emits
pub mod Folds
pub mod Parts
pub mod Exprs
pub mod Defined
pub mod Names
pub mod Reaches
pub mod Scripts
pub mod Constants
pub mod Filters
