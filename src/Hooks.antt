-- ===== src/Hooks.antt =====
-- harness/fuzzware_harness/native/native_hooks.c and .h, but for the fuzzing input (module Input):
-- the serving of memory-mapped accesses, the handlers at basic blocks, and the running of inputs.
pub mod State
pub mod Models
pub mod Access
pub mod Register
pub mod Blocks
pub mod Runs
pub mod Init
pub mod Components
pub mod Emulate
mod Tests
