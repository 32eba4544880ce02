-- ===== src/Nvic.antt =====
-- harness/fuzzware_harness/native/core_peripherals/cortexm_nvic.c, the interrupt controller: its
-- state and priorities, exception entry and return, and its memory-mapped registers.
pub mod State
pub mod Prio
pub mod Enable
pub mod Exception
pub mod Mmio
pub mod Sysctl
mod Tests
