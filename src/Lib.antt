-- ===== src/Lib.antt =====
-- The native part of the Fuzzware emulator, harness/fuzzware_harness/native/: the peripherals of a
-- Cortex-M processor around the Unicorn engine, which it calls from hooks at every basic block and at
-- every access to a memory-mapped register. All times are counted in basic blocks.
--
-- The parts, the source of each, and the module that models it:
-- - Timer: the timers of timer.c, an array of 32 slots with a linked list of the active ones in the
--   order of their expiry. Pointers to a timer are indices, and tick values wrap at 2 ^ 64.
-- - Clock: the block hook of timer.c and the expiry of the countdown, with the callbacks it makes.
-- - Engine: the interface of Unicorn, a submodule, as operations on an abstract state with their
--   documented laws, and do_exit of native_hooks.c. Chip is an instance of it for the tests.
-- - Nvic: core_peripherals/cortexm_nvic.c. Nvic.State has the record, Nvic.Prio the priorities,
--   Nvic.Enable the enabling, Nvic.Exception entry and return, Nvic.Mmio and Nvic.Sysctl the
--   registers. Bus sends an access to one of them or to SysTick.
-- - Systick: core_peripherals/cortexm_systick.c, whose counter is one of the timers.
-- - Triggers: interrupt_triggers.c, which pends interrupts by address or by time, as the input says.
-- - Input: the reading of the fuzzing input in native_hooks.c. The input file is a parameter.
-- - Hooks: the rest of native_hooks.c. Hooks.Models and Hooks.Access serve the accesses to registers,
--   Hooks.Register registers their models and handlers, Hooks.Blocks has the handlers at basic blocks,
--   Hooks.Runs the running of inputs with the rounds of the fork server, Hooks.Init the start,
--   Hooks.Components the handlers by which timers, NVIC, SysTick and triggers take part in snapshots,
--   and Hooks.Emulate the emulation as a whole.
-- - Tracing: native_tracing.c, over an interface of the sets of khash.h.
-- - UcSnapshot: uc_snapshot.c, which saves the memory of the engine and writes back what has changed.
-- - Snapshotting: the registry of state_snapshotting.c.
-- - Machine: the state of the parts up to Input as one record, to which Hooks.State adds that of the
--   hooks; Sample: a concrete one. Prelude: shared names, tests, lists and words.
--
-- Functions keep the names of the C functions. Code that may end the process, or leave the defined
-- behaviour of C by an index outside an array, a read through NULL, a division by zero or an overflow
-- of an int, returns a Run: a result, or the reason why there is none.
--
-- Loops along the active list take fuel of 33 steps, one more than there are timers: the list has no
-- repetition, so that each walk visits a timer once at most. The expiry loop has the same fuel: a timer
-- that has gone off has not expired again, as long as the callbacks change no timer. get_fuzz calls
-- itself once at most, and has fuel for it. The loop over the handlers at a basic block has fuel as an
-- argument, since a handler may change the array; the loop that counts the bits of a mask has 33
-- rounds, one more than there are bits.
--
-- Not modelled: debug output, most of the registration of hooks with the engine, the freeing of
-- snapshots, the vendored khash.h and CMSIS headers, and the Python harness. What Unicorn and khash.h do is a parameter with the documented
-- behaviour as named laws. The environment, the files and what the discovery child of emulate reports
-- over its pipe are parameters, too.
pub mod Prelude
pub mod Engine
pub mod Timer
pub mod Nvic
pub mod Machine
pub mod Systick
pub mod Input
pub mod Triggers
pub mod Hooks
pub mod Tracing
pub mod UcSnapshot
pub mod Clock
pub mod Bus
pub mod Snapshotting
pub mod Chip
pub mod Sample
mod Tests
