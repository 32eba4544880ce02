-- ===== src/Hooks/Access.antt =====
-- hook_mmio_access of native_hooks.c: an access to a memory-mapped region is passed through, served
-- by a callback, or served from the fuzzing input.
pub mod Served
use fuzzware_emulator.Prelude.{
  ℕ, zero, suc, ◌+◌, ◌%◌, Bool, true, false, ◌&&◌, ◌||◌, List, [], ◌∷◌, Option, none, some, Run, ok,
  Halt, ◌>>=◌, ◌>>◌, check, leb, ◌==◌, if◌then◌else◌, sub64,
}
use fuzzware_emulator.Engine.{Engine, Reg}
use fuzzware_emulator.Machine.{Machine}
use fuzzware_emulator.Input.{get_fuzz}
use fuzzware_emulator.Hooks.State.{
  Hooks, Mmio, MmioCallback, IgnoredAddress, Handler, python, constant_model, linear_model,
  bitextract_model, value_set_model, all_access_sites,
}
use fuzzware_emulator.Hooks.Models.{
  put_bytes, linear_mmio_model_handler, constant_mmio_model_handler, bitextract_mmio_model_handler,
  value_set_mmio_model_handler,
}

-- Whether an entry for `site` applies at `pc`.
abbrev pub is_site : (site pc : ℕ) → Bool
is_site site pc = (site == all_access_sites) || (site == pc)

unfoldable pub is_ignored : List IgnoredAddress → (addr pc : ℕ) → Bool
is_ignored [] addr pc = false
is_ignored (i ∷ is) addr pc = ((addr == i.address) && is_site i.pc pc) || is_ignored is addr pc

abbrev pub applies : MmioCallback → (addr pc : ℕ) → Bool
applies c addr pc = leb c.start addr && (leb addr c.end && is_site c.pc pc)

-- The first callback that applies.
unfoldable pub find_callback : List MmioCallback → (addr pc : ℕ) → Option Handler
find_callback [] addr pc = none
find_callback (c ∷ cs) addr pc =
    if applies c addr pc then some c.handler else find_callback cs addr pc

module _ {Uc : Type 0} where
  -- `latest_mmio_fuzz_access_index = fuzz_cursor;`
  abbrev pub open_access : Hooks Uc → Hooks Uc
  open_access h = record h {
    mmio = record h.mmio { latest_mmio_fuzz_access_index = h.machine.input.fuzz_cursor };
  }

  -- The label `out`.
  abbrev pub close_access : Hooks Uc → Hooks Uc
  close_access h = record h {
    mmio = record h.mmio {
      latest_mmio_fuzz_access_size =
          sub64 h.machine.input.fuzz_cursor h.mmio.latest_mmio_fuzz_access_index;
    };
  }

module _ {Uc : Type 0} (e : Engine Uc) (file : Option (List ℕ))
    (python_callback : (addr size value : ℕ) → Hooks Uc → Run (Hooks Uc)) where
  unfoldable pub call_handler : Handler → (addr size value : ℕ) → Hooks Uc → Run (Hooks Uc)
  call_handler python addr size value h = python_callback addr size value h
  call_handler (constant_model val) addr size value h =
      ok (record h { machine = constant_mmio_model_handler e val addr size h.machine })
  call_handler (linear_model k) addr size value h = ok (linear_mmio_model_handler e k addr h)
  call_handler (bitextract_model config) addr size value h = do
    m ← bitextract_mmio_model_handler e file config addr size h.machine
    ok (record h { machine = m })
  call_handler (value_set_model config) addr size value h = do
    m ← value_set_mmio_model_handler e file config addr size h.machine
    ok (record h { machine = m })

  -- The part behind the lookups: the input is read into eight bytes, and the ones read are written.
  unfoldable pub serve_fuzz : (addr size : ℕ) → Hooks Uc → Run (Hooks Uc)
  serve_fuzz addr size h = do
    check (leb size 8) Halt.out_of_bounds
    r ← get_fuzz e file size h.machine
    elim r.0 [
      | none ↦ ok (record h { machine = r.1 })
      | some bytes ↦ ok (close_access (record h { machine = put_bytes e addr bytes r.1 }))
    ]

  unfoldable pub hook_mmio_access : (addr size value : ℕ) → Hooks Uc → Run (Hooks Uc)
  hook_mmio_access addr size value h =
      let h' = open_access h in
      let pc = e.reg_read Reg.pc h.machine.cpu.uc in
      if is_ignored h.mmio.ignored_addresses addr pc
      then ok (close_access h')
      else elim (find_callback h.mmio.mmio_callbacks addr pc) [
        | some handler ↦ (do d ← call_handler handler addr size value h'; ok (close_access d))
        | none ↦ serve_fuzz addr size h'
      ]
