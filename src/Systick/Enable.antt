-- ===== src/Systick/Enable.antt =====
-- The ENABLE bit of SysTick's control register.
use fuzzware_emulator.Prelude.{
  ℕ, ◌<◌, ◌≡◌, refl, sym, ◌∙◌, Bool, true, false, none, List, [], ok, arith, has, without, ◌==◌,
  inl, inr, Bool-cases, bit, has_bit, has-without_self, has-without_ne, if◌then◌else◌,
}
use fuzzware_emulator.Timer.{Timer, TimerState, max_timers, reload_timer, set_timer}
use fuzzware_emulator.Timer.Chain.{synced}
use fuzzware_emulator.Timer.Insert.{SameValues, insert_sorted, has-insert_sorted}
use fuzzware_emulator.Timer.Active.{
  IsActive, CanStart, set_active, start_timer-IsActive, stop_timer-IsActive,
}
use fuzzware_emulator.Timer.Period.{replaced-IsActive}
use fuzzware_emulator.Machine.{Machine}
use fuzzware_emulator.Systick.{
  systick_base, csr_enable, csr_written, write_csr, hook_syst_mmio_write,
}

-- The timer of SysTick can be started, and runs exactly if ENABLE is set.
pub record IsCoupled {Uc : Type 0} (m : Machine Uc) (is : List ℕ) : Type 0 where
  pub active : IsActive m.timers is
  pub in_array : m.systick.timer_ind < max_timers
  pub startable : CanStart (m.timers.timers m.systick.timer_ind)
  pub follows : (m.timers.timers m.systick.timer_ind).is_active ≡ has_bit m.systick.csr csr_enable

reloads_stopped :
    (s : TimerState) (id : ℕ)
    → id < max_timers
    → (s.timers id).is_active ≡ false
    → reload_timer id s
      ≡ ok (set_timer s id (record (s.timers id) { ticker_val = (s.timers id).reload_val }))
unfolding reload_timer
reloads_stopped s id lt off = ground (arith, lt, off)

-- Starting and stopping keeps what a start asks for.
CanStart-same :
    (s : TimerState) (is : List ℕ) (id : ℕ) (u : TimerState) (b : Bool)
    → SameValues (synced (set_active s id b) is).timers u.timers
    → CanStart (s.timers id)
    → CanStart (u.timers id)
CanStart-same s is id u b same c = record {
  in_use = ground (arith, same id, c.in_use);
  positive = ground (arith, same id, c.positive);
  in_range = ground (arith, same id, c.in_range);
}

enable-written :
    (csr value : ℕ) → has_bit (csr_written csr value) csr_enable ≡ has_bit value csr_enable
unfolding csr_written
enable-written csr value = ground arith

module _ {Uc : Type 0} where
  -- A write to the control register that changes ENABLE, while the timer of SysTick can be started
  -- and runs exactly if the bit is set, starts or stops the timer, so that this is so again; every
  -- other timer is on the active list as before, in order. If the list is empty, the timer's
  -- `next` pointer has to be `NULL`.
  pub write_csr-follows :
      (m : Machine Uc) (is : List ℕ) (value : ℕ)
      → IsCoupled m is
      → (is ≡ [] → (m.timers.timers m.systick.timer_ind).next ≡ none)
      → (bit m.systick.csr csr_enable == bit value csr_enable) ≡ false
      → (m' : Machine Uc) × (js : List ℕ) × (hook_syst_mmio_write systick_base value m ≡ ok m')
        × IsCoupled m' js
        × (m'.systick.timer_ind ≡ m.systick.timer_ind)
        × (has_bit m'.systick.csr csr_enable ≡ has_bit value csr_enable)
        × ((j : ℕ)
            → has j js ≡ (if j == m.systick.timer_ind then has_bit value csr_enable else has j is))
  unfolding hook_syst_mmio_write write_csr
  write_csr-follows m is value c fresh changed =
      let id = m.systick.timer_ind in
      let s = m.timers in
      elim (Bool-cases (has_bit value csr_enable)) [
        | inl on ↦
            (let off : (s.timers id).is_active ≡ false = ground (arith, c.follows, on, changed) in
              let w : Timer = record (s.timers id) { ticker_val = (s.timers id).reload_val } in
              let t = set_timer s id w in
              let out : has id is ≡ false = sym (c.active.flags id) ∙ off in
              let ready : CanStart (t.timers id) = record {
                in_use = ground (arith, c.startable.in_use);
                positive = ground (arith, c.startable.positive);
                in_range = ground (arith, c.startable.in_range);
              } in
              let (u, starts, active, same) =
                start_timer-IsActive t is id
                  (replaced-IsActive s is id w c.active out (ground (arith, off))) c.in_array ready
                  (ground (arith, off)) (ground (arith, c.startable.in_range))
                  (λ e. ground (arith, fresh e)) in
              let js = insert_sorted (synced (set_active t id true) is).timers id is in
              let members : (j : ℕ) → has j js ≡ (if j == id then true else has j is) = λ j.
                ground
                  (arith, has-insert_sorted (synced (set_active t id true) is).timers id j is) in
              (
                record m {
                  timers = u;
                  systick = record m.systick { csr = csr_written m.systick.csr value };
                },
                js,
                ground (arith, changed, on, reloads_stopped s id c.in_array off, starts),
                record {
                  active = active;
                  in_array = c.in_array;
                  startable = CanStart-same t is id u true same ready;
                  follows =
                      ground (
                        arith,
                        active.flags id,
                        members id,
                        enable-written m.systick.csr value,
                        on,
                      );
                },
                refl,
                enable-written m.systick.csr value,
                λ j. ground (arith, members j, on),
              ))
        | inr off ↦
            (let on : (s.timers id).is_active ≡ true = ground (arith, c.follows, off, changed) in
              let (u, stops, active, same) =
                stop_timer-IsActive s is id c.active c.in_array c.startable.in_use on in
              let members : (j : ℕ)
                  → has j (without id is) ≡ (if j == id then false else has j is) =
                λ j. elim (Bool-cases (j == id)) [
                  | inl here ↦ ground (arith, here, has-without_self id is c.active.queue.distinct)
                  | inr other ↦ ground (arith, other, has-without_ne id j is other)
                ] in
              (
                record m {
                  timers = u;
                  systick = record m.systick { csr = csr_written m.systick.csr value };
                },
                without id is,
                ground (arith, changed, off, stops),
                record {
                  active = active;
                  in_array = c.in_array;
                  startable = CanStart-same s is id u false same c.startable;
                  follows =
                      ground (
                        arith,
                        active.flags id,
                        members id,
                        enable-written m.systick.csr value,
                        off,
                      );
                },
                refl,
                enable-written m.systick.csr value,
                λ j. ground (arith, members j, off),
              ))
      ]
