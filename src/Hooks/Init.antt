-- ===== src/Hooks/Init.antt =====
-- init of native_hooks.c: the watchdogs, the hooks for exits and memory-mapped regions, and the
-- subscription of the snapshots.
--
-- `G` and `D` are the state and the data of the registry of snapshots, `X` the type of exit hooks.
-- The results of `uc_hook_add` are parameters. The buffers can be had. What only prints is left out.
use fuzzware_emulator.Prelude.{
  ℕ, ◌≡◌, Bool, true, false, not, List, [], ◌∷◌, ◌++◌, Option, none, some, Run, ok, ◌>>=◌, ◌==◌,
  if◌then◌else◌, clear_bit, arith,
}
use mathlib.Core.List.{append_assoc, append-nil}
use fuzzware_emulator.Engine.{Engine, UcErr, err_ok, err_exception, is_ok, word_bytes}
use fuzzware_emulator.Timer.{add_timer, start_timer, timer_irq_not_used, Callback, TimerState}
use fuzzware_emulator.Snapshotting.{SnapshottingState, subscribe_state_snapshotting}
use fuzzware_emulator.Hooks.State.{Hooks, Mmio, Region, err_minus_one}
use fuzzware_emulator.Hooks.Models.{put_bytes}
use fuzzware_emulator.Hooks.Register.{add_mmio_region}
use fuzzware_emulator.Hooks.Runs.{add_exit_hook}

abbrev pub cpuid_addr : ℕ
cpuid_addr = 0xe000_ed00

abbrev pub cpuid_cortex_m4 : ℕ
cpuid_cortex_m4 = 0x410f_c240

-- The arguments of `init`.
pub record InitArgs (X : Type 0) : Type 0 where
  pub exit_hook : Option X
  pub mmio_regions : List Region
  pub has_user_data : Bool
  pub exit_at_bbls : List ℕ
  pub exit_at_hit_limit : ℕ
  pub fuzz_consumption_timeout : ℕ
  pub instr_limit : ℕ

-- The handlers of a part that subscribes to snapshots.
pub record Part (G D : Type 0) : Type 0 where
  pub take : G → D
  pub restore : Option D → G → G
  pub discard : Option D → G → G

-- The state that `init` sets up.
pub record Native (Uc X G D : Type 0) : Type 0 where
  pub hooks : Hooks Uc
  pub exit_hooks : List X
  pub exit_at_hit_limit : ℕ
  pub exit_blocks : List ℕ
  pub instr_limit : ℕ
  pub instr_limit_timer_id : ℕ
  pub snapshots : SnapshottingState G D

-- The blocks at which `hook_block_exit_at` is called, up to the first that cannot be hooked.
unfoldable pub hook_exit_blocks : (hook_added : ℕ → UcErr) → List ℕ → Bool × List ℕ
hook_exit_blocks hook_added [] = (true, [])
hook_exit_blocks hook_added (a ∷ rest_bbls) =
    let rest = hook_exit_blocks hook_added rest_bbls in
    let block = clear_bit a 0 in
    if is_ok (hook_added block) then (rest.0, block ∷ rest.1) else (false, [])

unfoldable pub add_mmio_regions : (Region → UcErr) → List Region → Mmio → UcErr × Mmio
add_mmio_regions hook_add [] m = (err_ok, m)
add_mmio_regions hook_add (r ∷ rs) m =
    let added = add_mmio_region hook_add r.start r.end m in
    let rest = add_mmio_regions hook_add rs added.1 in
    if is_ok added.0 then rest else (err_exception, added.1)

-- A timer that runs unless its time is 0.
unfoldable pub add_watchdog : ℕ → Callback → TimerState → Run (ℕ × TimerState)
add_watchdog time callback s = do
  r ← add_timer time (some callback) timer_irq_not_used s
  t ← if time == 0 then ok r.1 else start_timer r.0 r.1
  ok (r.0, t)

abbrev pub subscribe : {G D : Type 0} → Part G D → SnapshottingState G D → SnapshottingState G D
subscribe p s = subscribe_state_snapshotting p.take p.restore p.discard s

module _ {Uc X G D : Type 0} (e : Engine Uc) (block_hook_added : ℕ → UcErr)
    (hook_add : Region → UcErr) (triggers_part engine_part models_part : Part G D) where
  -- Behind the watchdogs.
  unfoldable pub init_hooks : InitArgs X → Native Uc X G D → UcErr × Native Uc X G D
  init_hooks args n =
      let blocks = hook_exit_blocks block_hook_added args.exit_at_bbls in
      let hooked : Native Uc X G D = record n { exit_blocks = n.exit_blocks ++ blocks.1 } in
      let regions =
        add_mmio_regions hook_add args.mmio_regions
          (record n.hooks.mmio { mmio_regions = args.mmio_regions }) in
      let mapped : Native Uc X G D = record hooked {
        hooks = record n.hooks { mmio = regions.1 };
      } in
      if not blocks.0
      then (err_minus_one, hooked)
      else if not (is_ok regions.0)
      then (err_exception, mapped)
      else (
        err_ok,
        record mapped {
          snapshots =
              subscribe models_part (subscribe engine_part (subscribe triggers_part n.snapshots));
        },
      )

  unfoldable pub init : InitArgs X → Native Uc X G D → Run (UcErr × Native Uc X G D)
  init args n = do
    let m = put_bytes e cpuid_addr (word_bytes cpuid_cortex_m4) n.hooks.machine
    exit_hooks ← elim args.exit_hook [
      | none ↦ ok n.exit_hooks
      | some hook ↦ add_exit_hook hook n.exit_hooks
    ]
    fuzz ← add_watchdog args.fuzz_consumption_timeout Callback.fuzz_consumption_timeout m.timers
    limit ← add_watchdog args.instr_limit Callback.instr_limit_timeout fuzz.1
    ok (
        init_hooks args (record {
          hooks = record {
            machine = record m {
              timers = limit.1;
              input = record m.input { fuzz_consumption_timer_id = fuzz.0 };
            };
            mmio = record n.hooks.mmio { has_user_data = args.has_user_data };
          };
          exit_hooks = exit_hooks;
          exit_at_hit_limit = args.exit_at_hit_limit;
          exit_blocks = n.exit_blocks;
          instr_limit = args.instr_limit;
          instr_limit_timer_id = limit.0;
          snapshots = n.snapshots;
        }))

-- With a handler set up and an engine that adds every hook, each region gets the access hook.
add_mmio_regions-hooked :
    (hook_add : Region → UcErr) (rs : List Region) (m : Mmio)
    → m.has_user_data ≡ true
    → ((r : Region) → hook_add r ≡ err_ok)
    → add_mmio_regions hook_add rs m
      ≡ (err_ok, record m { hooked_regions = m.hooked_regions ++ rs })
unfolding add_mmio_regions add_mmio_region
add_mmio_regions-hooked hook_add [] m ready all = ground (arith, append-nil m.hooked_regions)
add_mmio_regions-hooked hook_add (r ∷ rs) m ready all = ground (
  arith,
  ready,
  all r,
  append_assoc m.hooked_regions (r ∷ []) rs,
  add_mmio_regions-hooked hook_add rs (record m { hooked_regions = m.hooked_regions ++ r ∷ [] })
      ready all,
)
