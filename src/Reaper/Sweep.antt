-- ===== src/Reaper/Sweep.antt =====
-- `_sweep`, and the rounds of `_run`.
use sui_ctf_infrastructure.Text.{Text}
use sui_ctf_infrastructure.Base.{
  ℤ, pos_part, ◌-ℤ◌, scale, ltb_ℤ, ℕ, zero, suc, Bool, true, false, ◌&&◌, none, some, List, [], ◌∷◌,
}
use sui_ctf_infrastructure.Python.Errors.{Result, ok, raised}
use sui_ctf_infrastructure.Config.{Config}
use sui_ctf_infrastructure.Registry.{Status, starting, expired, Record, set_status, due_for_reap}
use sui_ctf_infrastructure.Docker.Sdk.{Host}
use sui_ctf_infrastructure.Docker.Manager.{stop_and_remove}
use sui_ctf_infrastructure.Instances.Tasks.{State, seconds, to_thread, sleep_for}

abbrev pub is_starting : Status → Bool
is_starting starting = true
is_starting _ = false

-- Still inside the boot window: the record is passed over.
unfoldable pub in_boot_window : Config → ℤ → Record → Bool
unfolding ◌-ℤ◌ scale
in_boot_window cfg now r =
    is_starting r.status && ltb_ℤ (now -ℤ r.created_at) (seconds cfg.instance_boot_timeout)

module _ {W : Type 0} (host : Host W) (cfg : Config) where
  open host use {time}

  -- After the container is gone, the row is marked, and the loop goes on.
  abbrev pub after_removal :
      (State W → Result (Unit {0}) × State W)
      → Text
      → Result (Unit {0}) × State W
      → Result (Unit {0}) × State W
  after_removal again uuid (raised e, s) = (raised e, s)
  after_removal again uuid (ok _, s) = again (record s { reg = set_status uuid expired none s.reg })

  -- The loop over the records that were due.
  unfoldable pub reap : ℤ → List Record → State W → Result (Unit {0}) × State W
  reap now [] s = (ok tt, s)
  reap now (r ∷ rs) s = elim (in_boot_window cfg now r) [
    | true ↦ reap now rs s
    | false ↦
        after_removal (reap now rs) r.uuid
          (to_thread host (stop_and_remove host r.container_id r.container_name) s)
  ]

  unfoldable pub sweep : State W → Result (Unit {0}) × State W
  unfolding reap
  sweep s = let now = time s.world in reap now (due_for_reap (some now) now s.reg) s

  -- So many rounds of `while True`: an exception of a sweep is logged and dropped.
  unfoldable pub run_rounds : ℕ → State W → State W
  unfolding sweep sleep_for
  run_rounds zero s = s
  run_rounds (suc n) s =
      let (_, s') = sweep s in run_rounds n (sleep_for host (pos_part cfg.reaper_interval) s')
