-- ===== src/Reaper/Tests.antt =====
-- A sweep of a small table.
use sui_ctf_infrastructure.Instances.BootTests.{small_host-HasClock}
use sui_ctf_infrastructure.Reaper.Expiry.{reached, run_rounds-expires_by}
use sui_ctf_infrastructure.Docker.Cleanup.{HasOwnErrors}
use sui_ctf_infrastructure.Reaper.Rounds.{LeavesRow}
use sui_ctf_infrastructure.Base.{
  pos, ◌+ℤ◌, ◌-ℤ◌, scale, ◌≤ℤ◌, ◌<ℤ◌, ℕ, ◌≡◌, refl, none, some, [], ◌∷◌, arith,
}
use mathlib.Core.Option
use sui_ctf_infrastructure.Text.{codes, text_discrete}
use sui_ctf_infrastructure.Python.Errors.{ok}
use sui_ctf_infrastructure.Config.{env_text, env_int, Config, config_of}
use sui_ctf_infrastructure.Registry.{
  running, expired, killed, update, with_status, set_status, fetch, due_for_reap,
}
use sui_ctf_infrastructure.Registry.Tests.{small_row, small_table, small_table-HasUniqueKeys}
use sui_ctf_infrastructure.Docker.Manager.{first_ref, stop_and_remove}
use sui_ctf_infrastructure.Docker.Tests.{small_host}
use sui_ctf_infrastructure.Instances.Tasks.{State, seconds, give_way, to_thread}
use sui_ctf_infrastructure.Reaper.Sweep.{in_boot_window, reap, sweep, run_rounds}
use sui_ctf_infrastructure.Reaper.Ends.{reaped, sweep-reaped}

abbrev defaults : Config
defaults = config_of (λ name. none)

-- At second 1000 the running instance has run out.
abbrev late : State ℕ
late = record { reg = small_table; world = 1_000_000_000 }

abbrev swept : State ℕ
swept = record {
  reg =
      small_row (codes "u1") (codes "10.0.0.1") expired
      ∷ small_row (codes "u2") (codes "10.0.0.2") killed
      ∷ [];
  world = 1_000_002_000;
}

sweep-late : sweep small_host defaults late ≡ (ok tt, swept)
unfolding sweep reap due_for_reap in_boot_window ◌-ℤ◌ scale to_thread give_way stop_and_remove
    first_ref set_status update text_discrete config_of env_int
sweep-late = refl

sweep-reaped_example :
    fetch (codes "u1") swept.reg
    ≡ Option.map (reaped defaults (pos 1_000_000_000)) (fetch (codes "u1") small_table)
sweep-reaped_example =
    sweep-reaped small_host defaults (codes "u1") (λ reg w. refl) late swept
      small_table-HasUniqueKeys sweep-late

-- At second 890 it has ten seconds left, and the second round finds it expired.
abbrev soon : State ℕ
soon = record { reg = small_table; world = 890_000_000 }

small_host-HasOwnErrors : HasOwnErrors small_host
small_host-HasOwnErrors = record {
  get_errors = λ ref w e h. cc;
  remove_errors = λ c force w e h. cc;
  logs_errors = λ c n w e h. cc;
}

small_host-LeavesRow : LeavesRow small_host (codes "u1")
small_host-LeavesRow = record { keys = λ reg w h. h; alone = λ reg w. refl }

time_over : pos 900_000_000 <ℤ reached small_host defaults 2 soon
unfolding config_of env_int env_text ◌+ℤ◌
time_over = omega arith

window_closed :
    pos 1_000_000 +ℤ seconds defaults.instance_boot_timeout ≤ℤ reached small_host defaults 2 soon
unfolding config_of env_int env_text ◌+ℤ◌ scale
window_closed = omega arith

run_rounds-expires_by_example :
    fetch (codes "u1") (run_rounds small_host defaults 3 soon).reg
    ≡ some (with_status expired none (small_row (codes "u1") (codes "10.0.0.1") running))
run_rounds-expires_by_example =
    run_rounds-expires_by small_host defaults small_host-HasClock (codes "u1") small_host-LeavesRow
      small_host-HasOwnErrors 3 2 soon (small_row (codes "u1") (codes "10.0.0.1") running)
      (omega arith) small_table-HasUniqueKeys (unfold fetch text_discrete in refl) refl time_over
      window_closed
