-- ===== src/Instances/StepTests.antt =====
-- Methods among other tasks that write, on a small host.
use sui_ctf_infrastructure.Base.{ℕ, ◌≡◌, refl, sym, ◌∙◌, none}
use sui_ctf_infrastructure.Text.{codes, text_discrete}
use sui_ctf_infrastructure.Python.Errors.{ok}
use sui_ctf_infrastructure.Registry.{expired, Registry, with_status, set_status}
use sui_ctf_infrastructure.Registry.Keys.{fetch-update}
use sui_ctf_infrastructure.Registry.Tests.{small_table}
use sui_ctf_infrastructure.Docker.Sdk.{Host}
use sui_ctf_infrastructure.Docker.Tests.{small_host}
use sui_ctf_infrastructure.Reaper.Sweep.{sweep}
use sui_ctf_infrastructure.Instances.Control.{kill}
use sui_ctf_infrastructure.Instances.Reconcile.{reconcile_startup}
use sui_ctf_infrastructure.Instances.Spawn.{reserve_slot, reserve, spawn}
use sui_ctf_infrastructure.Instances.Capacity.{IsWithin}
use sui_ctf_infrastructure.Instances.Interleaving.{IsStarting, Write, Writes}
use sui_ctf_infrastructure.Instances.Steps.{OthersWrite, ending-Writes}
use sui_ctf_infrastructure.Instances.SpawnSteps.{spawn-Writes}
use sui_ctf_infrastructure.Instances.BootTests.{
  small_config, small_docker, small_challenge, at_start, reserved, reservation,
}

-- A host where another task ends `u1` at every wait.
abbrev pub busy_host : Host ℕ
busy_host = record small_host { others = λ reg w. set_status (codes "u1") expired none reg }

busy_host-OthersWrite : OthersWrite busy_host small_config small_docker small_challenge
busy_host-OthersWrite reg w =
    Writes.next Writes.here (Write.ends (codes "u1") expired none refl refl)

-- It leaves the row of `u9` alone.
spares :
    (reg : Registry) (w : ℕ)
    → IsStarting (codes "u9") reg
    → IsStarting (codes "u9") (busy_host.others reg w)
unfolding set_status text_discrete
spares reg w first r e =
    first r
      (sym (fetch-update (codes "u9") (codes "u1") (with_status expired none) reg (λ q. refl)) ∙ e)

busy_reservation :
    reserve busy_host small_config small_docker small_challenge (codes "10.0.0.9") at_start
    ≡ (ok (codes "u9", codes "sui-inst-u9"), reserved)
unfolding reserve reserve_slot
busy_reservation = reservation

spawn-Writes_example :
    Writes ℕ small_config small_docker small_challenge small_table
      (spawn busy_host small_config small_docker small_challenge (codes "10.0.0.9") at_start).1.reg
    × (IsWithin small_config small_table
        → IsWithin small_config
            (spawn busy_host small_config small_docker small_challenge
              (codes "10.0.0.9")
              at_start).1.reg)
spawn-Writes_example =
    spawn-Writes busy_host small_config small_docker small_challenge busy_host-OthersWrite
      (codes "u9") spares (codes "10.0.0.9") (codes "sui-inst-u9") at_start reserved
      busy_reservation

ending-Writes_example :
    Writes ℕ small_config small_docker small_challenge small_table
      (kill busy_host (codes "u1") at_start).1.reg
    × Writes ℕ small_config small_docker small_challenge small_table
        (sweep busy_host small_config at_start).1.reg
    × Writes ℕ small_config small_docker small_challenge small_table
        (reconcile_startup busy_host at_start).1.reg
    × (IsWithin small_config small_table
        → IsWithin small_config (kill busy_host (codes "u1") at_start).1.reg
          × IsWithin small_config (sweep busy_host small_config at_start).1.reg
          × IsWithin small_config (reconcile_startup busy_host at_start).1.reg)
ending-Writes_example =
    ending-Writes busy_host small_config small_docker small_challenge busy_host-OthersWrite
      (codes "u1") at_start
