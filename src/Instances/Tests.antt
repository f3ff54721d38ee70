-- ===== src/Instances/Tests.antt =====
-- Runs of the instance manager on a small table, and the theorems on them.
use sui_ctf_infrastructure.Docker.Sdk.{Host}
use sui_ctf_infrastructure.Registry.Keys.{fetch-update}
use sui_ctf_infrastructure.Base.{
  if◌then◌else◌, ℕ, ◌≡◌, refl, true, false, not, ◌&&◌, none, some, [], ◌∷◌, arith,
}
use sui_ctf_infrastructure.Text.{Text, codes, text_discrete, text_eq}
use sui_ctf_infrastructure.Python.Errors.{ok}
use sui_ctf_infrastructure.Registry.{
  running, expired, is_active, with_status, set_status, fetch, get_record, all_active,
}
use sui_ctf_infrastructure.Registry.Tests.{small_row, small_table, small_table-HasUniqueKeys}
use sui_ctf_infrastructure.Docker.Manager.{
  label, first_ref, managed_of, stop_and_remove, list_managed,
}
use sui_ctf_infrastructure.Docker.Tests.{small_container, small_host}
use sui_ctf_infrastructure.Instances.Tasks.{State, give_way, to_thread}
use sui_ctf_infrastructure.Instances.Control.{kill}
use sui_ctf_infrastructure.Instances.Reconcile.{is_managed, remove_orphans, reconcile_startup}
use sui_ctf_infrastructure.Instances.Killing.{OthersLeave, IsKilled, without_container, kill-ends}
use sui_ctf_infrastructure.Instances.Startup.{lost, reconcile_startup-marks}

abbrev here : State ℕ
here = record { reg = small_table; world = 2_000_000 }

-- A host where another task ends `u2` at every wait.
abbrev ending_host : Host ℕ
ending_host = record small_host { others = λ reg w. set_status (codes "u2") expired none reg }

ending_host-leaves : (u : Text) → text_eq u (codes "u2") ≡ false → OthersLeave ending_host u
unfolding set_status
ending_host-leaves u differ reg w =
    ground (arith, fetch-update u (codes "u2") (with_status expired none) reg (λ x. refl), differ)

kill-known : (kill ending_host (codes "u1") here).0 ≡ ok true
unfolding kill to_thread get_record fetch stop_and_remove first_ref text_discrete
kill-known = refl

kill-ends_example :
    IsKilled
      (codes "u1")
      (codes "u3")
      (fetch (codes "u1") small_table)
      true
      small_table
      (kill ending_host (codes "u1") here).1.reg
    × ((kill ending_host (codes "u1") here).1.world
        ≡ without_container ending_host (fetch (codes "u1") small_table) 2_000_000)
unfolding text_discrete
kill-ends_example =
    kill-ends ending_host (codes "u1") (codes "u3") here true (ending_host-leaves (codes "u1") refl)
      (ending_host-leaves (codes "u3") refl) refl kill-known

-- The daemon lists a container of `u1`, and the killed instance needs none.
listed : (list_managed small_host 2_000_000).0 ≡ ok (managed_of small_container ∷ [])
unfolding list_managed
listed = refl

reconciled : (reconcile_startup small_host here).0 ≡ ok tt
unfolding reconcile_startup to_thread give_way list_managed label remove_orphans all_active
    text_discrete
reconciled = refl

reconcile_startup-marks_example :
    fetch (codes "u1") (reconcile_startup small_host here).1.reg
    ≡ some (
        if is_active running && not (is_managed (managed_of small_container ∷ []) (codes "u1"))
        then lost (small_row (codes "u1") (codes "10.0.0.1") running)
        else small_row (codes "u1") (codes "10.0.0.1") running)
unfolding fetch text_discrete
reconcile_startup-marks_example =
    reconcile_startup-marks small_host (λ reg w. refl) (codes "u1") here
      (small_row (codes "u1") (codes "10.0.0.1") running) (managed_of small_container ∷ [])
      small_table-HasUniqueKeys refl listed reconciled
