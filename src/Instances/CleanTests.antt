-- ===== src/Instances/CleanTests.antt =====
-- A spawn whose container ends during its boot.
use sui_ctf_infrastructure.Base.{pos, ◌+ℤ◌, scale, ℕ, ◌+◌, ◌≡◌, refl, ap, none}
use sui_ctf_infrastructure.Text.{Text, codes, text_discrete}
use sui_ctf_infrastructure.Python.Errors.{Result, ok, raised}
use sui_ctf_infrastructure.Python.Values.{get, truthy}
use sui_ctf_infrastructure.Config.{env_text, env_int, env_str, config_of, container_name_for}
use sui_ctf_infrastructure.Registry.{
  expired, column_text, not_null, insert_row, create, update, set_container, with_status,
  set_status, fetch, get_record, active_count_for_ip, total_active,
}
use sui_ctf_infrastructure.Registry.Keys.{fetch-update}
use sui_ctf_infrastructure.Docker.Sdk.{empty_output, Host}
use sui_ctf_infrastructure.Docker.Manager.{
  first_ref, run_instance, read_ready, container_status, get_logs, stop_and_remove,
}
use sui_ctf_infrastructure.Docker.Cleanup.{HasOwnErrors}
use sui_ctf_infrastructure.Docker.Tests.{small_container, small_host}
use sui_ctf_infrastructure.Instances.Tasks.{State, give_way, to_thread, sleep_for}
use sui_ctf_infrastructure.Instances.Values.{
  PlayerView, ttl_or, instance_env, is_complete, has_died,
}
use sui_ctf_infrastructure.Instances.Spawn.{
  start_failed, boot_round, boot_loop, abandon, finish_boot, slot_table, reserve_slot, reserve,
  boot, spawn,
}
use sui_ctf_infrastructure.Instances.Killing.{OthersLeave}
use sui_ctf_infrastructure.Instances.Cleaning.{IsCleaned, spawn-IsCleaned}
use sui_ctf_infrastructure.Instances.BootTests.{
  small_config, small_docker, small_challenge, at_start, reserved,
}

-- A host whose container has no document and has ended; another task ends `u1` at every wait.
abbrev failing_host : Host ℕ
failing_host = record small_host {
  others = λ reg w. set_status (codes "u1") expired none reg;
  exec_run = λ c cmd w. (ok (pos 1, empty_output), w + 1000);
  containers_get = λ ref w. (ok (record small_container { status = codes "exited" }), w + 1000);
}

failing_host-HasOwnErrors : HasOwnErrors failing_host
failing_host-HasOwnErrors = record {
  get_errors = λ ref w e h. cc;
  remove_errors = λ c force w e h. cc;
  logs_errors = λ c n w e h. cc;
}

failing_host-leaves : OthersLeave failing_host (codes "u9")
unfolding set_status text_discrete
failing_host-leaves reg w =
    fetch-update (codes "u9") (codes "u1") (with_status expired none) reg (λ x. refl)

failing_reservation :
    reserve failing_host small_config small_docker small_challenge (codes "10.0.0.9") at_start
    ≡ (ok (codes "u9", codes "sui-inst-u9"), reserved)
unfolding reserve reserve_slot slot_table ttl_or active_count_for_ip total_active create column_text
    not_null insert_row text_discrete config_of env_int env_str env_text container_name_for ◌+ℤ◌
    scale truthy
failing_reservation = refl

abbrev unlucky : Result PlayerView × State ℕ
unlucky = spawn failing_host small_config small_docker small_challenge (codes "10.0.0.9") at_start

-- The state after the container was created.
abbrev launched : Result Text × State ℕ
launched =
    to_thread failing_host
      (run_instance failing_host small_docker (codes "u9") (codes "sui-inst-u9")
        (instance_env small_config small_challenge))
      reserved

failed : unlucky.0 ≡ raised start_failed
unfolding reserve reserve_slot slot_table ttl_or active_count_for_ip total_active create column_text
    not_null insert_row text_discrete config_of env_int env_str env_text container_name_for ◌+ℤ◌
    scale truthy spawn boot run_instance boot_loop boot_round sleep_for to_thread give_way
    read_ready is_complete get has_died container_status finish_boot abandon set_container
    set_status update get_record fetch stop_and_remove first_ref get_logs
failed = refl

container_id : launched.0 ≡ ok (codes "c1")
unfolding run_instance to_thread
container_id = refl

spawn-IsCleaned_example :
    (start_failed ≡ start_failed)
    × IsCleaned failing_host (ok (codes "c1")) launched.1.world unlucky.1.world
spawn-IsCleaned_example =
    spawn-IsCleaned failing_host small_config small_docker small_challenge (codes "10.0.0.9")
      (codes "u9") (codes "sui-inst-u9") (ok (codes "c1")) at_start reserved launched.1 start_failed
      failing_host-HasOwnErrors failing_host-leaves failing_reservation
      (ap (λ x. (x, launched.1)) container_id) failed
