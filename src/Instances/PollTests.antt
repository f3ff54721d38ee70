-- ===== src/Instances/PollTests.antt =====
-- A spawn whose container has no document at the first poll, and a complete one at the second.
use sui_ctf_infrastructure.Registry.Tests.{small_table}
use sui_ctf_infrastructure.Instances.Outcome.{Spawned, spawn-Spawned}
use sui_ctf_infrastructure.Registry.Keys.{fetch-update}
use sui_ctf_infrastructure.Instances.Killing.{OthersLeave}
use sui_ctf_infrastructure.Base.{
  ltb, if◌then◌else◌, ℤ, pos, ◌+ℤ◌, scale, ℕ, ◌+◌, ◌≡◌, refl, false, none, [], arith,
}
use sui_ctf_infrastructure.Text.{Text, codes, text_discrete, text_eq}
use sui_ctf_infrastructure.Python.Errors.{ok}
use sui_ctf_infrastructure.Python.Values.{null, arr, nil, get, get_default, truthy}
use sui_ctf_infrastructure.Python.Operators.{index_value}
use sui_ctf_infrastructure.Config.{env_text, env_int, env_str, config_of, container_name_for}
use sui_ctf_infrastructure.Registry.{
  expired, column_text, not_null, insert_row, create, set_container, with_status, set_status,
  active_count_for_ip, total_active,
}
use sui_ctf_infrastructure.Docker.Sdk.{empty_output, json_output, Host}
use sui_ctf_infrastructure.Docker.Manager.{run_instance, read_ready, container_status}
use sui_ctf_infrastructure.Docker.Tests.{small_ready, small_host}
use sui_ctf_infrastructure.Instances.Tasks.{State, seconds, give_way, to_thread, sleep_for}
use sui_ctf_infrastructure.Instances.Values.{ttl_or, instance_env, is_complete, has_died}
use sui_ctf_infrastructure.Instances.Spawn.{boot_round, slot_table, reserve_slot, reserve, spawn}
use sui_ctf_infrastructure.Instances.Booting.{HasClock}
use sui_ctf_infrastructure.Instances.Polling.{Polls}
use sui_ctf_infrastructure.Instances.Success.{IsDocument, Welcomes, spawn-Welcomes}
use sui_ctf_infrastructure.Instances.BootTests.{
  small_config, small_docker, small_challenge, at_start, reserved,
}

-- Before the fourth second the file of the document is not there; another task ends `u1` at every
-- wait.
abbrev slow_host : Host ℕ
slow_host = record small_host {
  others = λ reg w. set_status (codes "u1") expired none reg;
  exec_run = λ c cmd w. (
    ok (if ltb w 4_000_000 then (pos 1, empty_output) else (pos 0, json_output small_ready)),
    w + 1000,
  );
}

slow_host-HasClock : HasClock slow_host
unfolding scale ◌+ℤ◌
slow_host-HasClock = record {
  get_later = λ ref w. omega arith;
  exec_later = λ c cmd w. omega arith;
  logs_later = λ c n w. omega arith;
  remove_later = λ c force w. omega arith;
  sleep_lasts = λ n w. ground arith;
}

slow_host-leaves : (u : Text) → text_eq u (codes "u1") ≡ false → OthersLeave slow_host u
unfolding set_status
slow_host-leaves u differ reg w =
    ground (arith, fetch-update u (codes "u1") (with_status expired none) reg (λ x. refl), differ)

-- The state after the container was created.
abbrev created : State ℕ
created =
    (to_thread slow_host
      (run_instance slow_host small_docker (codes "u9") (codes "sui-inst-u9")
        (instance_env small_config small_challenge))
      reserved).1

abbrev booting : State ℕ
booting = record created { reg = set_container (codes "u9") (codes "c1") created.reg }

abbrev first_poll : State ℕ
first_poll = (boot_round slow_host (codes "c1") booting).1

abbrev second_poll : State ℕ
second_poll = (boot_round slow_host (codes "c1") (sleep_for slow_host 2 first_poll)).1

abbrev deadline : ℤ
deadline = slow_host.time created.world +ℤ seconds small_config.instance_boot_timeout

polls : Polls slow_host (codes "c1") deadline small_ready second_poll booting
unfolding run_instance boot_round sleep_for to_thread give_way read_ready is_complete get has_died
    container_status truthy scale ◌+ℤ◌ config_of env_int env_text text_discrete
polls =
    Polls.not_yet booting first_poll null refl refl
      (Polls.answered (sleep_for slow_host 2 first_poll) refl refl)

small_ready-IsDocument : IsDocument small_ready [] (codes "key") [] (codes "0xp") (arr nil)
unfolding get_default index_value text_discrete
small_ready-IsDocument = record {
  address_is = refl;
  key_is = refl;
  deployer_is = refl;
  package_is = refl;
  objects_are = refl;
  address_encodes = refl;
  key_encodes = refl;
  deployer_encodes = refl;
  package_encodes = refl;
}

container_up :
    to_thread slow_host
      (run_instance slow_host small_docker
        (codes "u9")
        (codes "sui-inst-u9")
        (instance_env small_config small_challenge))
      reserved
    ≡ (ok (codes "c1"), created)
unfolding run_instance to_thread
container_up = refl

slow_reservation :
    reserve slow_host small_config small_docker small_challenge (codes "10.0.0.9") at_start
    ≡ (ok (codes "u9", codes "sui-inst-u9"), reserved)
unfolding reserve reserve_slot slot_table ttl_or active_count_for_ip total_active create column_text
    not_null insert_row text_discrete config_of env_int env_str env_text container_name_for ◌+ℤ◌
    scale truthy
slow_reservation = refl

spawn-Welcomes_example :
    Welcomes small_config small_challenge
      (codes "u9")
      []
      (codes "key")
      (codes "0xp")
      (arr nil)
      (pos 2_000_000)
      (spawn slow_host small_config small_docker small_challenge (codes "10.0.0.9") at_start).0
unfolding text_discrete
spawn-Welcomes_example =
    spawn-Welcomes slow_host small_config small_docker small_challenge (codes "10.0.0.9")
      (codes "u9") (codes "sui-inst-u9") (codes "c1") [] (codes "key") [] (codes "0xp") small_ready
      (arr nil) at_start reserved created second_poll slow_host-HasClock
      (slow_host-leaves (codes "u9") refl) slow_reservation container_up polls
      small_ready-IsDocument

spawn-Spawned_example :
    Spawned slow_host
      (codes "u9")
      (codes "u2")
      (codes "10.0.0.9")
      small_table
      (spawn slow_host small_config small_docker small_challenge (codes "10.0.0.9") at_start)
unfolding text_discrete
spawn-Spawned_example =
    spawn-Spawned slow_host small_config small_docker small_challenge (codes "u9") (codes "u2")
      (codes "10.0.0.9") (codes "sui-inst-u9") at_start reserved
      (slow_host-leaves (codes "u9") refl) (slow_host-leaves (codes "u2") refl) refl
      slow_reservation
