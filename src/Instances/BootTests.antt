-- ===== src/Instances/BootTests.antt =====
-- A reservation and a spawn on a small host, and the theorems on them.
use sui_ctf_infrastructure.Python.Values.{null, num, str, obj, end, truthy}
use sui_ctf_infrastructure.Instances.Revival.{set_running-revives}
use sui_ctf_infrastructure.Base.{pos, ◌+ℤ◌, scale, ℕ, ◌+◌, ◌≡◌, refl, none, [], ◌∷◌, arith}
use sui_ctf_infrastructure.Text.{codes, text_discrete}
use sui_ctf_infrastructure.Python.Errors.{ok}
use sui_ctf_infrastructure.Config.{
  env_text, env_int, env_str, Config, config_of, container_name_for,
}
use sui_ctf_infrastructure.Registry.{
  running, killed, Registry, column_text, not_null, insert_row, new_row, create, update,
  with_running, set_running, fetch, active_count_for_ip, total_active,
}
use sui_ctf_infrastructure.Registry.Tests.{small_row, small_table, small_table-HasUniqueKeys}
use sui_ctf_infrastructure.Docker.Manager.{DockerManager}
use sui_ctf_infrastructure.Docker.Tests.{small_host}
use sui_ctf_infrastructure.Challenge.Manifest.{Challenge}
use sui_ctf_infrastructure.Instances.Tasks.{State, seconds}
use sui_ctf_infrastructure.Instances.Values.{ttl_or, boot_rounds}
use sui_ctf_infrastructure.Instances.Spawn.{boot_loop, slot_table, reserve_slot, reserve, spawn}
use sui_ctf_infrastructure.Instances.Capacity.{IsWithin}
use sui_ctf_infrastructure.Instances.Interleaving.{Write, Writes, Writes-IsWithin}
use sui_ctf_infrastructure.Instances.Booting.{HasClock, boot_loop-rounds}
use sui_ctf_infrastructure.Instances.Secrecy.{spawn-flag}

abbrev pub small_config : Config
small_config = config_of (λ name. none)

abbrev pub small_docker : DockerManager
small_docker = record {
  image = codes "i";
  network = codes "n";
  mem_limit = codes "2g";
  nano_cpus = pos 1;
  rpc_port = pos 9000;
  dns = none;
}

-- A challenge with no conditions of its own: an empty `solve` is a state condition without a type.
abbrev pub small_challenge : Challenge
small_challenge = record {
  name = str (codes "pool");
  dir = codes "/challenges/pool";
  flag = str (codes "flag");
  sui_version = null;
  ttl_seconds = num (pos 60);
  package_path = str (codes "package");
  player_faucet_coins = pos 1;
  deploy = [];
  solve = obj end;
  flag_mode = null;
  description = null;
  raw_manifest = obj end;
}

abbrev pub at_start : State ℕ
at_start = record { reg = small_table; world = 2_000_000 }

abbrev pub reserved : State ℕ
reserved = record {
  reg =
      small_row (codes "u1") (codes "10.0.0.1") running
      ∷ small_row (codes "u2") (codes "10.0.0.2") killed
      ∷ new_row (codes "u9") (codes "10.0.0.9") (codes "pool") (codes "sui-inst-u9")
          (pos 62_000_000) none (pos 2_000_000)
      ∷ [];
  world = 2_000_000;
}

pub reservation :
    reserve small_host small_config small_docker small_challenge (codes "10.0.0.9") at_start
    ≡ (ok (codes "u9", codes "sui-inst-u9"), reserved)
unfolding reserve reserve_slot slot_table ttl_or active_count_for_ip total_active create column_text
    not_null insert_row text_discrete config_of env_int env_str env_text container_name_for ◌+ℤ◌
    scale truthy
reservation = refl

small_table-IsWithin : IsWithin small_config small_table
unfolding total_active active_count_for_ip config_of env_int env_text
small_table-IsWithin = record {
  keys = small_table-HasUniqueKeys;
  below_total = omega arith;
  below_per_ip = λ ip. ground arith;
}

Writes-IsWithin_example : IsWithin small_config reserved.reg
Writes-IsWithin_example =
    Writes-IsWithin ℕ small_config small_docker small_challenge small_table reserved.reg
      small_table-IsWithin
      (Writes.next Writes.here (
        Write.reserves small_host (codes "10.0.0.9") (codes "u9") (codes "sui-inst-u9") at_start
          reserved reservation refl refl))

pub small_host-HasClock : HasClock small_host
unfolding scale ◌+ℤ◌
small_host-HasClock = record {
  get_later = λ ref w. omega arith;
  exec_later = λ c cmd w. omega arith;
  logs_later = λ c n w. omega arith;
  remove_later = λ c force w. omega arith;
  sleep_lasts = λ n w. ground arith;
}

boot_loop-rounds_example :
    boot_loop small_host
      (3 + boot_rounds small_config)
      (codes "c1")
      (pos 2_000_000 +ℤ seconds small_config.instance_boot_timeout)
      null
      at_start
    ≡ boot_loop small_host
        (boot_rounds small_config)
        (codes "c1")
        (pos 2_000_000 +ℤ seconds small_config.instance_boot_timeout)
        null
        at_start
boot_loop-rounds_example =
    boot_loop-rounds small_host small_host-HasClock small_config (codes "c1") 3 null at_start

-- The row of the killed instance after a publication of its boot.
abbrev revived : Registry
revived =
    small_row (codes "u1") (codes "10.0.0.1") running
    ∷ with_running (codes "url") none none none none null
        (small_row (codes "u2") (codes "10.0.0.2") killed)
    ∷ []

revival : set_running (codes "u2") (codes "url") null null null null null small_table ≡ ok revived
unfolding set_running column_text update text_discrete
revival = refl

set_running-revives_example : total_active revived ≡ total_active small_table + 1
unfolding fetch text_discrete
set_running-revives_example =
    set_running-revives (codes "u2") (codes "url") null null null null null small_table revived
      (small_row (codes "u2") (codes "10.0.0.2") killed) small_table-HasUniqueKeys refl refl revival

spawn-flag_example :
    spawn small_host small_config small_docker
      (record small_challenge { flag = null })
      (codes "10.0.0.9")
      at_start
    ≡ spawn small_host small_config small_docker small_challenge (codes "10.0.0.9") at_start
spawn-flag_example =
    spawn-flag small_host small_config small_docker small_challenge null (codes "10.0.0.9") at_start
