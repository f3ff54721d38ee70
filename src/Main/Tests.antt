-- ===== src/Main/Tests.antt =====
-- A start on a small host.
use sui_ctf_infrastructure.Docker.Manager.{
  DockerManager, dns_or_none, new_manager, label, ping, image_exists, list_managed,
}
use sui_ctf_infrastructure.Proxy.App.{lifespan_start, lifespan_end}
use sui_ctf_infrastructure.Config.{dns_list}
use sui_ctf_infrastructure.Instances.Reconcile.{remove_orphans, reconcile_startup}
use sui_ctf_infrastructure.Text.{codes, text_discrete}
use sui_ctf_infrastructure.Python.Operators.{contains, index_value, int_of_value, iterate}
use sui_ctf_infrastructure.Python.Errors.{system_exit, Result, ok, raise}
use sui_ctf_infrastructure.Python.Values.{Value, str, obj, end, field, get, get_default, truthy}
use sui_ctf_infrastructure.Registry.{running, fetch, all_active}
use sui_ctf_infrastructure.Registry.Tests.{small_row, small_table, small_table-HasUniqueKeys}
use sui_ctf_infrastructure.Registry.Opening.{Disk, open_registry}
use sui_ctf_infrastructure.Challenge.Manifest.{challenge_of, load_challenge}
use sui_ctf_infrastructure.Main.Serving.{Run, ServeApp, main}
use sui_ctf_infrastructure.Main.Ready.{IsReconciled, main-ready}
use sui_ctf_infrastructure.Main.Ending.{Ends, main-Ends}
use sui_ctf_infrastructure.Instances.BootTests.{small_config}
use sui_ctf_infrastructure.NcServer.Server.{StartServer}
use sui_ctf_infrastructure.Reaper.Task.{new_reaper, start as start_reaper}
use sui_ctf_infrastructure.Base.{ℕ, ◌+◌, ◌≡◌, refl, true, some}
use sui_ctf_infrastructure.Instances.Tasks.{give_way, to_thread}
use sui_ctf_infrastructure.Docker.Tests.{small_host}
use sui_ctf_infrastructure.Main.Start.{wait_for_docker}

abbrev small_manifest : Value
small_manifest = obj (
    field (codes "name") (str (codes "flashpool")) (
      field (codes "flag") (str (codes "flag")) (
        field (codes "package_path") (str (codes "package"))
          (field (codes "solve") (obj end) end))))

abbrev small_disk : Disk ℕ
small_disk = record { makedirs = λ path w. (ok tt, w); connect = λ path w. (ok small_table, w) }

abbrev bind : StartServer ℕ
bind l w = (ok tt, w)

abbrev served : ServeApp ℕ
served app w = (ok tt, w)

-- The daemon tells its version.
abbrev from_env : ℕ → Result (Unit {0}) × ℕ
from_env w = (ok tt, w + 1000)

-- The manager of the settings.
abbrev small_manager : DockerManager
small_manager = record {
  image = small_config.instance_image;
  network = small_config.docker_network;
  mem_limit = small_config.instance_mem;
  nano_cpus = small_config.instance_nano_cpus;
  rpc_port = small_config.instance_rpc_port;
  dns = dns_or_none (some (dns_list small_config));
}

abbrev one_start : Run ℕ
one_start =
    main small_host bind served small_config from_env small_disk (λ p. true)
      (λ p. ok small_manifest) 0

table_read : (open_registry small_disk small_config.db_path 0).0 ≡ ok small_table
unfolding open_registry
table_read = refl

reaper_up : one_start.1.reaper ≡ some (start_reaper (new_reaper small_config small_manager))
unfolding main new_manager lifespan_start open_registry load_challenge challenge_of contains truthy
    index_value get get_default int_of_value iterate text_discrete wait_for_docker to_thread
    give_way ping image_exists reconcile_startup list_managed label remove_orphans all_active
    start_reaper new_reaper
reaper_up = refl

main-ready_example :
    IsReconciled small_host
      (λ reg w. refl)
      (codes "u1")
      (small_row (codes "u1") (codes "10.0.0.1") running)
      (record {
        reg = small_table;
        world = (from_env (open_registry small_disk small_config.db_path 0).1).1;
      })
      one_start.2.reg
unfolding fetch text_discrete
main-ready_example =
    main-ready small_host (λ reg w. refl) bind served small_config from_env small_disk (λ p. true)
      (λ p. ok small_manifest) 0 small_table (codes "u1")
      (small_row (codes "u1") (codes "10.0.0.1") running)
      (start_reaper (new_reaper small_config small_manager)) table_read small_table-HasUniqueKeys
      refl reaper_up

-- Uvicorn cannot bind the port of the proxy.
abbrev port_taken : ServeApp ℕ
port_taken app w = (raise system_exit "1", w)

abbrev stopped : Run ℕ
stopped =
    main small_host bind port_taken small_config from_env small_disk (λ p. true)
      (λ p. ok small_manifest) 0

stopped_reaper : stopped.1.reaper ≡ some (start_reaper (new_reaper small_config small_manager))
unfolding main new_manager lifespan_start lifespan_end open_registry load_challenge challenge_of
    contains truthy index_value get get_default int_of_value iterate text_discrete wait_for_docker
    to_thread give_way ping image_exists reconcile_startup list_managed label remove_orphans
    all_active start_reaper new_reaper
stopped_reaper = refl

main-Ends_example : Ends small_host bind port_taken small_config stopped
main-Ends_example =
    main-Ends small_host bind port_taken small_config from_env small_disk (λ p. true)
      (λ p. ok small_manifest) 0 (start_reaper (new_reaper small_config small_manager))
      stopped_reaper
