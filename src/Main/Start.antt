-- ===== src/Main/Start.antt =====
-- `_wait_for_docker`, and `main` up to the reconciliation.
use sui_ctf_infrastructure.Base.{ℕ, zero, suc, Bool, true, false, none, some}
use sui_ctf_infrastructure.Text.{codes}
use sui_ctf_infrastructure.Python.Errors.{system_exit, Exception, Result, ok, raised, ◌>>=◌}
use sui_ctf_infrastructure.Config.{Config, dns_list}
use sui_ctf_infrastructure.Docker.Sdk.{Host}
use sui_ctf_infrastructure.Docker.Manager.{DockerManager, new_manager, ping, image_exists}
use sui_ctf_infrastructure.Challenge.Manifest.{Challenge}
use sui_ctf_infrastructure.Instances.Tasks.{State, to_thread, sleep_for}
use sui_ctf_infrastructure.Instances.Reconcile.{reconcile_startup}

-- The manager that `main` makes of the settings.
abbrev pub manager_of :
    {W : Type 0} → (W → Result (Unit {0}) × W) → Config → W → Result DockerManager × W
manager_of from_env cfg =
    new_manager from_env cfg.instance_image cfg.docker_network cfg.instance_mem
      cfg.instance_nano_cpus cfg.instance_rpc_port (some (dns_list cfg))

module _ {W : Type 0} (host : Host W) where
  abbrev pub after_ping : (State W → Bool × State W) → Result (Unit {0}) × State W → Bool × State W
  after_ping again (ok _, s) = (true, s)
  after_ping again (raised e, s) = again (sleep_for host 2 s)

  -- So many attempts, with two seconds after each that fails.
  unfoldable pub wait_for_docker : ℕ → State W → Bool × State W
  unfolding to_thread sleep_for
  wait_for_docker zero s = (false, s)
  wait_for_docker (suc n) s = after_ping (wait_for_docker n) (to_thread host (ping host) s)

  abbrev pub no_docker : Exception
  no_docker = record {
    kind = system_exit;
    message = codes "Docker daemon not reachable — is /var/run/docker.sock mounted?";
  }

  -- The missing image is only a warning; an exception of the test ends the start.
  abbrev pub after_image : Result Bool × W → State W → Result (Unit {0}) × State W
  after_image (raised e, w) s = (raised e, record s { world = w })
  after_image (ok _, w) s = reconcile_startup host (record s { world = w })

  abbrev pub after_wait : DockerManager → Bool × State W → Result (Unit {0}) × State W
  after_wait docker (false, s) = (raised no_docker, s)
  after_wait docker (true, s) = after_image (image_exists host docker none s.world) s

  -- `main`, with the manager, the challenge that was loaded and the table that the database holds
  unfoldable pub start_up : DockerManager → Result Challenge → State W → Result Challenge × State W
  unfolding wait_for_docker
  start_up docker (raised e) s = (raised e, s)
  start_up docker (ok ch) s =
      let (r, s') = after_wait docker (wait_for_docker 15 s) in (r >>= λ _. ok ch, s')
