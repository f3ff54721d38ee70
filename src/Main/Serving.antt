-- ===== src/Main/Serving.antt =====
-- The whole of `main`: what has been started when it raises, or when its servers run.
use sui_ctf_infrastructure.NcServer.Server.{
  Listener, NcServer, new_server, StartServer, start, serve_forever,
}
use sui_ctf_infrastructure.Reaper.Task.{Reaper, new_reaper, start as start_reaper}
use sui_ctf_infrastructure.Base.{Bool, Option, none, some, []}
use sui_ctf_infrastructure.Text.{Text}
use sui_ctf_infrastructure.Python.Errors.{Result, ok, raised}
use sui_ctf_infrastructure.Python.Values.{Value}
use sui_ctf_infrastructure.Config.{Config}
use sui_ctf_infrastructure.Registry.{Registry}
use sui_ctf_infrastructure.Registry.Opening.{Disk, open_registry}
use sui_ctf_infrastructure.Docker.Sdk.{Host}
use sui_ctf_infrastructure.Challenge.Manifest.{Challenge, load_challenge}
use sui_ctf_infrastructure.Instances.Tasks.{State, to_thread}
use sui_ctf_infrastructure.Docker.Manager.{DockerManager}
use sui_ctf_infrastructure.Proxy.App.{App, create_proxy_app, lifespan_start, lifespan_end}
use sui_ctf_infrastructure.Main.Start.{manager_of, start_up}

-- The parts that `main` makes after the reconciliation.
pub record Services : Type 0 where
  pub reaper : Option Reaper
  pub proxy : Option App
  pub menu : Option NcServer

abbrev pub nothing_started : Services
nothing_started = record { reaper = none; proxy = none; menu = none }

-- A run of `main`: its result, the services, and the state.
abbrev pub Run : Type 0 → Type 0
Run W = Result Listener × Services × State W

-- `server.serve()` of uvicorn, once the application's lifespan has begun: it serves, or it cannot bind
-- the port and exits.
abbrev pub ServeApp : Type 0 → Type 0
ServeApp W = App → W → Result (Unit {0}) × W

module _ {W : Type 0} (host : Host W) (start_server : StartServer W) (serve_app : ServeApp W)
    (cfg : Config) where
  module _ (docker : DockerManager) where
    -- The reaper's task and the proxy's application are there before the menu is.
    abbrev pub reaper_started : Services
    reaper_started = record {
      reaper = some (start_reaper (new_reaper cfg docker));
      proxy = some (create_proxy_app cfg);
      menu = none;
    }

    -- The menu beside the proxy's application.
    abbrev pub serving : NcServer → App → Services
    serving nc app = record reaper_started { proxy = some app; menu = some nc }

    abbrev pub app_started : App
    app_started = lifespan_start (create_proxy_app cfg)

    -- `server.serve()` starts the application's lifespan and binds, and `nc.serve_forever()` serves
    -- beside it; where the bind fails, the lifespan ends and the exit of uvicorn is that of `main`.
    abbrev pub serve_beside : NcServer → Result (Unit {0}) × State W → Run W
    serve_beside nc (raised e, s) = (raised e, serving nc (lifespan_end app_started), s)
    serve_beside nc (ok _, s) = (serve_forever nc, serving nc app_started, s)

    -- What follows `await nc.start()`.
    abbrev pub gather_after : Result (Unit {0}) × NcServer × State W → Run W
    unfolding to_thread
    gather_after (raised e, nc, s) = (raised e, record reaper_started { menu = some nc }, s)
    gather_after (ok _, nc, s) = serve_beside nc (to_thread host (serve_app app_started) s)

    abbrev pub serve_after : Result Challenge × State W → Run W
    serve_after (raised e, s) = (raised e, nothing_started, s)
    serve_after (ok ch, s) = gather_after (start host start_server (new_server cfg) s)

  abbrev pub manage_with : Result Challenge → Registry → Result DockerManager × W → Run W
  manage_with ch reg (raised e, w) = (raised e, nothing_started, record { reg = reg; world = w })
  manage_with ch reg (ok docker, w) =
      serve_after docker (start_up host docker ch (record { reg = reg; world = w }))

  module _ (from_env : W → Result (Unit {0}) × W) where
    abbrev pub start_with : Result Challenge → Result Registry × W → State W → Run W
    start_with ch (raised e, w) s = (raised e, nothing_started, record s { world = w })
    start_with ch (ok reg, w) s = manage_with ch reg (manager_of from_env cfg w)

    module _ (disk : Disk W) (is_file : Text → Bool) (load_yaml : Text → Result Value) where
      abbrev pub open_after : Result Challenge → State W → Run W
      open_after (raised e) s = (raised e, nothing_started, s)
      open_after (ok ch) s = start_with (ok ch) (open_registry disk cfg.db_path s.world) s

      -- `main`
      unfoldable pub main : W → Run W
      unfolding start_up serve_forever start to_thread
      main w =
          open_after (load_challenge is_file load_yaml cfg.challenges_dir cfg.active_challenge)
            (record { reg = []; world = w })
