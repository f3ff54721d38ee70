-- ===== src/Main/Ending.antt =====
-- How `main` ends once it has the reaper: which part ended it, and what is open then.
use sui_ctf_infrastructure.Base.{pos, ◌≡◌, refl, ◌⊎◌, inl, inr, Bool, none, some, []}
use sui_ctf_infrastructure.Text.{Text, codes}
use sui_ctf_infrastructure.Python.Errors.{Exception, Result, ok, raised}
use sui_ctf_infrastructure.Python.Values.{Value}
use sui_ctf_infrastructure.Config.{Config}
use sui_ctf_infrastructure.Registry.{Registry}
use sui_ctf_infrastructure.Registry.Opening.{Disk}
use sui_ctf_infrastructure.Docker.Sdk.{Host}
use sui_ctf_infrastructure.Docker.Manager.{DockerManager}
use sui_ctf_infrastructure.Challenge.Manifest.{Challenge}
use sui_ctf_infrastructure.Instances.Tasks.{State, to_thread}
use sui_ctf_infrastructure.Proxy.Forward.{AppState, start_state}
use sui_ctf_infrastructure.Proxy.App.{
  ClientOptions, App, create_proxy_app, client_options, lifespan_start, lifespan_end,
}
use sui_ctf_infrastructure.NcServer.Server.{
  Listener, NcServer, new_server, listener_of, StartServer, after_bind, start, serve_forever,
}
use sui_ctf_infrastructure.Reaper.Task.{Reaper}
use sui_ctf_infrastructure.Main.Serving.{
  Run, ServeApp, app_started, serve_beside, gather_after, serve_after, manage_with, start_with,
  open_after, main,
}

-- The application has its client and counts nothing in flight.
abbrev pub IsOpen : App → Type 0
IsOpen app =
    (o : ClientOptions) × (st : AppState) × (app.client ≡ some o)
    × (app.state ≡ some st)
    × (st.inflight_total ≡ pos 0)
    × (st.inflight_per ≡ [])

module _ {W : Type 0} (host : Host W) (start_server : StartServer W) (serve_app : ServeApp W)
    (cfg : Config) where
  -- The bind of the menu raised what `main` raises; the application was never open.
  abbrev pub IsUnbound : Listener → Run W → Type 0
  IsUnbound l run =
      (e : Exception) × (w : W) × (nc : NcServer) × (app : App) × ((start_server l w).0 ≡ raised e)
      × (run.0 ≡ raised e)
      × (run.1.menu ≡ some nc)
      × (nc.server ≡ none)
      × (run.1.proxy ≡ some app)
      × (app.client ≡ none)
      × (app.state ≡ none)

  -- The menu listens, and uvicorn raised what `main` raises; the application was open and is closed.
  abbrev pub IsExited : Listener → Run W → Type 0
  IsExited l run =
      (e : Exception) × (w : W) × (w' : W) × (nc : NcServer) × (opened : App) × (closed : App)
      × ((start_server l w).0 ≡ ok tt)
      × IsOpen opened
      × ((serve_app opened w').0 ≡ raised e)
      × (run.0 ≡ raised e)
      × (run.1.menu ≡ some nc)
      × (nc.server ≡ some l)
      × (run.1.proxy ≡ some closed)
      × (closed.client ≡ none)

  -- Both serve.
  abbrev pub IsServing : Listener → Run W → Type 0
  IsServing l run =
      (w : W) × (w' : W) × (nc : NcServer) × (opened : App) × ((start_server l w).0 ≡ ok tt)
      × IsOpen opened
      × ((serve_app opened w').0 ≡ ok tt)
      × (run.0 ≡ ok l)
      × (run.1.menu ≡ some nc)
      × (nc.server ≡ some l)
      × (run.1.proxy ≡ some opened)

  abbrev pub Ends : Run W → Type 0
  Ends run =
      (l : Listener) × (l.host ≡ codes "0.0.0.0")
      × (l.port ≡ cfg.nc_port)
      × (IsUnbound l run ⊎ IsExited l run ⊎ IsServing l run)

  app_started-IsOpen :
      (docker : DockerManager) → IsOpen (app_started host start_server serve_app cfg docker)
  unfolding lifespan_start
  app_started-IsOpen docker = (client_options, start_state, refl, refl, refl, refl)

  serve_beside-Ends :
      (docker : DockerManager) (w w' : W) (a : Result (Unit {0}) × State W)
      → (start_server (listener_of cfg) w).0 ≡ ok tt
      → (serve_app (app_started host start_server serve_app cfg docker) w').0 ≡ a.0
      → Ends (
          serve_beside host start_server serve_app cfg docker
            (record (new_server cfg) { server = some (listener_of cfg) })
            a)
  unfolding serve_forever new_server lifespan_end
  serve_beside-Ends docker w w' (raised e, s) bound served = (
    listener_of cfg,
    refl,
    refl,
    inr (
        inl (
          e,
          w,
          w',
          _,
          _,
          _,
          bound,
          app_started-IsOpen docker,
          served,
          refl,
          refl,
          refl,
          refl,
          refl,
        )),
  )
  serve_beside-Ends docker w w' (ok tt, s) bound served = (
    listener_of cfg,
    refl,
    refl,
    inr (inr (w, w', _, _, bound, app_started-IsOpen docker, served, refl, refl, refl, refl)),
  )

  gather_after-Ends :
      (docker : DockerManager) (w : W) (a : Result (Unit {0}) × State W)
      → (start_server (listener_of cfg) w).0 ≡ a.0
      → Ends (
          gather_after host start_server serve_app cfg docker
            (after_bind host start_server (new_server cfg) a))
  unfolding new_server create_proxy_app to_thread
  gather_after-Ends docker w (raised e, s) bound =
      (listener_of cfg, refl, refl, inl (e, w, _, _, bound, refl, refl, refl, refl, refl, refl))
  gather_after-Ends docker w (ok tt, s) bound = serve_beside-Ends docker w _ _ bound refl

  serve_after-Ends :
      (docker : DockerManager) (x : Reaper) (a : Result Challenge × State W)
      → (serve_after host start_server serve_app cfg docker a).1.reaper ≡ some x
      → Ends (serve_after host start_server serve_app cfg docker a)
  unfolding start to_thread new_server
  serve_after-Ends docker x (raised e, s) h = cc
  serve_after-Ends docker x (ok ch, s) h =
      gather_after-Ends docker _ (to_thread host (start_server (listener_of cfg)) s) refl

  manage_with-Ends :
      (x : Reaper) (ch : Result Challenge) (reg : Registry) (a : Result DockerManager × W)
      → (manage_with host start_server serve_app cfg ch reg a).1.reaper ≡ some x
      → Ends (manage_with host start_server serve_app cfg ch reg a)
  manage_with-Ends x ch reg (raised e, w) h = cc
  manage_with-Ends x ch reg (ok docker, w) h = serve_after-Ends docker x _ h

  module _ (from_env : W → Result (Unit {0}) × W) where
    start_with-Ends :
        (x : Reaper) (ch : Result Challenge) (a : Result Registry × W) (s : State W)
        → (start_with host start_server serve_app cfg from_env ch a s).1.reaper ≡ some x
        → Ends (start_with host start_server serve_app cfg from_env ch a s)
    start_with-Ends x ch (raised e, w) s h = cc
    start_with-Ends x ch (ok reg, w) s h = manage_with-Ends x ch reg _ h

    module _ (disk : Disk W) (is_file : Text → Bool) (load_yaml : Text → Result Value) where
      open_after-Ends :
          (x : Reaper) (ch : Result Challenge) (s : State W)
          → (open_after host start_server serve_app cfg from_env disk is_file load_yaml ch
              s).1.reaper
            ≡ some x
          → Ends (open_after host start_server serve_app cfg from_env disk is_file load_yaml ch s)
      open_after-Ends x (raised e) s h = cc
      open_after-Ends x (ok ch) s h = start_with-Ends x (ok ch) _ s h

      -- Once `main` has the reaper, it asks for a listener of the menu on all addresses at the
      -- configured port, and one of three things comes of it. The bind raises, and `main` raises that:
      -- the application never had a client. Or the menu listens, and uvicorn, given the application with
      -- its client and its counters at zero, raises, and `main` raises that: the client is closed. Or
      -- both serve, the menu that listener and uvicorn that application.
      pub main-Ends :
          (w : W) (x : Reaper)
          → (main host start_server serve_app cfg from_env disk is_file load_yaml w).1.reaper
            ≡ some x
          → Ends (main host start_server serve_app cfg from_env disk is_file load_yaml w)
      unfolding main
      main-Ends w x h = open_after-Ends x _ _ h
