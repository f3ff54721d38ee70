-- ===== src/Proxy/App.antt =====
-- `create_proxy_app`: the application, its lifespan and its routes.
use sui_ctf_infrastructure.Registry.{Registry}
use sui_ctf_infrastructure.Python.Errors.{Result, ok}
use sui_ctf_infrastructure.Base.{ℕ, Option, none, some, [], ◌∷◌}
use sui_ctf_infrastructure.Text.{Text, codes}
use sui_ctf_infrastructure.Config.{Config}
use sui_ctf_infrastructure.Proxy.Forward.{
  Limits, AppState, start_state, Request, Reply, json_reply, Upstream, forward,
}

-- `httpx.Timeout` and `httpx.Limits` of the one client, in seconds and connections.
pub record ClientOptions : Type 0 where
  pub timeout : ℕ
  pub connect : ℕ
  pub pool : ℕ
  pub max_connections : ℕ
  pub max_keepalive_connections : ℕ

-- The application: `client` is there while it is open, `state` from the first start on.
pub record App : Type 0 where
  pub config : Config
  pub title : Text
  pub docs_url : Option Text
  pub redoc_url : Option Text
  pub client : Option ClientOptions
  pub state : Option AppState

unfoldable pub create_proxy_app : Config → App
create_proxy_app config = record {
  config = config;
  title = codes "sui-ctf-orchestrator-proxy";
  docs_url = none;
  redoc_url = none;
  client = none;
  state = none;
}

abbrev pub client_options : ClientOptions
client_options = record {
  timeout = 20;
  connect = 5;
  pool = 3;
  max_connections = 64;
  max_keepalive_connections = 32;
}

-- The lifespan up to its `yield`, and its `finally` block.
unfoldable pub lifespan_start : App → App
lifespan_start app = record app { client = some client_options; state = some start_state }

unfoldable pub lifespan_end : App → App
lifespan_end app = record app { client = none }

-- The routes: two of the service itself, and two that forward.
pub data Route : Type 0 where
  root health : Route
  proxy_root : Text → Route
  proxy_path : Text → Text → Route

unfoldable pub serve :
    Config
    → Limits
    → Registry
    → Upstream
    → (AppState → AppState)
    → Route
    → Request
    → AppState
    → Result Reply × AppState
unfolding forward
serve cfg limits reg upstream meanwhile root request a = (
  ok (
      json_reply
        ((codes "service", codes "sui-ctf-orchestrator") ∷ (codes "status", codes "ok") ∷ [])),
  a,
)
serve cfg limits reg upstream meanwhile health request a =
    (ok (json_reply ((codes "status", codes "ok") ∷ [])), a)
serve cfg limits reg upstream meanwhile (proxy_root uuid) request a =
    forward cfg limits reg upstream meanwhile uuid [] request a
serve cfg limits reg upstream meanwhile (proxy_path uuid path) request a =
    forward cfg limits reg upstream meanwhile uuid path request a
