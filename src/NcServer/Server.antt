-- ===== src/NcServer/Server.antt =====
-- The server object: `__init__`, `start` and `serve_forever`.
use sui_ctf_infrastructure.Base.{ℤ, Option, none, some}
use sui_ctf_infrastructure.Text.{Text, codes}
use sui_ctf_infrastructure.Python.Errors.{other_error, Result, ok, raised, raise}
use sui_ctf_infrastructure.Config.{Config}
use sui_ctf_infrastructure.Docker.Sdk.{Host}
use sui_ctf_infrastructure.Instances.Tasks.{State, to_thread}
use sui_ctf_infrastructure.NcServer.Connections.{NcState, no_connections}

-- What `asyncio.start_server` gives: a listening socket.
pub record Listener : Type 0 where
  pub host : Text
  pub port : ℤ

pub record NcServer : Type 0 where
  pub cfg : Config
  pub server : Option Listener
  pub connections : NcState

unfoldable pub new_server : Config → NcServer
new_server cfg = record { cfg = cfg; server = none; connections = no_connections }

abbrev pub listener_of : Config → Listener
listener_of cfg = record { host = codes "0.0.0.0"; port = cfg.nc_port }

-- `start_server` binds and listens, or raises.
abbrev pub StartServer : Type 0 → Type 0
StartServer W = Listener → W → Result (Unit {0}) × W

module _ {W : Type 0} (host : Host W) (start_server : StartServer W) where
  abbrev pub after_bind :
      NcServer → Result (Unit {0}) × State W → Result (Unit {0}) × NcServer × State W
  after_bind nc (raised e, s) = (raised e, nc, s)
  after_bind nc (ok _, s) = (ok tt, record nc { server = some (listener_of nc.cfg) }, s)

  -- The `await` gives way to the other tasks as that of a thread does.
  unfoldable pub start : NcServer → State W → Result (Unit {0}) × NcServer × State W
  unfolding to_thread
  start nc s = after_bind nc (to_thread host (start_server (listener_of nc.cfg)) s)

-- `assert self._server is not None`; what follows serves this listener until it is cancelled.
unfoldable pub serve_forever : NcServer → Result Listener
serve_forever nc = elim nc.server [ none ↦ raise other_error "" | some l ↦ ok l ]
