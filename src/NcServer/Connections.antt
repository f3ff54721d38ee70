-- ===== src/NcServer/Connections.antt =====
-- The connection counters of `_handle`, and their caps.
use sui_ctf_infrastructure.Base.{
  if◌then◌else◌, ℤ, pos, ◌+ℤ◌, ◌-ℤ◌, leb_ℤ, ◌||◌, Option, none, some, [],
}
use sui_ctf_infrastructure.Text.{Text, codes}
use sui_ctf_infrastructure.Python.Errors.{Result, ok, ◌>>=◌}
use sui_ctf_infrastructure.Config.{Environ, limit_from_env}
use sui_ctf_infrastructure.Counters.{Counters, get_or, enter, leave}

pub record Caps : Type 0 where
  pub max_conn : ℤ
  pub max_conn_per_ip : ℤ

unfoldable pub caps_of : Environ → Result Caps
caps_of env = do
  total ← limit_from_env env "NC_MAX_CONN" (pos 200)
  per ← limit_from_env env "NC_MAX_CONN_PER_IP" (pos 4)
  ok (record { max_conn = total; max_conn_per_ip = per })

pub record NcState : Type 0 where
  pub active : ℤ
  pub per_ip : Counters

abbrev pub no_connections : NcState
no_connections = record { active = pos 0; per_ip = [] }

-- `peer[0] if peer else "unknown"`
abbrev pub peer_ip : Option Text → Text
peer_ip none = codes "unknown"
peer_ip (some ip) = ip

-- The guard, and the counters with the connection in; `none` is a rejection.
unfoldable pub accept : Caps → Text → NcState → Option NcState
unfolding enter ◌+ℤ◌
accept caps ip n =
    if leb_ℤ caps.max_conn n.active || leb_ℤ caps.max_conn_per_ip (get_or ip (pos 0) n.per_ip)
    then none
    else some (record { active = n.active +ℤ pos 1; per_ip = enter ip n.per_ip })

-- The counters in the `finally` block.
unfoldable pub disconnect : Text → NcState → NcState
unfolding leave ◌-ℤ◌
disconnect ip n = record { active = n.active -ℤ pos 1; per_ip = leave ip n.per_ip }
