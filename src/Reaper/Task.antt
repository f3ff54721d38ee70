-- ===== src/Reaper/Task.antt =====
-- The task's handle: `__init__`, `start` and `stop`.
use sui_ctf_infrastructure.Base.{Option, none, some}
use sui_ctf_infrastructure.Config.{Config}
use sui_ctf_infrastructure.Docker.Manager.{DockerManager}

-- What the event loop says of a task that `_run` was started as: it never ends by itself.
pub data Task : Type 0 where
  pending cancelled : Task

-- The registry and the client of the daemon are in the state that every method works on.
pub record Reaper : Type 0 where
  pub cfg : Config
  pub docker : DockerManager
  pub task : Option Task

unfoldable pub new_reaper : Config → DockerManager → Reaper
new_reaper cfg docker = record { cfg = cfg; docker = docker; task = none }

unfoldable pub start : Reaper → Reaper
start r = record r { task = some pending }

-- The cancelled task is awaited, and what it raises for that is dropped.
unfoldable pub stop : Reaper → Reaper
stop r = record r { task = elim r.task [ none ↦ none | some t ↦ some cancelled ] }
