-- ===== src/Lib.antt =====
-- The orchestrator of sui-ctf-infrastructure (orchestrator/app): players reach a menu over TCP, spawn
-- their own Sui network in a container behind a proof of work, attack the challenge deployed on it
-- through a reverse proxy, and get the flag once the win condition holds on their network.
--
-- The parts, each a module named for its file, and how they meet:
--   Registry     orchestrator/app/registry.py: the table of instances. A row is a record of the columns,
--                the table a list of rows, and each SQL statement a function on it (`Registry.create` is
--                `create`, `Registry._update` is `update`, the reads keep their names).
--   Config       orchestrator/app/config.py: the settings, from the environment as a function.
--   Pow          orchestrator/app/pow.py: `PowChallenge.verify` and the printed solver command.
--   Docker       orchestrator/app/docker_manager.py: `Docker.Sdk.Host` is the record of the SDK's calls,
--                the clock, the randomness and the event loop, all parameters; `Docker.Manager` has the
--                methods of `DockerManager` on them.
--   SuiRpc       orchestrator/app/sui_rpc.py: the JSON-RPC client, over an HTTP client that is a parameter.
--   Challenge    orchestrator/app/challenge.py: `load_challenge` and `check_solved`.
--   Instances    orchestrator/app/instances.py: `InstanceManager`. A method is a function on the table and
--                the world. `spawn` and `_boot` are in Instances/Spawn, `kill`, `get_flag` and `status` in
--                Instances/Control, `reconcile_startup` in Instances/Reconcile.
--   Reaper       orchestrator/app/reaper.py: `_sweep`, the rounds of `_run`, and the task's handle.
--   Counters     the dictionaries of counters that the proxy and the menu server keep.
--   Proxy        orchestrator/app/proxy.py: `_forward` and the routes.
--   NcServer     orchestrator/app/ncserver.py: the listener, the caps, the session, the menu and its
--                actions. The heartbeat of a spawn writes a dot for every ten seconds that pass on the
--                clock between its start and its end.
--   Main         orchestrator/app/main.py: `_wait_for_docker`, the start up to the reconciliation, and in
--                Main/Serving the whole of `main`. The making of the Docker client, which may raise, the
--                bind of the menu's listener and uvicorn's serving are parameters.
--   Probe        scripts/solvecheck_probe.py: a run of the solve check against a live network.
--   Base, Text and Python have what the others share: numbers and lists, Python's texts, values,
--   exceptions, `str`, `repr`, `json.dumps`, `int` and the operators that the program uses.
--
-- Conventions. Python's int is `Base.Int.ℤ`, unbounded; a time is an integer of microseconds. A text is
-- the list of its code points. An exception is a value of `Result`. The tasks of the event loop are
-- interleaved at their waits: every `await` of a call lets `Host.others` rewrite the table, and a theorem
-- that needs quiet says so: of the whole table (`IsAlone`), or of one row (`OthersLeave`). What stands
-- between two waits is one step, so the two reads of the clock in a reservation are one. The caps of
-- Instances/Interleaving, Proxy/Inflight and NcServer/Bounds are stated over every sequence of such
-- steps.
--
-- Fuel. The boot loop has `boot_rounds`, one more than the seconds of its time limit: a round pauses for
-- two, so its deadline comes first. A session has a round for each of its inputs and one more: a round
-- that goes on takes an input. The loops of the reaper and of the printed solver command take the number
-- of their rounds as an argument.
--
-- A floating-point number is an integer over a power of two with the texts that `repr` and SQLite have
-- for it, infinite, or `nan`; a lifetime that is one is cut to the microsecond, and an infinite one is
-- refused at once. The keys of a dictionary are texts, and `dict` of a list leaves the other keys out.
-- `int` and `strip` read ASCII digits and spaces; `int` of a value has the limit of 4300 digits, that of
-- a setting has none. SQLite refuses the integers beyond 64 bits and the texts that UTF-8 cannot encode,
-- where a dynamic value is bound.
--
-- Not modelled: logging, what the event loop does to cancel a task, the instance image and its
-- entrypoint, the Move package, the tests, and the shell script and build files.
pub mod Base
pub mod Text
pub mod Python
pub mod Pow
pub mod Registry
pub mod Config
pub mod Docker
pub mod SuiRpc
pub mod Challenge
pub mod Instances
pub mod Counters
pub mod Reaper
pub mod Proxy
pub mod NcServer
pub mod Main
pub mod Probe
