-- ===== src/Instances/Spawn.antt =====
-- `spawn` and `_boot`.
use sui_ctf_infrastructure.Base.{
  if◌then◌else◌, ℤ, pos, ◌+ℤ◌, ltb_ℤ, leb_ℤ, ℕ, zero, suc, Bool, true, false, Option, none, some,
  [],
}
use sui_ctf_infrastructure.Text.{Text, codes}
use sui_ctf_infrastructure.Python.Errors.{
  type_error, runtime_error, timeout_error, spawn_error, Exception, Result, ok, raised, ◌>>=◌,
  raise,
}
use sui_ctf_infrastructure.Python.Values.{Value, null, str, arr, nil, get_default}
use sui_ctf_infrastructure.Python.Operators.{index_value}
use sui_ctf_infrastructure.Config.{Config, rpc_url_for, container_name_for}
use sui_ctf_infrastructure.Registry.{
  error, Registry, Record, create, set_container, set_running, set_status, get_record,
  active_count_for_ip, total_active,
}
use sui_ctf_infrastructure.Docker.Sdk.{Host}
use sui_ctf_infrastructure.Docker.Manager.{
  DockerManager, first_ref, run_instance, read_ready, container_status, get_logs, stop_and_remove,
}
use sui_ctf_infrastructure.Challenge.Manifest.{Challenge}
use sui_ctf_infrastructure.Instances.Tasks.{State, seconds, to_thread, sleep_for}
use sui_ctf_infrastructure.Instances.Values.{
  PlayerView, player_view, ttl_or, instance_env, ip_limit_message, is_complete, has_died,
  has_package, boot_rounds,
}

-- How one round of the boot loop ends: the loop is left, or goes on with what was read.
pub data Round : Type 0 where
  finished : Result Value → Round
  going : Value → Round

abbrev pub exited : Exception
exited = record { kind = runtime_error; message = codes "container exited during boot" }

abbrev pub not_in_time : Exception
not_in_time = record { kind = timeout_error; message = codes "instance not ready in time" }

abbrev pub start_failed : Exception
start_failed = record {
  kind = spawn_error;
  message = codes "Instance failed to start. Please try again in a minute.";
}

-- The container that the row names, if there is one.
abbrev pub created_container : Option Record → Option Text
created_container none = none
created_container (some r) = first_ref r.container_id none

abbrev pub view_or_raise : Option Record → ℤ → Result PlayerView
view_or_raise none now = raise type_error "'NoneType' object is not subscriptable"
view_or_raise (some r) now = ok (player_view r now)

module _ {W : Type 0} (host : Host W) where
  open host use {time}

  -- The logs are read for the server's own log, and the error is raised.
  abbrev pub log_and_raise {ℓ} : {A : Type ℓ} → Text → Exception → State W → Result A × State W
  log_and_raise container_id e s =
      let (r, s') = to_thread host (get_logs host container_id 80) s in (r >>= λ _. raised e, s')

  abbrev pub after_status : Text → Value → Result (Option Text) × State W → Round × State W
  after_status container_id ready (raised e, s) = (finished (raised e), s)
  after_status container_id ready (ok status, s) =
      if has_died status
      then (let (r, s') = log_and_raise container_id exited s in (finished r, s'))
      else (going ready, s)

  abbrev pub after_test : Text → Value → Result Bool → State W → Round × State W
  after_test container_id ready (raised e) s = (finished (raised e), s)
  after_test container_id ready (ok true) s = (finished (ok ready), s)
  after_test container_id ready (ok false) s =
      after_status container_id ready (to_thread host (container_status host container_id) s)

  abbrev pub after_ready : Text → Result Value × State W → Round × State W
  after_ready container_id (raised e, s) = (finished (raised e), s)
  after_ready container_id (ok ready, s) = after_test container_id ready (is_complete ready) s

  -- The body of the boot loop, up to its pause.
  unfoldable pub boot_round : Text → State W → Round × State W
  unfolding to_thread is_complete has_died
  boot_round container_id s =
      after_ready container_id (to_thread host (read_ready host container_id) s)

  -- After a round: out of the loop, or on after a pause of two seconds.
  abbrev pub after_round :
      (Value → State W → Result Value × State W) → Round × State W → Result Value × State W
  after_round again (finished r, s) = (r, s)
  after_round again (going ready, s) = again ready (sleep_for host 2 s)

  -- `while time.time() < deadline`, for so many rounds; the result is the last `ready`.
  unfoldable pub boot_loop : ℕ → Text → ℤ → Value → State W → Result Value × State W
  unfolding boot_round sleep_for
  boot_loop zero container_id deadline ready s = (ok ready, s)
  boot_loop (suc rounds) container_id deadline ready s = elim (ltb_ℤ (time s.world) deadline) [
    | false ↦ (ok ready, s)
    | true ↦ after_round (boot_loop rounds container_id deadline) (boot_round container_id s)
  ]

  abbrev pub remove_created {ℓ} : {A : Type ℓ} → Option Text → State W → Result A × State W
  remove_created none s = (raised start_failed, s)
  remove_created (some container_id) s =
      let (r, s') = to_thread host (stop_and_remove host (some container_id) none) s in
      (r >>= λ _. raised start_failed, s')

  -- The handler of a failed boot.
  unfoldable pub abandon {ℓ} : {A : Type ℓ} → Text → Exception → State W → Result A × State W
  unfolding to_thread first_ref
  abandon uuid e s =
      let reg' = set_status uuid error (some e.message) s.reg in
      remove_created (created_container (get_record uuid reg')) (record s { reg = reg' })

  abbrev pub after_boot : Text → Result (Unit {0}) × State W → Result PlayerView × State W
  after_boot uuid (raised e, s) = abandon uuid e s
  after_boot uuid (ok _, s) = (view_or_raise (get_record uuid s.reg) (time s.world), s)

module _ {W : Type 0} (host : Host W) (cfg : Config) where
  open host use {time}

  -- `set_running` with the fields of `ready`
  unfoldable pub running_with : Text → Value → Registry → Result Registry
  running_with uuid ready reg = do
    address ← get_default ready (codes "player_address") (str [])
    privkey ← get_default ready (codes "player_private_key") (str [])
    deployer ← get_default ready (codes "deployer_address") (str [])
    pkg ← index_value ready (str (codes "package_id"))
    objects ← get_default ready (codes "objects") (arr nil)
    set_running uuid (rpc_url_for cfg uuid) address privkey deployer pkg objects reg

  abbrev pub after_write : State W → Result Registry → Result (Unit {0}) × State W
  after_write s (raised e) = (raised e, s)
  after_write s (ok reg') = (ok tt, record s { reg = reg' })

  -- The write that ends a boot.
  unfoldable pub publish : Text → Value → State W → Result (Unit {0}) × State W
  unfolding running_with
  publish uuid ready s = after_write s (running_with uuid ready s.reg)

  abbrev pub publish_if : Text → Text → Value → Result Bool → State W → Result (Unit {0}) × State W
  publish_if uuid container_id ready (raised e) s = (raised e, s)
  publish_if uuid container_id ready (ok false) s = log_and_raise host container_id not_in_time s
  publish_if uuid container_id ready (ok true) s = publish uuid ready s

  -- What follows the loop.
  unfoldable pub finish_boot : Text → Text → Result Value → State W → Result (Unit {0}) × State W
  unfolding has_package publish to_thread
  finish_boot uuid container_id (raised e) s = (raised e, s)
  finish_boot uuid container_id (ok ready) s =
      publish_if uuid container_id ready (has_package ready) s

  abbrev pub boot_container : Text → Result Text → State W → Result (Unit {0}) × State W
  boot_container uuid (raised e) s = (raised e, s)
  boot_container uuid (ok container_id) s =
      let s1 : State W = record s { reg = set_container uuid container_id s.reg } in
      let deadline = time s1.world +ℤ seconds cfg.instance_boot_timeout in
      let (r, s2) = boot_loop host (boot_rounds cfg) container_id deadline null s1 in
      finish_boot uuid container_id r s2

module _ {W : Type 0} (host : Host W) (cfg : Config) (docker : DockerManager) (ch : Challenge) where
  open host use {time, uuid4}

  -- The table with the new row: it expires the lifetime after the time that it is made.
  unfoldable pub slot_table : Text → Registry → Text → ℤ → Result Registry
  slot_table source_ip reg uuid now = ttl_or ch.ttl_seconds cfg.ttl_seconds >>= λ ttl.
      create uuid source_ip ch.name (container_name_for cfg uuid) (now +ℤ ttl) ch.flag_mode now reg

  abbrev pub slot_result : Text → Registry → W → Result Registry → Result (Text × Text) × State W
  slot_result uuid reg w (raised e) = (raised e, record { reg = reg; world = w })
  slot_result uuid reg w (ok reg') =
      (ok (uuid, container_name_for cfg uuid), record { reg = reg'; world = w })

  -- What follows the checks, with the uuid that was drawn and the world after that.
  unfoldable pub reserve_slot : Text → Registry → Text × W → Result (Text × Text) × State W
  unfolding slot_table
  reserve_slot source_ip reg (uuid, w) =
      slot_result uuid reg w (slot_table source_ip reg uuid (time w))

  -- The part of `spawn` under the lock: nothing waits in it.
  unfoldable pub reserve : Text → State W → Result (Text × Text) × State W
  reserve source_ip s =
      if leb_ℤ cfg.max_instances_per_ip (pos (active_count_for_ip source_ip s.reg))
      then (raised (record { kind = spawn_error; message = ip_limit_message cfg }), s)
      else if leb_ℤ cfg.max_total_instances (pos (total_active s.reg))
      then (raise spawn_error "Server is at capacity right now. Try again in a few minutes.", s)
      else reserve_slot source_ip s.reg (uuid4 s.world)

  unfoldable pub boot : Text → Text → State W → Result (Unit {0}) × State W
  unfolding instance_env to_thread boot_loop finish_boot
  boot uuid name s =
      let (r, s1) = to_thread host (run_instance host docker uuid name (instance_env cfg ch)) s in
      boot_container host cfg uuid r s1

  abbrev pub after_reserve : Result (Text × Text) × State W → Result PlayerView × State W
  after_reserve (raised e, s) = (raised e, s)
  after_reserve (ok (uuid, name), s) = after_boot host uuid (boot uuid name s)

  unfoldable pub spawn : Text → State W → Result PlayerView × State W
  unfolding reserve boot abandon
  spawn source_ip s = after_reserve (reserve source_ip s)
