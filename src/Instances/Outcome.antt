-- ===== src/Instances/Outcome.antt =====
-- How `spawn` ends.
use sui_ctf_infrastructure.Instances.Capacity.{reserve-inserts}
use sui_ctf_infrastructure.Python.Operators.{index_value}
use sui_ctf_infrastructure.Docker.Manager.{DockerManager, run_instance, get_logs, stop_and_remove}
use sui_ctf_infrastructure.Challenge.Manifest.{Challenge}
use sui_ctf_infrastructure.Instances.Values.{
  PlayerView, player_view, instance_env, has_package, boot_rounds,
}
use sui_ctf_infrastructure.Instances.Frames.{IsKept, to_thread-keeps, boot_loop-keeps}
use sui_ctf_infrastructure.Registry.Updates.{set_running-updates}
use sui_ctf_infrastructure.Instances.Tasks.{State, seconds, to_thread}
use sui_ctf_infrastructure.Instances.Killing.{OthersLeave}
use sui_ctf_infrastructure.Base.{
  ◌+ℤ◌, ◌≡◌, refl, sym, subst, Bool, true, false, Option, none, some, [], arith,
}
use sui_ctf_infrastructure.Text.{Text, codes, text_eq}
use sui_ctf_infrastructure.Python.Errors.{Exception, Result, ok, raised, ◌>>=◌, bind-ok}
use sui_ctf_infrastructure.Python.Values.{Value, null, str, arr, nil, get_default}
use sui_ctf_infrastructure.Config.{Config, rpc_url_for}
use sui_ctf_infrastructure.Registry.{
  Status, starting, running, error, Row, Registry, set_container, with_running, set_running,
  with_status, set_status, row_to_dict, dict_or_none, fetch, get_record,
}
use sui_ctf_infrastructure.Docker.Sdk.{Host}
use sui_ctf_infrastructure.Instances.Spawn.{
  not_in_time, start_failed, view_or_raise, boot_loop, remove_created, abandon, after_boot,
  running_with, after_write, publish, publish_if, finish_boot, boot_container, reserve, boot,
  after_reserve, spawn,
}
use sui_ctf_infrastructure.Instances.Slots.{
  Slot, Slot-update, Slot-moved, Slot-IsKept, reserved-Slot,
}

module _ {W : Type 0} (host : Host W) (cfg : Config) where
  pub running_with-sets :
      (u : Text) (ready : Value) (rows rows' : Registry)
      → running_with host cfg u ready rows ≡ ok rows'
      → (a : Value) × (k : Value) × (d : Value) × (p : Value) × (o : Value) × (set_running u
            (rpc_url_for cfg u)
            a
            k
            d
            p
            o
            rows
          ≡ ok rows')
  unfolding running_with
  running_with-sets u ready rows rows' e =
      let (a, e1, _) = bind-ok _ (get_default ready (codes "player_address") (str [])) e in
      let (k, e2, _) = bind-ok _ (get_default ready (codes "player_private_key") (str [])) e1 in
      let (d, e3, _) = bind-ok _ (get_default ready (codes "deployer_address") (str [])) e2 in
      let (p, e4, _) = bind-ok _ (index_value ready (str (codes "package_id"))) e3 in
      let (o, e5, _) = bind-ok _ (get_default ready (codes "objects") (arr nil)) e4 in
      (a, k, d, p, o, e5)

  running_with-Slot :
      (u v ip : Text) (ready : Value) (old rows rows' : Registry)
      → running_with host cfg u ready rows ≡ ok rows'
      → Slot u v ip starting old rows
      → Slot u v ip running old rows'
  running_with-Slot u v ip ready old rows rows' e slot =
      let (a, k, d, p, o, written) = running_with-sets u ready rows rows' e in
      let (a', k', d', p', _, _, _, _, shape) =
        set_running-updates u (rpc_url_for cfg u) a k d p o rows written in
      Slot-moved shape (
        Slot-update running (with_running (rpc_url_for cfg u) a' k' d' p' o) (λ r. refl) (λ r. refl)
          (λ r _. refl) slot)

-- After a boot: the row runs where the boot returned, and starts still where it raised.
abbrev pub Booted :
    {W : Type 0} → Text → Text → Text → Registry → Result (Unit {0}) × State W → Type 0
Booted u v ip old (raised e, s) = Slot u v ip starting old s.reg
Booted u v ip old (ok _, s) = Slot u v ip running old s.reg

module _ {W : Type 0} (host : Host W) (cfg : Config) (u v ip : Text) (old : Registry)
    (kept : (st : Status) → IsKept host (Slot u v ip st old)) where
  after_write-Booted :
      (ready : Value) (s : State W) (r : Result Registry)
      → running_with host cfg u ready s.reg ≡ r
      → Slot u v ip starting old s.reg
      → Booted u v ip old (after_write host cfg s r)
  after_write-Booted ready s (raised x) e slot = slot
  after_write-Booted ready s (ok rows') e slot =
      running_with-Slot host cfg u v ip ready old s.reg rows' e slot

  logged-Booted :
      (a : Result Text × State W) (e : Exception)
      → Slot u v ip starting old a.1.reg
      → Booted {W = W} u v ip old ((a.0 >>= λ _. raised e), a.1)
  logged-Booted (ok logs, s) e slot = slot
  logged-Booted (raised x, s) e slot = slot

  publish_if-Booted :
      (cid : Text) (ready : Value) (s : State W) (r : Result Bool)
      → Slot u v ip starting old s.reg
      → Booted u v ip old (publish_if host cfg u cid ready r s)
  unfolding publish to_thread
  publish_if-Booted cid ready s (raised x) slot = slot
  publish_if-Booted cid ready s (ok true) slot =
      after_write-Booted ready s (running_with host cfg u ready s.reg) refl slot
  publish_if-Booted cid ready s (ok false) slot =
      logged-Booted (to_thread host (get_logs host cid 80) s) not_in_time (
        to_thread-keeps host (Slot u v ip starting old) (kept starting) Text (get_logs host cid 80)
          s slot)

  finish_boot-Booted :
      (cid : Text) (r : Result Value) (s : State W)
      → Slot u v ip starting old s.reg
      → Booted u v ip old (finish_boot host cfg u cid r s)
  unfolding finish_boot
  finish_boot-Booted cid (raised x) s slot = slot
  finish_boot-Booted cid (ok ready) s slot = publish_if-Booted cid ready s (has_package ready) slot

  boot_container-Booted :
      (r : Result Text) (s : State W)
      → Slot u v ip starting old s.reg
      → Booted u v ip old (boot_container host cfg u r s)
  unfolding set_container
  boot_container-Booted (raised x) s slot = slot
  boot_container-Booted (ok cid) s slot =
      let s1 : State W = record s { reg = set_container u cid s.reg } in
      let deadline = host.time s1.world +ℤ seconds cfg.instance_boot_timeout in
      let (r, s2) = boot_loop host (boot_rounds cfg) cid deadline null s1 in
      finish_boot-Booted cid r s2 (
        boot_loop-keeps host (Slot u v ip starting old) (kept starting) (boot_rounds cfg) cid
          deadline null s1 (Slot-update starting _ (λ x. refl) (λ x. refl) (λ x h. h) slot))

-- After a spawn that had a slot: the player has the view of the running row, or the row is marked.
abbrev pub Spawned :
    {W : Type 0} → Host W → Text → Text → Text → Registry → Result PlayerView × State W → Type 0
Spawned host u v ip old (raised e, s) = Slot u v ip error old s.reg
Spawned host u v ip old (ok view, s) =
    (slot : Slot u v ip running old s.reg) × (view
      ≡ player_view (row_to_dict slot.row) (host.time s.world))

module _ {W : Type 0} (host : Host W) (u v ip : Text) (old : Registry)
    (kept : (st : Status) → IsKept host (Slot u v ip st old)) where
  removed-Spawned :
      (a : Result (Unit {0}) × State W)
      → Slot u v ip error old a.1.reg
      → Spawned host u v ip old ((a.0 >>= λ _. raised start_failed), a.1)
  removed-Spawned (ok _, s) slot = slot
  removed-Spawned (raised x, s) slot = slot

  remove_created-Spawned :
      (o : Option Text) (s : State W)
      → Slot u v ip error old s.reg
      → Spawned host u v ip old (remove_created host o s)
  remove_created-Spawned none s slot = slot
  remove_created-Spawned (some cid) s slot =
      removed-Spawned (to_thread host (stop_and_remove host (some cid) none) s) (
        to_thread-keeps host (Slot u v ip error old) (kept error) (Unit {0})
          (stop_and_remove host (some cid) none) s slot)

  view-Spawned :
      (s : State W) (o : Option Row)
      → fetch u s.reg ≡ o
      → Slot u v ip running old s.reg
      → Spawned host u v ip old (view_or_raise (dict_or_none o) (host.time s.world), s)
  view-Spawned s none e slot = ground (arith, slot.found, e)
  view-Spawned s (some r) e slot = (
    record slot {
      row = r;
      found = e;
      status_is = ground (arith, slot.found, e, slot.status_is);
      source_is = ground (arith, slot.found, e, slot.source_is);
    },
    refl,
  )

  after_boot-Spawned :
      (a : Result (Unit {0}) × State W)
      → Booted u v ip old a
      → Spawned host u v ip old (after_boot host u a)
  unfolding abandon set_status get_record
  after_boot-Spawned (raised x, s) slot = remove_created-Spawned _ _ (
      Slot-update error (with_status error (some x.message)) (λ r. refl) (λ r. refl) (λ r h. refl)
        slot)
  after_boot-Spawned (ok _, s) slot = view-Spawned s (fetch u s.reg) refl slot

module _ {W : Type 0} (host : Host W) (cfg : Config) (docker : DockerManager) (ch : Challenge)
    (u v ip : Text) where
  boot-Booted :
      (name : Text) (old : Registry) (s : State W)
      → ((st : Status) → IsKept host (Slot u v ip st old))
      → Slot u v ip starting old s.reg
      → Booted u v ip old (boot host cfg docker ch u name s)
  unfolding boot
  boot-Booted name old s kept slot =
      let op = run_instance host docker u name (instance_env cfg ch) in
      let (r, s1) = to_thread host op s in
      boot_container-Booted host cfg u v ip old kept r s1
        (to_thread-keeps host (Slot u v ip starting old) (kept starting) Text op s slot)

  -- The other tasks leaving the rows of two different uuids alone meanwhile, a spawn whose reservation
  -- has drawn the first ends in one of two ways: it returns, the row of that uuid is running and the
  -- player has the view of that row; or it raises, and that row is an error. Both ways the row of the
  -- second uuid is as it was.
  pub spawn-Spawned :
      (name : Text) (s t : State W)
      → OthersLeave host u
      → OthersLeave host v
      → text_eq v u ≡ false
      → reserve host cfg docker ch ip s ≡ (ok (u, name), t)
      → Spawned host u v ip s.reg (spawn host cfg docker ch ip s)
  unfolding spawn
  spawn-Spawned name s t left_u left_v differ e =
      let (ttl, title, m, _, fresh, _, shape, _, _) =
        reserve-inserts host cfg docker ch ip s u name t e in
      let slot = reserved-Slot ip u v s.reg t.reg title name _ _ m differ fresh shape in
      let kept = λ (st : Status). Slot-IsKept host u v ip st s.reg left_u left_v in
      subst (λ a. Spawned host u v ip s.reg (after_reserve host cfg docker ch a)) (sym e)
        (after_boot-Spawned host u v ip s.reg kept (boot host cfg docker ch u name t)
          (boot-Booted name s.reg t kept slot))
