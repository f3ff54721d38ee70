-- ===== src/Instances/SpawnSteps.antt =====
-- `spawn` as a sequence of writes, among those of the other tasks.
use sui_ctf_infrastructure.Instances.Slots.{reserve-IsNewRow}
use sui_ctf_infrastructure.Registry.Keys.{fetch-update}
use sui_ctf_infrastructure.Base.{
  Option-cases, ◌+ℤ◌, ◌≡◌, refl, sym, subst, inl, inr, Bool, true, false, Option, none, some, arith,
}
use sui_ctf_infrastructure.Text.{Text, before}
use sui_ctf_infrastructure.Python.Errors.{Result, ok, raised}
use sui_ctf_infrastructure.Python.Values.{Value, null}
use sui_ctf_infrastructure.Config.{Config, rpc_url_for}
use sui_ctf_infrastructure.Registry.{error, Registry, set_container, fetch}
use sui_ctf_infrastructure.Docker.Sdk.{Host}
use sui_ctf_infrastructure.Docker.Manager.{DockerManager, run_instance, stop_and_remove}
use sui_ctf_infrastructure.Challenge.Manifest.{Challenge}
use sui_ctf_infrastructure.Instances.Tasks.{State, seconds, to_thread}
use sui_ctf_infrastructure.Instances.Values.{PlayerView, instance_env, has_package, boot_rounds}
use sui_ctf_infrastructure.Instances.Spawn.{
  not_in_time, boot_loop, remove_created, abandon, after_boot, running_with, after_write, publish,
  publish_if, finish_boot, boot_container, reserve, boot, after_reserve, spawn,
}
use sui_ctf_infrastructure.Instances.Capacity.{IsWithin}
use sui_ctf_infrastructure.Instances.Interleaving.{
  IsStarting, IsStarting-IsLive, Write, Writes, Writes-IsWithin,
}
use sui_ctf_infrastructure.Instances.Frames.{
  IsKept, to_thread-keeps, log_and_raise-keeps, boot_loop-keeps,
}
use sui_ctf_infrastructure.Instances.Outcome.{running_with-sets}
use sui_ctf_infrastructure.Instances.Steps.{OthersWrite, OthersWrite-IsKept, end-Writes}

module _ {W : Type 0} (host : Host W) (cfg : Config) (docker : DockerManager) (ch : Challenge)
    (others : OthersWrite host cfg docker ch) (u : Text)
    (spare : (reg : Registry) (w : W) → IsStarting u reg → IsStarting u (host.others reg w)) where
  -- Reached by writes, and with the row of this boot still starting.
  abbrev Booting : Registry → Registry → Type 0
  Booting start rows = Writes W cfg docker ch start rows × IsStarting u rows

  Booting-IsKept : (start : Registry) → IsKept host (Booting start)
  Booting-IsKept start reg w (before, live) =
      (OthersWrite-IsKept host cfg docker ch others start reg w before, spare reg w live)

  Writes-IsKept : (start : Registry) → IsKept host (Writes W cfg docker ch start)
  Writes-IsKept start = OthersWrite-IsKept host cfg docker ch others start

  after_write-Writes :
      (start : Registry) (ready : Value) (s : State W) (r : Result Registry)
      → running_with host cfg u ready s.reg ≡ r
      → Booting start s.reg
      → Writes W cfg docker ch start (after_write host cfg s r).1.reg
  after_write-Writes start ready s (raised x) e (before, live) = before
  after_write-Writes start ready s (ok rows') e (before, first) =
      let (a, k, d, p, o, written) = running_with-sets host cfg u ready s.reg rows' e in
      Writes.next before
        (Write.publishes u (rpc_url_for cfg u) a k d p o (IsStarting-IsLive u s.reg first) written)

  publish_if-Writes :
      (start : Registry) (cid : Text) (ready : Value) (r : Result Bool) (s : State W)
      → Booting start s.reg
      → Writes W cfg docker ch start (publish_if host cfg u cid ready r s).1.reg
  unfolding publish
  publish_if-Writes start cid ready (raised x) s h = h.0
  publish_if-Writes start cid ready (ok true) s h =
      after_write-Writes start ready s (running_with host cfg u ready s.reg) refl h
  publish_if-Writes start cid ready (ok false) s h =
      log_and_raise-keeps host (Writes W cfg docker ch start) (Writes-IsKept start) (Unit {0}) cid
        not_in_time s h.0

  finish_boot-Writes :
      (start : Registry) (cid : Text) (r : Result Value) (s : State W)
      → Booting start s.reg
      → Writes W cfg docker ch start (finish_boot host cfg u cid r s).1.reg
  unfolding finish_boot
  finish_boot-Writes start cid (raised x) s h = h.0
  finish_boot-Writes start cid (ok ready) s h =
      publish_if-Writes start cid ready (has_package ready) s h

  set_container-IsStarting :
      (cid : Text) (rows : Registry) → IsStarting u rows → IsStarting u (set_container u cid rows)
  unfolding set_container
  set_container-IsStarting cid rows live r e =
      let written = fetch-update u u (λ q. record q { container_id = some cid }) rows (λ x. refl) in
      elim (Option-cases (fetch u rows)) [
        | inl absent ↦ ground (arith, absent, written, e)
        | inr (q, found) ↦ ground (arith, found, written, e, live q found)
      ]

  boot_container-Writes :
      (start : Registry) (r : Result Text) (s : State W)
      → Booting start s.reg
      → Writes W cfg docker ch start (boot_container host cfg u r s).1.reg
  boot_container-Writes start (raised x) s h = h.0
  boot_container-Writes start (ok cid) s (before, live) =
      let s1 : State W = record s { reg = set_container u cid s.reg } in
      let deadline = host.time s1.world +ℤ seconds cfg.instance_boot_timeout in
      let (r, s2) = boot_loop host (boot_rounds cfg) cid deadline null s1 in
      finish_boot-Writes start cid r s2 (
        boot_loop-keeps host (Booting start) (Booting-IsKept start) (boot_rounds cfg) cid deadline
          null s1
          (
            Writes.next before (Write.notes_container u cid refl),
            set_container-IsStarting cid s.reg live,
          ))

  boot-Writes :
      (start : Registry) (name : Text) (s : State W)
      → Booting start s.reg
      → Writes W cfg docker ch start (boot host cfg docker ch u name s).1.reg
  unfolding boot
  boot-Writes start name s h =
      let op = run_instance host docker u name (instance_env cfg ch) in
      let (r, s1) = to_thread host op s in
      boot_container-Writes start r s1
        (to_thread-keeps host (Booting start) (Booting-IsKept start) Text op s h)

  remove_created-Writes :
      (start : Registry) (o : Option Text) (s : State W)
      → Writes W cfg docker ch start s.reg
      → Writes W cfg docker ch start (remove_created host {A = PlayerView} o s).1.reg
  remove_created-Writes start none s before = before
  remove_created-Writes start (some cid) s before =
      to_thread-keeps host (Writes W cfg docker ch start) (Writes-IsKept start) (Unit {0})
        (stop_and_remove host (some cid) none) s before

  after_boot-Writes :
      (start : Registry) (a : Result (Unit {0}) × State W)
      → Writes W cfg docker ch start a.1.reg
      → Writes W cfg docker ch start (after_boot host u a).1.reg
  unfolding abandon
  after_boot-Writes start (raised x, s) before =
      remove_created-Writes start _ _
        (end-Writes host cfg docker ch u error (some x.message) start s.reg refl before)
  after_boot-Writes start (ok _, s) before = before

  reserved-IsStarting :
      (ip name : Text) (s t : State W)
      → reserve host cfg docker ch ip s ≡ (ok (u, name), t)
      → IsStarting u t.reg
  reserved-IsStarting ip name s t e r found =
      let (q, reserved, fields) = reserve-IsNewRow host cfg docker ch ip u name s t e in
      ground (arith, found, reserved, fields.status_is)

  -- The other tasks writing what they may, but leaving the row of this spawn alone while it is
  -- starting, a spawn that got its reservation changes the table by writes alone, so the caps hold
  -- after it if they held before.
  pub spawn-Writes :
      (ip name : Text) (s t : State W)
      → reserve host cfg docker ch ip s ≡ (ok (u, name), t)
      → Writes W cfg docker ch s.reg (spawn host cfg docker ch ip s).1.reg
        × (IsWithin cfg s.reg → IsWithin cfg (spawn host cfg docker ch ip s).1.reg)
  unfolding spawn
  spawn-Writes ip name s t e =
      let reserved = Writes.next Writes.here (Write.reserves host ip u name s t e refl refl) in
      let booted = boot-Writes s.reg name t (reserved, reserved-IsStarting ip name s t e) in
      let all =
        subst (λ a. Writes W cfg docker ch s.reg (after_reserve host cfg docker ch a).1.reg) (sym e)
          (after_boot-Writes s.reg (boot host cfg docker ch u name t) booted) in
      (all, λ v. Writes-IsWithin W cfg docker ch s.reg _ v all)
