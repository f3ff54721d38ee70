-- ===== src/Instances/Noting.antt =====
-- The container that the row of an instance names, while `spawn` works on it.
use sui_ctf_infrastructure.Base.{◌+ℤ◌, ◌≡◌, refl, ◌∙◌, Bool, true, false, Option, none, some, arith}
use sui_ctf_infrastructure.Text.{Text}
use sui_ctf_infrastructure.Python.Errors.{Result, ok, raised}
use sui_ctf_infrastructure.Python.Values.{Value, null}
use sui_ctf_infrastructure.Config.{Config, rpc_url_for}
use sui_ctf_infrastructure.Registry.{Row, Registry, update, set_container, fetch, get_record}
use sui_ctf_infrastructure.Registry.Keys.{KeepsUuid, fetch-update}
use sui_ctf_infrastructure.Registry.Updates.{set_running-updates}
use sui_ctf_infrastructure.Docker.Sdk.{Host}
use sui_ctf_infrastructure.Docker.Manager.{first_ref}
use sui_ctf_infrastructure.Instances.Tasks.{State, seconds}
use sui_ctf_infrastructure.Instances.Values.{has_package, boot_rounds}
use sui_ctf_infrastructure.Instances.Spawn.{
  not_in_time, created_container, boot_loop, running_with, after_write, publish, publish_if,
  finish_boot, boot_container,
}
use sui_ctf_infrastructure.Instances.Killing.{OthersLeave}
use sui_ctf_infrastructure.Instances.Frames.{IsKept, log_and_raise-keeps, boot_loop-keeps}
use sui_ctf_infrastructure.Instances.Outcome.{running_with-sets}

-- The row of this uuid is there, with this container.
abbrev pub Notes : Text → Option Text → Registry → Type 0
Notes u o rows = (r : Row) × (fetch u rows ≡ some r) × (r.container_id ≡ o)

pub Notes-update :
    (u : Text) (o o' : Option Text) (f : Row → Row) (rows : Registry)
    → KeepsUuid f
    → ((r : Row) → r.container_id ≡ o → (f r).container_id ≡ o')
    → Notes u o rows
    → Notes u o' (update u f rows)
Notes-update u o o' f rows k h (r, there, c) =
    (f r, ground (arith, fetch-update u u f rows k, there), h r c)

-- The container to remove, after the row was marked.
pub created_container-Notes :
    (u : Text) (o : Option Text) (rows : Registry)
    → Notes u o rows
    → created_container (get_record u rows) ≡ first_ref o none
unfolding get_record
created_container-Notes u o rows (r, there, c) = rw (there, c) refl

module _ {W : Type 0} (host : Host W) (cfg : Config) (u : Text) (o : Option Text)
    (left : OthersLeave host u) where
  pub Notes-IsKept : IsKept host (Notes u o)
  Notes-IsKept reg w (r, there, c) = (r, left reg w ∙ there, c)

  after_write-Notes :
      (ready : Value) (s : State W) (r : Result Registry)
      → running_with host cfg u ready s.reg ≡ r
      → Notes u o s.reg
      → Notes u o (after_write host cfg s r).1.reg
  after_write-Notes ready s (raised x) e h = h
  after_write-Notes ready s (ok rows') e h =
      let (a, k, d, p, ob, written) = running_with-sets host cfg u ready s.reg rows' e in
      let (a', k', d', p', _, _, _, _, shape) =
        set_running-updates u (rpc_url_for cfg u) a k d p ob s.reg written in
      rw shape (Notes-update u o o _ s.reg (λ r. refl) (λ r c. c) h)

  publish_if-Notes :
      (cid : Text) (ready : Value) (r : Result Bool) (s : State W)
      → Notes u o s.reg
      → Notes u o (publish_if host cfg u cid ready r s).1.reg
  unfolding publish
  publish_if-Notes cid ready (raised x) s h = h
  publish_if-Notes cid ready (ok true) s h =
      after_write-Notes ready s (running_with host cfg u ready s.reg) refl h
  publish_if-Notes cid ready (ok false) s h =
      log_and_raise-keeps host (Notes u o) Notes-IsKept (Unit {0}) cid not_in_time s h

  pub finish_boot-Notes :
      (cid : Text) (r : Result Value) (s : State W)
      → Notes u o s.reg
      → Notes u o (finish_boot host cfg u cid r s).1.reg
  unfolding finish_boot
  finish_boot-Notes cid (raised x) s h = h
  finish_boot-Notes cid (ok ready) s h = publish_if-Notes cid ready (has_package ready) s h

module _ {W : Type 0} (host : Host W) (cfg : Config) where
  -- What the creation of the container gave, as the column of it.
  abbrev pub container_of : Result Text → Option Text
  container_of (ok cid) = some cid
  container_of (raised e) = none

  pub boot_container-Notes :
      (u : Text) (r : Result Text) (s : State W)
      → OthersLeave host u
      → Notes u none s.reg
      → Notes u (container_of r) (boot_container host cfg u r s).1.reg
  unfolding set_container
  boot_container-Notes u (raised x) s left h = h
  boot_container-Notes u (ok cid) s left h =
      let s1 : State W = record s { reg = set_container u cid s.reg } in
      let deadline = host.time s1.world +ℤ seconds cfg.instance_boot_timeout in
      let (r, s2) = boot_loop host (boot_rounds cfg) cid deadline null s1 in
      finish_boot-Notes host cfg u (some cid) left cid r s2 (
        boot_loop-keeps host (Notes u (some cid)) (Notes-IsKept host cfg u (some cid) left)
          (boot_rounds cfg) cid deadline null s1
          (Notes-update u none (some cid) _ s.reg (λ r. refl) (λ r c. refl) h))
