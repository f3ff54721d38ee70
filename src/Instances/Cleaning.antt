-- ===== src/Instances/Cleaning.antt =====
-- What a spawn that fails leaves of its container.
use sui_ctf_infrastructure.Instances.Noting.{
  Notes, Notes-update, created_container-Notes, Notes-IsKept, boot_container-Notes,
}
use sui_ctf_infrastructure.Instances.Slots.{reserve-IsNewRow}
use sui_ctf_infrastructure.Challenge.Manifest.{Challenge}
use sui_ctf_infrastructure.Docker.Cleanup.{HasOwnErrors, stop_and_remove-ok}
use sui_ctf_infrastructure.Base.{◌≡◌, refl, sym, ap, ◌∙◌, subst, Option, none, some, [], ◌∷◌, arith}
use sui_ctf_infrastructure.Text.{Text, before}
use sui_ctf_infrastructure.Python.Errors.{Exception, Result, ok, raised, ◌>>=◌}
use sui_ctf_infrastructure.Config.{Config}
use sui_ctf_infrastructure.Registry.{Row, set_status, fetch, get_record}
use sui_ctf_infrastructure.Docker.Sdk.{Host}
use sui_ctf_infrastructure.Docker.Manager.{DockerManager, first_ref, run_instance, stop_and_remove}
use sui_ctf_infrastructure.Instances.Tasks.{State, to_thread}
use sui_ctf_infrastructure.Instances.Values.{PlayerView, instance_env}
use sui_ctf_infrastructure.Instances.Spawn.{
  start_failed, view_or_raise, remove_created, abandon, after_boot, boot_container, reserve, boot,
  after_reserve, spawn,
}
use sui_ctf_infrastructure.Instances.Killing.{OthersLeave}
use sui_ctf_infrastructure.Instances.Frames.{to_thread-keeps}

-- The world after a failed spawn, by what the creation of the container gave.
abbrev pub IsCleaned : {W : Type 0} → Host W → Result Text → W → W → Type 0
IsCleaned host (raised e) before after = after ≡ before
IsCleaned {W} host (ok cid) before after =
    (w : W) × (after ≡ (stop_and_remove host (some cid) none w).1)

-- The answer of a failed spawn, and the world after it: the last call removed this container, if any.
abbrev Removes :
    {W : Type 0} → Host W → Option Text → W → Exception → Result PlayerView × State W → Type 0
Removes host o w e a = (e ≡ start_failed) × (a.1.world ≡ (stop_and_remove host o none w).1)

module _ {W : Type 0} (host : Host W) (own : HasOwnErrors host) where
  failed-start :
      (r : Result (Unit {0})) (e : Exception)
      → r ≡ ok tt
      → ◌≡◌ {A = Result PlayerView} (r >>= λ _. raised start_failed) (raised e)
      → e ≡ start_failed
  failed-start (ok _) e same h = cc
  failed-start (raised x) e same h = cc

  seen-returns :
      (u : Text) (s : State W) (r : Row) (e : Exception)
      → fetch u s.reg ≡ some r
      → view_or_raise (get_record u s.reg) (host.time s.world) ≡ raised e
      → ⊥
  unfolding get_record
  seen-returns u s r e there h = ground (arith, there, h)

  remove_created-Removes :
      (o : Option Text) (s : State W) (e : Exception)
      → (remove_created host {A = PlayerView} (first_ref o none) s).0 ≡ raised e
      → Removes host o s.world e (remove_created host (first_ref o none) s)
  unfolding to_thread stop_and_remove first_ref
  remove_created-Removes none s e h = (cc, refl)
  remove_created-Removes (some []) s e h = (cc, refl)
  remove_created-Removes (some (c ∷ cs)) s e h =
      let (removed, _) = stop_and_remove-ok host own (some (c ∷ cs)) none [] 0 s.world in
      (failed-start _ e removed h, refl)

  created-Removes :
      (o q : Option Text) (s : State W) (e : Exception)
      → q ≡ first_ref o none
      → (remove_created host {A = PlayerView} q s).0 ≡ raised e
      → Removes host o s.world e (remove_created host q s)
  created-Removes o q s e same =
      subst
        (λ x.
          (remove_created host {A = PlayerView} x s).0 ≡ raised e
          → Removes host o s.world e (remove_created host x s))
        (sym same) (remove_created-Removes o s e)

  after_boot-Removes :
      (u : Text) (o : Option Text) (a : Result (Unit {0}) × State W) (e : Exception)
      → Notes u o a.1.reg
      → (after_boot host u a).0 ≡ raised e
      → Removes host o a.1.world e (after_boot host u a)
  unfolding abandon set_status get_record
  after_boot-Removes u o (ok _, s) e (r, there, c) h = absurd (seen-returns u s r e there h)
  after_boot-Removes u o (raised x, s) e notes h =
      created-Removes o _ _ e
        (created_container-Notes u o _ (Notes-update u o o _ s.reg (λ r. refl) (λ r c. c) notes)) h

module _ {W : Type 0} (host : Host W) (cfg : Config) (docker : DockerManager) (ch : Challenge) where
  boot_container-IsCleaned :
      (u : Text) (r : Result Text) (s : State W) (e : Exception)
      → HasOwnErrors host
      → OthersLeave host u
      → Notes u none s.reg
      → (after_boot host u (boot_container host cfg u r s)).0 ≡ raised e
      → (e ≡ start_failed)
        × IsCleaned host r s.world (after_boot host u (boot_container host cfg u r s)).1.world
  unfolding stop_and_remove first_ref
  boot_container-IsCleaned u (raised x) s e own left h failed =
      after_boot-Removes host own u none (raised x, s) e h failed
  boot_container-IsCleaned u (ok cid) s e own left h failed =
      let a = boot_container host cfg u (ok cid) s in
      let (told, removed) =
        after_boot-Removes host own u (some cid) a e
          (boot_container-Notes host cfg u (ok cid) s left h) failed in
      (told, (a.1.world, removed))

  -- The other tasks leaving the row of this spawn alone, and where the SDK raises only its own
  -- exceptions: a spawn that fails after its reservation raises an error that tells nothing of the
  -- cause. If its container was created, the last thing it asked of the daemon is to remove that
  -- container, by its id; and if none was created, it has asked for nothing more.
  pub spawn-IsCleaned :
      (ip u name : Text) (r : Result Text) (s t t1 : State W) (e : Exception)
      → HasOwnErrors host
      → OthersLeave host u
      → reserve host cfg docker ch ip s ≡ (ok (u, name), t)
      → to_thread host (run_instance host docker u name (instance_env cfg ch)) t ≡ (r, t1)
      → (spawn host cfg docker ch ip s).0 ≡ raised e
      → (e ≡ start_failed) × IsCleaned host r t1.world (spawn host cfg docker ch ip s).1.world
  unfolding spawn boot
  spawn-IsCleaned ip u name r s t t1 e own left placed created failed =
      let (q, found, fields) = reserve-IsNewRow host cfg docker ch ip u name s t placed in
      let op = run_instance host docker u name (instance_env cfg ch) in
      let noted : Notes u none t1.reg =
        subst (λ x. Notes u none x.1.reg) created
          (to_thread-keeps host (Notes u none) (Notes-IsKept host cfg u none left) Text op t
            (q, found, fields.container_is)) in
      let same : spawn host cfg docker ch ip s
          ≡ after_boot host u (boot_container host cfg u r t1) =
        ap (after_reserve host cfg docker ch) placed
        ∙ ap (λ x. after_boot host u (boot_container host cfg u x.0 x.1)) created in
      subst (λ x. x.0 ≡ raised e → (e ≡ start_failed) × IsCleaned host r t1.world x.1.world)
        (sym same) (boot_container-IsCleaned u r t1 e own left noted) failed
