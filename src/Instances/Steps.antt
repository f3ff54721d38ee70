-- ===== src/Instances/Steps.antt =====
-- `kill`, `_sweep` and `reconcile_startup` as sequences of writes, among those of the other tasks.
use sui_ctf_infrastructure.Instances.Capacity.{IsWithin}
use sui_ctf_infrastructure.Instances.Control.{after_removed, kill_record, kill}
use sui_ctf_infrastructure.Instances.Reconcile.{
  is_known, is_managed, mark_missing, after_orphan, remove_orphans, mark_after, reconcile_with,
  reconcile_startup,
}
use sui_ctf_infrastructure.Reaper.Sweep.{in_boot_window, after_removal, reap, sweep}
use sui_ctf_infrastructure.Base.{
  Bool-cases, ℤ, ◌≡◌, refl, inl, inr, false, Option, none, some, List, [], ◌∷◌,
}
use sui_ctf_infrastructure.Text.{Text, before}
use sui_ctf_infrastructure.Python.Errors.{Result, ok, raised}
use sui_ctf_infrastructure.Config.{Config}
use sui_ctf_infrastructure.Registry.{
  Status, expired, killed, error, Registry, Record, is_active, set_status, get_record, all_active,
}
use sui_ctf_infrastructure.Docker.Sdk.{Host}
use sui_ctf_infrastructure.Docker.Manager.{DockerManager, Managed, stop_and_remove, list_managed}
use sui_ctf_infrastructure.Challenge.Manifest.{Challenge}
use sui_ctf_infrastructure.Instances.Tasks.{State, to_thread}
use sui_ctf_infrastructure.Instances.Interleaving.{Write, Writes, Writes-IsWithin}
use sui_ctf_infrastructure.Instances.Frames.{IsKept, to_thread-keeps}

module _ {W : Type 0} (host : Host W) (cfg : Config) (docker : DockerManager) (ch : Challenge) where
  -- The other tasks change the table by writes only.
  abbrev pub OthersWrite : Type 0
  OthersWrite = (reg : Registry) (w : W) → Writes W cfg docker ch reg (host.others reg w)

  pub Writes-trans :
      {start middle end : Registry}
      → Writes W cfg docker ch start middle
      → Writes W cfg docker ch middle end
      → Writes W cfg docker ch start end
  Writes-trans before Writes.here = before
  Writes-trans before (Writes.next after w) = Writes.next (Writes-trans before after) w

  pub OthersWrite-IsKept :
      (others : OthersWrite) (start : Registry) → IsKept host (Writes W cfg docker ch start)
  OthersWrite-IsKept others start reg w before = Writes-trans before (others reg w)

  pub end-Writes :
      (u : Text) (st : Status) (e : Option Text) (start rows : Registry)
      → is_active st ≡ false
      → Writes W cfg docker ch start rows
      → Writes W cfg docker ch start (set_status u st e rows)
  end-Writes u st e start rows h before = Writes.next before (Write.ends u st e h refl)

  module _ (others : OthersWrite) where
    pub thread-Writes :
        (A : Type 0) (op : W → Result A × W) (start : Registry) (s : State W)
        → Writes W cfg docker ch start s.reg
        → Writes W cfg docker ch start (to_thread host op s).1.reg
    thread-Writes A op start s before =
        to_thread-keeps host (Writes W cfg docker ch start) (OthersWrite-IsKept others start) A op s
          before

    after_removed-Writes :
        (u : Text) (st : Status) (start : Registry) (a : Result (Unit {0}) × State W)
        → Writes W cfg docker ch start a.1.reg
        → Writes W cfg docker ch start (after_removed host u st a).1.reg
    after_removed-Writes u st start (raised e, s) before = before
    after_removed-Writes u st start (ok _, s) before = elim (Bool-cases (is_active st)) [
      | inl active ↦ rw active (end-Writes u killed none start s.reg refl before)
      | inr ended ↦ rw ended before
    ]

    kill_record-Writes :
        (u : Text) (o : Option Record) (s : State W)
        → Writes W cfg docker ch s.reg (kill_record host u o s).1.reg
    kill_record-Writes u none s = Writes.here
    kill_record-Writes u (some r) s =
        after_removed-Writes u r.status s.reg
          (to_thread host (stop_and_remove host r.container_id r.container_name) s)
          (thread-Writes (Unit {0}) (stop_and_remove host r.container_id r.container_name) s.reg s
            Writes.here)

    pub kill-Writes : (u : Text) (s : State W) → Writes W cfg docker ch s.reg (kill host u s).1.reg
    unfolding kill
    kill-Writes u s = kill_record-Writes u (get_record u s.reg) s

    after_removal-Writes :
        (again : State W → Result (Unit {0}) × State W) (u : Text) (start : Registry)
        → ((s : State W)
            → Writes W cfg docker ch start s.reg
            → Writes W cfg docker ch start (again s).1.reg)
        → (a : Result (Unit {0}) × State W) → Writes W cfg docker ch start a.1.reg
        → Writes W cfg docker ch start (after_removal host cfg again u a).1.reg
    after_removal-Writes again u start step (raised e, s) before = before
    after_removal-Writes again u start step (ok _, s) before =
        step (record s { reg = set_status u expired none s.reg })
          (end-Writes u expired none start s.reg refl before)

    reap-Writes :
        (now : ℤ) (rs : List Record) (start : Registry) (s : State W)
        → Writes W cfg docker ch start s.reg
        → Writes W cfg docker ch start (reap host cfg now rs s).1.reg
    unfolding reap
    reap-Writes now [] start s before = before
    reap-Writes now (r ∷ rs) start s before = elim (Bool-cases (in_boot_window cfg now r)) [
      | inl inside ↦ rw (inside, reap) (reap-Writes now rs start s before)
      | inr outside ↦
          rw (outside, reap)
            (after_removal-Writes (reap host cfg now rs) r.uuid start
              (λ s' h. reap-Writes now rs start s' h)
              (to_thread host (stop_and_remove host r.container_id r.container_name) s)
              (thread-Writes (Unit {0}) (stop_and_remove host r.container_id r.container_name) start
                s before))
    ]

    pub sweep-Writes : (s : State W) → Writes W cfg docker ch s.reg (sweep host cfg s).1.reg
    unfolding sweep
    sweep-Writes s = reap-Writes (host.time s.world) _ s.reg s Writes.here

    mark_missing-Writes :
        (managed : List Managed) (rs : List Record) (start rows : Registry)
        → Writes W cfg docker ch start rows
        → Writes W cfg docker ch start (mark_missing managed rs rows)
    unfolding mark_missing
    mark_missing-Writes managed [] start rows before = before
    mark_missing-Writes managed (r ∷ rs) start rows before =
        elim (Bool-cases (is_managed managed r.uuid)) [
          | inl there ↦ rw (there, mark_missing) (mark_missing-Writes managed rs start rows before)
          | inr gone ↦
              rw (gone, mark_missing)
                (mark_missing-Writes managed rs start _
                  (end-Writes r.uuid error _ start rows refl before))
        ]

    after_orphan-Writes :
        (again : State W → Result (Unit {0}) × State W) (start : Registry)
        → ((s : State W)
            → Writes W cfg docker ch start s.reg
            → Writes W cfg docker ch start (again s).1.reg)
        → (a : Result (Unit {0}) × State W) → Writes W cfg docker ch start a.1.reg
        → Writes W cfg docker ch start (after_orphan host again a).1.reg
    after_orphan-Writes again start step (raised e, s) before = before
    after_orphan-Writes again start step (ok _, s) before = step s before

    remove_orphans-Writes :
        (active : List Record) (cs : List Managed) (start : Registry) (s : State W)
        → Writes W cfg docker ch start s.reg
        → Writes W cfg docker ch start (remove_orphans host active cs s).1.reg
    unfolding remove_orphans
    remove_orphans-Writes active [] start s before = before
    remove_orphans-Writes active (c ∷ cs) start s before =
        elim (Bool-cases (is_known active c.uuid)) [
          | inl known ↦ rw (known, remove_orphans) (remove_orphans-Writes active cs start s before)
          | inr orphan ↦
              rw (orphan, remove_orphans)
                (after_orphan-Writes (remove_orphans host active cs) start
                  (λ s' h. remove_orphans-Writes active cs start s' h)
                  (to_thread host (stop_and_remove host (some c.id) none) s)
                  (thread-Writes (Unit {0}) (stop_and_remove host (some c.id) none) start s before))
        ]

    mark_after-Writes :
        (managed : List Managed) (active : List Record) (start : Registry)
        (a : Result (Unit {0}) × State W)
        → Writes W cfg docker ch start a.1.reg
        → Writes W cfg docker ch start (mark_after host managed active a).1.reg
    mark_after-Writes managed active start (raised e, s) before = before
    mark_after-Writes managed active start (ok _, s) before =
        mark_missing-Writes managed active start s.reg before

    reconcile_with-Writes :
        (start : Registry) (a : Result (List Managed) × State W)
        → Writes W cfg docker ch start a.1.reg
        → Writes W cfg docker ch start (reconcile_with host a).1.reg
    reconcile_with-Writes start (raised e, s) before = before
    reconcile_with-Writes start (ok managed, s) before =
        mark_after-Writes managed (all_active s.reg) start
          (remove_orphans host (all_active s.reg) managed s)
          (remove_orphans-Writes (all_active s.reg) managed start s before)

    -- The other tasks writing what they may, a kill, a sweep of the reaper and a reconciliation change
    -- the table by writes alone, theirs and those of the others: so the caps hold after them if they
    -- held before.
    pub ending-Writes :
        (u : Text) (s : State W)
        → Writes W cfg docker ch s.reg (kill host u s).1.reg
          × Writes W cfg docker ch s.reg (sweep host cfg s).1.reg
          × Writes W cfg docker ch s.reg (reconcile_startup host s).1.reg
          × (IsWithin cfg s.reg
              → IsWithin cfg (kill host u s).1.reg
                × IsWithin cfg (sweep host cfg s).1.reg
                × IsWithin cfg (reconcile_startup host s).1.reg)
    unfolding reconcile_startup
    ending-Writes u s =
        let k = kill-Writes u s in
        let w = sweep-Writes s in
        let r =
          reconcile_with-Writes s.reg (to_thread host (list_managed host) s)
            (thread-Writes (List Managed) (list_managed host) s.reg s Writes.here) in
        (
          k,
          w,
          r,
          λ v. (
            Writes-IsWithin W cfg docker ch s.reg _ v k,
            Writes-IsWithin W cfg docker ch s.reg _ v w,
            Writes-IsWithin W cfg docker ch s.reg _ v r,
          ),
        )
