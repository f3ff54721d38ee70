-- ===== src/Main/Ready.antt =====
-- What has happened by the time that `main` starts the reaper and the menu.
use sui_ctf_infrastructure.Python.Values.{Value}
use sui_ctf_infrastructure.Registry.Opening.{Disk, open_registry}
use sui_ctf_infrastructure.Main.Serving.{
  ServeApp, serve_beside, gather_after, serve_after, manage_with, start_with, open_after, main,
}
use sui_ctf_infrastructure.NcServer.Server.{
  NcServer, new_server, listener_of, StartServer, after_bind, start,
}
use sui_ctf_infrastructure.Reaper.Task.{Reaper}
use sui_ctf_infrastructure.Config.{Config}
use sui_ctf_infrastructure.Challenge.Manifest.{Challenge, load_challenge}
use sui_ctf_infrastructure.Base.{
  if◌then◌else◌, ℕ, zero, suc, ◌<◌, ◌≡◌, refl, ap, ◌∙◌, subst, Bool, true, false, not, ◌&&◌, none,
  some, List, [],
}
use sui_ctf_infrastructure.Text.{Text}
use sui_ctf_infrastructure.Python.Errors.{Result, ok, raised, bind-ok}
use sui_ctf_infrastructure.Registry.{Row, Registry, is_active, fetch}
use sui_ctf_infrastructure.Registry.Keys.{HasUniqueKeys}
use sui_ctf_infrastructure.Docker.Sdk.{Host}
use sui_ctf_infrastructure.Docker.Manager.{
  DockerManager, with_client, new_manager, Managed, ping, image_exists, list_managed,
}
use sui_ctf_infrastructure.Instances.Tasks.{State, to_thread, sleep_for}
use sui_ctf_infrastructure.Instances.Killing.{IsAlone}
use sui_ctf_infrastructure.Instances.Reconcile.{is_managed, reconcile_with, reconcile_startup}
use sui_ctf_infrastructure.Instances.Startup.{lost, reconcile_startup-marks}
use sui_ctf_infrastructure.Main.Start.{
  manager_of, after_ping, wait_for_docker, after_image, after_wait, start_up,
}
use sui_ctf_infrastructure.Main.Waiting.{answers, wait_for_docker-answers}

ok_inj : {A : Type 0} {a b : A} → ◌≡◌ {A = Result A} (ok a) (ok b) → a ≡ b
ok_inj e = cc

cong_state :
    {W : Type 0} {a b : Registry} {w w' : W}
    → a ≡ b
    → w ≡ w'
    → ◌≡◌ {A = State W} (record { reg = a; world = w }) (record { reg = b; world = w' })
cong_state p q = cc

module _ {W : Type 0} (host : Host W) (alone : IsAlone host) where
  -- The table `rows` was kept up to the reconciliation, which a ping's answer preceded, and in which
  -- the row `r` was marked as lost exactly where it was active and no container carried its uuid.
  abbrev pub IsReconciled : Text → Row → State W → Registry → Type 0
  IsReconciled v r s reg =
      (k : ℕ) × (w : W) × (managed : List Managed) × (k < 15)
      × (answers host k s ≡ true)
      × ((list_managed host w).0 ≡ ok managed)
      × (fetch v reg
          ≡ some (if is_active r.status && not (is_managed managed v) then lost r else r))

  after_ping-keeps :
      (rows : Registry) (again : State W → Bool × State W)
      → ((s : State W) → s.reg ≡ rows → (again s).1.reg ≡ rows)
      → (a : Result (Unit {0}) × State W) → a.1.reg ≡ rows
      → (after_ping host again a).1.reg ≡ rows
  unfolding sleep_for
  after_ping-keeps rows again h (ok _, s) same = same
  after_ping-keeps rows again h (raised e, s) same = h _ (alone s.reg _ ∙ same)

  wait-keeps :
      (n : ℕ) (rows : Registry) (s : State W)
      → s.reg ≡ rows
      → (wait_for_docker host n s).1.reg ≡ rows
  unfolding wait_for_docker to_thread
  wait-keeps zero rows s same = same
  wait-keeps (suc n) rows s same =
      after_ping-keeps rows (wait_for_docker host n) (λ s' h. wait-keeps n rows s' h)
        (to_thread host (ping host) s) (alone s.reg _ ∙ same)

  reconcile_with-listed :
      (a : Result (List Managed) × State W)
      → (reconcile_with host a).0 ≡ ok tt
      → (managed : List Managed) × (a.0 ≡ ok managed)
  reconcile_with-listed (raised e, s) h = cc
  reconcile_with-listed (ok managed, s) h = (managed, refl)

  reconcile-ready :
      (v : Text) (r : Row) (s : State W)
      → HasUniqueKeys s.reg
      → fetch v s.reg ≡ some r
      → (reconcile_startup host s).0 ≡ ok tt
      → (managed : List Managed) × ((list_managed host s.world).0 ≡ ok managed)
        × (fetch v (reconcile_startup host s).1.reg
            ≡ some (if is_active r.status && not (is_managed managed v) then lost r else r))
  unfolding reconcile_startup to_thread
  reconcile-ready v r s keys found e =
      let (managed, listed) = reconcile_with-listed (to_thread host (list_managed host) s) e in
      (managed, listed, reconcile_startup-marks host alone v s r managed keys found listed e)

  after_image-ready :
      (v : Text) (r : Row) (a : Result Bool × W) (s : State W)
      → HasUniqueKeys s.reg
      → fetch v s.reg ≡ some r
      → (after_image host a s).0 ≡ ok tt
      → (w : W) × (managed : List Managed) × ((list_managed host w).0 ≡ ok managed)
        × (fetch v (after_image host a s).1.reg
            ≡ some (if is_active r.status && not (is_managed managed v) then lost r else r))
  after_image-ready v r (raised e, w) s keys found h = cc
  after_image-ready v r (ok _, w) s keys found h =
      let (managed, listed, marked) = reconcile-ready v r (record s { world = w }) keys found h in
      (w, managed, listed, marked)

  after_wait-ready :
      (docker : DockerManager) (v : Text) (r : Row) (a : Bool × State W)
      → HasUniqueKeys a.1.reg
      → fetch v a.1.reg ≡ some r
      → (after_wait host docker a).0 ≡ ok tt
      → (a.0 ≡ true)
        × ((w : W) × (managed : List Managed) × ((list_managed host w).0 ≡ ok managed)
            × (fetch v (after_wait host docker a).1.reg
                ≡ some (if is_active r.status && not (is_managed managed v) then lost r else r)))
  after_wait-ready docker v r (false, s) keys found h = cc
  after_wait-ready docker v r (true, s) keys found h =
      (refl, after_image-ready v r (image_exists host docker none s.world) s keys found h)

  start_up-ready :
      (docker : DockerManager) (ch ch' : Challenge) (v : Text) (r : Row) (s : State W)
      → HasUniqueKeys s.reg
      → fetch v s.reg ≡ some r
      → (start_up host docker (ok ch) s).0 ≡ ok ch'
      → IsReconciled v r s (start_up host docker (ok ch) s).1.reg
  unfolding start_up
  start_up-ready docker ch ch' v r s keys found e =
      let waited = wait_for_docker host 15 s in
      let same = wait-keeps 15 s.reg s refl in
      let (_, _, done) = bind-ok (λ (t : Unit {0}). ok ch) _ e in
      let (answered, (w, managed, listed, marked)) =
        after_wait-ready docker v r waited (rw same keys) (rw same found) done in
      let (k, room, answer) = (wait_for_docker-answers host 15 s).0 answered in
      (k, w, managed, room, answer, listed, marked)

  module _ (start_server : StartServer W) (serve_app : ServeApp W) (cfg : Config) where
    after_bind-keeps :
        (nc : NcServer) (a : Result (Unit {0}) × State W)
        → (after_bind host start_server nc a).2 ≡ a.1
    after_bind-keeps nc (raised e, s) = refl
    after_bind-keeps nc (ok _, s) = refl

    serve_beside-keeps :
        (docker : DockerManager) (nc : NcServer) (a : Result (Unit {0}) × State W)
        → (serve_beside host start_server serve_app cfg docker nc a).2 ≡ a.1
    serve_beside-keeps docker nc (raised e, s) = refl
    serve_beside-keeps docker nc (ok _, s) = refl

    gather_after-keeps :
        (docker : DockerManager) (a : Result (Unit {0}) × NcServer × State W)
        → (gather_after host start_server serve_app cfg docker a).2.reg ≡ a.2.reg
    unfolding to_thread
    gather_after-keeps docker (raised e, nc, s) = refl
    gather_after-keeps docker (ok _, nc, s) =
        ap (λ (t : State W). t.reg) (serve_beside-keeps docker nc _) ∙ alone s.reg _

    serve_after-ready :
        (docker : DockerManager) (x : Reaper) (a : Result Challenge × State W)
        → (serve_after host start_server serve_app cfg docker a).1.reaper ≡ some x
        → (ch : Challenge) × (a.0 ≡ ok ch)
          × ((serve_after host start_server serve_app cfg docker a).2.reg ≡ a.1.reg)
    unfolding start to_thread new_server
    serve_after-ready docker x (raised e, s) h = cc
    serve_after-ready docker x (ok ch, s) h =
        let begun = start host start_server (new_server cfg) s in
        (
          ch,
          refl,
          gather_after-keeps docker begun
              ∙ ap (λ (t : State W). t.reg)
                  (after_bind-keeps (new_server cfg)
                    (to_thread host (start_server (listener_of cfg)) s))
              ∙ alone s.reg _,
        )

    manage_with-ready :
        (x : Reaper) (ch : Challenge) (reg : Registry) (v : Text) (r : Row)
        (a : Result DockerManager × W)
        → HasUniqueKeys reg
        → fetch v reg ≡ some r
        → (manage_with host start_server serve_app cfg (ok ch) reg a).1.reaper ≡ some x
        → IsReconciled v r
            (record { reg = reg; world = a.1 })
            (manage_with host start_server serve_app cfg (ok ch) reg a).2.reg
    manage_with-ready x ch reg v r (raised e, w) keys found h = cc
    manage_with-ready x ch reg v r (ok docker, w) keys found h =
        let t : State W = record { reg = reg; world = w } in
        let (ch', started, kept) = serve_after-ready docker x (start_up host docker (ok ch) t) h in
        let (k, w', managed, room, answer, listed, marked) =
          start_up-ready docker ch ch' v r t keys found started in
        (k, w', managed, room, answer, listed, ap (fetch v) kept ∙ marked)

    module _ (from_env : W → Result (Unit {0}) × W) where
      -- The world at the first ping.
      with_client-world :
          (docker : DockerManager) (a : Result (Unit {0}) × W) → (with_client docker a).1 ≡ a.1
      with_client-world docker (raised e, w) = refl
      with_client-world docker (ok _, w) = refl

      start_with-ready :
          (x : Reaper) (ch : Challenge) (rows : Registry) (v : Text) (r : Row)
          (a : Result Registry × W) (s : State W)
          → a.0 ≡ ok rows
          → HasUniqueKeys rows
          → fetch v rows ≡ some r
          → (start_with host start_server serve_app cfg from_env (ok ch) a s).1.reaper ≡ some x
          → IsReconciled v r
              (record { reg = rows; world = (from_env a.1).1 })
              (start_with host start_server serve_app cfg from_env (ok ch) a s).2.reg
      unfolding new_manager
      start_with-ready x ch rows v r (raised e, w) s opened keys found h = cc
      start_with-ready x ch rows v r (ok reg, w) s opened keys found h =
          let same = ok_inj opened in
          subst
            (λ (q : State W).
              IsReconciled v r q
                (start_with host start_server serve_app cfg from_env (ok ch) (ok reg, w) s).2.reg)
            (cong_state same (with_client-world _ (from_env w)))
            (manage_with-ready x ch reg v r (manager_of from_env cfg w) (rw same keys)
              (rw same found) h)

      module _ (disk : Disk W) (is_file : Text → Bool) (load_yaml : Text → Result Value) where
        open_after-ready :
            (w : W) (rows : Registry) (v : Text) (r : Row) (x : Reaper) (ch : Result Challenge)
            → (open_registry disk cfg.db_path w).0 ≡ ok rows
            → HasUniqueKeys rows
            → fetch v rows ≡ some r
            → (open_after host start_server serve_app cfg from_env disk is_file load_yaml ch
                (record { reg = []; world = w })).1.reaper
              ≡ some x
            → IsReconciled v r
                (record { reg = rows; world = (from_env (open_registry disk cfg.db_path w).1).1 })
                (open_after host start_server serve_app cfg from_env disk is_file load_yaml ch
                  (record { reg = []; world = w })).2.reg
        open_after-ready w rows v r x (raised e) opened keys found h = cc
        open_after-ready w rows v r x (ok ch) opened keys found h =
            start_with-ready x ch rows v r (open_registry disk cfg.db_path w)
              (record { reg = []; world = w }) opened keys found h

        -- No other task writing the table during the start, `main` has the reaper started only if the
        -- daemon answered one of the fifteen pings and the reconciliation then went through: of the
        -- table that the database held, a row that was active is marked as lost exactly where no
        -- listed container carries its uuid, and every other row is as it was.
        pub main-ready :
            (w : W) (rows : Registry) (v : Text) (r : Row) (x : Reaper)
            → (open_registry disk cfg.db_path w).0 ≡ ok rows
            → HasUniqueKeys rows
            → fetch v rows ≡ some r
            → (main host start_server serve_app cfg from_env disk is_file load_yaml w).1.reaper
              ≡ some x
            → IsReconciled v r
                (record { reg = rows; world = (from_env (open_registry disk cfg.db_path w).1).1 })
                (main host start_server serve_app cfg from_env disk is_file load_yaml w).2.reg
        unfolding main
        main-ready w rows v r x opened keys found h =
            open_after-ready w rows v r x
              (load_challenge is_file load_yaml cfg.challenges_dir cfg.active_challenge) opened keys
              found h
