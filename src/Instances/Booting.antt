-- ===== src/Instances/Booting.antt =====
-- The boot loop ends by its own tests: the rounds that the model allows are enough on any host whose
-- clock does not run back and whose pauses last as long as they should.
use native.Mathlib.Nat.{zero-add}
use sui_ctf_infrastructure.Python.Values.{Value}
use sui_ctf_infrastructure.Config.{Config}
use sui_ctf_infrastructure.Instances.Values.{is_complete, has_died, boot_rounds}
use sui_ctf_infrastructure.Instances.Spawn.{
  Round, finished, going, after_status, after_test, after_ready, boot_round, after_round, boot_loop,
}
use sui_ctf_infrastructure.Base.{
  Bool-cases, add_suc, ℤ, pos, pos_part, ◌+ℤ◌, scale, ◌≤ℤ◌, ltb_ℤ, +ℤ_parts, int_laws, ℕ, zero, suc,
  ◌+◌, ◌*◌, ◌≡◌, refl, ◌∙◌, inl, inr, Bool, true, false, Option, List, arith,
}
use sui_ctf_infrastructure.Text.{Text}
use sui_ctf_infrastructure.Python.Errors.{Result, ok, raised}
use sui_ctf_infrastructure.Docker.Sdk.{Container, Host}
use sui_ctf_infrastructure.Docker.Manager.{
  read_file, read_ready, container_status, read_logs, get_logs,
}
use sui_ctf_infrastructure.Instances.Tasks.{State, ticks_per_second, seconds, to_thread, sleep_for}

seconds-le : (t : ℤ) → seconds t ≤ℤ pos (pos_part t * ticks_per_second)
unfolding scale
seconds-le t = ground arith

-- The rounds of a boot are enough for its time limit.
boot_rounds-IsEnough :
    (extra : ℕ) (now t : ℤ)
    → now +ℤ seconds t ≤ℤ now +ℤ pos ((extra + suc (pos_part t)) * (2 * ticks_per_second))
boot_rounds-IsEnough extra now t = omega (int_laws, seconds-le t)

-- What the loops rely on of the clock: no call turns it back, and a pause lasts.
pub record HasClock {W : Type 0} (host : Host W) : Type 0 where
  pub get_later : (ref : Text) (w : W) → host.time w ≤ℤ host.time (host.containers_get ref w).1
  pub exec_later :
      (c : Container) (cmd : List Text) (w : W) → host.time w ≤ℤ host.time (host.exec_run c cmd w).1
  pub logs_later : (c : Container) (n : ℕ) (w : W) → host.time w ≤ℤ host.time (host.logs c n w).1
  pub remove_later :
      (c : Container) (force : Bool) (w : W) → host.time w ≤ℤ host.time (host.remove c force w).1
  pub sleep_lasts : (n : ℕ) (w : W) → host.time w +ℤ seconds (pos n) ≤ℤ host.time (host.sleep n w)

module _ {W : Type 0} (host : Host W) (clock : HasClock host) where
  read_file_later : (r : Result Container) (w : W) → host.time w ≤ℤ host.time (read_file host r w).1
  read_file_later (raised e) w = omega arith
  read_file_later (ok c) w = clock.exec_later c _ w

  pub le_ℤ_trans : (a b c : ℤ) → a ≤ℤ b → b ≤ℤ c → a ≤ℤ c
  le_ℤ_trans a b c p q = omega arith

  read_ready_later : (cid : Text) (w : W) → host.time w ≤ℤ host.time (read_ready host cid w).1
  unfolding read_ready
  read_ready_later cid w =
      let (r, w') = host.containers_get cid w in
      le_ℤ_trans _ (host.time w') _ (clock.get_later cid w) (read_file_later r w')

  container_status_later :
      (cid : Text) (w : W) → host.time w ≤ℤ host.time (container_status host cid w).1
  unfolding container_status
  container_status_later cid w = clock.get_later cid w

  read_logs_later :
      (n : ℕ) (r : Result Container) (w : W) → host.time w ≤ℤ host.time (read_logs host n r w).1
  read_logs_later n (raised e) w = omega arith
  read_logs_later n (ok c) w = clock.logs_later c n w

  get_logs_later : (cid : Text) (n : ℕ) (w : W) → host.time w ≤ℤ host.time (get_logs host cid n w).1
  unfolding get_logs
  get_logs_later cid n w =
      let (r, w') = host.containers_get cid w in
      le_ℤ_trans _ (host.time w') _ (clock.get_later cid w) (read_logs_later n r w')

module _ {W : Type 0} (host : Host W) (clock : HasClock host) (cfg : Config) (cid : Text) where
  after_status_later :
      (v : Value) (r : Result (Option Text)) (s : State W)
      → host.time s.world ≤ℤ host.time (after_status host cid v (r, s)).1.world
  unfolding to_thread
  after_status_later v (raised e) s = omega arith
  after_status_later v (ok st) s = elim (Bool-cases (has_died st)) [
    | inl dead ↦ rw dead (get_logs_later host clock cid 80 s.world)
    | inr alive ↦ rw alive (omega arith)
  ]

  after_test_later :
      (v : Value) (r : Result Bool) (s : State W)
      → host.time s.world ≤ℤ host.time (after_test host cid v r s).1.world
  unfolding to_thread
  after_test_later v (raised e) s = omega arith
  after_test_later v (ok true) s = omega arith
  after_test_later v (ok false) s =
      let (r, w) = container_status host cid s.world in
      le_ℤ_trans host clock _ (host.time w) _ (container_status_later host clock cid s.world)
        (after_status_later v r _)

  after_ready_later :
      (r : Result Value) (s : State W)
      → host.time s.world ≤ℤ host.time (after_ready host cid (r, s)).1.world
  after_ready_later (raised e) s = omega arith
  after_ready_later (ok v) s = after_test_later v (is_complete v) s

  boot_round_later : (s : State W) → host.time s.world ≤ℤ host.time (boot_round host cid s).1.world
  unfolding boot_round to_thread
  boot_round_later s =
      let (r, w) = read_ready host cid s.world in
      le_ℤ_trans host clock _ (host.time w) _ (read_ready_later host clock cid s.world)
        (after_ready_later r _)

  -- So many pauses of two seconds reach the deadline.
  abbrev pub IsEnough : ℕ → ℤ → ℤ → Type 0
  IsEnough n now deadline = deadline ≤ℤ now +ℤ pos (n * (2 * ticks_per_second))

  sleep_later :
      (s : State W)
      → host.time s.world +ℤ pos (2 * ticks_per_second) ≤ℤ host.time (sleep_for host 2 s).world
  unfolding sleep_for scale
  sleep_later s = clock.sleep_lasts 2 s.world

  IsEnough-round :
      (n : ℕ) (deadline : ℤ) (s : State W)
      → IsEnough (suc n) (host.time s.world) deadline
      → IsEnough n (host.time (sleep_for host 2 (boot_round host cid s).1).world) deadline
  IsEnough-round n deadline s h =
      omega (int_laws, boot_round_later s, sleep_later (boot_round host cid s).1)

  after_round-cong :
      (f g : Value → State W → Result Value × State W) (x : Round × State W)
      → ((v : Value) → f v (sleep_for host 2 x.1) ≡ g v (sleep_for host 2 x.1))
      → after_round host f x ≡ after_round host g x
  after_round-cong f g (finished r, s) h = refl
  after_round-cong f g (going v, s) h = h v

  -- Once the rounds reach the deadline, one more changes nothing.
  boot_loop-suc :
      (n : ℕ) (deadline : ℤ) (ready : Value) (s : State W)
      → IsEnough n (host.time s.world) deadline
      → boot_loop host (suc n) cid deadline ready s ≡ boot_loop host n cid deadline ready s
  unfolding boot_loop
  boot_loop-suc zero deadline ready s h = ground (arith, +ℤ_parts (host.time s.world) (pos 0))
  boot_loop-suc (suc n) deadline ready s h =
      let later =
        after_round-cong (boot_loop host (suc n) cid deadline) (boot_loop host n cid deadline)
          (boot_round host cid s)
          (λ v. boot_loop-suc n deadline v _ (IsEnough-round n deadline s h)) in
      λ i. elim (ltb_ℤ (host.time s.world) deadline) [ false ↦ (ok ready, s) | true ↦ later i ]

  -- From the start of a boot on, the loop with the rounds of the model is the loop with any number of
  -- rounds more: it ends by its tests, never for lack of rounds.
  pub boot_loop-rounds :
      (extra : ℕ) (ready : Value) (s : State W)
      → let deadline = host.time s.world +ℤ seconds cfg.instance_boot_timeout in
        boot_loop host (extra + boot_rounds cfg) cid deadline ready s
        ≡ boot_loop host (boot_rounds cfg) cid deadline ready s
  boot_loop-rounds zero ready s = rw zero-add
  boot_loop-rounds (suc extra) ready s = rw (add_suc extra (boot_rounds cfg)) (
      boot_loop-suc (extra + boot_rounds cfg) _ ready s
        (boot_rounds-IsEnough extra (host.time s.world) cfg.instance_boot_timeout)
      ∙ boot_loop-rounds extra ready s)
