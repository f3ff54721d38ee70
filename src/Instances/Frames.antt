-- ===== src/Instances/Frames.antt =====
-- A boot loop reads and waits: it writes nothing in the table itself, so what the other tasks keep, it
-- keeps.
use sui_ctf_infrastructure.Registry.{Registry}
use sui_ctf_infrastructure.Base.{
  Bool-cases, ℤ, ltb_ℤ, ℕ, zero, suc, ◌≡◌, refl, ◌∙◌, inl, inr, Bool, true, false, Option,
}
use sui_ctf_infrastructure.Text.{Text}
use sui_ctf_infrastructure.Python.Errors.{Exception, Result, ok, raised}
use sui_ctf_infrastructure.Python.Values.{Value}
use sui_ctf_infrastructure.Docker.Sdk.{Host}
use sui_ctf_infrastructure.Docker.Manager.{read_ready, container_status, get_logs}
use sui_ctf_infrastructure.Instances.Tasks.{State, give_way, to_thread, sleep_for}
use sui_ctf_infrastructure.Instances.Values.{is_complete, has_died}
use sui_ctf_infrastructure.Instances.Spawn.{
  Round, finished, going, exited, log_and_raise, after_status, after_test, after_ready, boot_round,
  after_round, boot_loop,
}
use sui_ctf_infrastructure.Instances.Killing.{IsAlone}

-- What the other tasks keep of the table during a wait.
abbrev pub IsKept : {W : Type 0} → Host W → (Registry → Type 0) → Type 0
IsKept {W} host P = (reg : Registry) (w : W) → P reg → P (host.others reg w)

module _ {W : Type 0} (host : Host W) (P : Registry → Type 0) (kept : IsKept host P) where
  pub to_thread-keeps :
      (A : Type 0) (op : W → Result A × W) (s : State W) → P s.reg → P (to_thread host op s).1.reg
  unfolding to_thread give_way
  to_thread-keeps A op s h = kept s.reg _ h

  pub log_and_raise-keeps :
      (A : Type 0) (cid : Text) (e : Exception) (s : State W)
      → P s.reg
      → P (log_and_raise host {A = A} cid e s).1.reg
  log_and_raise-keeps A cid e s h = to_thread-keeps Text (get_logs host cid 80) s h

  after_status-keeps :
      (cid : Text) (ready : Value) (a : Result (Option Text) × State W)
      → P a.1.reg
      → P (after_status host cid ready a).1.reg
  after_status-keeps cid ready (raised e, s) h = h
  after_status-keeps cid ready (ok st, s) h = elim (Bool-cases (has_died st)) [
    | inl dead ↦ rw dead (log_and_raise-keeps Value cid exited s h)
    | inr alive ↦ rw alive h
  ]

  after_test-keeps :
      (cid : Text) (ready : Value) (r : Result Bool) (s : State W)
      → P s.reg
      → P (after_test host cid ready r s).1.reg
  after_test-keeps cid ready (raised e) s h = h
  after_test-keeps cid ready (ok true) s h = h
  after_test-keeps cid ready (ok false) s h =
      after_status-keeps cid ready (to_thread host (container_status host cid) s)
        (to_thread-keeps (Option Text) (container_status host cid) s h)

  after_ready-keeps :
      (cid : Text) (a : Result Value × State W) → P a.1.reg → P (after_ready host cid a).1.reg
  after_ready-keeps cid (raised e, s) h = h
  after_ready-keeps cid (ok v, s) h = after_test-keeps cid v (is_complete v) s h

  boot_round-keeps : (cid : Text) (s : State W) → P s.reg → P (boot_round host cid s).1.reg
  unfolding boot_round
  boot_round-keeps cid s h =
      after_ready-keeps cid (to_thread host (read_ready host cid) s)
        (to_thread-keeps Value (read_ready host cid) s h)

  after_round-keeps :
      (again : Value → State W → Result Value × State W)
      → ((v : Value) (s : State W) → P s.reg → P (again v s).1.reg)
      → (x : Round × State W) → P x.1.reg
      → P (after_round host again x).1.reg
  unfolding sleep_for give_way
  after_round-keeps again step (finished r, s) h = h
  after_round-keeps again step (going v, s) h = step v (sleep_for host 2 s) (kept s.reg _ h)

  pub boot_loop-keeps :
      (n : ℕ) (cid : Text) (deadline : ℤ) (ready : Value) (s : State W)
      → P s.reg
      → P (boot_loop host n cid deadline ready s).1.reg
  unfolding boot_loop
  boot_loop-keeps zero cid deadline ready s h = h
  boot_loop-keeps (suc n) cid deadline ready s h =
      elim (Bool-cases (ltb_ℤ (host.time s.world) deadline)) [
        | inl before_deadline ↦
            rw (before_deadline, boot_loop)
              (after_round-keeps (boot_loop host n cid deadline)
                (λ v s' h'. boot_loop-keeps n cid deadline v s' h') (boot_round host cid s)
                (boot_round-keeps cid s h))
        | inr over ↦ rw (over, boot_loop) h
      ]

-- Where no other task writes, a wait keeps the table.
module _ {W : Type 0} (host : Host W) (alone : IsAlone host) where
  IsAlone-IsKept : (rows : Registry) → IsKept host (λ reg. reg ≡ rows)
  IsAlone-IsKept rows reg w h = alone reg w ∙ h

  pub to_thread-alone :
      {A : Type 0} (op : W → Result A × W) (s : State W) → (to_thread host op s).1.reg ≡ s.reg
  to_thread-alone {A} op s =
      to_thread-keeps host (λ reg. reg ≡ s.reg) (IsAlone-IsKept s.reg) A op s refl

  pub boot_loop-alone :
      (n : ℕ) (cid : Text) (deadline : ℤ) (ready : Value) (s : State W)
      → (boot_loop host n cid deadline ready s).1.reg ≡ s.reg
  boot_loop-alone n cid deadline ready s =
      boot_loop-keeps host (λ reg. reg ≡ s.reg) (IsAlone-IsKept s.reg) n cid deadline ready s refl
