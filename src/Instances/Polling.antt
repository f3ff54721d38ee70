-- ===== src/Instances/Polling.antt =====
-- A boot in which the container publishes a complete document in time.
use sui_ctf_infrastructure.Docker.Manager.{read_ready}
use sui_ctf_infrastructure.Instances.Values.{is_complete, has_died}
use native.Mathlib.Numerals.{one-add}
use sui_ctf_infrastructure.Base.{
  Bool-cases, add_suc, ℤ, ltb_ℤ, ℕ, suc, ◌+◌, ◌≡◌, refl, ap, ◌∙◌, inl, inr, Bool, true, false,
  Option, arith,
}
use sui_ctf_infrastructure.Text.{Text}
use sui_ctf_infrastructure.Python.Errors.{Exception, Result, ok, raised, ◌>>=◌}
use sui_ctf_infrastructure.Python.Values.{Value}
use sui_ctf_infrastructure.Docker.Sdk.{Host}
use sui_ctf_infrastructure.Instances.Tasks.{State, to_thread, sleep_for}
use sui_ctf_infrastructure.Instances.Spawn.{
  Round, finished, going, exited, after_status, after_test, after_ready, boot_round, after_round,
  boot_loop,
}

module _ {W : Type 0} (host : Host W) (cid : Text) (v : Value) where
  raised-unfinished :
      (r : Result Text) (e : Exception) → finished (r >>= λ _. raised e) ≡ finished (ok v) → ⊥
  raised-unfinished (ok x) e h = cc
  raised-unfinished (raised x) e h = cc

  after_status-unfinished :
      (w : Value) (x : Result (Option Text) × State W)
      → (after_status host cid w x).0 ≡ finished (ok v)
      → ⊥
  after_status-unfinished w (raised e, s) h = cc
  after_status-unfinished w (ok st, s) h = elim (Bool-cases (has_died st)) [
    | inl dead ↦ raised-unfinished _ exited (rw dead at h)
    | inr alive ↦ ground (arith, h, alive)
  ]

  after_test_complete :
      (w : Value) (r : Result Bool) (s : State W)
      → (after_test host cid w r s).0 ≡ finished (ok v)
      → (r ≡ ok true) × (w ≡ v)
  after_test_complete w (raised e) s h = cc
  after_test_complete w (ok true) s h = (refl, cc)
  after_test_complete w (ok false) s h = absurd (after_status-unfinished w _ h)

  after_ready_complete :
      (x : Result Value × State W)
      → (after_ready host cid x).0 ≡ finished (ok v)
      → is_complete v ≡ ok true
  after_ready_complete (raised e, s) h = cc
  after_ready_complete (ok w, s) h =
      let (complete, same) = after_test_complete w (is_complete w) s h in rw (← same) complete

  -- A round that leaves the loop without an exception has read a complete document.
  boot_round_complete :
      (s t : State W) → boot_round host cid s ≡ (finished (ok v), t) → is_complete v ≡ ok true
  unfolding boot_round
  boot_round_complete s t e =
      after_ready_complete (to_thread host (read_ready host cid) s) (ap (λ x. x.0) e)

module _ {W : Type 0} (host : Host W) (cid : Text) (deadline : ℤ) where
  -- The polls of a container: each starts before the deadline, and the last one finds the document.
  pub data Polls (v : Value) (t : State W) : State W → Type 0 where
    answered :
        (s : State W)
        → ltb_ℤ (host.time s.world) deadline ≡ true
        → boot_round host cid s ≡ (finished (ok v), t)
        → Polls v t s
    not_yet :
        (s s' : State W) (w : Value)
        → ltb_ℤ (host.time s.world) deadline ≡ true
        → boot_round host cid s ≡ (going w, s')
        → Polls v t (sleep_for host 2 s')
        → Polls v t s

  round-loop :
      (n : ℕ) (ready : Value) (s : State W) (x : Round × State W)
      → ltb_ℤ (host.time s.world) deadline ≡ true
      → boot_round host cid s ≡ x
      → boot_loop host (suc n) cid deadline ready s
        ≡ after_round host (boot_loop host n cid deadline) x
  unfolding boot_loop
  round-loop n ready s x early e = rw (early, e, boot_loop) refl

  -- The loop with so many rounds, or more, ends with the document.
  pub boot_loop-polled :
      (v : Value) (t s : State W)
      → Polls v t s
      → (k : ℕ) × ((extra : ℕ) (ready : Value)
          → boot_loop host (k + extra) cid deadline ready s ≡ (ok v, t))
  boot_loop-polled v t s (answered _ early e) = (
    1,
    λ extra ready.
        ap (λ n. boot_loop host n cid deadline ready s) (one-add extra)
        ∙ round-loop extra ready s _ early e,
  )
  boot_loop-polled v t s (not_yet _ s' w early e later) =
      let (k, ends) = boot_loop-polled v t (sleep_for host 2 s') later in
      (
        suc k,
        λ extra ready.
            ap (λ n. boot_loop host n cid deadline ready s) (add_suc k extra)
            ∙ round-loop (k + extra) ready s _ early e
            ∙ ends extra w,
      )

pub Polls-complete :
    {W : Type 0} (host : Host W) (cid : Text) (deadline : ℤ) (v : Value) (t s : State W)
    → Polls host cid deadline v t s
    → is_complete v ≡ ok true
Polls-complete host cid deadline v t s (answered _ early e) = boot_round_complete host cid v s t e
Polls-complete host cid deadline v t s (not_yet _ s' w early e later) =
    Polls-complete host cid deadline v t (sleep_for host 2 s') later
