-- ===== src/Main/Waiting.antt =====
-- How long `_wait_for_docker` waits.
use sui_ctf_infrastructure.Base.{
  Bool-cases, ℕ, zero, suc, ◌<◌, ◌≡◌, refl, sym, ap, ◌∙◌, ◌↔◌, inl, inr, Bool, true, false, ◌||◌,
  arith,
}
use sui_ctf_infrastructure.Python.Errors.{Result, ok, raised}
use sui_ctf_infrastructure.Docker.Sdk.{Host}
use sui_ctf_infrastructure.Docker.Manager.{ping}
use sui_ctf_infrastructure.Instances.Tasks.{State, to_thread, sleep_for}
use sui_ctf_infrastructure.Main.Start.{after_ping, wait_for_docker}

-- Whether a ping got an answer.
abbrev pub has_answer : Result (Unit {0}) → Bool
has_answer (ok _) = true
has_answer (raised e) = false

module _ {W : Type 0} (host : Host W) where
  -- The state at the ping after so many pings without an answer.
  pub at_ping : ℕ → State W → State W
  at_ping zero s = s
  at_ping (suc k) s = at_ping k (sleep_for host 2 (to_thread host (ping host) s).1)

  abbrev pub answers : ℕ → State W → Bool
  answers k s = has_answer (ping host (at_ping k s).world).0

  -- One of the first `n` pings has an answer.
  any_answer : ℕ → State W → Bool
  any_answer zero s = false
  any_answer (suc n) s =
      answers 0 s || any_answer n (sleep_for host 2 (to_thread host (ping host) s).1)

  after_ping-answer :
      (again : State W → Bool × State W) (x : Result (Unit {0}) × State W)
      → (after_ping host again x).0 ≡ (has_answer x.0 || (again (sleep_for host 2 x.1)).0)
  after_ping-answer again (ok _, s) = refl
  after_ping-answer again (raised e, s) = refl

  wait-any : (n : ℕ) (s : State W) → (wait_for_docker host n s).0 ≡ any_answer n s
  unfolding wait_for_docker any_answer at_ping to_thread
  wait-any zero s = refl
  wait-any (suc n) s =
      let again = sleep_for host 2 (to_thread host (ping host) s).1 in
      after_ping-answer (wait_for_docker host n) (to_thread host (ping host) s)
      ∙ ap (λ b. answers 0 s || b) (wait-any n again)

  any_answer-found :
      (n : ℕ) (s : State W) → any_answer n s ≡ true → (k : ℕ) × (k < n) × (answers k s ≡ true)
  unfolding any_answer at_ping
  any_answer-found zero s e = cc
  any_answer-found (suc n) s e = elim (Bool-cases (answers 0 s)) [
    | inl first ↦ (0, omega arith, first)
    | inr none_yet ↦
        let (k, room, found) =
          any_answer-found n (sleep_for host 2 (to_thread host (ping host) s).1)
            (ground (arith, e, none_yet)) in
        (suc k, omega (arith, room), found)
  ]

  found-any_answer : (n k : ℕ) (s : State W) → k < n → answers k s ≡ true → any_answer n s ≡ true
  unfolding any_answer at_ping
  found-any_answer zero k s room e = ground (arith, room)
  found-any_answer (suc n) zero s room e = ground (arith, e)
  found-any_answer (suc n) (suc k) s room e = ground (
    arith,
    found-any_answer n k (sleep_for host 2 (to_thread host (ping host) s).1) (omega (arith, room))
        e,
  )

  -- The wait succeeds exactly when one of the pings it may send, each two seconds after the one before
  -- it failed, has an answer.
  pub wait_for_docker-answers :
      (n : ℕ) (s : State W)
      → ((wait_for_docker host n s).0 ≡ true) ↔ ((k : ℕ) × (k < n) × (answers k s ≡ true))
  wait_for_docker-answers n s = (
    (λ e. any_answer-found n s (sym (wait-any n s) ∙ e)),
    λ (k, room, e). wait-any n s ∙ found-any_answer n k s room e,
  )
