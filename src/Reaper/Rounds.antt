-- ===== src/Reaper/Rounds.antt =====
-- The rounds of `_run`: what becomes of an instance whose time has run out.
use mathlib.Core.Option
use sui_ctf_infrastructure.Base.{
  Bool-cases, ℤ, pos_part, ℕ, zero, suc, ◌<◌, ◌≡◌, refl, ap, ◌∙◌, inl, inr, true, false, none, some,
  List, [], ◌∷◌, arith,
}
use sui_ctf_infrastructure.Text.{Text}
use sui_ctf_infrastructure.Python.Errors.{Result, ok, raised}
use sui_ctf_infrastructure.Config.{Config}
use sui_ctf_infrastructure.Registry.{
  expired, Row, Registry, Record, is_active, with_status, set_status, fetch,
}
use sui_ctf_infrastructure.Registry.Keys.{HasUniqueKeys, update-HasUniqueKeys}
use sui_ctf_infrastructure.Docker.Sdk.{Host}
use sui_ctf_infrastructure.Docker.Manager.{stop_and_remove}
use sui_ctf_infrastructure.Docker.Cleanup.{HasOwnErrors, stop_and_remove-ok}
use sui_ctf_infrastructure.Instances.Tasks.{State, to_thread, sleep_for}
use sui_ctf_infrastructure.Reaper.Sweep.{in_boot_window, after_removal, reap, sweep, run_rounds}
use sui_ctf_infrastructure.Reaper.Ends.{is_reaped, reaped, sweep-reaped}

-- What the other tasks leave alone while the reaper works: the keys, and the row of `u`.
pub record LeavesRow {W : Type 0} (host : Host W) (u : Text) : Type 0 where
  pub keys : (reg : Registry) (w : W) → HasUniqueKeys reg → HasUniqueKeys (host.others reg w)
  pub alone : (reg : Registry) (w : W) → fetch u (host.others reg w) ≡ fetch u reg

module _ (cfg : Config) (now : ℤ) (r : Row) where
  reaped_other : is_reaped cfg now r ≡ false → reaped cfg now r ≡ r
  unfolding reaped
  reaped_other h = rw h refl

  reaped_due : is_reaped cfg now r ≡ true → reaped cfg now r ≡ with_status expired none r
  unfolding reaped
  reaped_due h = rw h refl

  reaped_ended : is_active r.status ≡ false → reaped cfg now r ≡ r
  reaped_ended over = reaped_other (ground arith)

module _ {W : Type 0} (host : Host W) (cfg : Config) where
  abbrev pause : State W → State W
  pause s = sleep_for host (pos_part cfg.reaper_interval) s

  abbrev next_round : State W → State W
  next_round s = pause (sweep host cfg s).1

  -- The state at the start of the round after so many.
  unfoldable pub at_round : ℕ → State W → State W
  at_round zero s = s
  at_round (suc k) s = at_round k (next_round s)

  abbrev removal : Record → State W → Result (Unit {0}) × State W
  removal r s = to_thread host (stop_and_remove host r.container_id r.container_name) s

  after_removal-total :
      (again : State W → Result (Unit {0}) × State W) (uuid : Text)
      → ((s : State W) → (again s).0 ≡ ok tt)
      → (x : Result (Unit {0}) × State W) → x.0 ≡ ok tt
      → (after_removal host cfg again uuid x).0 ≡ ok tt
  after_removal-total again uuid h (raised e, s) done = cc
  after_removal-total again uuid h (ok _, s) done = h _

  reap-total :
      (own : HasOwnErrors host) (now : ℤ) (rs : List Record) (s : State W)
      → (reap host cfg now rs s).0 ≡ ok tt
  unfolding reap to_thread
  reap-total own now [] s = refl
  reap-total own now (r ∷ rs) s = elim (Bool-cases (in_boot_window cfg now r)) [
    | inl inside ↦ rw (inside, reap) (reap-total own now rs s)
    | inr outside ↦
        rw (outside, reap)
          (after_removal-total (reap host cfg now rs) r.uuid (λ s'. reap-total own now rs s')
            (removal r s)
            (stop_and_remove-ok host own r.container_id r.container_name [] 0 s.world).0)
  ]

  -- No sweep raises.
  pub sweep-total : (own : HasOwnErrors host) (s : State W) → (sweep host cfg s).0 ≡ ok tt
  unfolding sweep
  sweep-total own s = reap-total own _ _ s

  after_removal-keys :
      (again : State W → Result (Unit {0}) × State W) (uuid : Text)
      → ((s : State W) → HasUniqueKeys s.reg → HasUniqueKeys (again s).1.reg)
      → (x : Result (Unit {0}) × State W) → HasUniqueKeys x.1.reg
      → HasUniqueKeys (after_removal host cfg again uuid x).1.reg
  unfolding set_status
  after_removal-keys again uuid h (raised e, s) keys = keys
  after_removal-keys again uuid h (ok _, s) keys =
      h _ (update-HasUniqueKeys uuid (with_status expired none) s.reg (λ r. refl) keys)

  module _ (u : Text) (leaves : LeavesRow host u) where
    reap-keys :
        (now : ℤ) (rs : List Record) (s : State W)
        → HasUniqueKeys s.reg
        → HasUniqueKeys (reap host cfg now rs s).1.reg
    unfolding reap to_thread
    reap-keys now [] s keys = keys
    reap-keys now (r ∷ rs) s keys = elim (Bool-cases (in_boot_window cfg now r)) [
      | inl inside ↦ rw (inside, reap) (reap-keys now rs s keys)
      | inr outside ↦
          rw (outside, reap)
            (after_removal-keys (reap host cfg now rs) r.uuid (λ s' k. reap-keys now rs s' k)
              (removal r s) (leaves.keys s.reg _ keys))
    ]

    next_round-keys : (s : State W) → HasUniqueKeys s.reg → HasUniqueKeys (next_round s).reg
    unfolding sweep sleep_for
    next_round-keys s keys = leaves.keys _ _ (reap-keys _ _ s keys)

    next_round-fetch :
        (own : HasOwnErrors host) (s : State W)
        → HasUniqueKeys s.reg
        → fetch u (next_round s).reg ≡ Option.map (reaped cfg (host.time s.world)) (fetch u s.reg)
    unfolding sleep_for
    next_round-fetch own s keys =
        leaves.alone _ _
        ∙ sweep-reaped host cfg u leaves.alone s (sweep host cfg s).1 keys
            (ap (λ (r : Result (Unit {0})). (r, (sweep host cfg s).1)) (sweep-total own s))

    -- A row that has ended stays as it is.
    stays :
        (own : HasOwnErrors host) (n : ℕ) (s : State W) (r : Row)
        → HasUniqueKeys s.reg
        → fetch u s.reg ≡ some r
        → is_active r.status ≡ false
        → fetch u (run_rounds host cfg n s).reg ≡ some r
    unfolding run_rounds
    stays own zero s r keys found over = found
    stays own (suc n) s r keys found over =
        stays own n (next_round s) r (next_round-keys s keys)
          (ground (arith, next_round-fetch own s keys, reaped_ended cfg (host.time s.world) r over))
          over

    -- Where the SDK raises only its own exceptions, and the other tasks leave the keys and this row
    -- alone, a row that is active at first is expired after any number of rounds that has one among
    -- them at whose start the row's time has run out and it is not starting inside its boot window;
    -- of its other columns, only the error text is changed: it is cleared.
    pub run_rounds-expires :
        (own : HasOwnErrors host) (n k : ℕ) (s : State W) (r : Row)
        → k < n
        → HasUniqueKeys s.reg
        → fetch u s.reg ≡ some r
        → is_reaped cfg (host.time (at_round k s).world) r ≡ true
        → fetch u (run_rounds host cfg n s).reg ≡ some (with_status expired none r)
    unfolding run_rounds at_round
    run_rounds-expires own zero k s r room keys found due = absurd (omega arith)
    run_rounds-expires own (suc n) zero s r room keys found due =
        stays own n (next_round s) (with_status expired none r) (next_round-keys s keys)
          (ground (arith, next_round-fetch own s keys, reaped_due cfg (host.time s.world) r due))
          refl
    run_rounds-expires own (suc n) (suc k) s r room keys found due =
        elim (Bool-cases (is_reaped cfg (host.time s.world) r)) [
          | inl now ↦
              stays own n (next_round s) (with_status expired none r) (next_round-keys s keys)
                (ground
                  (arith, next_round-fetch own s keys, reaped_due cfg (host.time s.world) r now))
                refl
          | inr later ↦
              run_rounds-expires own n k (next_round s) r (omega arith) (next_round-keys s keys)
                (ground (
                  arith,
                  next_round-fetch own s keys,
                  reaped_other cfg (host.time s.world) r later,
                ))
                due
        ]
