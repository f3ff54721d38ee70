-- ===== src/Reaper/Expiry.antt =====
-- By when the reaper has ended an instance.
use sui_ctf_infrastructure.Registry.Keys.{HasUniqueKeys}
use sui_ctf_infrastructure.Docker.Cleanup.{HasOwnErrors}
use sui_ctf_infrastructure.Reaper.Ends.{is_reaped}
use native.Mathlib.Nat.{suc-mul}
use sui_ctf_infrastructure.Base.{
  Bool-cases, ℤ, pos, pos_part, ◌+ℤ◌, ◌-ℤ◌, scale, ◌≤ℤ◌, ◌<ℤ◌, ltb_ℤ, +ℤ_parts, -ℤ_parts, int_laws,
  ℕ, zero, suc, ◌*◌, ◌<◌, ◌≡◌, refl, inl, inr, true, false, Option, none, some, List, [], ◌∷◌,
  arith,
}
use sui_ctf_infrastructure.Text.{Text}
use sui_ctf_infrastructure.Python.Errors.{Result, ok, raised}
use sui_ctf_infrastructure.Config.{Config}
use sui_ctf_infrastructure.Registry.{
  expired, Row, Record, is_active, with_status, set_status, fetch, due_for_reap,
}
use sui_ctf_infrastructure.Docker.Sdk.{Container, Host}
use sui_ctf_infrastructure.Docker.Manager.{first_ref, remove_found, remove_ref, stop_and_remove}
use sui_ctf_infrastructure.Instances.Tasks.{State, ticks_per_second, seconds, to_thread, sleep_for}
use sui_ctf_infrastructure.Instances.Booting.{HasClock, le_ℤ_trans}
use sui_ctf_infrastructure.Reaper.Sweep.{
  is_starting, in_boot_window, after_removal, reap, sweep, run_rounds,
}
use sui_ctf_infrastructure.Reaper.Rounds.{LeavesRow, at_round, run_rounds-expires}

seconds-pos : (n : ℕ) → pos (n * ticks_per_second) ≤ℤ seconds (pos n)
unfolding scale
seconds-pos n = ground arith

window_over :
    (created d at now : ℤ) → created +ℤ d ≤ℤ at → at ≤ℤ now → ltb_ℤ (now -ℤ created) d ≡ false
window_over created d at now booted le =
    ground (arith, booted, le, +ℤ_parts created d, -ℤ_parts now created)

window_past :
    (cfg : Config) (now : ℤ) (r : Row)
    → is_active r.status ≡ true
    → ltb_ℤ r.expires_at now ≡ true
    → ltb_ℤ (now -ℤ r.created_at) (seconds cfg.instance_boot_timeout) ≡ false
    → is_reaped cfg now r ≡ true
unfolding in_boot_window
window_past cfg now r active late over = elim (Bool-cases (is_starting r.status)) [
  | inl first ↦ rw (active, late, first, over) refl
  | inr later ↦ rw (active, late, later) refl
]

module _ {W : Type 0} (host : Host W) (cfg : Config) where
  -- The time that is reached, at the least, after so many pauses.
  abbrev pub reached : ℕ → State W → ℤ
  reached k s = host.time s.world +ℤ pos (k * (pos_part cfg.reaper_interval * ticks_per_second))

module _ {W : Type 0} (host : Host W) (cfg : Config) (clock : HasClock host) where
  remove_found_later :
      (r : Result Container) (w : W) → host.time w ≤ℤ host.time (remove_found host r w).1
  remove_found_later (raised e) w = omega arith
  remove_found_later (ok c) w = clock.remove_later c true w

  remove_ref_later : (o : Option Text) (w : W) → host.time w ≤ℤ host.time (remove_ref host o w).1
  remove_ref_later none w = omega arith
  remove_ref_later (some ref) w =
      let (r, w') = host.containers_get ref w in
      le_ℤ_trans host clock _ (host.time w') _ (clock.get_later ref w) (remove_found_later r w')

  after_removal_later :
      (now : ℤ) (again : State W → Result (Unit {0}) × State W) (u : Text)
      → ((s : State W) → host.time s.world ≤ℤ host.time (again s).1.world)
      → (x : Result (Unit {0}) × State W) → now ≤ℤ host.time x.1.world
      → now ≤ℤ host.time (after_removal host cfg again u x).1.world
  after_removal_later now again u h (raised e, s) le = le
  after_removal_later now again u h (ok _, s) le =
      omega (arith, le, h (record s { reg = set_status u expired none s.reg }))

  reap_later :
      (now : ℤ) (rs : List Record) (s : State W)
      → host.time s.world ≤ℤ host.time (reap host cfg now rs s).1.world
  unfolding reap to_thread stop_and_remove
  reap_later now [] s = omega arith
  reap_later now (r ∷ rs) s = elim (Bool-cases (in_boot_window cfg now r)) [
    | inl inside ↦ rw (inside, reap) (reap_later now rs s)
    | inr outside ↦
        rw (outside, reap)
          (after_removal_later (host.time s.world) (reap host cfg now rs) r.uuid
            (λ s'. reap_later now rs s')
            (to_thread host (stop_and_remove host r.container_id r.container_name) s)
            (remove_ref_later (first_ref r.container_id r.container_name) s.world))
  ]

  sweep_later : (s : State W) → host.time s.world ≤ℤ host.time (sweep host cfg s).1.world
  unfolding sweep
  sweep_later s =
      reap_later (host.time s.world)
        (due_for_reap (some (host.time s.world)) (host.time s.world) s.reg) s

  at_round_later :
      (k : ℕ) (s : State W) → reached host cfg k s ≤ℤ host.time (at_round host cfg k s).world
  unfolding at_round sleep_for
  at_round_later zero s = omega int_laws
  at_round_later (suc k) s =
      let (_, s') = sweep host cfg s in
      let n = pos_part cfg.reaper_interval in
      omega (
        int_laws,
        suc-mul k (n * ticks_per_second),
        sweep_later s,
        clock.sleep_lasts n s'.world,
        seconds-pos n,
        at_round_later k (sleep_for host n s'),
      )

  due-IsReaped :
      (now at : ℤ) (r : Row)
      → is_active r.status ≡ true
      → r.expires_at <ℤ at
      → r.created_at +ℤ seconds cfg.instance_boot_timeout ≤ℤ at
      → at ≤ℤ now
      → is_reaped cfg now r ≡ true
  unfolding in_boot_window
  due-IsReaped now at r active due booted le =
      let late : ltb_ℤ r.expires_at now ≡ true = ground (arith, due, le) in
      let over = window_over r.created_at (seconds cfg.instance_boot_timeout) at now booted le in
      window_past cfg now r active late over

  module _ (u : Text) (leaves : LeavesRow host u) where
    -- Where the SDK raises only its own exceptions, the clock does not run back and pauses last as long
    -- as asked, and the other tasks leave the keys and this row alone: an active row is expired after
    -- any number of rounds of the reaper of which so many intervals pass the end of the row's time and
    -- of its boot window. Of its other columns, only the error text is changed: it is cleared.
    pub run_rounds-expires_by :
        (own : HasOwnErrors host) (n k : ℕ) (s : State W) (r : Row)
        → k < n
        → HasUniqueKeys s.reg
        → fetch u s.reg ≡ some r
        → is_active r.status ≡ true
        → r.expires_at <ℤ reached host cfg k s
        → r.created_at +ℤ seconds cfg.instance_boot_timeout ≤ℤ reached host cfg k s
        → fetch u (run_rounds host cfg n s).reg ≡ some (with_status expired none r)
    run_rounds-expires_by own n k s r room keys there active due booted =
        run_rounds-expires host cfg u leaves own n k s r room keys there
          (due-IsReaped _ (reached host cfg k s) r active due booted (at_round_later k s))
