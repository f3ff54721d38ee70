-- ===== src/Reaper/Ends.antt =====
-- Which instances a sweep ends.
use sui_ctf_infrastructure.Docker.Manager.{stop_and_remove}
use mathlib.Core.Option
use sui_ctf_infrastructure.Base.{
  if◌then◌else◌, Bool-cases, keep, any_of, ℤ, ◌≡◌, refl, inl, inr, Bool, false, not, ◌&&◌, none,
  some, List, [], ◌∷◌, map, arith,
}
use sui_ctf_infrastructure.Text.{Text, text_eq}
use sui_ctf_infrastructure.Python.Errors.{Result, ok, raised}
use sui_ctf_infrastructure.Config.{Config}
use sui_ctf_infrastructure.Registry.{
  expired, Row, Registry, Record, with_status, set_status, row_to_dict, fetch, due_row,
  due_for_reap,
}
use sui_ctf_infrastructure.Registry.Keys.{IsFresh, HasUniqueKeys, fetch-fresh, fetch-update}
use sui_ctf_infrastructure.Docker.Sdk.{Host}
use sui_ctf_infrastructure.Instances.Tasks.{State, to_thread}
use sui_ctf_infrastructure.Reaper.Sweep.{in_boot_window, after_removal, reap, sweep}

-- The rule for one row: it has run out, and its boot has had its time.
abbrev pub is_reaped : Config → ℤ → Row → Bool
is_reaped cfg now r = due_row now r && not (in_boot_window cfg now (row_to_dict r))

-- What a sweep makes of a row.
unfoldable pub reaped : Config → ℤ → Row → Row
reaped cfg now r = if is_reaped cfg now r then with_status expired none r else r

-- A record of the snapshot that ends the instance `u`.
abbrev ends : Config → ℤ → Text → Record → Bool
ends cfg now u r = text_eq r.uuid u && not (in_boot_window cfg now r)

abbrev due_records : ℤ → Registry → List Record
due_records now rows = map row_to_dict (keep (due_row now) rows)

no_ends :
    (cfg : Config) (now : ℤ) (u : Text) (rows : Registry)
    → IsFresh u rows
    → any_of (ends cfg now u) (due_records now rows) ≡ false
no_ends cfg now u [] h = refl
no_ends cfg now u (r ∷ rows) h = ground (arith, no_ends cfg now u rows)

ends_iff :
    (cfg : Config) (now : ℤ) (u : Text) (rows : Registry)
    → HasUniqueKeys rows
    → any_of (ends cfg now u) (due_records now rows)
      ≡ elim (fetch u rows) [ none ↦ false | some r ↦ is_reaped cfg now r ]
unfolding fetch
ends_iff cfg now u [] h = refl
ends_iff cfg now u (r ∷ rows) h =
    ground (arith, no_ends cfg now u rows, ends_iff cfg now u rows h.1, fetch-fresh u rows)

module _ {W : Type 0} (host : Host W) (cfg : Config) (u : Text)
    (alone : (reg : Registry) (w : W) → fetch u (host.others reg w) ≡ fetch u reg) where
  -- The table that the rest of the loop starts from.
  abbrev marked : Record → State W → Registry
  marked r s =
      set_status r.uuid expired none
        (to_thread host (stop_and_remove host r.container_id r.container_name) s).1.reg

  marked-fetch :
      (r : Record) (s : State W)
      → fetch u (marked r s) ≡ (
          if text_eq u r.uuid
          then Option.map (with_status expired none) (fetch u s.reg)
          else fetch u s.reg)
  unfolding to_thread set_status
  marked-fetch r s =
      rw (fetch-update u r.uuid (with_status expired none) (host.others s.reg _) (λ q. refl), alone)
        refl

  after_removal-ok :
      (again : State W → Result (Unit {0}) × State W) (uuid : Text)
      (x : Result (Unit {0}) × State W) (s' : State W)
      → after_removal host cfg again uuid x ≡ (ok tt, s')
      → again (record x.1 { reg = set_status uuid expired none x.1.reg }) ≡ (ok tt, s')
  after_removal-ok again uuid (raised e, s) s' h = cc
  after_removal-ok again uuid (ok _, s) s' h = h

  reap-fetch :
      (now : ℤ) (rs : List Record) (s s' : State W)
      → reap host cfg now rs s ≡ (ok tt, s')
      → fetch u s'.reg ≡ (
          if any_of (ends cfg now u) rs
          then Option.map (with_status expired none) (fetch u s.reg)
          else fetch u s.reg)
  unfolding reap
  reap-fetch now [] s s' e = ground arith
  reap-fetch now (r ∷ rs) s s' e = elim (Bool-cases (in_boot_window cfg now r)) [
    | inl inside ↦
        let rest = reap-fetch now rs s s' (rw (inside, reap) at e) in ground (arith, rest)
    | inr outside ↦
        let removed = to_thread host (stop_and_remove host r.container_id r.container_name) s in
        let rest =
          reap-fetch now rs _ s'
            (after_removal-ok (reap host cfg now rs) r.uuid removed s' (rw (outside, reap) at e)) in
        ground (arith, rest, marked-fetch r s)
  ]

  -- A sweep that runs to its end has marked a row as expired exactly when the row was active, its time
  -- had run out, and it was not a starting one inside the boot window; every other row is as it was.
  -- The other tasks are assumed to leave this one row alone during the sweep's waits.
  pub sweep-reaped :
      (s s' : State W)
      → HasUniqueKeys s.reg
      → sweep host cfg s ≡ (ok tt, s')
      → fetch u s'.reg ≡ Option.map (reaped cfg (host.time s.world)) (fetch u s.reg)
  unfolding sweep due_for_reap reaped
  sweep-reaped s s' keys e =
      let now = host.time s.world in
      ground (arith, reap-fetch now (due_records now s.reg) s s' e, ends_iff cfg now u s.reg keys)
