-- ===== src/Instances/Interleaving.antt =====
-- Every write that a task makes to the table, as a step; between two steps of a task any others may
-- stand.
use sui_ctf_infrastructure.Docker.Sdk.{Host}
use sui_ctf_infrastructure.Docker.Manager.{DockerManager}
use sui_ctf_infrastructure.Challenge.Manifest.{Challenge}
use sui_ctf_infrastructure.Instances.Tasks.{State}
use sui_ctf_infrastructure.Instances.Spawn.{reserve}
use sui_ctf_infrastructure.Base.{
  Option-cases, tally, ◌≡◌, refl, sym, inl, inr, Bool, true, false, Option, some, arith,
}
use sui_ctf_infrastructure.Text.{Text, before}
use sui_ctf_infrastructure.Python.Errors.{ok}
use sui_ctf_infrastructure.Python.Values.{Value}
use sui_ctf_infrastructure.Config.{Config}
use sui_ctf_infrastructure.Registry.{
  Status, starting, Row, Registry, is_active, update, set_container, with_running, set_running,
  with_status, set_status, fetch, active_row, active_from, active_count_for_ip, total_active,
}
use sui_ctf_infrastructure.Registry.Keys.{HasUniqueKeys, update-HasUniqueKeys}
use sui_ctf_infrastructure.Registry.Updates.{update-fresh, fetch-none-IsFresh, set_running-updates}
use sui_ctf_infrastructure.Registry.Counts.{tally-update}
use sui_ctf_infrastructure.Instances.Capacity.{
  IsWithin, update-IsWithin, append-IsWithin, reserve-inserts,
}

-- The row of this uuid, if there is one, is active.
abbrev pub IsLive : Text → Registry → Type 0
IsLive u rows = (r : Row) → fetch u rows ≡ some r → is_active r.status ≡ true

-- The row of this uuid, if there is one, is still of a boot.
abbrev pub IsStarting : Text → Registry → Type 0
IsStarting u rows = (r : Row) → fetch u rows ≡ some r → r.status ≡ starting

pub IsStarting-IsLive : (u : Text) (rows : Registry) → IsStarting u rows → IsLive u rows
IsStarting-IsLive u rows h r e = ground (arith, h r e)

set_container-IsWithin :
    (cfg : Config) (u cid : Text) (rows : Registry)
    → IsWithin cfg rows
    → IsWithin cfg (set_container u cid rows)
unfolding set_container
set_container-IsWithin cfg u cid rows v =
    update-IsWithin cfg u _ rows
      (record { same_uuid = λ r. refl; same_ip = λ r. refl; no_revival = λ r h. h }) v

set_status-IsWithin :
    (cfg : Config) (u : Text) (st : Status) (e : Option Text) (rows : Registry)
    → is_active st ≡ false
    → IsWithin cfg rows
    → IsWithin cfg (set_status u st e rows)
unfolding set_status
set_status-IsWithin cfg u st e rows h v =
    update-IsWithin cfg u (with_status st e) rows
      (record { same_uuid = λ r. refl; same_ip = λ r. refl; no_revival = λ r _. h }) v

tally-update-live :
    (p : Row → Bool) (u : Text) (f : Row → Row) (rows : Registry)
    → HasUniqueKeys rows
    → ((r : Row) → fetch u rows ≡ some r → p (f r) ≡ p r)
    → tally p (update u f rows) ≡ tally p rows
tally-update-live p u f rows keys h = elim (Option-cases (fetch u rows)) [
  | inl e ↦ rw (update-fresh u f rows (fetch-none-IsFresh u rows e))
  | inr (r, e) ↦ ground (arith, tally-update p u f rows r keys e, h r e)
]

set_running-IsWithin :
    (cfg : Config) (u url : Text) (a k d p o : Value) (rows rows' : Registry)
    → set_running u url a k d p o rows ≡ ok rows'
    → IsLive u rows
    → IsWithin cfg rows
    → IsWithin cfg rows'
unfolding total_active active_count_for_ip
set_running-IsWithin cfg u url a k d p o rows rows' e live v =
    let (a', k', d', p', _, _, _, _, shape) = set_running-updates u url a k d p o rows e in
    let f = with_running url a' k' d' p' o in
    rw shape (record {
      keys = update-HasUniqueKeys u f rows (λ r. refl) v.keys;
      below_total =
          rw (tally-update-live active_row u f rows v.keys (λ r h. sym (live r h))) v.below_total;
      below_per_ip = λ ip.
          rw (tally-update-live (active_from ip) u f rows v.keys (λ r h. ground (arith, live r h)))
            (v.below_per_ip ip);
    })

module _ (W : Type 0) (cfg : Config) (docker : DockerManager) (ch : Challenge) where
  -- One write. A reservation may be any task's, which draws uuids and reads the clock on a host of its
  -- own. A boot publishes only into a row that is still active.
  pub data Write (rows rows' : Registry) : Type 0 where
    reserves :
        (host : Host W) (ip uuid name : Text) (s t : State W)
        → reserve host cfg docker ch ip s ≡ (ok (uuid, name), t)
        → s.reg ≡ rows
        → rows' ≡ t.reg
        → Write rows rows'
    notes_container : (u cid : Text) → rows' ≡ set_container u cid rows → Write rows rows'
    ends :
        (u : Text) (st : Status) (e : Option Text)
        → is_active st ≡ false
        → rows' ≡ set_status u st e rows
        → Write rows rows'
    publishes :
        (u url : Text) (a k d p o : Value)
        → IsLive u rows
        → set_running u url a k d p o rows ≡ ok rows'
        → Write rows rows'

  pub data Writes (start : Registry) : Registry → Type 0 where
    here : Writes start start
    next : {rows rows' : Registry} → Writes start rows → Write rows rows' → Writes start rows'

  reserve-IsWithin :
      (host : Host W) (ip uuid name : Text) (s t : State W)
      → reserve host cfg docker ch ip s ≡ (ok (uuid, name), t)
      → IsWithin cfg s.reg
      → IsWithin cfg t.reg
  reserve-IsWithin host ip uuid name s t e v =
      let (ttl, title, m, _, fresh, _, shape, room, room_ip) =
        reserve-inserts host cfg docker ch ip s uuid name t e in
      rw shape (append-IsWithin cfg s.reg _ fresh room room_ip v)

  Write-IsWithin :
      (rows rows' : Registry) → Write rows rows' → IsWithin cfg rows → IsWithin cfg rows'
  Write-IsWithin rows rows' (reserves host ip uuid name s t e es et) v =
      rw et (reserve-IsWithin host ip uuid name s t e (rw es v))
  Write-IsWithin rows rows' (notes_container u cid e) v =
      rw e (set_container-IsWithin cfg u cid rows v)
  Write-IsWithin rows rows' (ends u st ex h e) v = rw e (set_status-IsWithin cfg u st ex rows h v)
  Write-IsWithin rows rows' (publishes u url a k d p o live e) v =
      set_running-IsWithin cfg u url a k d p o rows rows' e live v

  -- From a table within the caps, every interleaving of reservations, container notes, ends and
  -- publications into live rows stays within them: the uuids are distinct, and neither the active
  -- instances in all nor those of any source IP exceed their limit.
  pub Writes-IsWithin :
      (start rows : Registry) → IsWithin cfg start → Writes start rows → IsWithin cfg rows
  Writes-IsWithin start rows v here = v
  Writes-IsWithin start rows v (next {rows = before} ws w) =
      Write-IsWithin before rows w (Writes-IsWithin start before v ws)
