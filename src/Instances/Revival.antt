-- ===== src/Instances/Revival.antt =====
-- What happens when a boot publishes into a row that has ended meanwhile: the write has no guard.
use sui_ctf_infrastructure.Base.{◌+◌, ◌≡◌, false, some, arith}
use sui_ctf_infrastructure.Text.{Text}
use sui_ctf_infrastructure.Python.Errors.{ok}
use sui_ctf_infrastructure.Python.Values.{Value}
use sui_ctf_infrastructure.Registry.{
  Row, Registry, is_active, with_running, set_running, fetch, active_row, total_active,
}
use sui_ctf_infrastructure.Registry.Keys.{HasUniqueKeys}
use sui_ctf_infrastructure.Registry.Updates.{set_running-updates}
use sui_ctf_infrastructure.Registry.Counts.{tally-update}

-- `set_running` on a row that has ended makes it active again: the count of active instances grows by
-- one, whatever the limits are.
pub set_running-revives :
    (u url : Text) (a k d p o : Value) (rows rows' : Registry) (r : Row)
    → HasUniqueKeys rows
    → fetch u rows ≡ some r
    → is_active r.status ≡ false
    → set_running u url a k d p o rows ≡ ok rows'
    → total_active rows' ≡ total_active rows + 1
unfolding total_active
set_running-revives u url a k d p o rows rows' r keys found ended e =
    let (a', k', d', p', _, _, _, _, shape) = set_running-updates u url a k d p o rows e in
    rw shape
      (ground (arith, tally-update active_row u (with_running url a' k' d' p' o) rows r keys found))
