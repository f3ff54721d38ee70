-- ===== src/Registry/Counts.antt =====
-- How the writes move the counts of active rows.
use sui_ctf_infrastructure.Base.{if◌then◌else◌, tally, ℕ, ◌+◌, ◌≤◌, ◌≡◌, Bool, some, [], ◌∷◌, arith}
use sui_ctf_infrastructure.Text.{Text}
use sui_ctf_infrastructure.Registry.Rows.{
  Row, Registry, update, fetch, active_count_for_ip, total_active,
}
use sui_ctf_infrastructure.Registry.Keys.{HasUniqueKeys}
use sui_ctf_infrastructure.Registry.Updates.{update-fresh}

-- One row counts for one or nothing.
abbrev pub weight : (Row → Bool) → Row → ℕ
weight p r = if p r then 1 else 0

-- Writing the one row of a key replaces its share of a count.
pub tally-update :
    (p : Row → Bool) (u : Text) (f : Row → Row) (rows : Registry) (r : Row)
    → HasUniqueKeys rows
    → fetch u rows ≡ some r
    → tally p (update u f rows) + weight p r ≡ tally p rows + weight p (f r)
unfolding fetch update
tally-update p u f [] r h e = cc
tally-update p u f (x ∷ rows) r h e =
    ground (arith, tally-update p u f rows r h.1, update-fresh u f rows)

pub active_count-le-total :
    (ip : Text) (rows : Registry) → active_count_for_ip ip rows ≤ total_active rows
unfolding active_count_for_ip total_active
active_count-le-total ip [] = omega arith
active_count-le-total ip (r ∷ rows) = ground (arith, active_count-le-total ip rows)
