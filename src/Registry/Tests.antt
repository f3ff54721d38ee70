-- ===== src/Registry/Tests.antt =====
-- A small table, and the theorems on it.
use sui_ctf_infrastructure.Registry.Client.{
  Call, creates, sets_status, view, run, replays, run_refines,
}
use sui_ctf_infrastructure.Registry.Counted.{IsUp, IsCountOf, counts-IsCountOf}
use sui_ctf_infrastructure.Base.{
  keep, All, Member, pos, ◌≤ℤ◌, ◌≡◌, refl, ◌⊎◌, true, none, some, List, [], ◌∷◌,
}
use sui_ctf_infrastructure.Text.{Text, codes, text_discrete}
use sui_ctf_infrastructure.Python.Values.{null, str}
use sui_ctf_infrastructure.Registry.Rows.{
  Status, running, expired, killed, Row, Registry, row_to_dict, active_from, active_count_for_ip,
  active_for_ip, total_active,
}
use sui_ctf_infrastructure.Registry.Keys.{HasUniqueKeys}
use sui_ctf_infrastructure.Registry.Latest.{active_for_ip_cases}

-- An instance of `ip` that was created at second 1 and expires at second 900.
abbrev pub small_row : Text → Text → Status → Row
small_row u ip st = record {
  uuid = u;
  source_ip = ip;
  challenge = codes "flashpool";
  status = st;
  container_id = some (codes "c1");
  container_name = some (codes "sui-inst-u1");
  created_at = pos 1_000_000;
  expires_at = pos 900_000_000;
  rpc_url = none;
  player_address = none;
  player_privkey = none;
  deployer_address = none;
  package_id = none;
  objects_json = none;
  flag_mode = none;
  error_text = none;
}

-- A running instance, and one that was killed.
abbrev pub small_table : Registry
small_table =
    small_row (codes "u1") (codes "10.0.0.1") running
    ∷ small_row (codes "u2") (codes "10.0.0.2") killed
    ∷ []

pub small_table-HasUniqueKeys : HasUniqueKeys small_table
unfolding text_discrete
small_table-HasUniqueKeys = (refl, (refl, tt))

active_for_ip_cases_example :
    ((active_count_for_ip (codes "10.0.0.1") small_table ≡ 0)
      × (active_for_ip (codes "10.0.0.1") small_table ≡ none))
    ⊎ ((m : Row) × (active_for_ip (codes "10.0.0.1") small_table ≡ some (row_to_dict m))
        × Member m small_table
        × (active_from (codes "10.0.0.1") m ≡ true)
        × All
            (λ r. r.created_at ≤ℤ m.created_at)
            (keep (active_from (codes "10.0.0.1")) small_table))
active_for_ip_cases_example = active_for_ip_cases (codes "10.0.0.1") small_table

-- `u1` expires, and its uuid cannot be used again.
abbrev two_calls : List Call
two_calls =
    sets_status (codes "u1") expired none
    ∷ creates (codes "u1") (codes "10.0.0.3") (str (codes "pool")) (codes "n1") (pos 9) null (pos 5)
    ∷ []

run_refines_example :
    HasUniqueKeys (run two_calls small_table).1
    × ((run two_calls small_table).0 ≡ (replays two_calls (view small_table)).0)
    × (view (run two_calls small_table).1 ≡ (replays two_calls (view small_table)).1)
run_refines_example = run_refines two_calls small_table small_table-HasUniqueKeys

counts-IsCountOf_example :
    IsCountOf small_table IsUp (total_active small_table)
    × IsCountOf small_table
        (λ r. IsUp r × (r.source_ip ≡ codes "10.0.0.1"))
        (active_count_for_ip (codes "10.0.0.1") small_table)
counts-IsCountOf_example = counts-IsCountOf (codes "10.0.0.1") small_table small_table-HasUniqueKeys
