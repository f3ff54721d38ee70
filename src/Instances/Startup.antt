-- ===== src/Instances/Startup.antt =====
-- What `reconcile_startup` does to the table.
use mathlib.Core.Option
use sui_ctf_infrastructure.Python.Errors.{Result, ok, raised}
use sui_ctf_infrastructure.Base.{
  if◌then◌else◌, ◌≡◌, refl, ◌∙◌, false, not, ◌&&◌, none, some, List, [], ◌∷◌, arith,
}
use sui_ctf_infrastructure.Text.{Text, codes}
use sui_ctf_infrastructure.Registry.{
  error, Row, Registry, Record, is_active, with_status, set_status, fetch, all_active,
}
use sui_ctf_infrastructure.Registry.Keys.{IsFresh, HasUniqueKeys, fetch-update}
use sui_ctf_infrastructure.Docker.Sdk.{Host}
use sui_ctf_infrastructure.Docker.Manager.{Managed, stop_and_remove, list_managed}
use sui_ctf_infrastructure.Instances.Tasks.{State, give_way, to_thread}
use sui_ctf_infrastructure.Instances.Reconcile.{
  is_known, is_managed, mark_missing, after_orphan, remove_orphans, mark_after, reconcile_with,
  reconcile_startup,
}
use sui_ctf_infrastructure.Instances.Killing.{IsAlone}

abbrev pub lost : Row → Row
lost = with_status error (some (codes "container missing on restart"))

abbrev lose : Text → Registry → Registry
lose u rows = set_status u error (some (codes "container missing on restart")) rows

fetch-mark_missing :
    (managed : List Managed) (v : Text) (rs : List Record) (rows : Registry)
    → fetch v (mark_missing managed rs rows) ≡ (
        if is_known rs (some v) && not (is_managed managed v)
        then Option.map lost (fetch v rows)
        else fetch v rows)
unfolding mark_missing set_status
fetch-mark_missing managed v [] rows = refl
fetch-mark_missing managed v (r ∷ rs) rows = ground (
  arith,
  fetch-mark_missing managed v rs rows,
  fetch-mark_missing managed v rs (lose r.uuid rows),
  fetch-update v r.uuid lost rows (λ x. refl),
)

is_known-fresh :
    (v : Text) (rows : Registry) → IsFresh v rows → is_known (all_active rows) (some v) ≡ false
unfolding all_active
is_known-fresh v [] h = refl
is_known-fresh v (x ∷ rows) h = ground (arith, is_known-fresh v rows)

is_known-all_active :
    (v : Text) (rows : Registry) (r : Row)
    → HasUniqueKeys rows
    → fetch v rows ≡ some r
    → is_known (all_active rows) (some v) ≡ is_active r.status
unfolding all_active fetch
is_known-all_active v [] r keys found = ground (arith, found)
is_known-all_active v (x ∷ rows) r keys found =
    ground (arith, found, keys.0, is_known-fresh v rows, is_known-all_active v rows r keys.1)

module _ {W : Type 0} (host : Host W) where
  after_orphan-keeps :
      (again : State W → Result (Unit {0}) × State W) (rows : Registry)
      → ((s : State W) → s.reg ≡ rows → (again s).1.reg ≡ rows)
      → (a : Result (Unit {0}) × State W) → a.1.reg ≡ rows
      → (after_orphan host again a).1.reg ≡ rows
  after_orphan-keeps again rows h (raised e, s) same = same
  after_orphan-keeps again rows h (ok _, s) same = h s same

  remove_orphans-keeps :
      (alone : IsAlone host) (active : List Record) (cs : List Managed) (s : State W)
      → (remove_orphans host active cs s).1.reg ≡ s.reg
  unfolding remove_orphans to_thread give_way
  remove_orphans-keeps alone active [] s = refl
  remove_orphans-keeps alone active (c ∷ cs) s = ground (
    arith,
    remove_orphans-keeps alone active cs s,
    after_orphan-keeps (remove_orphans host active cs) s.reg
        (λ s' same. remove_orphans-keeps alone active cs s' ∙ same)
        (to_thread host (stop_and_remove host (some c.id) none) s) (alone s.reg _),
  )

  mark_after-marks :
      (managed : List Managed) (active : List Record) (a : Result (Unit {0}) × State W) (v : Text)
      → (mark_after host managed active a).0 ≡ ok tt
      → (mark_after host managed active a).1.reg ≡ mark_missing managed active a.1.reg
  mark_after-marks managed active (raised x, s) v e = cc
  mark_after-marks managed active (ok _, s) v e = refl

  reconcile_with-marks :
      (alone : IsAlone host) (v : Text) (rows : Registry) (r : Row) (managed : List Managed)
      (a : Result (List Managed) × State W)
      → HasUniqueKeys rows
      → fetch v rows ≡ some r
      → a.0 ≡ ok managed
      → a.1.reg ≡ rows
      → (reconcile_with host a).0 ≡ ok tt
      → fetch v (reconcile_with host a).1.reg
        ≡ some (if is_active r.status && not (is_managed managed v) then lost r else r)
  reconcile_with-marks alone v rows r managed (raised x, s) keys found listed same e = cc
  reconcile_with-marks alone v rows r managed (ok cs, s) keys found listed same e = ground (
    arith,
    found,
    listed,
    same,
    mark_after-marks cs (all_active s.reg) (remove_orphans host (all_active s.reg) cs s) v e,
    remove_orphans-keeps alone (all_active s.reg) cs s,
    fetch-mark_missing managed v (all_active rows) rows,
    is_known-all_active v rows r keys found,
  )

  -- No other task writing the table meanwhile (nothing is served yet), a reconciliation that ends
  -- without an exception has marked an active row as lost exactly where no listed container carries
  -- its uuid, and has left all other rows as they were.
  pub reconcile_startup-marks :
      (alone : IsAlone host) (v : Text) (s : State W) (r : Row) (managed : List Managed)
      → HasUniqueKeys s.reg
      → fetch v s.reg ≡ some r
      → (list_managed host s.world).0 ≡ ok managed
      → (reconcile_startup host s).0 ≡ ok tt
      → fetch v (reconcile_startup host s).1.reg
        ≡ some (if is_active r.status && not (is_managed managed v) then lost r else r)
  unfolding reconcile_startup to_thread give_way
  reconcile_startup-marks alone v s r managed keys found listed e =
      reconcile_with-marks alone v s.reg r managed (to_thread host (list_managed host) s) keys found
        listed (alone s.reg _) e
