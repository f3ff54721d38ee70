-- ===== src/Instances/Reconcile.antt =====
-- `reconcile_startup`.
use sui_ctf_infrastructure.Base.{
  if◌then◌else◌, any_of, Bool, true, false, Option, none, some, List, [], ◌∷◌,
}
use sui_ctf_infrastructure.Text.{Text, codes, text_eq}
use sui_ctf_infrastructure.Python.Errors.{Result, ok, raised}
use sui_ctf_infrastructure.Registry.{error, Registry, Record, set_status, all_active}
use sui_ctf_infrastructure.Docker.Sdk.{Host}
use sui_ctf_infrastructure.Docker.Manager.{Managed, stop_and_remove, list_managed}
use sui_ctf_infrastructure.Instances.Tasks.{State, to_thread}

-- `uuid in active`, where a container without the label has no uuid
abbrev pub is_known : List Record → Option Text → Bool
is_known active none = false
is_known active (some u) = any_of (λ r. text_eq r.uuid u) active

-- `uuid in managed_uuids`
abbrev pub is_managed : List Managed → Text → Bool
is_managed managed u = any_of (λ c. elim c.uuid [ none ↦ false | some v ↦ text_eq v u ]) managed

-- The rows of the snapshot that have no container are marked.
unfoldable pub mark_missing : List Managed → List Record → Registry → Registry
mark_missing managed [] reg = reg
mark_missing managed (r ∷ rs) reg = mark_missing managed rs (
    if is_managed managed r.uuid
    then reg
    else set_status r.uuid error (some (codes "container missing on restart")) reg)

module _ {W : Type 0} (host : Host W) where
  -- The loop goes on after a removal that raises nothing.
  abbrev pub after_orphan :
      (State W → Result (Unit {0}) × State W)
      → Result (Unit {0}) × State W
      → Result (Unit {0}) × State W
  after_orphan again (raised e, s) = (raised e, s)
  after_orphan again (ok _, s) = again s

  unfoldable pub remove_orphans : List Record → List Managed → State W → Result (Unit {0}) × State W
  unfolding to_thread
  remove_orphans active [] s = (ok tt, s)
  remove_orphans active (c ∷ cs) s = elim (is_known active c.uuid) [
    | true ↦ remove_orphans active cs s
    | false ↦
        after_orphan (remove_orphans active cs)
          (to_thread host (stop_and_remove host (some c.id) none) s)
  ]

  abbrev pub mark_after :
      List Managed → List Record → Result (Unit {0}) × State W → Result (Unit {0}) × State W
  mark_after managed active (raised e, s) = (raised e, s)
  mark_after managed active (ok _, s) =
      (ok tt, record s { reg = mark_missing managed active s.reg })

  abbrev pub reconcile_with : Result (List Managed) × State W → Result (Unit {0}) × State W
  reconcile_with (raised e, s) = (raised e, s)
  reconcile_with (ok managed, s) =
      let active = all_active s.reg in mark_after managed active (remove_orphans active managed s)

  unfoldable pub reconcile_startup : State W → Result (Unit {0}) × State W
  unfolding to_thread remove_orphans mark_missing
  reconcile_startup s = reconcile_with (to_thread host (list_managed host) s)
