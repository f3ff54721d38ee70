-- ===== src/Instances/Killing.antt =====
-- What `kill` does to the table.
use sui_ctf_infrastructure.Docker.Manager.{stop_and_remove}
use sui_ctf_infrastructure.Registry.Keys.{fetch-update}
use sui_ctf_infrastructure.Base.{
  if◌then◌else◌, ◌≡◌, refl, ◌∙◌, Bool, true, false, Option, none, some, arith,
}
use sui_ctf_infrastructure.Text.{Text, text_eq}
use sui_ctf_infrastructure.Python.Errors.{Result, ok, raised}
use sui_ctf_infrastructure.Registry.{
  killed, Row, Registry, is_active, with_status, set_status, dict_or_none, fetch, get_record,
}
use sui_ctf_infrastructure.Docker.Sdk.{Host}
use sui_ctf_infrastructure.Instances.Tasks.{State, give_way, to_thread}
use sui_ctf_infrastructure.Instances.Control.{after_removed, kill_record, kill}

-- No other task writes the table.
abbrev pub IsAlone : {W : Type 0} → Host W → Type 0
IsAlone {W} host = (reg : Registry) (w : W) → host.others reg w ≡ reg

-- The other tasks leave the row of this uuid alone.
abbrev pub OthersLeave : {W : Type 0} → Host W → Text → Type 0
OthersLeave {W} host u = (reg : Registry) (w : W) → fetch u (host.others reg w) ≡ fetch u reg

abbrev pub is_some : {A : Type 0} → Option A → Bool
is_some none = false
is_some (some x) = true

-- What a kill of `u` that returned `b` has done to the row that the table had, and to that of `v`.
abbrev pub IsKilled : Text → Text → Option Row → Bool → Registry → Registry → Type 0
IsKilled u v o b rows rows' =
    (b ≡ is_some o)
    × ((r : Row) → fetch u rows' ≡ some r → is_active r.status ≡ false)
    × (fetch v rows' ≡ fetch v rows)

killed_row :
    (u v : Text) (rows : Registry) (r : Row)
    → text_eq u v ≡ false
    → fetch u rows ≡ some r
    → IsKilled u v
        (some r)
        true
        rows
        (if is_active r.status then set_status u killed none rows else rows)
unfolding set_status
killed_row u v rows r differ found = (
  refl,
  (λ r' e. ground (arith, fetch-update u u (with_status killed none) rows (λ x. refl), found, e)),
  ground (arith, fetch-update v u (with_status killed none) rows (λ x. refl), differ),
)

-- The world after the removal of the container that a row names.
abbrev pub without_container : {W : Type 0} → Host W → Option Row → W → W
without_container host none w = w
without_container host (some r) w = (stop_and_remove host r.container_id r.container_name w).1

module _ {W : Type 0} (host : Host W) where
  after_removed-ends :
      (u v : Text) (r : Row) (res : Result (Unit {0})) (s : State W) (b : Bool) (rows : Registry)
      → text_eq u v ≡ false
      → fetch v s.reg ≡ fetch v rows
      → fetch u s.reg ≡ some r
      → (after_removed host u r.status (res, s)).0 ≡ ok b
      → IsKilled u v (some r) b rows (after_removed host u r.status (res, s)).1.reg
        × ((after_removed host u r.status (res, s)).1.world ≡ s.world)
  after_removed-ends u v r (raised x) s b rows differ kept found e = cc
  after_removed-ends u v r (ok _) s b rows differ kept found e =
      let (_, ended, other_kept) = killed_row u v s.reg r differ found in
      ((ground (arith, e), ended, other_kept ∙ kept), refl)

  kill_record-ends :
      (u v : Text) (s : State W) (o : Option Row) (b : Bool)
      → OthersLeave host u
      → OthersLeave host v
      → text_eq u v ≡ false
      → fetch u s.reg ≡ o
      → (kill_record host u (dict_or_none o) s).0 ≡ ok b
      → IsKilled u v o b s.reg (kill_record host u (dict_or_none o) s).1.reg
        × ((kill_record host u (dict_or_none o) s).1.world ≡ without_container host o s.world)
  unfolding to_thread give_way
  kill_record-ends u v s none b left_u left_v differ found e =
      ((ground (arith, e), (λ r h. ground (arith, found, h)), refl), refl)
  kill_record-ends u v s (some r) b left_u left_v differ found e =
      after_removed-ends u v r _ _ b s.reg differ (left_v s.reg _) (left_u s.reg _ ∙ found) e

  -- The other tasks leaving the rows of two different uuids alone meanwhile, a kill of the first that
  -- returns says whether it is known, the row of it is not active afterwards, and the row of the second
  -- is as before. Where it is known, the daemon was asked to remove its container, and where it is not,
  -- it was asked for nothing.
  pub kill-ends :
      (u v : Text) (s : State W) (b : Bool)
      → OthersLeave host u
      → OthersLeave host v
      → text_eq u v ≡ false
      → (kill host u s).0 ≡ ok b
      → IsKilled u v (fetch u s.reg) b s.reg (kill host u s).1.reg
        × ((kill host u s).1.world ≡ without_container host (fetch u s.reg) s.world)
  unfolding kill get_record
  kill-ends u v s b left_u left_v differ e =
      kill_record-ends u v s (fetch u s.reg) b left_u left_v differ refl e
