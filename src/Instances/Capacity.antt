-- ===== src/Instances/Capacity.antt =====
-- The caps on active instances, over every interleaving of the tasks' writes.
use sui_ctf_infrastructure.Instances.Values.{ttl_or}
use sui_ctf_infrastructure.Python.Errors.{ok, Result-cases}
use sui_ctf_infrastructure.Registry.Counts.{weight}
use sui_ctf_infrastructure.Docker.Sdk.{Host}
use sui_ctf_infrastructure.Docker.Manager.{DockerManager}
use sui_ctf_infrastructure.Challenge.Manifest.{Challenge}
use sui_ctf_infrastructure.Instances.Tasks.{State}
use sui_ctf_infrastructure.Instances.Spawn.{slot_table, reserve_slot, reserve}
use sui_ctf_infrastructure.Base.{
  tally, tally-append, ℤ, pos_part, ◌+ℤ◌, ◌≤◌, ◌<◌, ◌≡◌, inl, inr, Bool, false, Option, [], ◌∷◌,
  ◌++◌, arith,
}
use sui_ctf_infrastructure.Text.{Text}
use sui_ctf_infrastructure.Config.{Config, container_name_for}
use sui_ctf_infrastructure.Registry.{
  Row, Registry, is_active, new_row, update, active_row, active_from, active_count_for_ip,
  total_active,
}
use sui_ctf_infrastructure.Registry.Keys.{
  IsFresh, HasUniqueKeys, KeepsUuid, update-HasUniqueKeys, append-HasUniqueKeys, create-inserts,
}

-- Both caps hold, and the keys are distinct.
pub record IsWithin (cfg : Config) (rows : Registry) : Type 0 where
  pub keys : HasUniqueKeys rows
  pub below_total : total_active rows ≤ pos_part cfg.max_total_instances
  pub below_per_ip : (ip : Text) → active_count_for_ip ip rows ≤ pos_part cfg.max_instances_per_ip

-- A write that leaves the key and the source of a row, and makes no row active that was not.
pub record IsDemotion (f : Row → Row) : Type 0 where
  pub same_uuid : KeepsUuid f
  pub same_ip : (r : Row) → (f r).source_ip ≡ r.source_ip
  pub no_revival : (r : Row) → is_active r.status ≡ false → is_active (f r).status ≡ false

tally-update-le :
    (p : Row → Bool) (u : Text) (f : Row → Row) (rows : Registry)
    → ((r : Row) → p r ≡ false → p (f r) ≡ false)
    → tally p (update u f rows) ≤ tally p rows
unfolding update
tally-update-le p u f [] h = omega arith
tally-update-le p u f (r ∷ rows) h = ground (arith, h r, tally-update-le p u f rows h)

pub update-IsWithin :
    (cfg : Config) (u : Text) (f : Row → Row) (rows : Registry)
    → IsDemotion f
    → IsWithin cfg rows
    → IsWithin cfg (update u f rows)
unfolding total_active active_count_for_ip
update-IsWithin cfg u f rows d v = record {
  keys = update-HasUniqueKeys u f rows d.same_uuid v.keys;
  below_total = omega (arith, v.below_total, tally-update-le active_row u f rows d.no_revival);
  below_per_ip = λ ip. omega (
    arith,
    v.below_per_ip ip,
    tally-update-le (active_from ip) u f rows (λ r h. ground (arith, d.same_ip r, d.no_revival r)),
  );
}

weight-le : (p : Row → Bool) (r : Row) → weight p r ≤ 1
weight-le p r = ground arith

pub append-IsWithin :
    (cfg : Config) (rows : Registry) (r : Row)
    → IsFresh r.uuid rows
    → total_active rows < pos_part cfg.max_total_instances
    → active_count_for_ip r.source_ip rows < pos_part cfg.max_instances_per_ip
    → IsWithin cfg rows
    → IsWithin cfg (rows ++ r ∷ [])
unfolding total_active active_count_for_ip
append-IsWithin cfg rows r fresh room room_ip v = record {
  keys = append-HasUniqueKeys rows r fresh v.keys;
  below_total = ground (arith, tally-append active_row rows (r ∷ []));
  below_per_ip =
      λ ip. ground (arith, tally-append (active_from ip) rows (r ∷ []), v.below_per_ip ip);
}

module _ {W : Type 0} (host : Host W) (cfg : Config) (docker : DockerManager) (ch : Challenge) where
  slot_table-inserts :
      (ip : Text) (rows : Registry) (uuid : Text) (now : ℤ) (rows' : Registry)
      → slot_table host cfg docker ch ip rows uuid now ≡ ok rows'
      → (ttl : ℤ) × (title : Text) × (m : Option Text) × (ttl_or ch.ttl_seconds cfg.ttl_seconds
          ≡ ok ttl)
        × IsFresh uuid rows
        × (rows'
            ≡ rows ++ new_row uuid ip title (container_name_for cfg uuid) (now +ℤ ttl) m now ∷ [])
  unfolding slot_table
  slot_table-inserts ip rows uuid now rows' e =
      elim (Result-cases (ttl_or ch.ttl_seconds cfg.ttl_seconds)) [
        | inr (ex, h) ↦ absurd (cc)
        | inl (ttl, h) ↦
            let (title, m, _, _, fresh, shape) =
              create-inserts uuid ip ch.name (container_name_for cfg uuid) (now +ℤ ttl) ch.flag_mode
                now rows (ground arith) in
            (ttl, title, m, h, fresh, shape)
      ]

  reserve_slot-inserts :
      (ip : Text) (rows : Registry) (u : Text) (w : W) (uuid name : Text) (t : State W)
      → reserve_slot host cfg docker ch ip rows (u, w) ≡ (ok (uuid, name), t)
      → (uuid ≡ u)
        × (name ≡ container_name_for cfg u)
        × (t.world ≡ w)
        × (slot_table host cfg docker ch ip rows u (host.time w) ≡ ok t.reg)
  unfolding reserve_slot
  reserve_slot-inserts ip rows u w uuid name t e =
      elim (Result-cases (slot_table host cfg docker ch ip rows u (host.time w))) [
        | inl (reg, h) ↦ ground arith
        | inr (ex, h) ↦ ground arith
      ]

  reserve-checked :
      (ip : Text) (s : State W) (uuid name : Text) (t : State W)
      → reserve host cfg docker ch ip s ≡ (ok (uuid, name), t)
      → (total_active s.reg < pos_part cfg.max_total_instances)
        × (active_count_for_ip ip s.reg < pos_part cfg.max_instances_per_ip)
        × (reserve_slot host cfg docker ch ip s.reg (host.uuid4 s.world) ≡ (ok (uuid, name), t))
  unfolding reserve
  reserve-checked ip s uuid name t e = ground arith

  -- The uuid of a reservation is the one drawn.
  pub reserve-draws :
      (ip : Text) (s : State W) (uuid name : Text) (t : State W)
      → reserve host cfg docker ch ip s ≡ (ok (uuid, name), t)
      → uuid ≡ (host.uuid4 s.world).0
  reserve-draws ip s uuid name t e =
      let (_, _, placed) = reserve-checked ip s uuid name t e in
      let (drawn, world) = host.uuid4 s.world in
      let (same, _, _, _) = reserve_slot-inserts ip s.reg drawn world uuid name t placed in same

  -- What a reservation has checked and done: both counts were below their limits, and one starting
  -- row under a new uuid stands at the end of the table.
  pub reserve-inserts :
      (ip : Text) (s : State W) (uuid name : Text) (t : State W)
      → reserve host cfg docker ch ip s ≡ (ok (uuid, name), t)
      → (ttl : ℤ) × (title : Text) × (m : Option Text) × (ttl_or ch.ttl_seconds cfg.ttl_seconds
          ≡ ok ttl)
        × IsFresh uuid s.reg
        × (name ≡ container_name_for cfg uuid)
        × (t.reg
            ≡ s.reg
              ++ new_row uuid ip title name (host.time t.world +ℤ ttl) m (host.time t.world) ∷ [])
        × (total_active s.reg < pos_part cfg.max_total_instances)
        × (active_count_for_ip ip s.reg < pos_part cfg.max_instances_per_ip)
  reserve-inserts ip s uuid name t e =
      let (room, room_ip, placed) = reserve-checked ip s uuid name t e in
      let (drawn, world) = host.uuid4 s.world in
      let (same, named, kept, table) =
        reserve_slot-inserts ip s.reg drawn world uuid name t placed in
      let (ttl, title, m, lifetime, fresh, shape) =
        slot_table-inserts ip s.reg drawn (host.time world) t.reg table in
      (
        ttl,
        title,
        m,
        lifetime,
        rw same fresh,
        rw same named,
        rw (same, named, kept) shape,
        room,
        room_ip,
      )
