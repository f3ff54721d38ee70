-- ===== src/Instances/Slots.antt =====
-- The row of one instance in the table, while `spawn` works on it, and the row of another.
use sui_ctf_infrastructure.Instances.Values.{ttl_or}
use sui_ctf_infrastructure.Python.Errors.{ok}
use sui_ctf_infrastructure.Instances.Spawn.{reserve}
use sui_ctf_infrastructure.Instances.Capacity.{reserve-inserts}
use sui_ctf_infrastructure.Instances.Tasks.{State}
use sui_ctf_infrastructure.Challenge.Manifest.{Challenge}
use sui_ctf_infrastructure.Docker.Manager.{DockerManager}
use sui_ctf_infrastructure.Config.{Config}
use sui_ctf_infrastructure.Docker.Sdk.{Host}
use sui_ctf_infrastructure.Instances.Killing.{OthersLeave}
use sui_ctf_infrastructure.Instances.Frames.{IsKept}
use sui_ctf_infrastructure.Base.{
  ℤ, ◌+ℤ◌, ◌≡◌, refl, sym, ◌∙◌, subst, false, Option, none, some, [], ◌∷◌, ◌++◌, arith,
}
use sui_ctf_infrastructure.Text.{Text, text_eq}
use sui_ctf_infrastructure.Registry.{Status, starting, Row, Registry, new_row, update, fetch}
use sui_ctf_infrastructure.Registry.Keys.{
  IsFresh, KeepsUuid, fetch-fresh, fetch-update, fetch-append,
}

-- The row of one uuid in a table, and that of another uuid as in an earlier table.
pub record Slot (u v ip : Text) (st : Status) (old rows : Registry) : Type 0 where
  pub row : Row
  pub found : fetch u rows ≡ some row
  pub status_is : row.status ≡ st
  pub source_is : row.source_ip ≡ ip
  pub differs : text_eq v u ≡ false
  pub other_kept : fetch v rows ≡ fetch v old

pub Slot-update :
    {u v ip : Text} {st : Status} {old rows : Registry} (st' : Status) (f : Row → Row)
    → KeepsUuid f
    → ((r : Row) → (f r).source_ip ≡ r.source_ip)
    → ((r : Row) → r.status ≡ st → (f r).status ≡ st')
    → Slot u v ip st old rows
    → Slot u v ip st' old (update u f rows)
Slot-update {u} {v} {rows = rows} st' f k hs ht slot = record {
  row = f slot.row;
  found = ground (arith, fetch-update u u f rows k, slot.found);
  status_is = ht slot.row slot.status_is;
  source_is = hs slot.row ∙ slot.source_is;
  differs = slot.differs;
  other_kept = ground (arith, fetch-update v u f rows k, slot.differs, slot.other_kept);
}

pub Slot-moved :
    {u v ip : Text} {st : Status} {old rows rows' : Registry}
    → rows' ≡ rows
    → Slot u v ip st old rows
    → Slot u v ip st old rows'
Slot-moved {u} {v} {ip} {st} {old} e slot = subst (Slot u v ip st old) (sym e) slot

-- A wait keeps it where the other tasks leave both rows alone.
pub Slot-IsKept :
    {W : Type 0} (host : Host W) (u v ip : Text) (st : Status) (old : Registry)
    → OthersLeave host u
    → OthersLeave host v
    → IsKept host (Slot u v ip st old)
Slot-IsKept host u v ip st old left_u left_v reg w slot = record {
  row = slot.row;
  found = left_u reg w ∙ slot.found;
  status_is = slot.status_is;
  source_is = slot.source_is;
  differs = slot.differs;
  other_kept = left_v reg w ∙ slot.other_kept;
}

pub reserved-Slot :
    (ip u v : Text) (old rows : Registry) (title name : Text) (until now : ℤ) (m : Option Text)
    → text_eq v u ≡ false
    → IsFresh u old
    → rows ≡ old ++ new_row u ip title name until m now ∷ []
    → Slot u v ip starting old rows
reserved-Slot ip u v old rows title name until now m differ fresh shape =
    let r = new_row u ip title name until m now in
    record {
      row = r;
      found = rw shape (ground (arith, fetch-append u old r, fresh));
      status_is = refl;
      source_is = refl;
      differs = differ;
      other_kept = rw shape (ground (arith, fetch-append v old r, fetch-fresh v old, differ));
    }

-- What a reservation made at a time writes of an instance.
pub record IsNewRow (cfg : Config) (ch : Challenge) (u : Text) (now : ℤ) (r : Row) : Type 0 where
  pub uuid_is : r.uuid ≡ u
  pub status_is : r.status ≡ starting
  pub container_is : r.container_id ≡ none
  pub ttl : ℤ
  pub ttl_is : ttl_or ch.ttl_seconds cfg.ttl_seconds ≡ ok ttl
  pub expires_is : r.expires_at ≡ now +ℤ ttl

module _ {W : Type 0} (host : Host W) (cfg : Config) (docker : DockerManager) (ch : Challenge) where
  -- The row that a reservation made.
  pub reserve-IsNewRow :
      (ip u name : Text) (s t : State W)
      → reserve host cfg docker ch ip s ≡ (ok (u, name), t)
      → (r : Row) × (fetch u t.reg ≡ some r) × IsNewRow cfg ch u (host.time t.world) r
  reserve-IsNewRow ip u name s t e =
      let (ttl, title, m, lifetime, fresh, _, shape, _, _) =
        reserve-inserts host cfg docker ch ip s u name t e in
      let now = host.time t.world in
      let r = new_row u ip title name (now +ℤ ttl) m now in
      (
        r,
        rw shape (ground (arith, fetch-append u s.reg r, fresh)),
        record {
          uuid_is = refl;
          status_is = refl;
          container_is = refl;
          ttl = ttl;
          ttl_is = lifetime;
          expires_is = refl;
        },
      )
