-- ===== src/Registry/Keys.antt =====
-- The primary key: no two rows share a uuid, and a read finds the row that a write left.
use mathlib.Core.Option
use sui_ctf_infrastructure.Base.{
  if◌then◌else◌, any_of, ℤ, ◌≡◌, refl, false, ◌||◌, Option, none, some, [], ◌∷◌, ◌++◌, arith,
}
use sui_ctf_infrastructure.Text.{Text, text_eq}
use sui_ctf_infrastructure.Python.Errors.{ok}
use sui_ctf_infrastructure.Python.Values.{Value}
use sui_ctf_infrastructure.Registry.Rows.{
  Row, Registry, column_text, not_null, has_uuid, insert_row, new_row, create, update, fetch,
}

-- No row of the table has this uuid.
abbrev pub IsFresh : Text → Registry → Type 0
IsFresh u rows = any_of (has_uuid u) rows ≡ false

abbrev pub HasUniqueKeys : Registry → Type 0
HasUniqueKeys [] = Unit
HasUniqueKeys (r ∷ rows) = IsFresh r.uuid rows × HasUniqueKeys rows

-- What a write leaves of a row's key.
abbrev pub KeepsUuid : (Row → Row) → Type 0
KeepsUuid f = (r : Row) → (f r).uuid ≡ r.uuid

pub fetch-fresh : (u : Text) (rows : Registry) → IsFresh u rows → fetch u rows ≡ none
unfolding fetch
fetch-fresh u [] h = refl
fetch-fresh u (r ∷ rows) h = ground (arith, fetch-fresh u rows)

pub fetch-uuid : (u : Text) (rows : Registry) (r : Row) → fetch u rows ≡ some r → r.uuid ≡ u
unfolding fetch
fetch-uuid u [] r h = cc
fetch-uuid u (x ∷ rows) r h = ground (arith, fetch-uuid u rows r)

any_uuid-update :
    (u v : Text) (f : Row → Row) (rows : Registry)
    → KeepsUuid f
    → any_of (has_uuid u) (update v f rows) ≡ any_of (has_uuid u) rows
unfolding update
any_uuid-update u v f [] k = refl
any_uuid-update u v f (r ∷ rows) k = ground (arith, k r, any_uuid-update u v f rows k)

-- An update of one row keeps the keys distinct.
pub update-HasUniqueKeys :
    (u : Text) (f : Row → Row) (rows : Registry)
    → KeepsUuid f
    → HasUniqueKeys rows
    → HasUniqueKeys (update u f rows)
unfolding update
update-HasUniqueKeys u f [] k h = tt
update-HasUniqueKeys u f (r ∷ rows) k h =
    ground (arith, k r, any_uuid-update r.uuid u f rows k, update-HasUniqueKeys u f rows k h.1)

any_uuid-append :
    (u : Text) (rows : Registry) (r : Row)
    → any_of (has_uuid u) (rows ++ r ∷ []) ≡ (any_of (has_uuid u) rows || has_uuid u r)
any_uuid-append u [] r = ground arith
any_uuid-append u (x ∷ rows) r = ground (arith, any_uuid-append u rows r)

pub append-HasUniqueKeys :
    (rows : Registry) (r : Row)
    → IsFresh r.uuid rows
    → HasUniqueKeys rows
    → HasUniqueKeys (rows ++ r ∷ [])
append-HasUniqueKeys [] r f h = (refl, tt)
append-HasUniqueKeys (x ∷ rows) r f h =
    ground (arith, any_uuid-append x.uuid rows r, append-HasUniqueKeys rows r)

-- `fetch` after an update: the row of that key is written, every other row is as it was.
pub fetch-update :
    (u v : Text) (f : Row → Row) (rows : Registry)
    → KeepsUuid f
    → fetch u (update v f rows)
      ≡ (if text_eq u v then Option.map f (fetch u rows) else fetch u rows)
unfolding update fetch
fetch-update u v f [] k = ground arith
fetch-update u v f (r ∷ rows) k = ground (arith, k r, fetch-update u v f rows k)

pub fetch-append :
    (u : Text) (rows : Registry) (r : Row)
    → fetch u (rows ++ r ∷ [])
      ≡ (if any_of (has_uuid u) rows then fetch u rows else if has_uuid u r then some r else none)
unfolding fetch
fetch-append u [] r = ground arith
fetch-append u (x ∷ rows) r = ground (arith, fetch-append u rows r)

-- What a successful `create` has done: the key was new, and one starting row stands at the end.
pub create-inserts :
    (u ip : Text) (ch : Value) (name : Text) (expires_at : ℤ) (mode : Value) (now : ℤ)
    (rows : Registry) {rows' : Registry}
    → create u ip ch name expires_at mode now rows ≡ ok rows'
    → (title : Text) × (m : Option Text) × (column_text ch ≡ ok (some title))
      × (column_text mode ≡ ok m)
      × IsFresh u rows
      × (rows' ≡ rows ++ new_row u ip title name expires_at m now ∷ [])
unfolding create insert_row not_null
create-inserts u ip ch name expires_at mode now rows e = ground arith
