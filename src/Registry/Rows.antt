-- ===== src/Registry/Rows.antt =====
-- The schema, the writes and the reads.
use sui_ctf_infrastructure.Base.{
  leb, if◌then◌else◌, keep, find_first, tally, any_of, ℤ, pos, negsuc, ltb_ℤ, ℕ, Bool, true, false,
  ◌&&◌, ◌||◌, Option, none, some, List, [], ◌∷◌, ◌++◌, map,
}
use sui_ctf_infrastructure.Text.{Text, codes, text_eq}
use sui_ctf_infrastructure.Text.Numbers.{negative, text_of_int}
use sui_ctf_infrastructure.Python.Errors.{integrity_error, other_error, Result, ok, ◌>>=◌, raise}
use sui_ctf_infrastructure.Python.Values.{
  Float, finite, infinite, nan, Value, null, bool, num, float, str, arr, obj, nil,
}

-- starting -> running -> (expired | killed | error)
pub data Status : Type 0 where
  starting running expired killed error : Status

-- A row of the table; `none` is NULL. `objects_json` holds the value that its JSON text encodes.
pub record Row : Type 0 where
  pub uuid : Text
  pub source_ip : Text
  pub challenge : Text
  pub status : Status
  pub container_id : Option Text
  pub container_name : Option Text
  pub created_at : ℤ
  pub expires_at : ℤ
  pub rpc_url : Option Text
  pub player_address : Option Text
  pub player_privkey : Option Text
  pub deployer_address : Option Text
  pub package_id : Option Text
  pub objects_json : Option Value
  pub flag_mode : Option Text
  pub error_text : Option Text

abbrev pub Registry : Type 0
Registry = List Row

-- The dictionary that a read returns: the columns, and the decoded objects.
pub record Record : Type 0 where
  pub row : Row
  pub open row use *
  pub objects : Value

-- `status IN ACTIVE_STATES`
abbrev pub is_active : Status → Bool
is_active starting = true
is_active running = true
is_active expired = false
is_active killed = false
is_active error = false

-- A code point that UTF-8 has no bytes for.
abbrev pub is_surrogate : ℕ → Bool
is_surrogate c = leb 55296 c && leb c 57343

abbrev bound_text : Text → Result (Option Text)
bound_text s =
    if any_of is_surrogate s then raise other_error "surrogates not allowed" else ok (some s)

-- SQLite's integers have 64 bits.
abbrev bound_int : ℤ → Result (Option Text)
bound_int n =
    if ltb_ℤ n (negsuc 9_223_372_036_854_775_807) || ltb_ℤ (pos 9_223_372_036_854_775_807) n
    then raise other_error "Python int too large to convert to SQLite INTEGER"
    else ok (some (text_of_int n))

-- SQLite's text of a floating-point number; `nan` is stored as NULL.
abbrev bound_float : Float → Option Text
bound_float (finite shown stored m k) = some stored
bound_float (infinite negative) = some (if negative then codes "-Inf" else codes "Inf")
bound_float nan = none

-- A value bound to a TEXT column.
unfoldable pub column_text : Value → Result (Option Text)
unfolding text_of_int
column_text null = ok none
column_text (bool b) = ok (some (codes (if b then "1" else "0")))
column_text (num n) = bound_int n
column_text (float f) = ok (bound_float f)
column_text (str s) = bound_text s
column_text (arr vs) = raise other_error "Error binding parameter: type 'list' is not supported"
column_text (obj fs) = raise other_error "Error binding parameter: type 'dict' is not supported"

unfoldable pub not_null : Option Text → Result Text
not_null none = raise integrity_error "NOT NULL constraint failed: instances.challenge"
not_null (some s) = ok s

abbrev pub has_uuid : Text → Row → Bool
has_uuid u r = text_eq r.uuid u

-- `INSERT`: the key must be new.
unfoldable pub insert_row : Row → Registry → Result Registry
insert_row r rows =
    if any_of (has_uuid r.uuid) rows
    then raise integrity_error "UNIQUE constraint failed: instances.uuid"
    else ok (rows ++ r ∷ [])

-- The row that `create` writes.
abbrev pub new_row : Text → Text → Text → Text → ℤ → Option Text → ℤ → Row
new_row uuid source_ip challenge container_name expires_at flag_mode now = record {
  uuid = uuid;
  source_ip = source_ip;
  challenge = challenge;
  status = starting;
  container_id = none;
  container_name = some container_name;
  created_at = now;
  expires_at = expires_at;
  rpc_url = none;
  player_address = none;
  player_privkey = none;
  deployer_address = none;
  package_id = none;
  objects_json = none;
  flag_mode = flag_mode;
  error_text = none;
}

unfoldable pub create : Text → Text → Value → Text → ℤ → Value → ℤ → Registry → Result Registry
create uuid source_ip challenge container_name expires_at flag_mode now rows = do
  name ← column_text challenge
  mode ← column_text flag_mode
  title ← not_null name
  insert_row (new_row uuid source_ip title container_name expires_at mode now) rows

-- `UPDATE instances SET … WHERE uuid=?`; the function writes the columns.
unfoldable pub update : Text → (Row → Row) → Registry → Registry
update u f [] = []
update u f (r ∷ rows) = (if has_uuid u r then f r else r) ∷ update u f rows

unfoldable pub set_container : Text → Text → Registry → Registry
set_container uuid container_id = update uuid λ r. record r { container_id = some container_id }

abbrev pub with_running :
    Text → Option Text → Option Text → Option Text → Option Text → Value → Row → Row
with_running url address privkey deployer pkg objects r = record r {
  status = running;
  rpc_url = some url;
  player_address = address;
  player_privkey = privkey;
  deployer_address = deployer;
  package_id = pkg;
  objects_json = some objects;
}

unfoldable pub set_running :
    Text → Text → Value → Value → Value → Value → Value → Registry → Result Registry
set_running uuid url player_address player_privkey deployer_address package_id objects rows = do
  address ← column_text player_address
  privkey ← column_text player_privkey
  deployer ← column_text deployer_address
  pkg ← column_text package_id
  ok (update uuid (with_running url address privkey deployer pkg objects) rows)

-- `error` is written too, as NULL where it is left out.
abbrev pub with_status : Status → Option Text → Row → Row
with_status s e r = record r { status = s; error_text = e }

unfoldable pub set_status : Text → Status → Option Text → Registry → Registry
set_status uuid s e = update uuid (with_status s e)

-- `json.loads(d.get("objects_json") or "[]")`
abbrev pub row_to_dict : Row → Record
row_to_dict r = record { row = r; objects = elim r.objects_json [ none ↦ arr nil | some v ↦ v ] }

abbrev pub dict_or_none : Option Row → Option Record
dict_or_none none = none
dict_or_none (some r) = some (row_to_dict r)

-- `SELECT * FROM instances WHERE uuid=?`
unfoldable pub fetch : Text → Registry → Option Row
fetch u rows = find_first (has_uuid u) rows

unfoldable pub get_record : Text → Registry → Option Record
get_record u rows = dict_or_none (fetch u rows)

abbrev pub active_row : Row → Bool
active_row r = is_active r.status

abbrev pub active_from : Text → Row → Bool
active_from ip r = text_eq r.source_ip ip && is_active r.status

abbrev pub due_row : ℤ → Row → Bool
due_row now r = is_active r.status && ltb_ℤ r.expires_at now

unfoldable pub active_count_for_ip : Text → Registry → ℕ
active_count_for_ip ip rows = tally (active_from ip) rows

-- The first row in the order `created_at DESC`; of rows of one time, the one inserted first.
unfoldable pub latest : Option Row → List Row → Option Row
latest best [] = best
latest none (r ∷ rows) = latest (some r) rows
latest (some b) (r ∷ rows) = latest (some (if ltb_ℤ b.created_at r.created_at then r else b)) rows

unfoldable pub active_for_ip : Text → Registry → Option Record
active_for_ip ip rows = dict_or_none (latest none (keep (active_from ip) rows))

unfoldable pub total_active : Registry → ℕ
total_active rows = tally active_row rows

unfoldable pub all_active : Registry → List Record
all_active rows = map row_to_dict (keep active_row rows)

-- `clock` is `time.time()`, read where `now` is left out.
unfoldable pub due_for_reap : Option ℤ → ℤ → Registry → List Record
due_for_reap none clock rows = map row_to_dict (keep (due_row clock) rows)
due_for_reap (some now) clock rows = map row_to_dict (keep (due_row now) rows)
