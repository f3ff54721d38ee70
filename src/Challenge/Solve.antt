-- ===== src/Challenge/Solve.antt =====
-- `check_solved`: the win condition, on the state of an object or on an event.
use sui_ctf_infrastructure.Base.{
  ltb, ◌==◌, if◌then◌else◌, ℤ, ltb_ℤ, eqb_ℤ, Bool, true, false, not, ◌&&◌, ◌||◌, Option, none, some,
  List, [], ◌∷◌, ◌++◌,
}
use sui_ctf_infrastructure.Text.{
  Text, codes, text_discrete, text_eq, starts_with, ends_with, before,
}
use sui_ctf_infrastructure.Python.Errors.{
  ExceptionKind, type_error, value_error, attribute_error, Result, ok, raised, ◌>>=◌, raise,
}
use sui_ctf_infrastructure.Python.Values.{Value, null, str, arr, obj, get, get_default, truthy}
use sui_ctf_infrastructure.Python.Operators.{value_eq, contains, index_value, int_of_value, iterate}
use sui_ctf_infrastructure.Python.Show.{repr_value, str_value}
use sui_ctf_infrastructure.Registry.{Record}
use sui_ctf_infrastructure.SuiRpc.Client.{
  HttpClient, SuiRpc, get_object_content, query_event_exists,
}
use sui_ctf_infrastructure.Challenge.Manifest.{Challenge}

pub data Op : Type 0 where
  op_eq op_ne op_lt op_lte op_gt op_gte : Op

-- What `_coerce_pair` returns: two integers or two texts.
pub data Pair : Type 0 where
  numbers : ℤ → ℤ → Pair
  texts : Text → Text → Pair

-- `except (TypeError, ValueError)`
abbrev pub is_conversion_error : ExceptionKind → Bool
is_conversion_error type_error = true
is_conversion_error value_error = true
is_conversion_error _ = false

abbrev pub coerced : Value → Value → Result (ℤ × ℤ) → Result Pair
coerced a b (ok (m, n)) = ok (numbers m n)
coerced a b (raised e) =
    if is_conversion_error e.kind then ok (texts (str_value a) (str_value b)) else raised e

unfoldable pub coerce_pair : Value → Value → Result Pair
coerce_pair a b = coerced a b (int_of_value a >>= λ m. int_of_value b >>= λ n. ok (m, n))

-- `s < t` on texts: by code points
unfoldable pub text_lt : Text → Text → Bool
text_lt s [] = false
text_lt [] (d ∷ t) = true
text_lt (c ∷ s) (d ∷ t) = let rest = text_lt s t in ltb c d || (c == d && rest)

-- An operator by its test for "less" and its test for "equal".
abbrev pub by_order : Op → Bool → Bool → Bool
by_order op_eq less same = same
by_order op_ne less same = not same
by_order op_lt less same = less
by_order op_lte less same = less || same
by_order op_gt less same = not (less || same)
by_order op_gte less same = not less

unfoldable pub apply_op : Op → Pair → Bool
unfolding text_lt
apply_op op (numbers m n) = by_order op (ltb_ℤ m n) (eqb_ℤ m n)
apply_op op (texts s t) = by_order op (text_lt s t) (text_eq s t)

abbrev pub ops : List (Text × Op)
ops =
    (codes "eq", op_eq)
    ∷ (codes "ne", op_ne)
    ∷ (codes "lt", op_lt)
    ∷ (codes "lte", op_lte)
    ∷ (codes "gt", op_gt)
    ∷ (codes "gte", op_gte)
    ∷ []

abbrev pub op_named : Text → List (Text × Op) → Option Op
op_named s [] = none
op_named s ((k, o) ∷ os) = if text_eq k s then some o else op_named s os

-- `_OPS.get(key)`
unfoldable pub find_op : Value → Result (Option Op)
unfolding text_discrete
find_op (str s) = ok (op_named s ops)
find_op (arr vs) = raise type_error "unhashable type: 'list'"
find_op (obj fs) = raise type_error "unhashable type: 'dict'"
find_op v = ok none

abbrev pub unknown_op : Value → Option Op → Result Op
unknown_op v none =
    raised (record { kind = value_error; message = codes "unknown solve.op: " ++ repr_value v })
unknown_op v (some o) = ok o

-- `obj.get("type") or ""`, up to the first `<`, ends with the suffix
unfoldable pub type_matches : Value → Value → Result Bool
type_matches otype (str suffix) =
    if truthy otype
    then elim otype [
      | str s ↦ ok (ends_with (before b'<' s) suffix)
      | _ ↦ raise attribute_error "object has no attribute 'split'"
    ]
    else ok (ends_with [] suffix)
type_matches otype suffix =
    if truthy otype
    then elim otype [
      | str s ↦ raise type_error "endswith first arg must be str"
      | _ ↦ raise attribute_error "object has no attribute 'split'"
    ]
    else raise type_error "endswith first arg must be str"

abbrev pub first_match : Value → List Value → Result (Option Value)
first_match suffix [] = ok none
first_match suffix (o ∷ os) =
    let rest = first_match suffix os in
    get o (codes "type") >>= λ t. type_matches t suffix >>= λ hit. if hit then ok (some o) else rest

unfoldable pub find_object : Value → Value → Result (Option Value)
find_object objects suffix = iterate objects >>= first_match suffix

-- The comparison of `_check_state`, once the object's content is there.
unfoldable pub compare_field : Value → Value → Value → Result Bool
unfolding find_op
compare_field spec fields field_name = do
  actual ← index_value fields field_name
  expected ← index_value spec (str (codes "value"))
  pair ← coerce_pair actual expected
  key ← get_default spec (codes "op") (str (codes "eq"))
  found ← find_op key
  op ← unknown_op key found
  ok (apply_op op pair)

abbrev pub checked_field : Value → Value → Result Bool
checked_field spec content = do
  field_name ← index_value spec (str (codes "field"))
  fields ← index_value content (str (codes "fields"))
  there ← contains fields field_name
  if there then compare_field spec fields field_name else ok false

unfoldable pub check_content : Value → Value → Result Bool
check_content spec content = do
  has_fields ← if truthy content then contains content (str (codes "fields")) else ok false
  if has_fields then checked_field spec content else ok false

-- `spec.get("sender", "player")`, resolved: `null` binds no sender.
unfoldable pub sender_of : Value → Record → Value
unfolding value_eq
sender_of spec_sender instance_row =
    if value_eq spec_sender (str (codes "player"))
    then elim instance_row.player_address [ none ↦ null | some s ↦ str s ]
    else if value_eq spec_sender null || value_eq spec_sender (str (codes "any"))
    then null
    else spec_sender

-- `f"{package_id}{suffix}" if suffix.startswith("::") else suffix`
unfoldable pub full_event_type : Text → Value → Result Text
full_event_type package_id (str suffix) =
    ok (if starts_with suffix (codes "::") then package_id ++ suffix else suffix)
full_event_type package_id v = raise attribute_error "object has no attribute 'startswith'"

module _ {W : Type 0} (http : HttpClient W) where
  abbrev pub check_object : SuiRpc → Value → Result Value → W → Result Bool × W
  check_object rpc spec (raised e) w = (raised e, w)
  check_object rpc spec (ok object_id) w =
      let (r, w') = get_object_content http rpc object_id w in (r >>= check_content spec, w')

  abbrev pub check_target : SuiRpc → Value → Result (Option Value) → W → Result Bool × W
  check_target rpc spec (raised e) w = (raised e, w)
  check_target rpc spec (ok none) w = (ok false, w)
  check_target rpc spec (ok (some target)) w =
      check_object rpc spec (index_value target (str (codes "objectId"))) w

  unfoldable pub check_state : SuiRpc → Value → Record → W → Result Bool × W
  check_state rpc spec instance_row w =
      check_target rpc spec
        (index_value spec (str (codes "object_type")) >>= find_object instance_row.objects) w

  abbrev pub query_event : SuiRpc → Result (Text × Value) → W → Result Bool × W
  query_event rpc (raised e) w = (raised e, w)
  query_event rpc (ok (event_type, sender)) w = query_event_exists http rpc event_type sender w

  -- The type and the sender that `_check_event` asks for.
  abbrev pub event_query : Value → Record → Text → Result (Text × Value)
  event_query spec instance_row package_id = do
    suffix ← index_value spec (str (codes "event_type"))
    full_type ← full_event_type package_id suffix
    spec_sender ← get_default spec (codes "sender") (str (codes "player"))
    ok (full_type, sender_of spec_sender instance_row)

  abbrev pub check_package : SuiRpc → Value → Record → Text → W → Result Bool × W
  check_package rpc spec instance_row [] w = (ok false, w)
  check_package rpc spec instance_row (c ∷ s) w =
      query_event rpc (event_query spec instance_row (c ∷ s)) w

  unfoldable pub check_event : SuiRpc → Value → Record → W → Result Bool × W
  check_event rpc spec instance_row w =
      check_package rpc spec instance_row (elim instance_row.package_id [ none ↦ [] | some s ↦ s ])
        w

  abbrev pub check_kind : Challenge → SuiRpc → Record → Result Value → W → Result Bool × W
  check_kind ch rpc instance_row (raised e) w = (raised e, w)
  check_kind ch rpc instance_row (ok kind) w =
      if value_eq kind (str (codes "state"))
      then check_state rpc ch.solve instance_row w
      else if value_eq kind (str (codes "event"))
      then check_event rpc ch.solve instance_row w
      else (
        raised (record {
          kind = value_error;
          message = codes "unknown solve.type: " ++ repr_value kind;
        }),
        w,
      )

  unfoldable pub check_solved : Challenge → SuiRpc → Record → W → Result Bool × W
  unfolding check_state check_event
  check_solved ch rpc instance_row w =
      check_kind ch rpc instance_row (get_default ch.solve (codes "type") (str (codes "state"))) w
