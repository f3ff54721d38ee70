-- ===== src/SuiRpc/Client.antt =====
-- The calls of `SuiRpc`. Each is a function on the world that the HTTP client acts on.
use Prim.Native.String.{String}
use sui_ctf_infrastructure.Base.{
  if◌then◌else◌, ℤ, pos, Bool, true, false, none, some, List, [], ◌∷◌,
}
use sui_ctf_infrastructure.Text.{Text, codes}
use sui_ctf_infrastructure.Python.Errors.{
  type_error, sui_rpc_error, Result, ok, raised, ◌>>=◌, ◌>>◌, raise,
}
use sui_ctf_infrastructure.Python.Values.{
  Value, null, bool, num, float, str, arr, obj, Items, nil, cons, Fields, end, field, find_field,
  get, truthy,
}
use sui_ctf_infrastructure.Python.Operators.{value_eq, contains, index_value, iterate}
use sui_ctf_infrastructure.Python.Show.{str_value}

-- A response of the HTTP client: its status check and its decoded body, or what they raise.
pub record Response : Type 0 where
  pub raise_for_status : Result (Unit {0})
  pub json : Result Value

pub record HttpClient (W : Type 0) : Type 0 where
  -- `AsyncClient(timeout=…).post(url, json=payload)`
  pub post : ℤ → Text → Value → W → Result Response × W

pub record SuiRpc : Type 0 where
  pub url : Text
  pub timeout : ℤ

abbrev pub new_rpc : Text → SuiRpc
new_rpc url = record { url = url; timeout = pos 10 }

-- A dictionary literal, and a list literal.
abbrev pub dict_of : List (String × Value) → Fields
dict_of [] = end
dict_of ((k, v) ∷ d) = field (codes k) v (dict_of d)

abbrev pub items_of : List Value → Items
items_of [] = nil
items_of (v ∷ vs) = cons v (items_of vs)

abbrev pub payload : String → List Value → Value
payload method params = obj (
    dict_of (
      ("jsonrpc", str (codes "2.0"))
      ∷ ("id", num (pos 1))
      ∷ ("method", str (codes method))
      ∷ ("params", arr (items_of params))
      ∷ []))

abbrev rpc_failure : Value → Result Value
rpc_failure e = raised (record { kind = sui_rpc_error; message = str_value e })

-- What is left of `call` once the body is decoded.
unfoldable pub result_of : Value → Result Value
result_of v = do
  failed ← contains v (str (codes "error"))
  if failed then index_value v (str (codes "error")) >>= rpc_failure else get v (codes "result")

abbrev pub body_of : Response → Result Value
body_of r = r.raise_for_status >> r.json

-- `ev.get("sender") == sender` for one event after another, up to the first that fits
unfoldable pub any_sender : Value → List Value → Result Bool
any_sender sender [] = ok false
any_sender sender (ev ∷ evs) =
    let rest = any_sender sender evs in
    get ev (codes "sender") >>= λ s. if value_eq s sender then ok true else rest

-- `len(events) > 0`
unfoldable pub is_nonempty : Value → Result Bool
is_nonempty (arr vs) = ok (truthy (arr vs))
is_nonempty (obj fs) = ok (truthy (obj fs))
is_nonempty (str s) = ok (truthy (str s))
is_nonempty v = raise type_error "object has no len()"

-- `(result or {}).get("data", []) if isinstance(result, dict) else []`
unfoldable pub events_of : Value → Value
events_of (obj fs) = elim (find_field (codes "data") fs) [ none ↦ arr nil | some v ↦ v ]
events_of v = arr nil

-- `None` is `null`.
unfoldable pub matches_sender : Value → Value → Result Bool
unfolding is_nonempty any_sender
matches_sender null events = is_nonempty events
matches_sender (bool b) events = iterate events >>= any_sender (bool b)
matches_sender (num n) events = iterate events >>= any_sender (num n)
matches_sender (float f) events = iterate events >>= any_sender (float f)
matches_sender (str s) events = iterate events >>= any_sender (str s)
matches_sender (arr vs) events = iterate events >>= any_sender (arr vs)
matches_sender (obj fs) events = iterate events >>= any_sender (obj fs)

-- `if not result or "data" not in result or result["data"] is None: return None`, and the content
unfoldable pub content_of : Value → Result Value
content_of result = do
  has_data ← if truthy result then contains result (str (codes "data")) else ok false
  entry ← if has_data then index_value result (str (codes "data")) else ok null
  elim entry [ null ↦ ok null | v ↦ get v (codes "content") ]

module _ {W : Type 0} (http : HttpClient W) where
  open http use {post}

  unfoldable pub call : SuiRpc → String → List Value → W → Result Value × W
  unfolding result_of
  call rpc method params w =
      let (r, w') = post rpc.timeout rpc.url (payload method params) w in
      (r >>= λ resp. body_of resp >>= result_of, w')

  unfoldable pub is_ready : SuiRpc → W → Bool × W
  is_ready rpc w =
      let (r, w') = call rpc "sui_getChainIdentifier" [] w in
      (elim r [ ok v ↦ true | raised e ↦ false ], w')

  unfoldable pub get_object_content : SuiRpc → Value → W → Result Value × W
  unfolding content_of
  get_object_content rpc object_id w =
      let options = obj (dict_of (("showContent", bool true) ∷ ("showType", bool true) ∷ [])) in
      let (r, w') = call rpc "sui_getObject" (object_id ∷ options ∷ []) w in (r >>= content_of, w')

  unfoldable pub query_event_exists : SuiRpc → Text → Value → W → Result Bool × W
  unfolding events_of matches_sender
  query_event_exists rpc event_type sender w =
      let event_filter = obj (dict_of (("MoveEventType", str event_type) ∷ [])) in
      let (r, w') =
        call rpc "suix_queryEvents" (event_filter ∷ null ∷ num (pos 50) ∷ bool true ∷ []) w in
      (r >>= λ result. matches_sender sender (events_of result), w')
