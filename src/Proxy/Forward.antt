-- ===== src/Proxy/Forward.antt =====
-- `_forward`: the gate, the call of the instance, and the release of the slot.
use sui_ctf_infrastructure.Base.{
  if◌then◌else◌, ℤ, pos, ◌+ℤ◌, ◌-ℤ◌, leb_ℤ, ℕ, Bool, true, false, not, ◌||◌, Option, none, some,
  List, [], ◌∷◌, ◌++◌,
}
use sui_ctf_infrastructure.Text.{Text, codes, text_eq, one_of, lower}
use sui_ctf_infrastructure.Text.Numbers.{text_of_int}
use sui_ctf_infrastructure.Python.Errors.{ExceptionKind, http_error, Result, ok, raised, ◌>>=◌}
use sui_ctf_infrastructure.Config.{Environ, limit_from_env, Config}
use sui_ctf_infrastructure.Counters.{Counters, get_or, enter, leave}
use sui_ctf_infrastructure.Registry.{Registry, Record, get_record}
use sui_ctf_infrastructure.Docker.Sdk.{Dict}
use sui_ctf_infrastructure.Instances.Control.{status_text, is_running, name_or_none}

pub record Limits : Type 0 where
  pub max_inflight : ℤ
  pub max_inflight_per_uuid : ℤ

unfoldable pub limits_of : Environ → Result Limits
limits_of env = do
  total ← limit_from_env env "PROXY_MAX_INFLIGHT" (pos 64)
  per ← limit_from_env env "PROXY_MAX_INFLIGHT_PER_UUID" (pos 8)
  ok (record { max_inflight = total; max_inflight_per_uuid = per })

-- `app.state`
pub record AppState : Type 0 where
  pub inflight_total : ℤ
  pub inflight_per : Counters

abbrev pub start_state : AppState
start_state = record { inflight_total = pos 0; inflight_per = [] }

-- A body is its bytes.
pub record Request : Type 0 where
  pub method : Text
  pub headers : Dict
  pub query_params : Dict
  pub body : Result (List ℕ)

pub record UpstreamResponse : Type 0 where
  pub status_code : ℤ
  pub headers : Dict
  pub content : List ℕ

pub data Reply : Type 0 where
  -- `JSONResponse({"error": message}, status_code=code)`
  error_reply : ℕ → Text → Reply
  -- `JSONResponse(d)`
  json_reply : Dict → Reply
  -- content, status code, headers and media type
  response : List ℕ → ℤ → Dict → Option Text → Reply

abbrev pub hop_by_hop : List Text
hop_by_hop =
    codes "connection"
    ∷ codes "keep-alive"
    ∷ codes "proxy-authenticate"
    ∷ codes "proxy-authorization"
    ∷ codes "te"
    ∷ codes "trailers"
    ∷ codes "transfer-encoding"
    ∷ codes "upgrade"
    ∷ codes "host"
    ∷ codes "content-length"
    ∷ []

-- `k.lower() not in _HOP_BY_HOP`
unfoldable pub is_forwarded : Text → Bool
is_forwarded k = not (one_of (lower k) hop_by_hop)

-- `d[k] = v` of a dictionary of headers
unfoldable pub put_header : Text → Text → Dict → Dict
put_header k v [] = (k, v) ∷ []
put_header k v ((j, w) ∷ d) = if text_eq j k then (j, v) ∷ d else (j, w) ∷ put_header k v d

-- `{k: v for k, v in headers.items() if …}`, onto the entries before
unfoldable pub copy_headers : Dict → Dict → Dict
copy_headers acc [] = acc
copy_headers acc ((k, v) ∷ hs) =
    copy_headers (if is_forwarded k then put_header k v acc else acc) hs

-- `headers.get(k)` of httpx, where the case is of no account
abbrev pub get_header : Text → Dict → Option Text
get_header k [] = none
get_header k ((j, v) ∷ hs) = if text_eq (lower j) k then some v else get_header k hs

unfoldable pub enter_inflight : Text → AppState → AppState
unfolding enter ◌+ℤ◌
enter_inflight uuid a = record {
  inflight_total = a.inflight_total +ℤ pos 1;
  inflight_per = enter uuid a.inflight_per;
}

-- The `finally` block.
unfoldable pub leave_inflight : Text → AppState → AppState
unfolding leave ◌-ℤ◌
leave_inflight uuid a = record {
  inflight_total = a.inflight_total -ℤ pos 1;
  inflight_per = leave uuid a.inflight_per;
}

-- The checks up to the slot: a refusal, or the record and the state with the slot taken.
pub data Gate : Type 0 where
  refused : Reply → Gate
  admitted : Record → AppState → Gate

module _ (limits : Limits) where
  abbrev pub is_full : Text → AppState → Bool
  is_full uuid a =
      leb_ℤ limits.max_inflight a.inflight_total
      || leb_ℤ limits.max_inflight_per_uuid (get_or uuid (pos 0) a.inflight_per)

  abbrev pub gate_record : Text → Option Record → AppState → Gate
  gate_record uuid none a = refused (error_reply 404 (codes "unknown instance"))
  gate_record uuid (some r) a =
      if is_running r.status
      then if is_full uuid a
        then refused (error_reply 429 (codes "too many concurrent requests"))
        else admitted r (enter_inflight uuid a)
      else refused (
          error_reply 503
            (codes "instance not ready (status: " ++ status_text r.status ++ codes ")"))

  unfoldable pub gate : Text → Registry → AppState → Gate
  gate uuid reg a = gate_record uuid (get_record uuid reg) a

-- `client.request(method, target, content, headers, params)`
abbrev pub Upstream : Type 0
Upstream = Text → Text → List ℕ → Dict → Dict → Result UpstreamResponse

unfoldable pub target_of : Config → Record → Text → Text
unfolding text_of_int
target_of cfg r path =
    codes "http://"
    ++ name_or_none r.container_name
    ++ b':' ∷ text_of_int cfg.instance_rpc_port
    ++ b'/' ∷ path

abbrev pub is_http_error : ExceptionKind → Bool
is_http_error http_error = true
is_http_error _ = false

abbrev pub reply_of : Result UpstreamResponse → Result Reply
reply_of (ok u) = ok (
    response u.content u.status_code (copy_headers [] u.headers)
      (get_header (codes "content-type") u.headers))
reply_of (raised e) =
    if is_http_error e.kind then ok (error_reply 502 (codes "instance unreachable")) else raised e

-- The `try` block.
unfoldable pub ask_instance : Config → Upstream → Record → Text → Request → Result Reply
unfolding target_of copy_headers
ask_instance cfg upstream r path request = request.body >>= λ content. reply_of (
    upstream request.method (target_of cfg r path) content (copy_headers [] request.headers)
      request.query_params)

-- A whole request; `meanwhile` is what other requests do to the state during the waits.
abbrev pub after_gate :
    Config
    → Upstream
    → (AppState → AppState)
    → Text
    → Text
    → Request
    → AppState
    → Gate
    → Result Reply × AppState
after_gate cfg upstream meanwhile uuid path request a (refused reply) = (ok reply, a)
after_gate cfg upstream meanwhile uuid path request a (admitted r a') =
    (ask_instance cfg upstream r path request, leave_inflight uuid (meanwhile a'))

unfoldable pub forward :
    Config
    → Limits
    → Registry
    → Upstream
    → (AppState → AppState)
    → Text
    → Text
    → Request
    → AppState
    → Result Reply × AppState
unfolding gate enter_inflight leave_inflight ask_instance
forward cfg limits reg upstream meanwhile uuid path request a =
    after_gate cfg upstream meanwhile uuid path request a (gate limits uuid reg a)
