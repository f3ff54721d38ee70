-- ===== src/Proxy/Tests.antt =====
-- Requests to the proxy, and the theorems on them.
use sui_ctf_infrastructure.Docker.Sdk.{Dict}
use sui_ctf_infrastructure.Proxy.App.{proxy_root, serve}
use sui_ctf_infrastructure.Proxy.Isolation.{HasNoHop, IsReached, serve-isolated}
use sui_ctf_infrastructure.Base.{
  if◌then◌else◌, pos, ◌+ℤ◌, ℕ, ◌≡◌, refl, subst, ◌↔◌, none, some, List, [], ◌∷◌,
}
use sui_ctf_infrastructure.Text.{Text, codes, text_discrete, text_eq}
use sui_ctf_infrastructure.Python.Errors.{http_error, ok, raise}
use sui_ctf_infrastructure.Counters.{lookup, put, enter}
use sui_ctf_infrastructure.Config.{config_of}
use sui_ctf_infrastructure.Registry.{running, Record, row_to_dict, fetch, get_record}
use sui_ctf_infrastructure.Registry.Tests.{small_row, small_table}
use sui_ctf_infrastructure.Docker.Manager.{label}
use sui_ctf_infrastructure.Proxy.Forward.{
  Limits, AppState, start_state, Request, error_reply, copy_headers, enter_inflight, refused,
  admitted, gate, Upstream, target_of, forward,
}
use sui_ctf_infrastructure.Proxy.Inflight.{Step, here, next, IsBounded, Reach-IsBounded}
use sui_ctf_infrastructure.Proxy.Release.{IsSameLoad, forward-releases}
use sui_ctf_infrastructure.Proxy.Headers.{last_value, IsKeptBack, copy_headers_iff}

abbrev small_limits : Limits
small_limits = record { max_inflight = pos 2; max_inflight_per_uuid = pos 1 }

-- One request of `u1` is in flight.
abbrev one_inflight : AppState
one_inflight = record { inflight_total = pos 1; inflight_per = (codes "u1", pos 1) ∷ [] }

abbrev first_record : Record
first_record = row_to_dict (small_row (codes "u1") (codes "10.0.0.1") running)

first_admitted :
    gate small_limits (codes "u1") small_table start_state ≡ admitted first_record one_inflight
unfolding gate get_record fetch text_discrete enter_inflight enter lookup put ◌+ℤ◌
first_admitted = refl

second_refused :
    gate small_limits (codes "u1") small_table one_inflight
    ≡ refused (error_reply 429 (codes "too many concurrent requests"))
unfolding gate get_record fetch text_discrete lookup
second_refused = refl

Reach-IsBounded_example :
    IsBounded small_limits (record { app = one_inflight; inflight = codes "u1" ∷ [] })
Reach-IsBounded_example =
    Reach-IsBounded small_limits (record { app = one_inflight; inflight = codes "u1" ∷ [] })
      (next
        (next here
          (Step.start (codes "u1") small_table first_record one_inflight first_admitted refl))
        (Step.refuse (codes "u1") small_table
          (error_reply 429 (codes "too many concurrent requests")) second_refused refl))

-- The instance does not answer.
abbrev unreachable : Upstream
unreachable method target content headers params = raise http_error "connection refused"

abbrev post_request : Request
post_request = record {
  method = codes "POST";
  headers = (codes "Host", codes "x") ∷ (codes "Accept", codes "*/*") ∷ [];
  query_params = [];
  body = ok [];
}

forward-releases_example :
    IsSameLoad
      (forward
        (config_of (λ name. none))
        small_limits
        small_table
        unreachable
        (λ b. b)
        (codes "u1")
        []
        post_request
        start_state).1
      start_state
unfolding lookup
forward-releases_example =
    forward-releases (config_of (λ name. none)) small_limits small_table unreachable (codes "u1") []
      post_request start_state [] (λ k. refl)

copy_headers_iff_example :
    (label (codes "Accept") (copy_headers [] post_request.headers) ≡ some (codes "*/*")) ↔ (
      ¬ (IsKeptBack (codes "Accept"))
      × (last_value (codes "Accept") none post_request.headers ≡ some (codes "*/*")))
copy_headers_iff_example = copy_headers_iff (codes "Accept") (codes "*/*") post_request.headers

-- A network where something else answers.
abbrev elsewhere : Upstream
elsewhere method target content headers params =
    if text_eq target (codes "http://other:9000/")
    then ok (record { status_code = pos 200; headers = []; content = [] })
    else raise http_error "connection refused"

found_first : (r : Record) → get_record (codes "u1") small_table ≡ some r → first_record ≡ r
unfolding get_record fetch text_discrete
found_first r e = cc

alike_elsewhere :
    (method target : Text) (content : List ℕ) (headers params : Dict)
    → IsReached
        (config_of (λ name. none))
        small_limits
        small_table
        post_request
        (proxy_root (codes "u1"))
        target
    → HasNoHop headers
    → unreachable method target content headers params
      ≡ elsewhere method target content headers params
unfolding target_of text_discrete
alike_elsewhere method target content headers params (r, found, live, own) clean = rw own (
    subst
      (λ (q : Record).
        unreachable method (target_of (config_of (λ name. none)) q []) content headers params
        ≡ elsewhere method (target_of (config_of (λ name. none)) q []) content headers params)
      (found_first r found) refl)

serve-isolated_example :
    serve
      (config_of (λ name. none))
      small_limits
      small_table
      unreachable
      (λ b. b)
      (proxy_root (codes "u1"))
      post_request
      start_state
    ≡ serve
        (config_of (λ name. none))
        small_limits
        small_table
        elsewhere
        (λ b. b)
        (proxy_root (codes "u1"))
        post_request
        start_state
serve-isolated_example =
    serve-isolated (config_of (λ name. none)) small_limits small_table post_request unreachable
      elsewhere (λ b. b) (proxy_root (codes "u1")) start_state alike_elsewhere
