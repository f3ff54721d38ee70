-- ===== src/Proxy/Isolation.antt =====
-- Where the routes send a request, and with which headers.
use sui_ctf_infrastructure.Proxy.App.{Route, root, health, proxy_root, proxy_path, serve}
use mathlib.Core.Path.{fun_ext}
use sui_ctf_infrastructure.Proxy.Forward.{
  Limits, AppState, Request, Reply, is_forwarded, put_header, copy_headers, leave_inflight, Gate,
  refused, admitted, gate_record, gate, Upstream, target_of, reply_of, ask_instance, after_gate,
  forward,
}
use sui_ctf_infrastructure.Base.{
  Bool-cases, All, ℕ, ◌≡◌, refl, ap, fun_ext, inl, inr, true, Option, none, some, List, [], ◌∷◌,
  arith,
}
use sui_ctf_infrastructure.Text.{Text, text_eq}
use sui_ctf_infrastructure.Python.Errors.{Result, ◌>>=◌}
use sui_ctf_infrastructure.Config.{Config}
use sui_ctf_infrastructure.Registry.{Registry, Record, get_record}
use sui_ctf_infrastructure.Docker.Sdk.{Dict}
use sui_ctf_infrastructure.Instances.Control.{is_running}

-- No hop-by-hop header among them.
abbrev pub HasNoHop : Dict → Type 0
HasNoHop hs = All (λ (h : Text × Text). is_forwarded h.0 ≡ true) hs

put_header-HasNoHop :
    (k v : Text) (acc : Dict) → is_forwarded k ≡ true → HasNoHop acc → HasNoHop (put_header k v acc)
unfolding put_header
put_header-HasNoHop k v [] ok_key h = (ok_key, tt)
put_header-HasNoHop k v ((j, w) ∷ acc) ok_key h = elim (Bool-cases (text_eq j k)) [
  | inl same ↦ rw same (h.0, h.1)
  | inr other ↦ rw other (h.0, put_header-HasNoHop k v acc ok_key h.1)
]

copy_headers-HasNoHop : (hs acc : Dict) → HasNoHop acc → HasNoHop (copy_headers acc hs)
unfolding copy_headers
copy_headers-HasNoHop [] acc h = h
copy_headers-HasNoHop ((k, v) ∷ hs) acc h = elim (Bool-cases (is_forwarded k)) [
  | inl goes ↦
      rw goes (copy_headers-HasNoHop hs (put_header k v acc) (put_header-HasNoHop k v acc goes h))
  | inr stays ↦ rw stays (copy_headers-HasNoHop hs acc h)
]

module _ (cfg : Config) (limits : Limits) (reg : Registry) (uuid path : Text)
    (request : Request) where
  -- The target is the path that was asked for, at the container of the uuid, whose instance runs.
  abbrev pub IsOwnTarget : Text → Type 0
  IsOwnTarget target =
      (r : Record) × (get_record uuid reg ≡ some r)
      × (is_running r.status ≡ true)
      × (target ≡ target_of cfg r path)

  -- Two servers that answer alike the calls of this target without hop-by-hop headers.
  abbrev pub AnswerAlike : Upstream → Upstream → Type 0
  AnswerAlike up up' =
      (method target : Text) (content : List ℕ) (headers params : Dict)
      → IsOwnTarget target
      → HasNoHop headers
      → up method target content headers params ≡ up' method target content headers params

  gate_record-own :
      (o : Option Record) (a a' : AppState) (r : Record)
      → gate_record limits uuid o a ≡ admitted r a'
      → (o ≡ some r) × (is_running r.status ≡ true)
  gate_record-own none a a' r h = cc
  gate_record-own (some x) a a' r h = ground (arith, h)

  ask_instance-alike :
      (up up' : Upstream) (r : Record)
      → AnswerAlike up up'
      → get_record uuid reg ≡ some r
      → is_running r.status ≡ true
      → ask_instance cfg up r path request ≡ ask_instance cfg up' r path request
  unfolding ask_instance
  ask_instance-alike up up' r alike found live =
      ap (λ (f : List ℕ → Result Reply). request.body >>= f)
        (fun_ext λ content. ap reply_of (
          alike request.method (target_of cfg r path) content (copy_headers [] request.headers)
            request.query_params (r, found, live, refl)
            (copy_headers-HasNoHop request.headers [] tt)))

  after_gate-alike :
      (up up' : Upstream) (meanwhile : AppState → AppState) (a : AppState) (g : Gate)
      → AnswerAlike up up'
      → gate limits uuid reg a ≡ g
      → after_gate cfg up meanwhile uuid path request a g
        ≡ after_gate cfg up' meanwhile uuid path request a g
  unfolding gate
  after_gate-alike up up' meanwhile a (refused reply) alike e = refl
  after_gate-alike up up' meanwhile a (admitted r a') alike e =
      let (found, live) = gate_record-own (get_record uuid reg) a a' r e in
      ap (λ (x : Result Reply). (x, leave_inflight uuid (meanwhile a')))
        (ask_instance-alike up up' r alike found live)

  -- A forwarded request asks the container of its own uuid only.
  forward-isolated :
      (up up' : Upstream) (meanwhile : AppState → AppState) (a : AppState)
      → AnswerAlike up up'
      → forward cfg limits reg up meanwhile uuid path request a
        ≡ forward cfg limits reg up' meanwhile uuid path request a
  unfolding forward
  forward-isolated up up' meanwhile a alike =
      after_gate-alike up up' meanwhile a (gate limits uuid reg a) alike refl

module _ (cfg : Config) (limits : Limits) (reg : Registry) (request : Request) where
  -- What a route may call: nothing, or the container of its uuid, at its path.
  abbrev pub IsReached : Route → Text → Type 0
  IsReached root target = ⊥
  IsReached health target = ⊥
  IsReached (proxy_root uuid) target = IsOwnTarget cfg limits reg uuid [] request target
  IsReached (proxy_path uuid path) target = IsOwnTarget cfg limits reg uuid path request target

  -- What comes of a request depends on nothing but the registry, the limits and what answers at the
  -- container of the uuid in its route, at the path behind that uuid, while its instance runs: if two
  -- networks answer alike the calls there that carry no hop-by-hop header, the request gets the same
  -- reply from both, and moves the counters alike. The two routes of the service itself call nothing.
  pub serve-isolated :
      (up up' : Upstream) (meanwhile : AppState → AppState) (route : Route) (a : AppState)
      → ((method target : Text) (content : List ℕ) (headers params : Dict)
          → IsReached route target
          → HasNoHop headers
          → up method target content headers params ≡ up' method target content headers params)
      → serve cfg limits reg up meanwhile route request a
        ≡ serve cfg limits reg up' meanwhile route request a
  unfolding serve
  serve-isolated up up' meanwhile root a alike = refl
  serve-isolated up up' meanwhile health a alike = refl
  serve-isolated up up' meanwhile (proxy_root uuid) a alike =
      forward-isolated cfg limits reg uuid [] request up up' meanwhile a alike
  serve-isolated up up' meanwhile (proxy_path uuid path) a alike =
      forward-isolated cfg limits reg uuid path request up up' meanwhile a alike
