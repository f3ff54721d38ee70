-- ===== src/Proxy/Inflight.antt =====
-- The slots of the proxy, over every interleaving of requests.
use sui_ctf_infrastructure.Base.{
  length, Member, pos, pos_part, ◌≤◌, ◌≡◌, refl, sym, subst, false, Option, none, some, List, [],
  ◌∷◌, arith,
}
use sui_ctf_infrastructure.Text.{Text}
use sui_ctf_infrastructure.Counters.{
  lookup, count, close_one, count-close_one, length-close_one, Tracks, enter-Tracks, leave-Tracks,
}
use sui_ctf_infrastructure.Registry.{running, Registry, Record, get_record}
use sui_ctf_infrastructure.Proxy.Forward.{
  Limits, AppState, start_state, Reply, enter_inflight, leave_inflight, refused, admitted, is_full,
  gate_record, gate,
}

-- The state with the uuids of the requests that hold a slot.
pub record System : Type 0 where
  pub app : AppState
  pub inflight : List Text

-- A request is refused, takes a slot at some table, or gives its slot back; in any order.
pub data Step (limits : Limits) (s t : System) : Type 0 where
  refuse :
      (uuid : Text) (reg : Registry) (reply : Reply)
      → gate limits uuid reg s.app ≡ refused reply
      → t ≡ s
      → Step limits s t
  start :
      (uuid : Text) (reg : Registry) (r : Record) (a : AppState)
      → gate limits uuid reg s.app ≡ admitted r a
      → t ≡ record { app = a; inflight = uuid ∷ s.inflight }
      → Step limits s t
  finish :
      (uuid : Text)
      → Member uuid s.inflight
      → t ≡ record { app = leave_inflight uuid s.app; inflight = close_one uuid s.inflight }
      → Step limits s t

pub data Reach (limits : Limits) : System → Type 0 where
  here : Reach limits (record { app = start_state; inflight = [] })
  next : {s t : System} → Reach limits s → Step limits s t → Reach limits t

-- The counters tell what is in flight, and both limits hold.
pub record IsBounded (limits : Limits) (s : System) : Type 0 where
  pub total : s.app.inflight_total ≡ pos (length s.inflight)
  pub per : Tracks s.inflight s.app.inflight_per
  pub below_total : length s.inflight ≤ pos_part limits.max_inflight
  pub below_per : (k : Text) → count k s.inflight ≤ pos_part limits.max_inflight_per_uuid

gate_record-admitted :
    (limits : Limits) (uuid : Text) (o : Option Record) (a : AppState) (r : Record) (a' : AppState)
    → gate_record limits uuid o a ≡ admitted r a'
    → (o ≡ some r)
      × (r.status ≡ running)
      × (is_full limits uuid a ≡ false)
      × (a' ≡ enter_inflight uuid a)
gate_record-admitted limits uuid none a r a' e = cc
gate_record-admitted limits uuid (some q) a r a' e = ground arith

-- What an admission has checked.
pub gate-admitted :
    (limits : Limits) (uuid : Text) (reg : Registry) (a : AppState) (r : Record) (a' : AppState)
    → gate limits uuid reg a ≡ admitted r a'
    → (get_record uuid reg ≡ some r)
      × (r.status ≡ running)
      × (is_full limits uuid a ≡ false)
      × (a' ≡ enter_inflight uuid a)
unfolding gate
gate-admitted limits uuid reg a r a' e =
    gate_record-admitted limits uuid (get_record uuid reg) a r a' e

start-IsBounded :
    (limits : Limits) (uuid : Text) (s : System)
    → is_full limits uuid s.app ≡ false
    → IsBounded limits s
    → IsBounded limits (record { app = enter_inflight uuid s.app; inflight = uuid ∷ s.inflight })
unfolding enter_inflight
start-IsBounded limits uuid s room v = record {
  total = ground (arith, v.total);
  per = enter-Tracks uuid s.inflight s.app.inflight_per v.per;
  below_total = ground (arith, v.total);
  below_per = λ k. ground (arith, v.below_per k, v.per uuid);
}

finish-IsBounded :
    (limits : Limits) (uuid : Text) (s : System)
    → Member uuid s.inflight
    → IsBounded limits s
    → IsBounded limits
        (record { app = leave_inflight uuid s.app; inflight = close_one uuid s.inflight })
unfolding leave_inflight
finish-IsBounded limits uuid s m v = record {
  total = ground (arith, v.total, length-close_one uuid s.inflight m);
  per = leave-Tracks uuid s.inflight s.app.inflight_per m v.per;
  below_total = omega (arith, v.below_total, length-close_one uuid s.inflight m);
  below_per = λ k. ground (arith, v.below_per k, count-close_one k uuid s.inflight m);
}

Step-IsBounded :
    (limits : Limits) (s t : System) → Step limits s t → IsBounded limits s → IsBounded limits t
Step-IsBounded limits s t (refuse uuid reg reply e same) v = subst (IsBounded limits) (sym same) v
Step-IsBounded limits s t (start uuid reg r a e shape) v =
    let (_, _, room, entered) = gate-admitted limits uuid reg s.app r a e in
    subst (IsBounded limits) (sym shape) (rw entered (start-IsBounded limits uuid s room v))
Step-IsBounded limits s t (finish uuid m shape) v =
    subst (IsBounded limits) (sym shape) (finish-IsBounded limits uuid s m v)

-- In every state that interleaved requests can reach, the total and the dictionary count the
-- requests in flight, with no entry for a uuid that has none, and no more are in flight than the
-- limits allow, in all and for each uuid.
pub Reach-IsBounded : (limits : Limits) (s : System) → Reach limits s → IsBounded limits s
unfolding lookup
Reach-IsBounded limits s here = record {
  total = refl;
  per = λ k. refl;
  below_total = omega arith;
  below_per = λ k. omega arith;
}
Reach-IsBounded limits t (next {s = s} r st) =
    Step-IsBounded limits s t st (Reach-IsBounded limits s r)
