-- ===== src/SuiRpc/Events.antt =====
-- What a query of events has found.
use sui_ctf_infrastructure.Base.{Bool-cases, Member, pos, ◌≡◌, refl, inl, inr, true, List, [], ◌∷◌}
use sui_ctf_infrastructure.Text.{Text, codes}
use sui_ctf_infrastructure.Python.Errors.{ok, bind-ok}
use sui_ctf_infrastructure.Python.Values.{Value, null, bool, num, str, obj, get}
use sui_ctf_infrastructure.Python.Operators.{value_eq, iterate}
use sui_ctf_infrastructure.SuiRpc.Client.{
  HttpClient, SuiRpc, dict_of, any_sender, events_of, matches_sender, call, query_event_exists,
}

-- One of the events was sent by the sender.
abbrev pub HasSender : Value → List Value → Type 0
HasSender sender evs =
    (ev : Value) × (by : Value) × Member ev evs
    × (get ev (codes "sender") ≡ ok by)
    × (value_eq by sender ≡ true)

any_sender-HasSender :
    (sender : Value) (evs : List Value) → any_sender sender evs ≡ ok true → HasSender sender evs
unfolding any_sender
any_sender-HasSender sender [] e = cc
any_sender-HasSender sender (ev ∷ evs) e =
    let (by, e', read) = bind-ok _ (get ev (codes "sender")) e in
    elim (Bool-cases (value_eq by sender)) [
      | inl hit ↦ (ev, by, inl refl, read, hit)
      | inr miss ↦
          let (ev', by', m, read', hit) = any_sender-HasSender sender evs (rw miss at e') in
          (ev', by', inr m, read', hit)
    ]

-- The events of a decoded result, and one of them from the sender.
abbrev pub IsSentBy : Value → Value → Type 0
IsSentBy sender result =
    (evs : List Value) × (iterate (events_of result) ≡ ok evs) × HasSender sender evs

matches_sender-found :
    (a : Text) (events : Value)
    → matches_sender (str a) events ≡ ok true
    → (evs : List Value) × (iterate events ≡ ok evs) × HasSender (str a) evs
unfolding matches_sender
matches_sender-found a events e =
    let (evs, found, listed) = bind-ok (any_sender (str a)) (iterate events) e in
    (evs, listed, any_sender-HasSender (str a) evs found)

module _ {W : Type 0} (http : HttpClient W) where
  -- The RPC has answered the query of a type with a result that has an event of the sender.
  abbrev pub IsAnswered : SuiRpc → Text → Text → W → Type 0
  IsAnswered rpc event_type a w =
      (result : Value) × ((call http rpc "suix_queryEvents"
          (obj (dict_of (("MoveEventType", str event_type) ∷ []))
            ∷ null
            ∷ num (pos 50)
            ∷ bool true
            ∷ [])
          w).0
        ≡ ok result)
      × IsSentBy (str a) result

  pub query_event_exists-IsAnswered :
      (rpc : SuiRpc) (event_type a : Text) (w : W)
      → (query_event_exists http rpc event_type (str a) w).0 ≡ ok true
      → IsAnswered rpc event_type a w
  unfolding query_event_exists
  query_event_exists-IsAnswered rpc event_type a w e =
      let (result, found, called) =
        bind-ok (λ result. matches_sender (str a) (events_of result)) _ e in
      (result, called, matches_sender-found a (events_of result) found)
