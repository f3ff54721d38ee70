-- ===== src/Probe/Reads.antt =====
-- The columns that `check_solved` reads of an instance.
use sui_ctf_infrastructure.Python.Errors.{Result, ok, raised, ◌>>=◌}
use sui_ctf_infrastructure.Python.Operators.{index_value}
use sui_ctf_infrastructure.Challenge.Manifest.{Challenge}
use mathlib.Core.Path.{fun_ext}
use sui_ctf_infrastructure.Base.{◌≡◌, refl, ap, ◌∙◌, fun_ext, Option, none, some, [], ◌∷◌}
use sui_ctf_infrastructure.Text.{Text, codes}
use sui_ctf_infrastructure.Python.Values.{Value, str, get_default}
use sui_ctf_infrastructure.Registry.{Record}
use sui_ctf_infrastructure.SuiRpc.Client.{HttpClient, SuiRpc}
use sui_ctf_infrastructure.Challenge.Solve.{
  sender_of, full_event_type, check_state, query_event, event_query, check_package, check_event,
  check_kind, check_solved,
}

abbrev text_or_empty : Option Text → Text
text_or_empty o = elim o [ none ↦ [] | some s ↦ s ]

module _ (row row' : Record) (same_address : row.player_address ≡ row'.player_address) where
  sender_of-reads : (v : Value) → sender_of v row ≡ sender_of v row'
  unfolding sender_of
  sender_of-reads v = rw same_address refl

  module _ {W : Type 0} (http : HttpClient W) (same_package : row.package_id ≡ row'.package_id)
      (same_objects : row.objects ≡ row'.objects) where
    check_state-reads :
        (rpc : SuiRpc) (spec : Value) (w : W)
        → check_state http rpc spec row w ≡ check_state http rpc spec row' w
    unfolding check_state
    check_state-reads rpc spec w = rw same_objects refl

    event_query-reads :
        (spec : Value) (pkg : Text) → event_query http spec row pkg ≡ event_query http spec row' pkg
    event_query-reads spec pkg =
        ap
          (λ (who : Value → Value). index_value spec (str (codes "event_type")) >>= λ suffix.
            full_event_type pkg suffix >>= λ full_type.
            get_default spec (codes "sender") (str (codes "player")) >>= λ v. ok (full_type, who v))
          (fun_ext sender_of-reads)

    check_package-reads :
        (rpc : SuiRpc) (spec : Value) (pkg : Text) (w : W)
        → check_package http rpc spec row pkg w ≡ check_package http rpc spec row' pkg w
    check_package-reads rpc spec [] w = refl
    check_package-reads rpc spec (c ∷ s) w =
        ap (λ (q : Result (Text × Value)). query_event http rpc q w)
          (event_query-reads spec (c ∷ s))

    check_event-reads :
        (rpc : SuiRpc) (spec : Value) (w : W)
        → check_event http rpc spec row w ≡ check_event http rpc spec row' w
    unfolding check_event
    check_event-reads rpc spec w =
        ap (λ (o : Option Text). check_package http rpc spec row (text_or_empty o) w) same_package
        ∙ check_package-reads rpc spec (text_or_empty row'.package_id) w

    check_kind-reads :
        (ch : Challenge) (rpc : SuiRpc) (kind : Result Value) (w : W)
        → check_kind http ch rpc row kind w ≡ check_kind http ch rpc row' kind w
    check_kind-reads ch rpc (raised e) w = refl
    check_kind-reads ch rpc (ok kind) w =
        rw (check_state-reads rpc ch.solve w, check_event-reads rpc ch.solve w) refl

    -- Two records with the same package, objects and player's address are checked alike.
    pub check_solved-reads :
        (ch : Challenge) (rpc : SuiRpc) (w : W)
        → check_solved http ch rpc row w ≡ check_solved http ch rpc row' w
    unfolding check_solved
    check_solved-reads ch rpc w = check_kind-reads ch rpc _ w
