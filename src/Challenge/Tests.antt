-- ===== src/Challenge/Tests.antt =====
-- Comparisons of a solve condition.
use sui_ctf_infrastructure.Challenge.Orders.{Holds}
use sui_ctf_infrastructure.Base.{pos, ℕ, ◌≡◌, refl, ◌↔◌, true, some}
use sui_ctf_infrastructure.Text.{Text, codes, text_discrete, ends_with, before}
use sui_ctf_infrastructure.Text.Numbers.{int_of_text}
use sui_ctf_infrastructure.Python.Errors.{Result, ok}
use sui_ctf_infrastructure.Python.Values.{
  Value, num, str, arr, obj, nil, cons, end, field, get, get_default, truthy,
}
use sui_ctf_infrastructure.Python.Operators.{contains, index_value, int_of_value, iterate}
use sui_ctf_infrastructure.Registry.{running, Record}
use sui_ctf_infrastructure.Registry.Tests.{small_row}
use sui_ctf_infrastructure.SuiRpc.Client.{
  Response, HttpClient, new_rpc, result_of, events_of, matches_sender, content_of, call,
  get_object_content, query_event_exists,
}
use sui_ctf_infrastructure.SuiRpc.Events.{IsAnswered}
use sui_ctf_infrastructure.Challenge.Solve.{
  op_lt, numbers, coerce_pair, apply_op, find_op, type_matches, find_object, compare_field,
  check_content, sender_of, full_event_type, check_state, check_event,
}
use sui_ctf_infrastructure.Challenge.Coerce.{IsCoerced, coerce_pair-IsCoerced}
use sui_ctf_infrastructure.Challenge.Sender.{IsAsked, check_event-IsAnswered}
use sui_ctf_infrastructure.Challenge.Field.{IsMet, check_state-IsMet}

-- The RPC gives a u64 as a text: it is compared as a number.
number-text : coerce_pair (str (codes "900")) (num (pos 1000)) ≡ ok (numbers (pos 900) (pos 1000))
unfolding coerce_pair int_of_value int_of_text
number-text = refl

coerce_pair-IsCoerced_example :
    (find_op (str (codes "lt")) ≡ ok (some op_lt))
    × IsCoerced (str (codes "900")) (num (pos 1000)) (numbers (pos 900) (pos 1000))
    × ((apply_op op_lt (numbers (pos 900) (pos 1000)) ≡ true)
        ↔ Holds op_lt (numbers (pos 900) (pos 1000)))
coerce_pair-IsCoerced_example =
    coerce_pair-IsCoerced op_lt (str (codes "900")) (num (pos 1000)) (numbers (pos 900) (pos 1000))
      number-text

-- A response with this result.
abbrev respond : Value → Result Response
respond v = ok (record { raise_for_status = ok tt; json = ok (obj (field (codes "result") v end)) })

-- An RPC with one event, of the sender 0xa.
abbrev event_node : HttpClient ℕ
event_node = record {
  post = λ timeout url payload w. (
    respond (
        obj (
          field (codes "data")
            (arr (cons (obj (field (codes "sender") (str (codes "0xa")) end)) nil)) end)),
    w,
  );
}

-- An RPC whose every object has a balance of 0.
abbrev drained_node : HttpClient ℕ
drained_node = record {
  post = λ timeout url payload w. (
    respond (
        obj (
          field (codes "data")
            (obj (
              field (codes "content")
                (obj (
                  field (codes "fields") (obj (field (codes "balance") (str (codes "0")) end)) end))
                end))
            end)),
    w,
  );
}

-- A player 0xa, whose instance has a pool.
abbrev player_record : Record
player_record = record {
  row = record (small_row (codes "u1") (codes "10.0.0.1") running) {
    player_address = some (codes "0xa");
    package_id = some (codes "0xp");
  };
  objects = arr (
      cons
        (obj (
          field (codes "type") (str (codes "0xp::pool::Pool<0x2::sui::SUI>"))
            (field (codes "objectId") (str (codes "0x7")) end)))
        nil);
}

abbrev event_spec : Value
event_spec = obj (
    field (codes "type") (str (codes "event"))
      (field (codes "event_type") (str (codes "::pool::Drained")) end))

abbrev state_spec : Value
state_spec = obj (
    field (codes "object_type") (str (codes "::pool::Pool"))
      (field (codes "field") (str (codes "balance")) (field (codes "value") (num (pos 0)) end)))

event_met :
    (check_event event_node (new_rpc (codes "http://n:9000/")) event_spec player_record 0).0
    ≡ ok true
unfolding check_event index_value full_event_type get_default sender_of query_event_exists call
    result_of contains get events_of matches_sender text_discrete truthy iterate
event_met = refl

check_event-IsAnswered_example :
    (t : Text) × IsAsked event_spec player_record t
    × IsAnswered event_node (new_rpc (codes "http://n:9000/")) t (codes "0xa") 0
unfolding get_default text_discrete
check_event-IsAnswered_example =
    check_event-IsAnswered event_node (new_rpc (codes "http://n:9000/")) event_spec player_record
      (codes "0xa") 0 refl refl event_met

state_met :
    (check_state drained_node (new_rpc (codes "http://n:9000/")) state_spec player_record 0).0
    ≡ ok true
unfolding check_state index_value find_object type_matches get_object_content check_content
    compare_field coerce_pair int_of_value int_of_text get_default call result_of contains get
    text_discrete truthy apply_op ends_with before content_of find_op iterate
state_met = refl

check_state-IsMet_example :
    IsMet drained_node (new_rpc (codes "http://n:9000/")) state_spec player_record 0
check_state-IsMet_example =
    check_state-IsMet drained_node (new_rpc (codes "http://n:9000/")) state_spec player_record 0
      state_met
