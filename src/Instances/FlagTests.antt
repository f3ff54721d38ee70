-- ===== src/Instances/FlagTests.antt =====
-- A flag that is given: the win condition is an event, and the instance's RPC has one.
use sui_ctf_infrastructure.Python.Operators.{contains, index_value}
use sui_ctf_infrastructure.Base.{ℕ, ◌+◌, ◌≡◌, refl, ◌↔◌, Bool, true, false, some, [], ◌∷◌}
use sui_ctf_infrastructure.Text.{codes, text_discrete}
use sui_ctf_infrastructure.Python.Errors.{ok}
use sui_ctf_infrastructure.Python.Values.{
  Value, str, arr, obj, nil, cons, end, field, get, get_default, truthy,
}
use sui_ctf_infrastructure.Registry.{running, fetch, get_record}
use sui_ctf_infrastructure.Registry.Tests.{small_row}
use sui_ctf_infrastructure.Docker.Tests.{small_host}
use sui_ctf_infrastructure.SuiRpc.Client.{
  HttpClient, result_of, events_of, matches_sender, call, query_event_exists,
}
use sui_ctf_infrastructure.Challenge.Manifest.{Challenge}
use sui_ctf_infrastructure.Challenge.Solve.{sender_of, full_event_type, check_event, check_solved}
use sui_ctf_infrastructure.Instances.Tasks.{State, to_thread}
use sui_ctf_infrastructure.Instances.Control.{get_flag}
use sui_ctf_infrastructure.Instances.BootTests.{small_config, small_challenge}
use sui_ctf_infrastructure.Instances.Secrecy.{IsSolved, get_flag-IsSolved}

-- Every query of events finds one.
abbrev pub eventful : HttpClient ℕ
eventful = record {
  post = λ timeout url payload w. (
    ok (record {
      raise_for_status = ok tt;
      json = ok (
          obj (
            field (codes "result")
              (obj (
                field (codes "data")
                  (arr (cons (obj (field (codes "sender") (str (codes "0xa")) end)) nil)) end))
              end));
    }),
    w + 1000,
  );
}

abbrev event_challenge : Challenge
event_challenge = record small_challenge {
  solve = obj (
      field (codes "type") (str (codes "event")) (
        field (codes "event_type") (str (codes "::pool::Drained"))
          (field (codes "sender") (str (codes "any")) end)));
}

abbrev playing : State ℕ
playing = record {
  reg =
      record (small_row (codes "u1") (codes "10.0.0.1") running) { package_id = some (codes "0xp") }
      ∷ [];
  world = 2_000_000;
}

abbrev given : (Bool × Value) × State ℕ
given = get_flag small_host eventful small_config event_challenge (codes "u1") playing

flag-given : given.0 ≡ (true, str (codes "flag"))
unfolding get_flag get_record fetch text_discrete to_thread check_solved get_default check_event
    full_event_type sender_of query_event_exists call result_of events_of matches_sender index_value
    contains get truthy
flag-given = refl

get_flag-IsSolved_example :
    ((given.0.0 ≡ true)
      ↔ IsSolved small_host eventful small_config event_challenge (codes "u1") playing)
    × (given.0.0 ≡ true → given.0.1 ≡ str (codes "flag"))
    × ((f : Value)
        → given.0.0 ≡ false
        → get_flag small_host eventful small_config
            (record event_challenge { flag = f })
            (codes "u1")
            playing
          ≡ given)
get_flag-IsSolved_example =
    get_flag-IsSolved small_host eventful small_config event_challenge (codes "u1") playing
