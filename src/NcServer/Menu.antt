-- ===== src/NcServer/Menu.antt =====
-- The menu loop and its three actions.
use sui_ctf_infrastructure.Base.{
  if◌then◌else◌, length, ℤ, pos, ltb_ℤ, ℕ, zero, suc, ◌/◌, Bool, true, false, Option, none, some,
  List, [], ◌∷◌, ◌++◌,
}
use sui_ctf_infrastructure.Text.{Text, codes, text_eq, one_of, is_empty, strip}
use sui_ctf_infrastructure.Text.Numbers.{text_of_int}
use sui_ctf_infrastructure.Python.Errors.{ExceptionKind, Exception, Result, ok, raised}
use sui_ctf_infrastructure.Python.Values.{Value}
use sui_ctf_infrastructure.Python.Show.{str_value}
use sui_ctf_infrastructure.Pow.{PowChallenge, new_challenge, verify, solver_command}
use sui_ctf_infrastructure.Config.{Config}
use sui_ctf_infrastructure.Docker.Sdk.{Host}
use sui_ctf_infrastructure.Docker.Manager.{DockerManager}
use sui_ctf_infrastructure.SuiRpc.Client.{HttpClient}
use sui_ctf_infrastructure.Challenge.Manifest.{Challenge}
use sui_ctf_infrastructure.Instances.Tasks.{State, seconds_left}
use sui_ctf_infrastructure.Instances.Values.{PlayerView}
use sui_ctf_infrastructure.Instances.Spawn.{spawn}
use sui_ctf_infrastructure.Instances.Control.{kill, get_flag}
use sui_ctf_infrastructure.NcServer.Connections.{Caps, NcState, peer_ip, accept, disconnect}
use sui_ctf_infrastructure.NcServer.Session.{
  Session, Action, pure, manage, of_result, ◌>>=◌, ◌>>◌, send, readline, heartbeat,
}
use sui_ctf_infrastructure.NcServer.Format.{menu, banner, format_instance}

unfoldable pub pow_prompt : PowChallenge → Text
unfolding solver_command text_of_int
pow_prompt pc =
    codes
      "\n== proof of work ==\nSolve this and paste the resulting number to spawn an instance.\nRun:\n\n  "
    ++ solver_command pc
    ++ codes "\n\n(finds a nonce with "
    ++ text_of_int pc.difficulty
    ++ codes " leading zero bits; ~a few seconds)\nsolution: "

abbrev pub is_spawn_error : ExceptionKind → Bool
is_spawn_error ExceptionKind.spawn_error = true
is_spawn_error _ = false

-- What a player is told of a failed spawn.
abbrev pub failure_text : Exception → Text
failure_text e =
    if is_spawn_error e.kind
    then codes "\n\n[!] " ++ e.message ++ codes "\n"
    else codes "\n\n[!] Internal error: " ++ e.message ++ codes "\n"

abbrev pub spawning_text : Text
spawning_text =
    codes
      "\n[*] Spawning your isolated Sui network + deploying the challenge.\n    This can take up to ~2 minutes. Please wait"

abbrev pub uuid_prompt : Text
uuid_prompt = codes "enter your instance uuid: "

-- What a choice asks for.
pub data Choice : Type 0 where
  choose_spawn choose_kill choose_flag choose_quit choose_nothing choose_other : Choice

unfoldable pub choice_of : Text → Choice
choice_of t =
    if text_eq t (codes "1")
    then choose_spawn
    else if text_eq t (codes "2")
    then choose_kill
    else if text_eq t (codes "3")
    then choose_flag
    else if one_of t (codes "q" ∷ codes "quit" ∷ codes "exit" ∷ codes "0" ∷ [])
    then choose_quit
    else if is_empty t
    then choose_nothing
    else choose_other

module _ {W : Type 0} (host : Host W) (http : HttpClient W) (sha256 : List ℕ → List ℕ)
    (cfg : Config) (docker : DockerManager) (ch : Challenge) where
  open host use {token_hex, time}

  -- `secrets.token_hex(12)`
  unfoldable pub draw_token : Action W Text
  draw_token s =
      let (t, w) = token_hex 12 s.manager.world in
      (ok t, record s { manager = record { reg = s.manager.reg; world = w } })

  abbrev pub is_solved : PowChallenge → Option Text → Bool
  is_solved pc none = false
  is_solved pc (some t) = verify sha256 pc (strip t)

  abbrev pub tell_gate : Bool → Action W Bool
  tell_gate true = send host (codes "[+] proof-of-work accepted.\n") >> pure true
  tell_gate false = send host (codes "\n[!] proof-of-work failed or timed out.\n") >> pure false

  abbrev pub challenge_player : Action W Bool
  challenge_player = do
    token ← draw_token
    let pc = new_challenge token cfg.pow_difficulty_bits
    send host (pow_prompt pc)
    sol ← readline host
    tell_gate (is_solved pc sol)

  abbrev pub gate_if : Bool → Action W Bool
  gate_if true = challenge_player
  gate_if false = pure true

  -- The gate: whether the spawn may go on.
  unfoldable pub pow_gate : Action W Bool
  unfolding draw_token
  pow_gate = gate_if (ltb_ℤ (pos 0) cfg.pow_difficulty_bits)

  abbrev pub tell_spawned : Result PlayerView → Action W (Unit {0})
  tell_spawned (raised e) = send host (failure_text e)
  tell_spawned (ok view) = do
    text ← of_result (format_instance view)
    send host (codes "\n" ++ text)

  -- The pauses of ten seconds that have passed between two times.
  abbrev pub pauses_between : ℤ → ℤ → ℕ
  pauses_between begin now = seconds_left now begin / 10

  -- `mgr.spawn(ip)`, with the heartbeat beside it until it returns or raises
  unfoldable pub spawn_beside : Text → Action W (Result PlayerView)
  unfolding heartbeat seconds_left
  spawn_beside ip s =
      let (r, m) = spawn host cfg docker ch ip s.manager in
      (
        ok r,
        heartbeat (pauses_between (time s.manager.world) (time m.world)) (record s { manager = m }),
      )

  unfoldable pub spawn_for : Text → Action W (Unit {0})
  unfolding spawn_beside
  spawn_for ip = do send host spawning_text; result ← spawn_beside ip; tell_spawned result

  abbrev pub spawn_if : Text → Bool → Action W (Unit {0})
  spawn_if ip true = spawn_for ip
  spawn_if ip false = pure tt

  -- `_do_spawn`
  unfoldable pub do_spawn : Text → Action W (Unit {0})
  unfolding pow_gate spawn_for
  do_spawn ip = do passed ← pow_gate; spawn_if ip passed

  abbrev pub kill_named : Option Text → Action W (Unit {0})
  kill_named none = pure tt
  kill_named (some uuid) = do
    done ← manage (kill host (strip uuid))
    send host (if done then codes "[+] instance destroyed.\n" else codes "[!] no such instance.\n")

  -- `_do_kill`
  unfoldable pub do_kill : Action W (Unit {0})
  do_kill = do send host uuid_prompt; uuid ← readline host; kill_named uuid

  abbrev pub flag_text : Bool × Value → Text
  flag_text (true, msg) = codes "\n[+] Solved! flag: " ++ str_value msg ++ codes "\n"
  flag_text (false, msg) = codes "\n[!] " ++ str_value msg ++ codes "\n"

  abbrev pub ask_flag : Text → State W → Result (Bool × Value) × State W
  ask_flag uuid m = let (answer, m') = get_flag host http cfg ch uuid m in (ok answer, m')

  abbrev pub flag_named : Option Text → Action W (Unit {0})
  flag_named none = pure tt
  flag_named (some uuid) = do answer ← manage (ask_flag (strip uuid)); send host (flag_text answer)

  -- `_do_flag`
  unfoldable pub do_flag : Action W (Unit {0})
  do_flag = do send host uuid_prompt; uuid ← readline host; flag_named uuid

  -- One choice; the result says whether the loop goes on.
  unfoldable pub act : Text → Choice → Action W Bool
  unfolding do_spawn do_kill do_flag
  act ip choose_spawn = do_spawn ip >> pure true
  act ip choose_kill = do_kill >> pure true
  act ip choose_flag = do_flag >> pure true
  act ip choose_quit = send host (codes "bye!\n") >> pure false
  act ip choose_nothing = pure true
  act ip choose_other = send host (codes "invalid choice.\n") >> pure true

  abbrev pub act_on : Text → Option Text → Action W Bool
  act_on ip none = pure false
  act_on ip (some t) = act ip (choice_of (strip t))

  -- One round of the loop.
  unfoldable pub round : Text → Action W Bool
  unfolding act
  round ip = do send host menu; choice ← readline host; act_on ip choice

  abbrev pub after_choice :
      Action W (Unit {0}) → Result Bool × Session W → Result (Unit {0}) × Session W
  after_choice again (raised e, s) = (raised e, s)
  after_choice again (ok false, s) = (ok tt, s)
  after_choice again (ok true, s) = again s

  -- `while True`, for so many rounds at most
  unfoldable pub rounds : ℕ → Text → Action W (Unit {0})
  unfolding round
  rounds zero ip s = (ok tt, s)
  rounds (suc n) ip s = after_choice (rounds n ip) (round ip s)

  -- The `try` block: a round for each line, and one for the end of the input.
  unfoldable pub converse : Text → Action W (Unit {0})
  unfolding rounds
  converse ip s = (send host (banner ch) >>= λ _. rounds (suc (length s.inputs)) ip) s

  abbrev pub after_accept :
      Text → (NcState → NcState) → NcState → Session W → Option NcState → NcState × Session W
  after_accept ip meanwhile n s none =
      (n, (send host (codes "too many connections, try again shortly.\n") s).1)
  after_accept ip meanwhile n s (some n') = (disconnect ip (meanwhile n'), (converse ip s).1)

  -- `_handle`: the counters and the session after the connection; `meanwhile` is what other
  -- connections do to the counters. Every exception of the `try` block is caught.
  unfoldable pub handle :
      Caps → Option Text → (NcState → NcState) → NcState × Session W → NcState × Session W
  unfolding converse accept disconnect
  handle caps peer meanwhile (n, s) =
      after_accept (peer_ip peer) meanwhile n s (accept caps (peer_ip peer) n)
