-- ===== src/NcServer/Effects.antt =====
-- What a session, from its first line to its last, does to the table of instances.
use sui_ctf_infrastructure.NcServer.Connections.{Caps, NcState, peer_ip, accept}
use sui_ctf_infrastructure.Pow.{PowChallenge, new_challenge}
use sui_ctf_infrastructure.Instances.Capacity.{IsWithin}
use sui_ctf_infrastructure.Python.Errors.{Result, ok, raised}
use sui_ctf_infrastructure.NcServer.Session.{
  Session, Action, pure, manage, ◌>>=◌, send, readline, heartbeat-frame,
}
use sui_ctf_infrastructure.NcServer.Menu.{
  pow_prompt, spawning_text, Choice, choose_spawn, choose_kill, choose_flag, choose_quit,
  choose_nothing, choose_other, choice_of, draw_token, is_solved, tell_gate, gate_if, pow_gate,
  tell_spawned, spawn_beside, spawn_for, spawn_if, do_spawn, kill_named, do_kill, flag_named,
  do_flag, act, act_on, round, after_choice, rounds, converse, after_accept, handle,
}
use sui_ctf_infrastructure.NcServer.Format.{menu, banner, format_instance}
use sui_ctf_infrastructure.Base.{
  length, pos, ltb_ℤ, ℕ, zero, suc, Bool, true, false, Option, none, some, List,
}
use sui_ctf_infrastructure.Text.{Text, strip}
use sui_ctf_infrastructure.Config.{Config}
use sui_ctf_infrastructure.Registry.{Registry}
use sui_ctf_infrastructure.Docker.Sdk.{Host}
use sui_ctf_infrastructure.Docker.Manager.{DockerManager}
use sui_ctf_infrastructure.SuiRpc.Client.{HttpClient}
use sui_ctf_infrastructure.Challenge.Manifest.{Challenge}
use sui_ctf_infrastructure.Instances.Values.{PlayerView}
use sui_ctf_infrastructure.Instances.Spawn.{spawn}
use sui_ctf_infrastructure.Instances.Control.{kill}
use sui_ctf_infrastructure.Instances.Interleaving.{Writes, Writes-IsWithin}
use sui_ctf_infrastructure.Instances.Steps.{OthersWrite, Writes-trans, kill-Writes}
use sui_ctf_infrastructure.Instances.Methods.{OthersSpare, any_spawn-Writes, get_flag-Writes}
use sui_ctf_infrastructure.NcServer.Writing.{
  IsWriting, proceed-IsWriting, manage-IsWriting, send-IsWriting, say-IsWriting, readline-IsWriting,
  named-IsWriting,
}

module _ {W : Type 0} (host : Host W) (cfg : Config) (docker : DockerManager) (ch : Challenge)
    (others : OthersWrite host cfg docker ch) (http : HttpClient W) (sha256 : List ℕ → List ℕ) where
  tell_gate-IsWriting :
      (b : Bool) → IsWriting host cfg docker ch others (tell_gate host http sha256 cfg docker ch b)
  tell_gate-IsWriting true = say-IsWriting host cfg docker ch others _ true
  tell_gate-IsWriting false = say-IsWriting host cfg docker ch others _ false

  solution-IsWriting :
      (pc : PowChallenge)
      → IsWriting host cfg docker ch others (
          readline host >>= λ sol.
          tell_gate host http sha256 cfg docker ch
            (is_solved host http sha256 cfg docker ch pc sol))
  solution-IsWriting pc start s h =
      proceed-IsWriting host cfg docker ch others
        (λ sol.
          tell_gate host http sha256 cfg docker ch
            (is_solved host http sha256 cfg docker ch pc sol))
        start (readline host s) (readline-IsWriting host cfg docker ch others start s h)
        (λ sol. tell_gate-IsWriting (is_solved host http sha256 cfg docker ch pc sol))

  gate_if-IsWriting :
      (b : Bool) → IsWriting host cfg docker ch others (gate_if host http sha256 cfg docker ch b)
  unfolding draw_token
  gate_if-IsWriting true start s h =
      let (t, w) = host.token_hex 12 s.manager.world in
      let pc = new_challenge t cfg.pow_difficulty_bits in
      let s1 : Session W = record s { manager = record { reg = s.manager.reg; world = w } } in
      proceed-IsWriting host cfg docker ch others {A = Unit {0}} {B = Bool}
        (λ _. readline host >>= λ sol.
          tell_gate host http sha256 cfg docker ch
            (is_solved host http sha256 cfg docker ch pc sol))
        start (send host (pow_prompt pc) s1)
        (send-IsWriting host cfg docker ch others (pow_prompt pc) start s1 h)
        (λ _. solution-IsWriting pc)
  gate_if-IsWriting false start s h = h

  tell_spawned-IsWriting :
      (r : Result PlayerView)
      → IsWriting host cfg docker ch others (tell_spawned host http sha256 cfg docker ch r)
  tell_spawned-IsWriting (raised e) start s h = send-IsWriting host cfg docker ch others _ start s h
  tell_spawned-IsWriting (ok view) start s h =
      proceed-IsWriting host cfg docker ch others _ start (format_instance view, s) h
        (λ t. send-IsWriting host cfg docker ch others _)

  kill_named-IsWriting :
      (o : Option Text)
      → IsWriting host cfg docker ch others (kill_named host http sha256 cfg docker ch o)
  kill_named-IsWriting none start s h = h
  kill_named-IsWriting (some u) start s h =
      proceed-IsWriting host cfg docker ch others _ start (manage (kill host (strip u)) s)
        (manage-IsWriting host cfg docker ch others (kill host (strip u))
          (kill-Writes host cfg docker ch others (strip u)) start s h)
        (λ b. send-IsWriting host cfg docker ch others _)

  flag_named-IsWriting :
      (o : Option Text)
      → IsWriting host cfg docker ch others (flag_named host http sha256 cfg docker ch o)
  flag_named-IsWriting none start s h = h
  flag_named-IsWriting (some u) start s h = send-IsWriting host cfg docker ch others _ start _ (
      Writes-trans host cfg docker ch h
        (get_flag-Writes host cfg docker ch others http (strip u) s.manager))

  module _ (spare : OthersSpare host cfg docker ch) where
    spawn_if-IsWriting :
        (ip : Text) (b : Bool)
        → IsWriting host cfg docker ch others (spawn_if host http sha256 cfg docker ch ip b)
    unfolding spawn_for spawn_beside
    spawn_if-IsWriting ip true start s h =
        proceed-IsWriting host cfg docker ch others _ start (send host spawning_text s)
          (send-IsWriting host cfg docker ch others spawning_text start s h)
          λ _ start' s' h'.
            let (r, m) = spawn host cfg docker ch ip s'.manager in
            tell_spawned-IsWriting r start' _ (
              rw (heartbeat-frame _ (record s' { manager = m })).1 (
                Writes-trans host cfg docker ch h'
                  (any_spawn-Writes host cfg docker ch others spare ip s'.manager)))
    spawn_if-IsWriting ip false start s h = h

    do_spawn-IsWriting :
        (ip : Text)
        → IsWriting host cfg docker ch others (do_spawn host http sha256 cfg docker ch ip)
    unfolding do_spawn pow_gate
    do_spawn-IsWriting ip start s h =
        proceed-IsWriting host cfg docker ch others (spawn_if host http sha256 cfg docker ch ip)
          start (pow_gate host http sha256 cfg docker ch s)
          (gate_if-IsWriting (ltb_ℤ (pos 0) cfg.pow_difficulty_bits) start s h)
          (spawn_if-IsWriting ip)

    act-IsWriting :
        (ip : Text) (c : Choice)
        → IsWriting host cfg docker ch others (act host http sha256 cfg docker ch ip c)
    unfolding act do_kill do_flag
    act-IsWriting ip choose_spawn start s h =
        proceed-IsWriting host cfg docker ch others (λ _. pure true) start
          (do_spawn host http sha256 cfg docker ch ip s) (do_spawn-IsWriting ip start s h)
          (λ _ start' s' h'. h')
    act-IsWriting ip choose_kill start s h =
        proceed-IsWriting host cfg docker ch others (λ _. pure true) start
          (do_kill host http sha256 cfg docker ch s)
          (named-IsWriting host cfg docker ch others (kill_named host http sha256 cfg docker ch)
            kill_named-IsWriting start s h)
          (λ _ start' s' h'. h')
    act-IsWriting ip choose_flag start s h =
        proceed-IsWriting host cfg docker ch others (λ _. pure true) start
          (do_flag host http sha256 cfg docker ch s)
          (named-IsWriting host cfg docker ch others (flag_named host http sha256 cfg docker ch)
            flag_named-IsWriting start s h)
          (λ _ start' s' h'. h')
    act-IsWriting ip choose_quit start s h =
        say-IsWriting host cfg docker ch others _ false start s h
    act-IsWriting ip choose_nothing start s h = h
    act-IsWriting ip choose_other start s h =
        say-IsWriting host cfg docker ch others _ true start s h

    act_on-IsWriting :
        (ip : Text) (o : Option Text)
        → IsWriting host cfg docker ch others (act_on host http sha256 cfg docker ch ip o)
    act_on-IsWriting ip none start s h = h
    act_on-IsWriting ip (some t) start s h = act-IsWriting ip (choice_of (strip t)) start s h

    round-IsWriting :
        (ip : Text) → IsWriting host cfg docker ch others (round host http sha256 cfg docker ch ip)
    unfolding round
    round-IsWriting ip start s h =
        proceed-IsWriting host cfg docker ch others
          (λ _. readline host >>= act_on host http sha256 cfg docker ch ip) start (send host menu s)
          (send-IsWriting host cfg docker ch others menu start s h)
          λ _ start' s' h'.
            proceed-IsWriting host cfg docker ch others (act_on host http sha256 cfg docker ch ip)
              start' (readline host s') (readline-IsWriting host cfg docker ch others start' s' h')
              (act_on-IsWriting ip)

    after_choice-IsWriting :
        (again : Action W (Unit {0})) (start : Registry) (x : Result Bool × Session W)
        → IsWriting host cfg docker ch others again
        → Writes W cfg docker ch start x.1.manager.reg
        → Writes W cfg docker ch start
            (after_choice host http sha256 cfg docker ch again x).1.manager.reg
    after_choice-IsWriting again start (raised e, s) k h = h
    after_choice-IsWriting again start (ok false, s) k h = h
    after_choice-IsWriting again start (ok true, s) k h = k start s h

    rounds-IsWriting :
        (n : ℕ) (ip : Text)
        → IsWriting host cfg docker ch others (rounds host http sha256 cfg docker ch n ip)
    unfolding rounds
    rounds-IsWriting zero ip start s h = h
    rounds-IsWriting (suc n) ip start s h =
        after_choice-IsWriting (rounds host http sha256 cfg docker ch n ip) start
          (round host http sha256 cfg docker ch ip s) (rounds-IsWriting n ip)
          (round-IsWriting ip start s h)

    converse-IsWriting :
        (ip : Text)
        → IsWriting host cfg docker ch others (converse host http sha256 cfg docker ch ip)
    unfolding converse
    converse-IsWriting ip start s h =
        proceed-IsWriting host cfg docker ch others
          (λ _. rounds host http sha256 cfg docker ch (suc (length s.inputs)) ip) start
          (send host (banner ch) s) (send-IsWriting host cfg docker ch others (banner ch) start s h)
          (λ _. rounds-IsWriting (suc (length s.inputs)) ip)

    after_accept-Writes :
        (ip : Text) (meanwhile : NcState → NcState) (n : NcState) (s : Session W)
        (o : Option NcState)
        → Writes W cfg docker ch s.manager.reg
            (after_accept host http sha256 cfg docker ch ip meanwhile n s o).1.manager.reg
    after_accept-Writes ip meanwhile n s none =
        send-IsWriting host cfg docker ch others _ s.manager.reg s Writes.here
    after_accept-Writes ip meanwhile n s (some n') =
        converse-IsWriting ip s.manager.reg s Writes.here

    -- Whatever a client sends, and however its session ends, the session changes the table by writes
    -- alone, its own and those of the others: so the caps hold after it if they held before. The other
    -- tasks write what they may, and reserve, publish and end instances of their own, but leave the row
    -- of a uuid alone that this session can draw, while it is starting.
    pub handle-Writes :
        (caps : Caps) (peer : Option Text) (meanwhile : NcState → NcState) (n : NcState)
        (s : Session W)
        → Writes W cfg docker ch s.manager.reg
            (handle host http sha256 cfg docker ch caps peer meanwhile (n, s)).1.manager.reg
          × (IsWithin cfg s.manager.reg
              → IsWithin cfg
                  (handle host http sha256 cfg docker ch caps peer meanwhile (n, s)).1.manager.reg)
    unfolding handle
    handle-Writes caps peer meanwhile n s =
        let all = after_accept-Writes (peer_ip peer) meanwhile n s (accept caps (peer_ip peer) n) in
        (all, λ v. Writes-IsWithin W cfg docker ch s.manager.reg _ v all)
