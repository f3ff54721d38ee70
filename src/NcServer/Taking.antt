-- ===== src/NcServer/Taking.antt =====
-- What the actions of a session, `_do_spawn`, `_do_kill` and `_do_flag`, do to its input.
use sui_ctf_infrastructure.Pow.{PowChallenge}
use sui_ctf_infrastructure.Instances.Values.{PlayerView}
use sui_ctf_infrastructure.NcServer.Format.{format_instance}
use sui_ctf_infrastructure.Instances.Spawn.{spawn}
use sui_ctf_infrastructure.Instances.Control.{kill}
use sui_ctf_infrastructure.Base.{
  length, pos, ltb_ℤ, ℕ, ◌≤◌, ◌≡◌, refl, ap, Bool, true, false, Option, none, some, List, [], ◌∷◌,
  arith,
}
use sui_ctf_infrastructure.Text.{Text, strip}
use sui_ctf_infrastructure.Python.Errors.{Result, ok, raised}
use sui_ctf_infrastructure.Config.{Config}
use sui_ctf_infrastructure.Docker.Sdk.{Host}
use sui_ctf_infrastructure.Docker.Manager.{DockerManager}
use sui_ctf_infrastructure.SuiRpc.Client.{HttpClient}
use sui_ctf_infrastructure.Challenge.Manifest.{Challenge}
use sui_ctf_infrastructure.NcServer.Session.{
  Input, line, silence, broken, Session, Action, pure, manage, proceed, ◌>>=◌, ◌>>◌, spend, send_if,
  send, read_from, readline, heartbeat-frame,
}
use sui_ctf_infrastructure.NcServer.Menu.{
  spawning_text, uuid_prompt, Choice, choose_spawn, choose_kill, choose_flag, choose_quit,
  choose_nothing, choose_other, draw_token, is_solved, tell_gate, gate_if, pow_gate, tell_spawned,
  spawn_beside, spawn_for, spawn_if, do_spawn, kill_named, do_kill, flag_named, do_flag, act,
}

-- However many inputs there are, no more are left.
abbrev pub IsShrinking : {W A : Type 0} → Action W A → Type 0
IsShrinking {W} m = (n : ℕ) (s : Session W) → length s.inputs ≤ n → length (m s).1.inputs ≤ n

module _ {W : Type 0} where
  proceed-IsShrinking :
      {A B : Type 0} (f : A → Action W B) (n : ℕ) (x : Result A × Session W)
      → length x.1.inputs ≤ n
      → ((a : A) → IsShrinking (f a))
      → length (proceed f x).1.inputs ≤ n
  proceed-IsShrinking f n (ok a, s) h k = k a n s h
  proceed-IsShrinking f n (raised e, s) h k = h

module _ {W : Type 0} (host : Host W) where
  send_if-inputs :
      (room : Option (Option ℕ)) (t : Text) (s : Session W)
      → (send_if host room t s).1.inputs ≡ s.inputs
  send_if-inputs none t s = refl
  send_if-inputs (some room) t s = refl

  pub send-IsShrinking : (t : Text) → IsShrinking (send host t)
  unfolding send
  send-IsShrinking t n s h = omega (arith, ap length (send_if-inputs (spend s.room) t s))

  say-IsShrinking : {A : Type 0} (t : Text) (a : A) → IsShrinking (send host t >> pure a)
  say-IsShrinking t a n s h =
      proceed-IsShrinking (λ _. pure a) n (send host t s) (send-IsShrinking t n s h)
        (λ _ n' s' h'. h')

  read_from-IsShrinking :
      (ins : List Input) (n : ℕ) (s : Session W)
      → ins ≡ s.inputs
      → length s.inputs ≤ n
      → length (read_from host ins s).1.inputs ≤ n
  read_from-IsShrinking [] n s e h = h
  read_from-IsShrinking (line t ∷ ins) n s e h = omega (arith, ap length e)
  read_from-IsShrinking (silence ∷ ins) n s e h = omega (arith, ap length e)
  read_from-IsShrinking (broken x ∷ ins) n s e h = omega (arith, ap length e)

  readline-IsShrinking : IsShrinking (readline host)
  unfolding readline
  readline-IsShrinking n s h = read_from-IsShrinking s.inputs n _ refl h

module _ {W : Type 0} (host : Host W) (http : HttpClient W) (sha256 : List ℕ → List ℕ)
    (cfg : Config) (docker : DockerManager) (ch : Challenge) where
  tell_gate-IsShrinking : (b : Bool) → IsShrinking (tell_gate host http sha256 cfg docker ch b)
  tell_gate-IsShrinking true = say-IsShrinking host _ true
  tell_gate-IsShrinking false = say-IsShrinking host _ false

  solution-IsShrinking :
      (pc : PowChallenge)
      → IsShrinking (
          readline host >>= λ sol.
          tell_gate host http sha256 cfg docker ch
            (is_solved host http sha256 cfg docker ch pc sol))
  solution-IsShrinking pc n s h =
      proceed-IsShrinking _ n (readline host s) (readline-IsShrinking host n s h)
        (λ sol. tell_gate-IsShrinking (is_solved host http sha256 cfg docker ch pc sol))

  gate_if-IsShrinking : (b : Bool) → IsShrinking (gate_if host http sha256 cfg docker ch b)
  unfolding draw_token
  gate_if-IsShrinking true n s h =
      proceed-IsShrinking _ n _ (send-IsShrinking host _ n _ h) (λ _. solution-IsShrinking _)
  gate_if-IsShrinking false n s h = h

  tell_spawned-IsShrinking :
      (r : Result PlayerView) → IsShrinking (tell_spawned host http sha256 cfg docker ch r)
  tell_spawned-IsShrinking (raised e) n s h = send-IsShrinking host _ n s h
  tell_spawned-IsShrinking (ok view) n s h =
      proceed-IsShrinking _ n (format_instance view, s) h (λ t. send-IsShrinking host _)

  spawn_if-IsShrinking :
      (ip : Text) (b : Bool) → IsShrinking (spawn_if host http sha256 cfg docker ch ip b)
  unfolding spawn_for spawn_beside
  spawn_if-IsShrinking ip true n s h =
      proceed-IsShrinking _ n (send host spawning_text s)
        (send-IsShrinking host spawning_text n s h)
        λ _ n' s' h'.
          let (r, m) = spawn host cfg docker ch ip s'.manager in
          tell_spawned-IsShrinking r n' _ (rw (heartbeat-frame _ (record s' { manager = m })).0 h')
  spawn_if-IsShrinking ip false n s h = h

  kill_named-IsShrinking :
      (o : Option Text) → IsShrinking (kill_named host http sha256 cfg docker ch o)
  kill_named-IsShrinking none n s h = h
  kill_named-IsShrinking (some u) n s h =
      proceed-IsShrinking _ n (manage (kill host (strip u)) s) h (λ b. send-IsShrinking host _)

  flag_named-IsShrinking :
      (o : Option Text) → IsShrinking (flag_named host http sha256 cfg docker ch o)
  flag_named-IsShrinking none n s h = h
  flag_named-IsShrinking (some u) n s h = send-IsShrinking host _ n _ h

  named-IsShrinking :
      (f : Option Text → Action W (Unit {0}))
      → ((o : Option Text) → IsShrinking (f o))
      → IsShrinking (send host uuid_prompt >>= λ _. readline host >>= f)
  named-IsShrinking f hf n s h =
      proceed-IsShrinking _ n (send host uuid_prompt s) (send-IsShrinking host uuid_prompt n s h)
        λ _ n' s' h'.
          proceed-IsShrinking f n' (readline host s') (readline-IsShrinking host n' s' h') hf

  do_spawn-IsShrinking : (ip : Text) → IsShrinking (do_spawn host http sha256 cfg docker ch ip)
  unfolding do_spawn pow_gate
  do_spawn-IsShrinking ip n s h =
      proceed-IsShrinking _ n (pow_gate host http sha256 cfg docker ch s)
        (gate_if-IsShrinking (ltb_ℤ (pos 0) cfg.pow_difficulty_bits) n s h)
        (spawn_if-IsShrinking ip)

  pub act-IsShrinking :
      (ip : Text) (c : Choice) → IsShrinking (act host http sha256 cfg docker ch ip c)
  unfolding act do_kill do_flag
  act-IsShrinking ip choose_spawn n s h =
      proceed-IsShrinking _ n (do_spawn host http sha256 cfg docker ch ip s)
        (do_spawn-IsShrinking ip n s h) (λ _ n' s' h'. h')
  act-IsShrinking ip choose_kill n s h =
      proceed-IsShrinking _ n (do_kill host http sha256 cfg docker ch s)
        (named-IsShrinking _ kill_named-IsShrinking n s h) (λ _ n' s' h'. h')
  act-IsShrinking ip choose_flag n s h =
      proceed-IsShrinking _ n (do_flag host http sha256 cfg docker ch s)
        (named-IsShrinking _ flag_named-IsShrinking n s h) (λ _ n' s' h'. h')
  act-IsShrinking ip choose_quit n s h = say-IsShrinking host _ false n s h
  act-IsShrinking ip choose_nothing n s h = h
  act-IsShrinking ip choose_other n s h = say-IsShrinking host _ true n s h
