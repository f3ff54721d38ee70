-- ===== src/NcServer/Gate.antt =====
-- What `_do_spawn` does at the proof of work.
use sui_ctf_infrastructure.Base.{
  pos, ltb_ℤ, ℕ, ◌≡◌, refl, sym, ◌∙◌, ◌≢◌, Bool, true, false, Option, none, some, List, [], ◌∷◌,
}
use sui_ctf_infrastructure.Text.{Text, codes, strip}
use sui_ctf_infrastructure.Python.Errors.{Result, ok, raised}
use sui_ctf_infrastructure.Pow.{PowChallenge, new_challenge, verify}
use sui_ctf_infrastructure.Config.{Config}
use sui_ctf_infrastructure.Registry.{Registry}
use sui_ctf_infrastructure.Docker.Sdk.{Host}
use sui_ctf_infrastructure.Docker.Manager.{DockerManager}
use sui_ctf_infrastructure.SuiRpc.Client.{HttpClient}
use sui_ctf_infrastructure.Challenge.Manifest.{Challenge}
use sui_ctf_infrastructure.Instances.Tasks.{give_way}
use sui_ctf_infrastructure.Instances.Frames.{IsKept}
use sui_ctf_infrastructure.NcServer.Session.{
  Input, line, silence, broken, Session, Action, proceed, spend, send_if, send, read_from, readline,
}
use sui_ctf_infrastructure.NcServer.Menu.{
  pow_prompt, draw_token, is_solved, tell_gate, challenge_player, pow_gate, spawn_if, do_spawn,
}

-- The table is one of those, and the gate has not said yes.
abbrev Closed : {W : Type 0} → (Registry → Type 0) → Result Bool × Session W → Type 0
Closed P x = P x.1.manager.reg × (x.0 ≢ ok true)

module _ {W : Type 0} (host : Host W) (P : Registry → Type 0) (kept : IsKept host P) where
  proceed-Closed :
      {A : Type 0} (f : A → Action W Bool) (x : Result A × Session W)
      → P x.1.manager.reg
      → ((a : A) → x.0 ≡ ok a → Closed P (f a x.1))
      → Closed P (proceed f x)
  proceed-Closed f (ok a, s) same h = h a refl
  proceed-Closed f (raised e, s) same h = (same, λ bad. cc)

  send_if-keeps :
      (room : Option (Option ℕ)) (t : Text) (s : Session W)
      → P s.manager.reg
      → P (send_if host room t s).1.manager.reg × ((send_if host room t s).1.inputs ≡ s.inputs)
  unfolding give_way
  send_if-keeps none t s h = (h, refl)
  send_if-keeps (some room) t s h = (kept s.manager.reg _ h, refl)

  pub send-keeps :
      (t : Text) (s : Session W)
      → P s.manager.reg
      → P (send host t s).1.manager.reg × ((send host t s).1.inputs ≡ s.inputs)
  unfolding send
  send-keeps t s h = send_if-keeps (spend s.room) t s h

module _ {W : Type 0} (host : Host W) (http : HttpClient W) (sha256 : List ℕ → List ℕ)
    (cfg : Config) (docker : DockerManager) (ch : Challenge) (P : Registry → Type 0)
    (kept : IsKept host P) where
  -- No line that comes next solves the puzzle.
  abbrev pub IsUnsolved : PowChallenge → List Input → Type 0
  IsUnsolved pc ins =
      (t : Text) (later : List Input) → ins ≡ line t ∷ later → verify sha256 pc (strip t) ≡ false

  tell_gate-Closed :
      (b : Bool) (s : Session W)
      → b ≡ false
      → P s.manager.reg
      → Closed P (tell_gate host http sha256 cfg docker ch b s)
  tell_gate-Closed true s e same = cc
  tell_gate-Closed false s e same =
      let t = codes "\n[!] proof-of-work failed or timed out.\n" in
      proceed-Closed host P kept _ (send host t s) (send-keeps host P kept t s same).0
        (λ a _. ((send-keeps host P kept t s same).0, λ bad. cc))

  read-Closed :
      (pc : PowChallenge) (ins : List Input) (s : Session W)
      → IsUnsolved pc ins
      → P s.manager.reg
      → Closed P (
          proceed
            (λ sol.
              tell_gate host http sha256 cfg docker ch
                (is_solved host http sha256 cfg docker ch pc sol))
            (read_from host ins s))
  read-Closed pc [] s h same = tell_gate-Closed false _ refl same
  read-Closed pc (line t ∷ ins) s h same = tell_gate-Closed _ _ (h t ins refl) same
  read-Closed pc (silence ∷ ins) s h same = tell_gate-Closed false _ refl same
  read-Closed pc (broken e ∷ ins) s h same = (same, λ bad. cc)

  spawn_if-keeps :
      (ip : Text) (x : Result Bool × Session W)
      → Closed P x
      → P (proceed (spawn_if host http sha256 cfg docker ch ip) x).1.manager.reg
  spawn_if-keeps ip (raised e, s) (same, h) = same
  spawn_if-keeps ip (ok false, s) (same, h) = same
  spawn_if-keeps ip (ok true, s) (same, h) = absurd (h refl)

  readline-Closed :
      (pc : PowChallenge) (s : Session W)
      → IsUnsolved pc s.inputs
      → P s.manager.reg
      → Closed P (
          proceed
            (λ sol.
              tell_gate host http sha256 cfg docker ch
                (is_solved host http sha256 cfg docker ch pc sol))
            (readline host s))
  unfolding readline give_way
  readline-Closed pc s h same =
      read-Closed pc s.inputs (record s { manager = give_way host s.manager }) h
        (kept s.manager.reg _ same)

  -- The puzzle that a spawn sets.
  abbrev pub puzzle : Session W → PowChallenge
  puzzle s = new_challenge (host.token_hex 12 s.manager.world).0 cfg.pow_difficulty_bits

  challenge_player-Closed :
      (s : Session W)
      → IsUnsolved (puzzle s) s.inputs
      → P s.manager.reg
      → Closed P (challenge_player host http sha256 cfg docker ch s)
  unfolding draw_token
  challenge_player-Closed s h same =
      let (t, w) = host.token_hex 12 s.manager.world in
      let s1 : Session W = record s { manager = record { reg = s.manager.reg; world = w } } in
      let (sent, same_inputs) = send-keeps host P kept (pow_prompt (puzzle s)) s1 same in
      proceed-Closed host P kept _ (send host (pow_prompt (puzzle s)) s1) sent
        (λ a _. readline-Closed (puzzle s) _ (λ l later e. h l later (sym same_inputs ∙ e)) sent)

  -- With a proof of work asked for, and nothing coming next from the client that is a line that solves
  -- the puzzle that was set, a spawn request keeps of the table whatever the other tasks keep of it.
  pub do_spawn-gated :
      (ip : Text) (s : Session W)
      → ltb_ℤ (pos 0) cfg.pow_difficulty_bits ≡ true
      → IsUnsolved (puzzle s) s.inputs
      → P s.manager.reg
      → P (do_spawn host http sha256 cfg docker ch ip s).1.manager.reg
  unfolding do_spawn pow_gate
  do_spawn-gated ip s asked h same = rw asked (
      spawn_if-keeps ip (challenge_player host http sha256 cfg docker ch s)
        (challenge_player-Closed s h same))
