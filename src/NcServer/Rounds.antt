-- ===== src/NcServer/Rounds.antt =====
-- How many rounds the menu loop of `_handle` goes on for.
use native.Mathlib.Nat.{zero-add}
use sui_ctf_infrastructure.NcServer.Format.{menu}
use sui_ctf_infrastructure.Base.{
  add_suc, length, ℕ, zero, suc, ◌+◌, ◌<◌, ◌≡◌, refl, ap, ◌∙◌, Bool, true, false, List, [], ◌∷◌,
  arith,
}
use sui_ctf_infrastructure.Text.{Text, strip}
use sui_ctf_infrastructure.Python.Errors.{Result, ok, raised}
use sui_ctf_infrastructure.Config.{Config}
use sui_ctf_infrastructure.Docker.Sdk.{Host}
use sui_ctf_infrastructure.Docker.Manager.{DockerManager}
use sui_ctf_infrastructure.SuiRpc.Client.{HttpClient}
use sui_ctf_infrastructure.Challenge.Manifest.{Challenge}
use sui_ctf_infrastructure.NcServer.Session.{
  Input, line, silence, broken, Session, Action, proceed, ◌>>=◌, send, read_from, readline,
}
use sui_ctf_infrastructure.NcServer.Menu.{choice_of, act_on, round, after_choice, rounds}
use sui_ctf_infrastructure.NcServer.Taking.{send-IsShrinking, act-IsShrinking}

module _ {W : Type 0} (host : Host W) (http : HttpClient W) (sha256 : List ℕ → List ℕ)
    (cfg : Config) (docker : DockerManager) (ch : Challenge) where
  after_read :
      (ip : Text) (ins : List Input) (s : Session W)
      → ins ≡ s.inputs
      → (proceed (act_on host http sha256 cfg docker ch ip) (read_from host ins s)).0 ≡ ok true
      → length (proceed (act_on host http sha256 cfg docker ch ip) (read_from host ins s)).1.inputs
        < length s.inputs
  after_read ip [] s e goes_on = cc
  after_read ip (line t ∷ ins) s e goes_on =
      let left =
        act-IsShrinking host http sha256 cfg docker ch ip (choice_of (strip t)) (length ins)
          (record s { inputs = ins }) (omega arith) in
      omega (arith, left, ap length e)
  after_read ip (silence ∷ ins) s e goes_on = cc
  after_read ip (broken x ∷ ins) s e goes_on = cc

  after_menu :
      (ip : Text) (x : Result (Unit {0}) × Session W)
      → (proceed (λ _. readline host >>= act_on host http sha256 cfg docker ch ip) x).0 ≡ ok true
      → length
          (proceed (λ _. readline host >>= act_on host http sha256 cfg docker ch ip) x).1.inputs
        < length x.1.inputs
  unfolding readline
  after_menu ip (ok _, s) goes_on = after_read ip s.inputs _ refl goes_on
  after_menu ip (raised e, s) goes_on = cc

  -- A round after which the loop goes on has taken an input.
  round-takes :
      (ip : Text) (s : Session W)
      → (round host http sha256 cfg docker ch ip s).0 ≡ ok true
      → length (round host http sha256 cfg docker ch ip s).1.inputs < length s.inputs
  unfolding round
  round-takes ip s goes_on = omega (
    arith,
    after_menu ip (send host menu s) goes_on,
    send-IsShrinking host menu (length s.inputs) s (omega arith),
  )

  after_choice-cong :
      (f g : Action W (Unit {0})) (x : Result Bool × Session W)
      → (x.0 ≡ ok true → f x.1 ≡ g x.1)
      → after_choice host http sha256 cfg docker ch f x
        ≡ after_choice host http sha256 cfg docker ch g x
  after_choice-cong f g (raised e, s) h = refl
  after_choice-cong f g (ok false, s) h = refl
  after_choice-cong f g (ok true, s) h = h refl

  rounds-suc :
      (n : ℕ) (ip : Text) (s : Session W)
      → length s.inputs < n
      → rounds host http sha256 cfg docker ch (suc n) ip s
        ≡ rounds host http sha256 cfg docker ch n ip s
  unfolding rounds
  rounds-suc zero ip s h = ground (arith, h)
  rounds-suc (suc n) ip s h =
      after_choice-cong (rounds host http sha256 cfg docker ch (suc n) ip)
        (rounds host http sha256 cfg docker ch n ip) (round host http sha256 cfg docker ch ip s)
        (λ goes_on. rounds-suc n ip _ (omega (arith, round-takes ip s goes_on)))

  -- The rounds that the model allows a session are enough: with any number more it ends in the same
  -- way, so it ends by a choice, an exception or the end of the input, never for lack of rounds.
  pub rounds-enough :
      (extra : ℕ) (ip : Text) (s : Session W)
      → rounds host http sha256 cfg docker ch (extra + suc (length s.inputs)) ip s
        ≡ rounds host http sha256 cfg docker ch (suc (length s.inputs)) ip s
  rounds-enough zero ip s = rw zero-add
  rounds-enough (suc extra) ip s =
      rw (add_suc extra (suc (length s.inputs)))
        (rounds-suc (extra + suc (length s.inputs)) ip s (omega arith) ∙ rounds-enough extra ip s)
