-- ===== src/NcServer/Passing.antt =====
-- A client that runs the printed command and pastes what it prints.
use sui_ctf_infrastructure.Base.{
  ltb_ℤ, pos, ℕ, ◌<◌, ◌≤◌, ◌≡◌, refl, ◌∙◌, true, none, some, List, ◌∷◌, arith,
}
use sui_ctf_infrastructure.Text.{Text, strip}
use sui_ctf_infrastructure.Text.Numbers.{decimal}
use sui_ctf_infrastructure.Text.Laws.{decimal-AllDigits, AllDigits-NoSpace, strip-NoSpace}
use sui_ctf_infrastructure.Python.Errors.{ok}
use sui_ctf_infrastructure.Pow.{PowChallenge, new_challenge, verify, solver_search}
use sui_ctf_infrastructure.Pow.Solver.{printed, strip-printed, solver_accepted}
use sui_ctf_infrastructure.Config.{Config}
use sui_ctf_infrastructure.Docker.Sdk.{Host}
use sui_ctf_infrastructure.Docker.Manager.{DockerManager}
use sui_ctf_infrastructure.SuiRpc.Client.{HttpClient}
use sui_ctf_infrastructure.Challenge.Manifest.{Challenge}
use sui_ctf_infrastructure.Instances.Tasks.{State, give_way}
use sui_ctf_infrastructure.NcServer.Session.{Input, line, Session, send, readline}
use sui_ctf_infrastructure.NcServer.Menu.{draw_token, pow_gate}

stripped_twice : (m : ℕ) → strip (strip (printed m)) ≡ strip (printed m)
stripped_twice m =
    let bare = AllDigits-NoSpace (decimal m) (decimal-AllDigits m) in
    rw (strip-printed m) (strip-NoSpace (decimal m) bare)

verify-strip :
    (sha256 : List ℕ → List ℕ) (pc : PowChallenge) (nonce : Text)
    → strip (strip nonce) ≡ strip nonce
    → verify sha256 pc (strip nonce) ≡ verify sha256 pc nonce
unfolding verify
verify-strip sha256 pc nonce h = rw h refl

new_challenge-positive :
    (token : Text) (d : ℕ)
    → 0 < d
    → new_challenge token (pos d) ≡ record { challenge = token; difficulty = pos d }
unfolding new_challenge
new_challenge-positive token d positive =
    let asked : ltb_ℤ (pos 0) (pos d) ≡ true = ground arith in rw asked refl

-- A session in which this number comes next, with its line end.
abbrev pub pasting : {W : Type 0} → ℕ → List Input → List Text → State W → Session W
pasting m later sent st = record {
  inputs = line (printed m) ∷ later;
  outputs = sent;
  room = none;
  manager = st;
}

module _ {W : Type 0} (host : Host W) (http : HttpClient W) (sha256 : List ℕ → List ℕ)
    (cfg : Config) (docker : DockerManager) (ch : Challenge) where
  pasted-solves :
      (token : Text) (fuel d m : ℕ)
      → 0 < d
      → d ≤ 256
      → solver_search sha256 fuel token d 0 ≡ some m
      → verify sha256 (new_challenge token (pos d)) (strip (printed m)) ≡ true
  pasted-solves token fuel d m positive fits found = rw (new_challenge-positive token d positive) (
      verify-strip sha256 (record { challenge = token; difficulty = pos d }) (printed m)
        (stripped_twice m)
      ∙ solver_accepted sha256 fuel token d m positive fits found)

  -- A client that runs the printed command for the puzzle that it is set, and pastes the line that this
  -- prints, passes the gate, at a difficulty from 1 to 256 bits; what it sends after that is not read.
  pub pow_gate-passes :
      (fuel d m : ℕ) (later : List Input) (sent : List Text) (st : State W)
      → cfg.pow_difficulty_bits ≡ pos d
      → 0 < d
      → d ≤ 256
      → solver_search sha256 fuel (host.token_hex 12 st.world).0 d 0 ≡ some m
      → ((pow_gate host http sha256 cfg docker ch (pasting m later sent st)).0 ≡ ok true)
        × ((pow_gate host http sha256 cfg docker ch (pasting m later sent st)).1.inputs ≡ later)
  unfolding pow_gate draw_token send readline give_way
  pow_gate-passes fuel d m later sent st bits positive fits found =
      let (token, w) = host.token_hex 12 st.world in
      let solved = pasted-solves token fuel d m positive fits found in
      let asked : ltb_ℤ (pos 0) (pos d) ≡ true = ground arith in
      rw (bits, asked, solved) (refl, refl)
