-- ===== src/Instances/Secrecy.antt =====
-- What becomes of the flag in `spawn` and `get_flag`.
use sui_ctf_infrastructure.Python.Errors.{Result, ok, raised}
use sui_ctf_infrastructure.Registry.{
  Status, starting, running, expired, killed, error, Record, get_record,
}
use sui_ctf_infrastructure.SuiRpc.Client.{HttpClient, new_rpc}
use sui_ctf_infrastructure.Challenge.Solve.{check_solved}
use sui_ctf_infrastructure.Instances.Control.{
  is_running, internal_rpc_url, flag_answer, flag_if, flag_of, get_flag,
}
use sui_ctf_infrastructure.Base.{◌≡◌, refl, ap, ◌∙◌, ◌↔◌, Bool, true, false, Option, none, some}
use sui_ctf_infrastructure.Text.{Text}
use sui_ctf_infrastructure.Python.Values.{Value}
use sui_ctf_infrastructure.Config.{Config}
use sui_ctf_infrastructure.Docker.Sdk.{Host}
use sui_ctf_infrastructure.Docker.Manager.{DockerManager}
use sui_ctf_infrastructure.Challenge.Manifest.{Challenge}
use sui_ctf_infrastructure.Instances.Tasks.{State, to_thread}
use sui_ctf_infrastructure.Instances.Spawn.{reserve_slot, spawn}

module _ {W : Type 0} (host : Host W) (cfg : Config) (docker : DockerManager) (ch : Challenge) where
  -- The flag has no effect on a spawn: not on what the player is told, not on the table, and not on
  -- what the Docker daemon is asked to do, environment of the container included.
  pub spawn-flag :
      (flag : Value) (ip : Text) (s : State W)
      → spawn host cfg docker (record ch { flag = flag }) ip s ≡ spawn host cfg docker ch ip s
  unfolding spawn reserve_slot
  spawn-flag flag ip s = refl

module _ {W : Type 0} (host : Host W) (http : HttpClient W) (cfg : Config) (ch : Challenge) where
  -- The condition of a flag: the instance is in the table and running, and the solve check against its
  -- RPC says yes.
  abbrev pub IsSolved : Text → State W → Type 0
  IsSolved u s =
      (r : Record) × (get_record u s.reg ≡ some r)
      × (r.status ≡ running)
      × ((check_solved http ch (new_rpc (internal_rpc_url cfg r.row)) r s.world).0 ≡ ok true)

  flag_answer-true :
      (res : Result Bool)
      → (flag_answer host http cfg ch res).0 ≡ true
      → (res ≡ ok true) × ((flag_answer host http cfg ch res).1 ≡ ch.flag)
  flag_answer-true (raised x) e = cc
  flag_answer-true (ok true) e = (refl, refl)
  flag_answer-true (ok false) e = cc

  is_running-eq : (st : Status) → is_running st ≡ true → st ≡ running
  is_running-eq starting e = cc
  is_running-eq running e = refl
  is_running-eq expired e = cc
  is_running-eq killed e = cc
  is_running-eq error e = cc

  flag_if-true :
      (b : Bool) (r : Record) (s : State W)
      → (flag_if host http cfg ch b r s).0.0 ≡ true
      → (b ≡ true)
        × ((check_solved http ch (new_rpc (internal_rpc_url cfg r.row)) r s.world).0 ≡ ok true)
        × ((flag_if host http cfg ch b r s).0.1 ≡ ch.flag)
  unfolding to_thread
  flag_if-true true r s e = let (a, f) = flag_answer-true _ e in (refl, a, f)
  flag_if-true false r s e = cc

  flag_of-solved :
      (o : Option Record) (s : State W)
      → (flag_of host http cfg ch o s).0.0 ≡ true
      → ((r : Record) × (o ≡ some r)
          × (r.status ≡ running)
          × ((check_solved http ch (new_rpc (internal_rpc_url cfg r.row)) r s.world).0 ≡ ok true))
        × ((flag_of host http cfg ch o s).0.1 ≡ ch.flag)
  flag_of-solved none s e = cc
  flag_of-solved (some r) s e =
      let (b, c, f) = flag_if-true (is_running r.status) r s e in
      ((r, refl, is_running-eq r.status b, c), f)

  solved-flag_of :
      (o : Option Record) (s : State W) (r : Record)
      → o ≡ some r
      → r.status ≡ running
      → (check_solved http ch (new_rpc (internal_rpc_url cfg r.row)) r s.world).0 ≡ ok true
      → (flag_of host http cfg ch o s).0 ≡ (true, ch.flag)
  unfolding to_thread
  solved-flag_of o s r eo er ec =
      ap (λ x. (flag_of host http cfg ch x s).0) eo
      ∙ ap (λ b. (flag_if host http cfg ch b r s).0) (ap is_running er)
      ∙ ap (flag_answer host http cfg ch) ec

  flag_answer-other :
      (f : Value) (res : Result Bool)
      → (flag_answer host http cfg ch res).0 ≡ false
      → flag_answer host http cfg (record ch { flag = f }) res ≡ flag_answer host http cfg ch res
  flag_answer-other f (raised x) e = refl
  flag_answer-other f (ok true) e = cc
  flag_answer-other f (ok false) e = refl

  flag_if-other :
      (f : Value) (b : Bool) (r : Record) (s : State W)
      → (flag_if host http cfg ch b r s).0.0 ≡ false
      → flag_if host http cfg (record ch { flag = f }) b r s ≡ flag_if host http cfg ch b r s
  unfolding check_solved
  flag_if-other f true r s e =
      let (res, s') =
        to_thread host (check_solved http ch (new_rpc (internal_rpc_url cfg r.row)) r) s in
      ap (λ (a : Bool × Value). (a, s')) (flag_answer-other f res e)
  flag_if-other f false r s e = refl

  flag_of-other :
      (f : Value) (o : Option Record) (s : State W)
      → (flag_of host http cfg ch o s).0.0 ≡ false
      → flag_of host http cfg (record ch { flag = f }) o s ≡ flag_of host http cfg ch o s
  flag_of-other f none s e = refl
  flag_of-other f (some r) s e = flag_if-other f (is_running r.status) r s e

  -- The answer to a player is true exactly where the instance is in the table, runs, and meets the
  -- challenge's solve condition; then it carries the challenge's flag. Every other answer is the one
  -- that any other flag would have given.
  pub get_flag-IsSolved :
      (u : Text) (s : State W)
      → (((get_flag host http cfg ch u s).0.0 ≡ true) ↔ IsSolved u s)
        × ((get_flag host http cfg ch u s).0.0 ≡ true
            → (get_flag host http cfg ch u s).0.1 ≡ ch.flag)
        × ((f : Value)
            → (get_flag host http cfg ch u s).0.0 ≡ false
            → get_flag host http cfg (record ch { flag = f }) u s ≡ get_flag host http cfg ch u s)
  unfolding get_flag
  get_flag-IsSolved u s = (
    (
      (λ e. (flag_of-solved (get_record u s.reg) s e).0),
      λ (r, eo, er, ec). ap (λ a. a.0) (solved-flag_of (get_record u s.reg) s r eo er ec),
    ),
    (λ e. (flag_of-solved (get_record u s.reg) s e).1),
    λ f e. flag_of-other f (get_record u s.reg) s e,
  )
