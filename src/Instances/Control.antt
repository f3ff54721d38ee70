-- ===== src/Instances/Control.antt =====
-- `kill`, `get_flag` and `status`.
use sui_ctf_infrastructure.Base.{
  if◌then◌else◌, ℤ, ℕ, Bool, true, false, Option, none, some, ◌∷◌, ◌++◌,
}
use sui_ctf_infrastructure.Text.{Text, codes}
use sui_ctf_infrastructure.Text.Numbers.{text_of_int}
use sui_ctf_infrastructure.Python.Errors.{Result, ok, raised}
use sui_ctf_infrastructure.Python.Values.{Value, str}
use sui_ctf_infrastructure.Config.{Config}
use sui_ctf_infrastructure.Registry.{
  Status, starting, running, expired, killed, error, Row, Record, is_active, set_status, get_record,
}
use sui_ctf_infrastructure.Docker.Sdk.{Host}
use sui_ctf_infrastructure.Docker.Manager.{stop_and_remove}
use sui_ctf_infrastructure.SuiRpc.Client.{HttpClient, new_rpc}
use sui_ctf_infrastructure.Challenge.Manifest.{Challenge}
use sui_ctf_infrastructure.Challenge.Solve.{check_solved}
use sui_ctf_infrastructure.Instances.Tasks.{State, seconds_left, to_thread}

-- The text of a status in the table.
abbrev pub status_text : Status → Text
status_text starting = codes "starting"
status_text running = codes "running"
status_text expired = codes "expired"
status_text killed = codes "killed"
status_text error = codes "error"

abbrev pub is_running : Status → Bool
is_running running = true
is_running _ = false

-- `f"{record['container_name']}"`
abbrev pub name_or_none : Option Text → Text
name_or_none none = codes "None"
name_or_none (some s) = s

unfoldable pub internal_rpc_url : Config → Row → Text
unfolding text_of_int
internal_rpc_url cfg r =
    codes "http://"
    ++ name_or_none r.container_name
    ++ b':' ∷ text_of_int cfg.instance_rpc_port
    ++ codes "/"

pub record StatusView : Type 0 where
  pub uuid : Text
  pub status : Status
  pub seconds_remaining : ℕ
  pub challenge : Text

module _ {W : Type 0} (host : Host W) where
  open host use {time}

  -- What follows the removal, with the status that the record had.
  abbrev pub after_removed : Text → Status → Result (Unit {0}) × State W → Result Bool × State W
  after_removed uuid st (raised e, s) = (raised e, s)
  after_removed uuid st (ok _, s) = (
    ok true,
    record s { reg = if is_active st then set_status uuid killed none s.reg else s.reg },
  )

  abbrev pub kill_record : Text → Option Record → State W → Result Bool × State W
  kill_record uuid none s = (ok false, s)
  kill_record uuid (some r) s =
      after_removed uuid r.status
        (to_thread host (stop_and_remove host r.container_id r.container_name) s)

  unfoldable pub kill : Text → State W → Result Bool × State W
  unfolding to_thread
  kill uuid s = kill_record uuid (get_record uuid s.reg) s

  abbrev pub status_view : Text → Option Record → ℤ → Option StatusView
  status_view uuid none now = none
  status_view uuid (some r) now = some (record {
    uuid = uuid;
    status = r.status;
    seconds_remaining = seconds_left r.expires_at now;
    challenge = r.challenge;
  })

  unfoldable pub status : Text → State W → Option StatusView
  unfolding seconds_left
  status uuid s = status_view uuid (get_record uuid s.reg) (time s.world)

module _ {W : Type 0} (host : Host W) (http : HttpClient W) (cfg : Config) (ch : Challenge) where
  -- The answer: whether it is solved, and the flag or a message.
  abbrev pub flag_answer : Result Bool → Bool × Value
  flag_answer (raised e) = (false, str (codes "Could not evaluate solve state: " ++ e.message))
  flag_answer (ok true) = (true, ch.flag)
  flag_answer (ok false) = (false, str (codes "Not solved yet — the win condition is not met."))

  abbrev pub flag_from : Result Bool × State W → (Bool × Value) × State W
  flag_from (res, s) = (flag_answer res, s)

  abbrev pub flag_if : Bool → Record → State W → (Bool × Value) × State W
  flag_if true r s =
      flag_from (to_thread host (check_solved http ch (new_rpc (internal_rpc_url cfg r.row)) r) s)
  flag_if false r s = (
    (false, str (codes "Instance is not running (status: " ++ status_text r.status ++ codes ").")),
    s,
  )

  abbrev pub flag_of : Option Record → State W → (Bool × Value) × State W
  flag_of none s = ((false, str (codes "Unknown instance id.")), s)
  flag_of (some r) s = flag_if (is_running r.status) r s

  unfoldable pub get_flag : Text → State W → (Bool × Value) × State W
  unfolding to_thread internal_rpc_url
  get_flag uuid s = flag_of (get_record uuid s.reg) s
