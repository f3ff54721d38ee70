-- ===== src/Instances/Values.antt =====
-- The pure parts of `spawn`, `_boot` and the views that a player gets.
use sui_ctf_infrastructure.Base.{
  if◌then◌else◌, ℤ, pos_part, ℕ, suc, Bool, true, false, ◌&&◌, ◌||◌, Option, none, some, [], ◌∷◌,
  ◌++◌,
}
use sui_ctf_infrastructure.Text.{Text, codes, text_eq}
use sui_ctf_infrastructure.Text.Numbers.{text_of_int}
use sui_ctf_infrastructure.Python.Errors.{type_error, other_error, Result, ok, ◌>>=◌, raise}
use sui_ctf_infrastructure.Python.Values.{
  Float, finite, Value, bool, num, float, str, arr, get, truthy,
}
use sui_ctf_infrastructure.Python.Show.{str_value}
use sui_ctf_infrastructure.Python.Json.{dumps}
use sui_ctf_infrastructure.Python.Operators.{int_of_bool, cut}
use sui_ctf_infrastructure.Config.{Config}
use sui_ctf_infrastructure.Registry.{Record}
use sui_ctf_infrastructure.Docker.Sdk.{Environment}
use sui_ctf_infrastructure.SuiRpc.Client.{items_of}
use sui_ctf_infrastructure.Challenge.Manifest.{Challenge}
use sui_ctf_infrastructure.Instances.Tasks.{seconds, seconds_left, whole_seconds}

-- What a player is told of a new instance.
pub record PlayerView : Type 0 where
  pub uuid : Text
  pub rpc_url : Option Text
  pub private_key : Option Text
  pub player_address : Option Text
  pub package_id : Option Text
  pub objects : Value
  pub expires_at : ℤ
  pub seconds_remaining : ℕ
  pub challenge : Text

-- `_player_view`, at a time
unfoldable pub player_view : Record → ℤ → PlayerView
unfolding seconds_left whole_seconds
player_view r now = record {
  uuid = r.uuid;
  rpc_url = r.rpc_url;
  private_key = r.player_privkey;
  player_address = r.player_address;
  package_id = r.package_id;
  objects = r.objects;
  expires_at = whole_seconds r.expires_at;
  seconds_remaining = seconds_left r.expires_at now;
  challenge = r.challenge;
}

-- A lifetime in ticks of the clock, which has no time without end.
abbrev pub ticks_of_float : Float → Result ℤ
ticks_of_float (finite shown stored m k) = ok (cut (seconds m) k)
ticks_of_float f = raise other_error "the time has no end"

abbrev pub ttl_number : Value → Result ℤ
ttl_number (num n) = ok (seconds n)
ttl_number (bool b) = ok (seconds (int_of_bool b))
ttl_number (float f) = ticks_of_float f
ttl_number v = raise type_error "unsupported operand type(s) for +"

-- `self.ch.ttl_seconds or self.cfg.ttl_seconds`, as what is added to a time
unfoldable pub ttl_or : Value → ℤ → Result ℤ
ttl_or ttl default = if truthy ttl then ttl_number ttl else ok (seconds default)

-- `_instance_env`
unfoldable pub instance_env : Config → Challenge → Environment
unfolding str_value text_of_int dumps
instance_env cfg ch =
    (codes "CHALLENGE", ch.name)
    ∷ (
      codes "PACKAGE_DIR",
      str (cfg.challenges_dir ++ b'/' ∷ cfg.active_challenge ++ b'/' ∷ str_value ch.package_path),
    )
    ∷ (codes "DEPLOY_SPEC", str (dumps (arr (items_of ch.deploy))))
    ∷ (codes "PLAYER_FAUCET_COINS", str (text_of_int ch.player_faucet_coins))
    ∷ (codes "RPC_PORT", str (text_of_int cfg.instance_rpc_port))
    ∷ []

abbrev pub ip_limit_message : Config → Text
ip_limit_message cfg =
    codes "This source IP already has an active instance (limit "
    ++ text_of_int cfg.max_instances_per_ip
    ++ codes " per IP). Use your existing "
    ++ codes "uuid — option 3 for the flag, option 2 to destroy it — or wait "
    ++ codes "for it to expire."

abbrev pub both_keys : Value → Result Bool
both_keys ready = do
  pkg ← get ready (codes "package_id")
  key ← get ready (codes "player_private_key")
  ok (truthy pkg && truthy key)

-- `ready and ready.get("package_id") and ready.get("player_private_key")`
unfoldable pub is_complete : Value → Result Bool
is_complete ready = if truthy ready then both_keys ready else ok false

-- `status in ("exited", "dead", None)`
unfoldable pub has_died : Option Text → Bool
has_died none = true
has_died (some s) = text_eq s (codes "exited") || text_eq s (codes "dead")

-- `ready and ready.get("package_id")`
unfoldable pub has_package : Value → Result Bool
has_package ready =
    if truthy ready then (get ready (codes "package_id") >>= λ pkg. ok (truthy pkg)) else ok false

-- The rounds of the boot loop: each sleeps two seconds.
abbrev pub boot_rounds : Config → ℕ
boot_rounds cfg = suc (pos_part cfg.instance_boot_timeout)
