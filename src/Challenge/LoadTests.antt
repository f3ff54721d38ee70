-- ===== src/Challenge/LoadTests.antt =====
-- Manifests that load and that do not.
use sui_ctf_infrastructure.Base.{pos, ◌≡◌, refl, Bool, true, []}
use sui_ctf_infrastructure.Text.{codes, text_discrete, ends_with}
use sui_ctf_infrastructure.Python.Errors.{Result, ok}
use sui_ctf_infrastructure.Python.Values.{
  Value, null, str, obj, Fields, end, field, get, get_default, truthy,
}
use sui_ctf_infrastructure.Python.Operators.{contains, index_value, int_of_value, iterate}
use sui_ctf_infrastructure.Challenge.Manifest.{Challenge, path_join, challenge_of, load_challenge}
use sui_ctf_infrastructure.Challenge.Loading.{IsLoaded, load_challenge-IsLoaded}

abbrev pub full_manifest : Value
full_manifest = obj (
    field (codes "name") (str (codes "pool")) (
      field (codes "flag") (str (codes "flag")) (
        field (codes "package_path") (str (codes "package"))
          (field (codes "solve") (obj end) end))))

abbrev loaded_challenge : Challenge
loaded_challenge = record {
  name = str (codes "pool");
  dir = codes "c/pool";
  flag = str (codes "flag");
  sui_version = str (codes "mainnet-v1.74.1");
  ttl_seconds = null;
  package_path = str (codes "package");
  player_faucet_coins = pos 2;
  deploy = [];
  solve = obj end;
  flag_mode = str (codes "server_issued");
  description = str [];
  raw_manifest = full_manifest;
}

full_manifest-loads :
    load_challenge (λ p. true) (λ p. ok full_manifest) (codes "c") (codes "pool")
    ≡ ok loaded_challenge
unfolding load_challenge path_join challenge_of contains truthy index_value get get_default
    int_of_value iterate text_discrete ends_with
full_manifest-loads = refl

load_challenge-IsLoaded_example :
    (v : Value) × (◌≡◌ {A = Bool} true true)
    × (◌≡◌ {A = Result Value} (ok full_manifest) (ok v))
    × IsLoaded v loaded_challenge
load_challenge-IsLoaded_example =
    load_challenge-IsLoaded (λ p. true) (λ p. ok full_manifest) (codes "c") (codes "pool")
      loaded_challenge full_manifest-loads

-- It has a name and a condition only.
abbrev half_manifest : Fields
half_manifest = field (codes "name") (str (codes "pool")) (field (codes "solve") (obj end) end)
