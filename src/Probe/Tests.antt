-- ===== src/Probe/Tests.antt =====
-- A probe of a network on which the first pool is empty and the second is not.
use sui_ctf_infrastructure.Base.{◌==◌, if◌then◌else◌, pos, ℕ, ◌+◌, ◌≡◌, refl, true, false, some, []}
use sui_ctf_infrastructure.Text.{Text, codes, text_discrete, text_eq, ends_with, before}
use sui_ctf_infrastructure.Text.Numbers.{int_of_text}
use sui_ctf_infrastructure.Python.Errors.{Result, ok}
use sui_ctf_infrastructure.Python.Values.{
  Value, null, num, str, obj, end, field, get, get_default, truthy,
}
use sui_ctf_infrastructure.Python.Operators.{value_eq, contains, index_value, int_of_value, iterate}
use sui_ctf_infrastructure.Config.{Environ}
use sui_ctf_infrastructure.SuiRpc.Client.{
  HttpClient, new_rpc, result_of, content_of, call, get_object_content,
}
use sui_ctf_infrastructure.Challenge.Manifest.{Challenge, path_join, challenge_of, load_challenge}
use sui_ctf_infrastructure.Challenge.Solve.{
  coerce_pair, apply_op, find_op, type_matches, find_object, compare_field, check_content,
  check_solved,
}
use sui_ctf_infrastructure.Probe.Run.{instance_of, Setup, setup_of, report, probe_main}
use sui_ctf_infrastructure.Probe.Checked.{ObjectMeets, probe_main-zero}

abbrev pool_spec : Value
pool_spec = obj (
    field (codes "type") (str (codes "state")) (
      field (codes "object_type") (str (codes "::pool::Pool"))
        (field (codes "field") (str (codes "balance")) (field (codes "value") (num (pos 0)) end))))

abbrev pool_manifest : Value
pool_manifest = obj (
    field (codes "name") (str (codes "placeholder-flashpool")) (
      field (codes "flag") (str (codes "flag")) (
        field (codes "package_path") (str (codes "package")) (
          field (codes "solve")
            (obj (
              field (codes "type") (str (codes "state")) (
                field (codes "object_type") (str (codes "::pool::Pool")) (
                  field (codes "field") (str (codes "balance"))
                    (field (codes "value") (num (pos 0)) end)))))
            end))))

abbrev pool_of : Text → Value
pool_of balance = obj (
    field (codes "data")
      (obj (
        field (codes "content")
          (obj (field (codes "fields") (obj (field (codes "balance") (str balance) end)) end)) end))
      end)

-- The world counts the calls.
abbrev two_pools : HttpClient ℕ
two_pools = record {
  post = λ timeout url payload w. (
    ok (record {
      raise_for_status = ok tt;
      json =
          ok (obj (field (codes "result") (pool_of (if w == 0 then codes "0" else codes "5")) end));
    }),
    w + 1,
  );
}

abbrev probe_env : Environ
probe_env name =
    if text_eq name (codes "RPC_URL")
    then some (codes "http://n:9000/")
    else if text_eq name (codes "PACKAGE_ID")
    then some (codes "0xp")
    else if text_eq name (codes "DRAINED_POOL_ID")
    then some (codes "0x7")
    else if text_eq name (codes "FRESH_POOL_ID")
    then some (codes "0x8")
    else some (codes "0xp::pool::Pool")

abbrev loaded_pool : Result Challenge
loaded_pool =
    load_challenge (λ p. true) (λ p. ok pool_manifest)
      (path_join (codes "/repo") (codes "challenges")) (codes "placeholder-flashpool")

abbrev pool_challenge : Challenge
pool_challenge = record {
  name = str (codes "placeholder-flashpool");
  dir = codes "/repo/challenges/placeholder-flashpool";
  flag = str (codes "flag");
  sui_version = str (codes "mainnet-v1.74.1");
  ttl_seconds = null;
  package_path = str (codes "package");
  player_faucet_coins = pos 2;
  deploy = [];
  solve = pool_spec;
  flag_mode = str (codes "server_issued");
  description = str [];
  raw_manifest = pool_manifest;
}

abbrev pool_setup : Setup
pool_setup = record {
  challenge = pool_challenge;
  rpc = new_rpc (codes "http://n:9000/");
  drained = instance_of (codes "0xp") (codes "0x7") (codes "0xp::pool::Pool");
  fresh = instance_of (codes "0xp") (codes "0x8") (codes "0xp::pool::Pool");
}

setup_read : setup_of loaded_pool probe_env ≡ ok pool_setup
unfolding setup_of load_challenge path_join challenge_of contains truthy index_value get get_default
    int_of_value iterate text_discrete ends_with
setup_read = refl

probe_passed :
    (probe_main two_pools (λ p. true) (λ p. ok pool_manifest) (codes "/repo") probe_env 0).0
    ≡ ok (report true false)
unfolding probe_main load_challenge path_join challenge_of contains truthy index_value get
    get_default int_of_value iterate text_discrete ends_with check_solved find_object type_matches
    get_object_content check_content compare_field coerce_pair int_of_text call result_of apply_op
    before content_of find_op value_eq
probe_passed = refl

probe_main-zero_example :
    (id : Text) × (otype : Text) × (probe_env (codes "DRAINED_POOL_ID") ≡ some id)
    × (probe_env (codes "DRAINED_POOL_TYPE") ≡ some otype)
    × ObjectMeets two_pools pool_setup.rpc pool_challenge.solve id otype 0
    × ((check_solved two_pools pool_challenge pool_setup.rpc pool_setup.fresh
          (check_solved two_pools pool_challenge pool_setup.rpc pool_setup.drained 0).1).0
        ≡ ok false)
unfolding get_default text_discrete report
probe_main-zero_example =
    probe_main-zero two_pools (λ p. true) (λ p. ok pool_manifest) (codes "/repo") probe_env 0
      pool_setup (report true false) setup_read refl probe_passed refl
