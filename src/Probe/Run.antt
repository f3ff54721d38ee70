-- ===== src/Probe/Run.antt =====
-- `main` of the probe.
use Prim.Native.String.{String}
use sui_ctf_infrastructure.Base.{
  if◌then◌else◌, pos, ℕ, Bool, not, ◌&&◌, none, some, List, [], ◌∷◌, ◌++◌,
}
use sui_ctf_infrastructure.Text.{Text, codes}
use sui_ctf_infrastructure.Python.Errors.{key_error, Result, ok, raised, ◌>>=◌}
use sui_ctf_infrastructure.Python.Values.{Value, bool, str, arr, obj, nil, cons}
use sui_ctf_infrastructure.Python.Show.{str_value}
use sui_ctf_infrastructure.Config.{Environ}
use sui_ctf_infrastructure.Registry.{Record, new_row}
use sui_ctf_infrastructure.SuiRpc.Client.{HttpClient, SuiRpc, new_rpc, dict_of}
use sui_ctf_infrastructure.Challenge.Manifest.{Challenge, path_join, load_challenge}
use sui_ctf_infrastructure.Challenge.Solve.{check_solved}

-- `os.environ[name]`
unfoldable pub require : Environ → String → Result Text
require env name = elim (env (codes name)) [
  | none ↦ raised (record { kind = key_error; message = b'\'' ∷ codes name ++ codes "'" })
  | some s ↦ ok s
]

abbrev pub object_of : Text → Text → Value
object_of id otype = obj (dict_of (("objectId", str id) ∷ ("type", str otype) ∷ []))

-- A dictionary of one object and the package id. The check reads these two and the player's address,
-- which the dictionary lacks; the other columns of the record are blank.
abbrev pub instance_of : Text → Text → Text → Record
instance_of pkg id otype = record {
  row = record (new_row [] [] [] [] (pos 0) none (pos 0)) { package_id = some pkg };
  objects = arr (cons (object_of id otype) nil);
}

-- What the environment says.
pub record Setup : Type 0 where
  pub challenge : Challenge
  pub rpc : SuiRpc
  pub drained : Record
  pub fresh : Record

unfoldable pub setup_of : Result Challenge → Environ → Result Setup
unfolding require
setup_of loaded env = do
  ch ← loaded
  url ← require env "RPC_URL"
  pkg ← require env "PACKAGE_ID"
  drained_id ← require env "DRAINED_POOL_ID"
  drained_type ← require env "DRAINED_POOL_TYPE"
  fresh_id ← require env "FRESH_POOL_ID"
  fresh_type ← require env "FRESH_POOL_TYPE"
  ok (record {
    challenge = ch;
    rpc = new_rpc url;
    drained = instance_of pkg drained_id drained_type;
    fresh = instance_of pkg fresh_id fresh_type;
  })

-- The exit code, and the lines that are printed.
pub record Report : Type 0 where
  pub exit_code : ℕ
  pub printed : List Text

unfoldable pub report : Bool → Bool → Report
unfolding str_value
report d f = record {
  exit_code = if d && not f then 0 else 1;
  printed =
      (codes "    solve-check drained pool -> " ++ str_value (bool d) ++ codes " (expect True)")
      ∷ (codes "    solve-check fresh pool   -> " ++ str_value (bool f) ++ codes " (expect False)")
      ∷ [];
}

module _ {W : Type 0} (http : HttpClient W) where
  abbrev pub after_fresh : Bool → Result Bool × W → Result Report × W
  after_fresh d (raised e, w) = (raised e, w)
  after_fresh d (ok f, w) = (ok (report d f), w)

  abbrev pub after_drained : Setup → Result Bool × W → Result Report × W
  after_drained s (raised e, w) = (raised e, w)
  after_drained s (ok d, w) = after_fresh d (check_solved http s.challenge s.rpc s.fresh w)

  abbrev pub run_checks : Result Setup → W → Result Report × W
  run_checks (raised e) w = (raised e, w)
  run_checks (ok s) w = after_drained s (check_solved http s.challenge s.rpc s.drained w)

  -- `main`; `repo` is the directory above the script's.
  unfoldable pub probe_main :
      (Text → Bool) → (Text → Result Value) → Text → Environ → W → Result Report × W
  unfolding setup_of report
  probe_main is_file load_yaml repo env w =
      run_checks
        (setup_of
          (load_challenge is_file load_yaml (path_join repo (codes "challenges"))
            (codes "placeholder-flashpool"))
          env)
        w
