-- ===== src/Challenge/Manifest.antt =====
-- `Challenge` and `load_challenge`. The file system and the YAML parser are parameters.
use sui_ctf_infrastructure.Base.{
  ◌==◌, if◌then◌else◌, ℤ, pos, Bool, ◌||◌, Option, none, some, List, [], ◌∷◌, ◌++◌,
}
use sui_ctf_infrastructure.Text.{Text, codes, is_empty, ends_with}
use sui_ctf_infrastructure.Python.Errors.{
  type_error, value_error, file_not_found_error, Result, ok, raised, ◌>>=◌, ◌>>◌, raise,
}
use sui_ctf_infrastructure.Python.Values.{
  Value, num, str, arr, obj, Items, nil, cons, Fields, end, field, get, get_default, truthy,
}
use sui_ctf_infrastructure.Python.Operators.{contains, index_value, int_of_value, iterate}
use sui_ctf_infrastructure.Python.Show.{str_value}

-- A field is what the manifest gives: nothing checks its type. `None` is `null`.
pub record Challenge : Type 0 where
  pub name : Value
  pub dir : Text
  pub flag : Value
  pub sui_version : Value
  pub ttl_seconds : Value
  pub package_path : Value
  pub player_faucet_coins : ℤ
  pub deploy : List Value
  pub solve : Value
  pub flag_mode : Value
  pub description : Value
  pub raw_manifest : Value

-- `os.path.join(a, b)`
unfoldable pub path_join : Text → Text → Text
path_join a (c ∷ b) =
    if c == b'/'
    then c ∷ b
    else if is_empty a || ends_with a (codes "/")
    then a ++ c ∷ b
    else a ++ b'/' ∷ c ∷ b
path_join a [] = if is_empty a || ends_with a (codes "/") then a else a ++ codes "/"

abbrev pub required : List Text
required = codes "name" ∷ codes "flag" ∷ codes "package_path" ∷ codes "solve" ∷ []

abbrev pub missing_from : Value → List Text → Result (List Text)
missing_from v [] = ok []
missing_from v (k ∷ ks) = do
  there ← contains v (str k)
  rest ← missing_from v ks
  ok (if there then rest else k ∷ rest)

abbrev pub text_items : List Text → Items
text_items [] = nil
text_items (s ∷ ss) = cons (str s) (text_items ss)

-- `raise ValueError(f"{manifest}: missing required keys: {missing}")` if there are any
unfoldable pub check_missing : Text → List Text → Result (Unit {0})
check_missing manifest [] = ok tt
check_missing manifest (k ∷ ks) = raised (record {
  kind = value_error;
  message = manifest ++ codes ": missing required keys: " ++ str_value (arr (text_items (k ∷ ks)));
})

-- The entry of a dictionary under a key, if it is a text. The program asks for texts alone, and entries
-- under other keys are left out; a list and a dictionary are no keys.
abbrev pub entry_of : Value → Value → Result (Option (Text × Value))
entry_of (str k) v = ok (some (k, v))
entry_of (arr vs) v = raise type_error "unhashable type: 'list'"
entry_of (obj fs) v = raise type_error "unhashable type: 'dict'"
entry_of k v = ok none

abbrev pub entry_of_items : List Value → Result (Option (Text × Value))
entry_of_items (k ∷ v ∷ []) = entry_of k v
entry_of_items vs = raise value_error "dictionary update sequence element: 2 is required"

-- A pair of a key and a value, as `dict` takes it from a list: of whatever has two items.
abbrev pub pair_of : Value → Result (Option (Text × Value))
unfolding iterate
pair_of v = elim (iterate v) [
  | raised e ↦ raise type_error "cannot convert dictionary update sequence element to a sequence"
  | ok vs ↦ entry_of_items vs
]

abbrev pub add_entry : Option (Text × Value) → Fields → Fields
add_entry none acc = acc
add_entry (some (k, w)) acc = field k w acc

-- The last pair of a key counts: it is put in front of those before it.
abbrev add_pairs : Fields → Items → Result Fields
add_pairs acc nil = ok acc
add_pairs acc (cons v vs) = elim (pair_of v) [
  | raised e ↦ raised e
  | ok entry ↦ add_pairs (add_entry entry acc) vs
]

-- `dict(v)`: the characters of a text are no pairs.
unfoldable pub dict_of_value : Value → Result Value
dict_of_value (obj fs) = ok (obj fs)
dict_of_value (arr vs) = add_pairs end vs >>= λ fs. ok (obj fs)
dict_of_value (str []) = ok (obj end)
dict_of_value (str (c ∷ s)) =
    raise value_error "dictionary update sequence element #0 has length 1; 2 is required"
dict_of_value v = raise type_error "object is not iterable"

-- `yaml.safe_load(fh) or {}`
abbrev pub or_empty : Value → Value
or_empty v = if truthy v then v else obj end

module _ (cdir : Text) where
  unfoldable pub challenge_of : Value → Result Challenge
  unfolding check_missing dict_of_value
  challenge_of v = do
    missing ← missing_from v required
    check_missing (path_join cdir (codes "challenge.yml")) missing
    name ← index_value v (str (codes "name"))
    flag ← index_value v (str (codes "flag"))
    sui_version ← get_default v (codes "sui_version") (str (codes "mainnet-v1.74.1"))
    ttl ← get v (codes "ttl_seconds")
    package_path ← index_value v (str (codes "package_path"))
    coins ← get_default v (codes "player_faucet_coins") (num (pos 2))
    coin_count ← int_of_value coins
    deploy ← get_default v (codes "deploy") (arr nil)
    steps ← iterate deploy
    solve ← index_value v (str (codes "solve"))
    solve_dict ← dict_of_value solve
    mode ← get_default v (codes "flag_mode") (str (codes "server_issued"))
    description ← get_default v (codes "description") (str [])
    ok (record {
      name = name;
      dir = cdir;
      flag = flag;
      sui_version = sui_version;
      ttl_seconds = ttl;
      package_path = package_path;
      player_faucet_coins = coin_count;
      deploy = steps;
      solve = solve_dict;
      flag_mode = mode;
      description = description;
      raw_manifest = v;
    })

-- `load_yaml` opens, reads and parses a file.
unfoldable pub load_challenge :
    (Text → Bool) → (Text → Result Value) → Text → Text → Result Challenge
load_challenge is_file load_yaml challenges_dir name =
    let cdir = path_join challenges_dir name in
    let manifest = path_join cdir (codes "challenge.yml") in
    if is_file manifest
    then (load_yaml manifest >>= λ v. challenge_of cdir (or_empty v))
    else raised (record {
      kind = file_not_found_error;
      message = codes "challenge manifest not found: " ++ manifest;
    })

-- `os.path.join(self.dir, self.package_path)`
unfoldable pub package_abs_path : Challenge → Result Text
package_abs_path ch = elim ch.package_path [
  | str s ↦ ok (path_join ch.dir s)
  | _ ↦ raise type_error "join() argument must be str"
]
