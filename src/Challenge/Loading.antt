-- ===== src/Challenge/Loading.antt =====
-- What `load_challenge` returns.
use sui_ctf_infrastructure.Base.{
  Bool-cases, ◌≡◌, refl, sym, ap, ◌∙◌, subst, inl, inr, Bool, true, some, List, [], ◌∷◌, arith,
}
use sui_ctf_infrastructure.Text.{Text, codes}
use sui_ctf_infrastructure.Python.Errors.{Exception, Result, ok, raised, bind-ok}
use sui_ctf_infrastructure.Python.Values.{
  Value, null, bool, num, float, str, arr, obj, Fields, end, field, find_field, get, get_default,
  truthy,
}
use sui_ctf_infrastructure.Python.Operators.{index_value, int_of_value, iterate}
use sui_ctf_infrastructure.Challenge.Manifest.{
  Challenge, path_join, required, missing_from, check_missing, dict_of_value, or_empty,
  challenge_of, load_challenge,
}
use sui_ctf_infrastructure.Challenge.Refusing.{missing_keys, missing_from-keep}

loaded_inj : {A : Type 0} {a b : A} → ◌≡◌ {A = Result A} (ok a) (ok b) → a ≡ b
loaded_inj e = cc

raised-ne-ok : {A : Type 0} (e : Exception) (a : A) → ◌≡◌ {A = Result A} (raised e) (ok a) → ⊥
raised-ne-ok e a h = cc

obj_inj : {fs gs : Fields} → obj fs ≡ obj gs → fs ≡ gs
obj_inj e = cc

-- A text key is found in a dictionary only.
index-found :
    (v : Value) (k : Text) (x : Value)
    → index_value v (str k) ≡ ok x
    → (fs : Fields) × (v ≡ obj fs) × (find_field k fs ≡ some x)
unfolding index_value
index-found null k x h = cc
index-found (bool b) k x h = cc
index-found (num n) k x h = cc
index-found (float f) k x h = cc
index-found (str s) k x h = cc
index-found (arr vs) k x h = cc
index-found (obj fs) k x h = (fs, refl, ground (arith, h))

dict_of_value-obj : (v d : Value) → dict_of_value v ≡ ok d → (gs : Fields) × (d ≡ obj gs)
unfolding dict_of_value
dict_of_value-obj null d h = cc
dict_of_value-obj (bool b) d h = cc
dict_of_value-obj (num n) d h = cc
dict_of_value-obj (float f) d h = cc
dict_of_value-obj (str []) d h = (end, sym (loaded_inj h))
dict_of_value-obj (str (c ∷ s)) d h = cc
dict_of_value-obj (arr vs) d h =
    let (fs, made, _) = bind-ok (λ (fs : Fields). ok (obj fs)) _ h in (fs, sym (loaded_inj made))
dict_of_value-obj (obj fs) d h = (fs, sym (loaded_inj h))

-- The manifest is a dictionary with the required keys, the challenge has its values, and the condition
-- is a dictionary whose kind can be read.
abbrev pub IsLoaded : Value → Challenge → Type 0
IsLoaded v ch =
    (fs : Fields) × (solve : Fields) × (kind : Value) × (v ≡ obj fs)
    × (missing_keys fs ≡ [])
    × (find_field (codes "name") fs ≡ some ch.name)
    × (find_field (codes "flag") fs ≡ some ch.flag)
    × (find_field (codes "package_path") fs ≡ some ch.package_path)
    × (ch.solve ≡ obj solve)
    × (get_default ch.solve (codes "type") (str (codes "state")) ≡ ok kind)

check_missing-none :
    (manifest : Text) (ks : List Text) → check_missing manifest ks ≡ ok tt → ks ≡ []
unfolding check_missing
check_missing-none manifest [] h = refl
check_missing-none manifest (k ∷ ks) h = cc

field_of :
    (v : Value) (fs : Fields) (k : Text) (x : Value)
    → v ≡ obj fs
    → index_value v (str k) ≡ ok x
    → find_field k fs ≡ some x
field_of v fs k x same h =
    let (gs, other, found) = index-found v k x h in
    subst (λ (hs : Fields). find_field k hs ≡ some x) (obj_inj (sym other ∙ same)) found

kind_there :
    (fs : Fields)
    → (kind : Value) × (get_default (obj fs) (codes "type") (str (codes "state")) ≡ ok kind)
unfolding get_default
kind_there fs = (_, refl)

-- The pieces of a load that went through.
assembled :
    (manifest : Text) (v solve spec : Value) (missing : List Text) (ch : Challenge)
    → missing_from v required ≡ ok missing
    → check_missing manifest missing ≡ ok tt
    → index_value v (str (codes "name")) ≡ ok ch.name
    → index_value v (str (codes "flag")) ≡ ok ch.flag
    → index_value v (str (codes "package_path")) ≡ ok ch.package_path
    → dict_of_value solve ≡ ok ch.solve
    → IsLoaded v ch
assembled manifest v solve spec missing ch m c n f p d =
    let (fs, same, named) = index-found v (codes "name") ch.name n in
    let (gs, spec_is) = dict_of_value-obj solve ch.solve d in
    let (kind, kinded) = kind_there gs in
    let asked = ap (λ x. missing_from x required) same in
    let none_left = loaded_inj (sym (missing_from-keep fs required) ∙ sym asked ∙ m) in
    (
      fs,
      gs,
      kind,
      same,
      none_left ∙ check_missing-none manifest missing c,
      named,
      field_of v fs (codes "flag") ch.flag same f,
      field_of v fs (codes "package_path") ch.package_path same p,
      spec_is,
      ap (λ x. get_default x (codes "type") (str (codes "state"))) spec_is ∙ kinded,
    )

challenge_of-IsLoaded :
    (cdir : Text) (v : Value) (ch : Challenge) → challenge_of cdir v ≡ ok ch → IsLoaded v ch
unfolding challenge_of
challenge_of-IsLoaded cdir v ch h =
    let manifest = path_join cdir (codes "challenge.yml") in
    let (missing, h1, m) = bind-ok _ (missing_from v required) h in
    let (_, h2, none_missing) = bind-ok _ (check_missing manifest missing) h1 in
    let (name, h3, n) = bind-ok _ (index_value v (str (codes "name"))) h2 in
    let (flag, h4, f) = bind-ok _ (index_value v (str (codes "flag"))) h3 in
    let (version, h5, _) = bind-ok _ (get_default v (codes "sui_version") _) h4 in
    let (ttl, h6, _) = bind-ok _ (get v (codes "ttl_seconds")) h5 in
    let (path, h7, p) = bind-ok _ (index_value v (str (codes "package_path"))) h6 in
    let (coins, h8, _) = bind-ok _ (get_default v (codes "player_faucet_coins") _) h7 in
    let (count, h9, _) = bind-ok _ (int_of_value coins) h8 in
    let (deploy, h10, _) = bind-ok _ (get_default v (codes "deploy") _) h9 in
    let (steps, h11, _) = bind-ok _ (iterate deploy) h10 in
    let (solve, h12, _) = bind-ok _ (index_value v (str (codes "solve"))) h11 in
    let (spec, h13, d) = bind-ok _ (dict_of_value solve) h12 in
    let (mode, h14, _) = bind-ok _ (get_default v (codes "flag_mode") _) h13 in
    let (description, h15, _) = bind-ok _ (get_default v (codes "description") _) h14 in
    let made = loaded_inj h15 in
    assembled manifest v solve spec missing ch m none_missing
      (n ∙ ap (λ (c : Challenge). ok c.name) made) (f ∙ ap (λ (c : Challenge). ok c.flag) made)
      (p ∙ ap (λ (c : Challenge). ok c.package_path) made)
      (d ∙ ap (λ (c : Challenge). ok c.solve) made)

not_there : (k : Text) (x : Value) (fs : Fields) → obj end ≡ obj fs → find_field k fs ≡ some x → ⊥
unfolding find_field
not_there k x end same found = cc
not_there k x (field j y fs) same found = cc

or_empty-named :
    (v : Value) (fs : Fields) (k : Text) (x : Value)
    → or_empty v ≡ obj fs
    → find_field k fs ≡ some x
    → v ≡ obj fs
or_empty-named v fs k x same found = elim (Bool-cases (truthy v)) [
  | inl full ↦ rw full at same
  | inr empty ↦ absurd (not_there k x fs (rw empty at same) found)
]

or_empty-IsLoaded : (v : Value) (ch : Challenge) → IsLoaded (or_empty v) ch → IsLoaded v ch
or_empty-IsLoaded v ch (fs, gs, kind, same, full, named, flagged, packed, spec, kinded) = (
  fs,
  gs,
  kind,
  or_empty-named v fs (codes "name") ch.name same named,
  full,
  named,
  flagged,
  packed,
  spec,
  kinded,
)

-- A challenge that `load_challenge` returns comes from a manifest file that is a dictionary with all
-- four required keys; it has the values of the name, the flag and the package path, and its condition
-- is a dictionary, so that the check can always read what kind of condition it is.
pub load_challenge-IsLoaded :
    (is_file : Text → Bool) (load_yaml : Text → Result Value) (dir name : Text) (ch : Challenge)
    → load_challenge is_file load_yaml dir name ≡ ok ch
    → (v : Value) × (is_file (path_join (path_join dir name) (codes "challenge.yml")) ≡ true)
      × (load_yaml (path_join (path_join dir name) (codes "challenge.yml")) ≡ ok v)
      × IsLoaded v ch
unfolding load_challenge
load_challenge-IsLoaded is_file load_yaml dir name ch h =
    let manifest = path_join (path_join dir name) (codes "challenge.yml") in
    elim (Bool-cases (is_file manifest)) [
      | inl there ↦
          let (v, h1, read) =
            bind-ok (λ v. challenge_of (path_join dir name) (or_empty v)) (load_yaml manifest)
              (rw there at h) in
          (
            v,
            there,
            read,
            or_empty-IsLoaded v ch (challenge_of-IsLoaded (path_join dir name) (or_empty v) ch h1),
          )
      | inr absent ↦ absurd (raised-ne-ok _ ch (rw absent at h))
    ]
