-- ===== src/Challenge/Refusing.antt =====
-- What `load_challenge` refuses.
use sui_ctf_infrastructure.Python.Show.{str_value}
use sui_ctf_infrastructure.Base.{
  keep, ◌≡◌, refl, ◌⊎◌, Bool, true, false, not, List, [], ◌∷◌, ◌++◌, arith,
}
use sui_ctf_infrastructure.Text.{Text, codes}
use sui_ctf_infrastructure.Python.Errors.{value_error, file_not_found_error, Exception, Result, ok}
use sui_ctf_infrastructure.Python.Values.{Value, arr, obj, Fields, find_field}
use sui_ctf_infrastructure.Python.Operators.{is_some, contains}
use sui_ctf_infrastructure.Challenge.Manifest.{required, missing_from, text_items}

-- The required keys that a dictionary lacks, in the order in which they are asked for.
abbrev pub missing_keys : Fields → List Text
missing_keys fs = keep (λ k. not (is_some (find_field k fs))) required

pub missing_from-keep :
    (fs : Fields) (ks : List Text)
    → missing_from (obj fs) ks ≡ ok (keep (λ k. not (is_some (find_field k fs))) ks)
unfolding contains
missing_from-keep fs [] = refl
missing_from-keep fs (k ∷ ks) = ground (arith, missing_from-keep fs ks)

-- What is raised for a dictionary that lacks required keys.
abbrev pub missing_error : Text → List Text → Exception
missing_error manifest ks = record {
  kind = value_error;
  message = manifest ++ codes ": missing required keys: " ++ str_value (arr (text_items ks));
}

-- What is raised where the manifest is no file.
abbrev pub absent_error : Text → Exception
absent_error manifest = record {
  kind = file_not_found_error;
  message = codes "challenge manifest not found: " ++ manifest;
}

-- What is refused, whatever the disk holds: the manifest is absent, or it is there and lacks required
-- keys.
abbrev pub Refusal : (Text → Bool) → (Text → Result Value) → Text → Exception → Type 0
Refusal is_file load_yaml manifest e =
    ((is_file manifest ≡ false) × (e ≡ absent_error manifest))
    ⊎ ((fs : Fields) × (k : Text) × (ks : List Text) × (is_file manifest ≡ true)
        × (load_yaml manifest ≡ ok (obj fs))
        × (missing_keys fs ≡ k ∷ ks)
        × (e ≡ missing_error manifest (k ∷ ks)))
