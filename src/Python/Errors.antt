-- ===== src/Python/Errors.antt =====
-- Exceptions as values: what `try` catches is a case of the result.
use sui_ctf_infrastructure.Base.{◌≡◌, refl, ◌⊎◌, inl, inr}
use sui_ctf_infrastructure.Text.{Text, codes}
use Prim.Native.String.{String}

pub data ExceptionKind : Type 0 where
  type_error key_error value_error attribute_error integrity_error runtime_error : ExceptionKind
  timeout_error file_not_found_error spawn_error sui_rpc_error : ExceptionKind
  not_found docker_exception http_error connection_error system_exit other_error : ExceptionKind

-- `message` is `str(exc)`.
pub record Exception : Type 0 where
  pub kind : ExceptionKind
  pub message : Text

pub data Result {ℓ} (A : Type ℓ) : Type ℓ where
  ok : A → Result A
  raised : Exception → Result A

infixl 5 ◌>>◌ ◌>>=◌
abbrev pub ◌>>=◌ {κ ℓ} : {B : Type κ} {A : Type ℓ} → Result A → (A → Result B) → Result B
raised e >>= f = raised e
ok a >>= f = f a

abbrev pub ◌>>◌ {ℓ} : {B : Type ℓ} → Result (Unit {0}) → Result B → Result B
m >> k = m >>= λ _. k

abbrev pub raise {ℓ} : {A : Type ℓ} → ExceptionKind → String → Result A
raise k s = raised (record { kind = k; message = codes s })

pub Result-cases {ℓ} :
    {A : Type ℓ} (r : Result A) → ((a : A) × (r ≡ ok a)) ⊎ ((e : Exception) × (r ≡ raised e))
Result-cases (ok a) = inl (a, refl)
Result-cases (raised e) = inr (e, refl)

module _ {ℓ κ} {A : Type ℓ} {B : Type κ} (f : A → Result B) where
  -- A chain that ends well has passed its first step.
  pub bind-ok : (m : Result A) {b : B} → (m >>= f) ≡ ok b → (a : A) × (f a ≡ ok b) × (m ≡ ok a)
  bind-ok (raised x) e = cc
  bind-ok (ok a) e = (a, e, refl)
