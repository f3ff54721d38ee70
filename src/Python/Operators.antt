-- ===== src/Python/Operators.antt =====
-- Python's operators on dynamic values: `==`, `in`, subscripts, `int`, `len` and iteration.
use sui_ctf_infrastructure.Base.{
  ltb, ◌==◌, if◌then◌else◌, length, tally, any_of, ℤ, pos, negsuc, sub_ℕ, scale, eqb_ℤ, ℕ, zero,
  suc, ◌-◌, ◌/◌, ◌^◌, Bool, true, false, ◌&&◌, ◌||◌, Option, none, some, List, [], ◌∷◌,
}
use sui_ctf_infrastructure.Text.{Text, text_eq, is_empty, starts_with}
use sui_ctf_infrastructure.Text.Numbers.{is_digit, negative, int_of_text}
use sui_ctf_infrastructure.Python.Errors.{type_error, value_error, other_error, Result, ok, raise}
use sui_ctf_infrastructure.Python.Values.{
  Float, finite, infinite, nan, Value, null, bool, num, float, str, arr, obj, Items, nil, cons,
  Fields, end, field, list_of, find_field, subscript,
}

abbrev pub int_of_bool : Bool → ℤ
int_of_bool true = pos 1
int_of_bool false = pos 0

-- `m / 2 ** k`, cut towards zero
abbrev pub cut : ℤ → ℕ → ℤ
cut (pos n) k = pos (n / 2 ^ k)
cut (negsuc n) k = sub_ℕ 0 (suc n / 2 ^ k)

-- `a == b` of floating-point numbers; `nan` equals nothing.
abbrev float_eq : Float → Float → Bool
float_eq (finite _ _ m j) (finite _ _ n k) = eqb_ℤ (scale (2 ^ k) m) (scale (2 ^ j) n)
float_eq (infinite a) (infinite b) = eqb_ℤ (int_of_bool a) (int_of_bool b)
float_eq _ _ = false

abbrev float_of_int : ℤ → Float
float_of_int n = finite [] [] n 0

abbrev pub count_fields : Fields → ℕ
count_fields end = 0
count_fields (field k v fs) = suc (count_fields fs)

unfoldable mutual
  unfolding find_field scale

  -- `a == b`: booleans are integers, and the order of a dictionary is of no account.
  pub value_eq : Value → Value → Bool
  value_eq null null = true
  value_eq (bool a) (bool b) = eqb_ℤ (int_of_bool a) (int_of_bool b)
  value_eq (bool a) (num n) = eqb_ℤ (int_of_bool a) n
  value_eq (num m) (bool b) = eqb_ℤ m (int_of_bool b)
  value_eq (num m) (num n) = eqb_ℤ m n
  value_eq (bool a) (float f) = float_eq (float_of_int (int_of_bool a)) f
  value_eq (float f) (bool b) = float_eq f (float_of_int (int_of_bool b))
  value_eq (num m) (float f) = float_eq (float_of_int m) f
  value_eq (float f) (num n) = float_eq f (float_of_int n)
  value_eq (float f) (float g) = float_eq f g
  value_eq (str s) (str t) = text_eq s t
  value_eq (arr vs) (arr ws) = items_eq vs ws
  value_eq (obj fs) (obj gs) = count_fields fs == count_fields gs && fields_in fs gs
  value_eq _ _ = false

  pub items_eq : Items → Items → Bool
  items_eq nil nil = true
  items_eq (cons v vs) (cons w ws) = value_eq v w && items_eq vs ws
  items_eq _ _ = false

  pub fields_in : Fields → Fields → Bool
  fields_in end gs = true
  fields_in (field k v fs) gs =
      elim (find_field k gs) [ none ↦ false | some w ↦ value_eq v w ] && fields_in fs gs

-- `t in s` on texts
unfoldable pub has_substring : Text → Text → Bool
has_substring t [] = is_empty t
has_substring t (c ∷ s) = starts_with (c ∷ s) t || has_substring t s

abbrev pub is_some {ℓ} : {A : Type ℓ} → Option A → Bool
is_some none = false
is_some (some a) = true

-- `k in v`
unfoldable pub contains : Value → Value → Result Bool
unfolding has_substring value_eq find_field
contains (obj fs) (str k) = ok (is_some (find_field k fs))
contains (obj fs) (arr vs) = raise type_error "unhashable type: 'list'"
contains (obj fs) (obj gs) = raise type_error "unhashable type: 'dict'"
contains (obj fs) k = ok false
contains (arr vs) k = ok (any_of (λ v. value_eq v k) (list_of vs))
contains (str s) (str t) = ok (has_substring t s)
contains (str s) k = raise type_error "'in <string>' requires string as left operand"
contains v k = raise type_error "argument is not iterable"

abbrev pub item_at : ℕ → Items → Option Value
item_at n nil = none
item_at zero (cons v vs) = some v
item_at (suc n) (cons v vs) = item_at n vs

abbrev pub item_or_raise : Option Value → Result Value
item_or_raise none = raise other_error "list index out of range"
item_or_raise (some v) = ok v

-- `v[k]`; a negative index counts from the end.
unfoldable pub index_value : Value → Value → Result Value
unfolding subscript
index_value v (str k) = subscript v k
index_value (arr vs) (num (pos n)) = item_or_raise (item_at n vs)
index_value (arr vs) (num (negsuc n)) =
    let size = length (list_of vs) in
    item_or_raise (if ltb n size then item_at (size - suc n) vs else none)
index_value v k = raise type_error "indices must be integers"

abbrev pub parsed : Option ℤ → Result ℤ
parsed none = raise value_error "invalid literal for int() with base 10"
parsed (some n) = ok n

-- `sys.int_info.default_max_str_digits`: a longer text is refused.
abbrev max_digits : ℕ
max_digits = 4300

-- `int(f)`; the `OverflowError` of an infinite one is no `ValueError`.
abbrev pub int_of_float : Float → Result ℤ
int_of_float (finite shown stored m k) = ok (cut m k)
int_of_float (infinite negative) = raise other_error "cannot convert float infinity to integer"
int_of_float nan = raise value_error "cannot convert float NaN to integer"

-- `int(v)`
unfoldable pub int_of_value : Value → Result ℤ
unfolding int_of_text
int_of_value (bool b) = ok (int_of_bool b)
int_of_value (num n) = ok n
int_of_value (float f) = int_of_float f
int_of_value (str s) =
    if ltb max_digits (tally is_digit s)
    then raise value_error "Exceeds the limit for integer string conversion"
    else parsed (int_of_text s)
int_of_value v = raise type_error "int() argument must be a string or a number"

abbrev pub keys_of : Fields → List Value
keys_of end = []
keys_of (field k v fs) = str k ∷ keys_of fs

abbrev pub characters : Text → List Value
characters [] = []
characters (c ∷ s) = str (c ∷ []) ∷ characters s

-- `for x in v`
unfoldable pub iterate : Value → Result (List Value)
iterate (arr vs) = ok (list_of vs)
iterate (obj fs) = ok (keys_of fs)
iterate (str s) = ok (characters s)
iterate v = raise type_error "object is not iterable"
