-- ===== src/Python/Show.antt =====
-- `repr` and `str` of the dynamic values. Characters from 128 on are taken for printable.
use sui_ctf_infrastructure.Base.{
  ltb, ◌==◌, if◌then◌else◌, any_of, ℕ, ◌+◌, ◌-◌, ◌/◌, ◌%◌, Bool, true, false, not, ◌&&◌, ◌||◌, [],
  ◌∷◌, ◌++◌,
}
use sui_ctf_infrastructure.Text.{Text, codes}
use sui_ctf_infrastructure.Text.Numbers.{negative, text_of_int}
use sui_ctf_infrastructure.Python.Values.{
  Float, finite, infinite, nan, Value, null, bool, num, float, str, arr, obj, Items, nil, cons,
  Fields, end, field,
}

unfoldable pub hex_digit : ℕ → ℕ
hex_digit d = if ltb d 10 then b'0' + d else b'a' + (d - 10)

-- One character of a literal in this kind of quotes.
escape : ℕ → ℕ → Text
unfolding hex_digit
escape quote c =
    if c == b'\\' || c == quote
    then b'\\' ∷ c ∷ []
    else if c == b'\n'
    then codes "\\n"
    else if c == b'\r'
    then codes "\\r"
    else if c == b'\t'
    then codes "\\t"
    else if ltb c 32 || c == 127
    then codes "\\x" ++ hex_digit (c / 16) ∷ hex_digit (c % 16) ∷ []
    else c ∷ []

escape_all : ℕ → Text → Text
unfolding escape
escape_all quote [] = quote ∷ []
escape_all quote (c ∷ s) = escape quote c ++ escape_all quote s

-- Double quotes are used where the text has single ones only.
unfoldable pub repr_text : Text → Text
unfolding escape_all
repr_text s =
    let quote : ℕ = if any_of (◌==◌ b'\'') s && not (any_of (◌==◌ b'"') s) then b'"' else b'\'' in
    quote ∷ escape_all quote s

abbrev pub text_of_bool : Bool → Text
text_of_bool true = codes "True"
text_of_bool false = codes "False"

abbrev pub text_of_float : Float → Text
text_of_float (finite shown stored m k) = shown
text_of_float (infinite negative) = if negative then codes "-inf" else codes "inf"
text_of_float nan = codes "nan"

unfoldable mutual
  unfolding repr_text text_of_int

  pub repr_value : Value → Text
  repr_value null = codes "None"
  repr_value (bool b) = text_of_bool b
  repr_value (num n) = text_of_int n
  repr_value (float f) = text_of_float f
  repr_value (str s) = repr_text s
  repr_value (arr vs) = b'[' ∷ repr_items vs
  repr_value (obj fs) = b'{' ∷ repr_fields fs

  pub repr_items : Items → Text
  repr_items nil = codes "]"
  repr_items (cons v nil) = repr_value v ++ codes "]"
  repr_items (cons v (cons w vs)) = repr_value v ++ codes ", " ++ repr_items (cons w vs)

  pub repr_fields : Fields → Text
  repr_fields end = codes "}"
  repr_fields (field k v end) = repr_text k ++ codes ": " ++ repr_value v ++ codes "}"
  repr_fields (field k v (field j w fs)) =
      repr_text k ++ codes ": " ++ repr_value v ++ codes ", " ++ repr_fields (field j w fs)

-- `str(v)`
unfoldable pub str_value : Value → Text
unfolding repr_value
str_value (str s) = s
str_value null = repr_value null
str_value (bool b) = repr_value (bool b)
str_value (num n) = repr_value (num n)
str_value (float f) = repr_value (float f)
str_value (arr vs) = repr_value (arr vs)
str_value (obj fs) = repr_value (obj fs)
