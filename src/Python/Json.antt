-- ===== src/Python/Json.antt =====
-- `json.dumps`: its text of a value, with characters outside ASCII escaped.
use sui_ctf_infrastructure.Base.{
  ltb, leb, ◌==◌, if◌then◌else◌, ℕ, ◌+◌, ◌-◌, ◌/◌, ◌%◌, Bool, true, false, ◌&&◌, ◌||◌, [], ◌∷◌,
  ◌++◌,
}
use sui_ctf_infrastructure.Text.{Text, codes}
use sui_ctf_infrastructure.Text.Numbers.{negative, text_of_int}
use sui_ctf_infrastructure.Python.Values.{
  Float, finite, infinite, nan, Value, null, bool, num, float, str, arr, obj, Items, nil, cons,
  Fields, end, field,
}
use sui_ctf_infrastructure.Python.Show.{hex_digit}

abbrev hex4 : ℕ → Text
hex4 c =
    codes "\\u"
    ++ hex_digit (c / 4096)
      ∷ hex_digit (c / 256 % 16)
      ∷ hex_digit (c / 16 % 16)
      ∷ hex_digit (c % 16)
      ∷ []

escape_json : ℕ → Text
unfolding hex_digit
escape_json c =
    if c == b'"' || c == b'\\'
    then b'\\' ∷ c ∷ []
    else if c == b'\n'
    then codes "\\n"
    else if c == b'\r'
    then codes "\\r"
    else if c == b'\t'
    then codes "\\t"
    else if c == 8
    then codes "\\b"
    else if c == 12
    then codes "\\f"
    else if leb 32 c && ltb c 128
    then c ∷ []
    else if ltb c 0x10000
    then hex4 c
    else hex4 (0xd800 + (c - 0x10000) / 1024) ++ hex4 (0xdc00 + (c - 0x10000) % 1024)

json_chars : Text → Text
unfolding escape_json
json_chars [] = codes "\""
json_chars (c ∷ s) = escape_json c ++ json_chars s

abbrev json_bool : Bool → Text
json_bool true = codes "true"
json_bool false = codes "false"

abbrev pub json_float : Float → Text
json_float (finite shown stored m k) = shown
json_float (infinite negative) = if negative then codes "-Infinity" else codes "Infinity"
json_float nan = codes "NaN"

unfoldable mutual
  unfolding json_chars text_of_int

  pub dumps : Value → Text
  dumps null = codes "null"
  dumps (bool b) = json_bool b
  dumps (num n) = text_of_int n
  dumps (float f) = json_float f
  dumps (str s) = b'"' ∷ json_chars s
  dumps (arr vs) = b'[' ∷ dumps_items vs
  dumps (obj fs) = b'{' ∷ dumps_fields fs

  pub dumps_items : Items → Text
  dumps_items nil = codes "]"
  dumps_items (cons v nil) = dumps v ++ codes "]"
  dumps_items (cons v (cons w vs)) = dumps v ++ codes ", " ++ dumps_items (cons w vs)

  pub dumps_fields : Fields → Text
  dumps_fields end = codes "}"
  dumps_fields (field k v end) = (b'"' ∷ json_chars k) ++ codes ": " ++ dumps v ++ codes "}"
  dumps_fields (field k v (field j w fs)) =
      (b'"' ∷ json_chars k) ++ codes ": " ++ dumps v ++ codes ", " ++ dumps_fields (field j w fs)
