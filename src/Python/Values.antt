-- ===== src/Python/Values.antt =====
-- Dynamic values: `None`, booleans, integers, floating-point numbers, texts, lists and dictionaries.
use sui_ctf_infrastructure.Base.{
  if◌then◌else◌, ℤ, pos, eqb_ℤ, ℕ, Bool, true, false, not, Option, none, some, List, [], ◌∷◌, ◌++◌,
}
use sui_ctf_infrastructure.Text.{Text, codes, text_eq, is_empty}
use sui_ctf_infrastructure.Python.Errors.{
  type_error, key_error, attribute_error, Result, ok, raised, raise,
}

-- A floating-point number. A finite one is an integer over a power of two, with the text that `repr`
-- shows and the one that SQLite stores for it.
pub data Float : Type 0 where
  finite : (shown stored : Text) (mantissa : ℤ) (halvings : ℕ) → Float
  infinite : (negative : Bool) → Float
  nan : Float

mutual
  pub data Value : Type 0 where
    null : Value
    bool : Bool → Value
    num : ℤ → Value
    float : Float → Value
    str : Text → Value
    arr : Items → Value
    obj : Fields → Value

  pub data Items : Type 0 where
    nil : Items
    cons : Value → Items → Items

  pub data Fields : Type 0 where
    end : Fields
    field : Text → Value → Fields → Fields

abbrev pub list_of : Items → List Value
list_of nil = []
list_of (cons v vs) = v ∷ list_of vs

-- `d[k]` where the key is there
unfoldable pub find_field : Text → Fields → Option Value
find_field k end = none
find_field k (field j v fs) = if text_eq j k then some v else find_field k fs

abbrev pub some_or_null : Option Value → Value
some_or_null none = null
some_or_null (some v) = v

-- `v.get(k)`: only a dictionary has the method.
unfoldable pub get : Value → Text → Result Value
unfolding find_field
get (obj fs) k = ok (some_or_null (find_field k fs))
get v k = raise attribute_error "object has no attribute 'get'"

-- `v.get(k, d)`
unfoldable pub get_default : Value → Text → Value → Result Value
unfolding find_field
get_default (obj fs) k d = ok (elim (find_field k fs) [ none ↦ d | some v ↦ v ])
get_default v k d = raise attribute_error "object has no attribute 'get'"

-- `v[k]` at a text key
unfoldable pub subscript : Value → Text → Result Value
unfolding find_field
subscript (obj fs) k = elim (find_field k fs) [
  | none ↦ raised (record { kind = key_error; message = b'\'' ∷ k ++ codes "'" })
  | some v ↦ ok v
]
subscript v k = raise type_error "value is not subscriptable by a text"

-- `bool(v)`
unfoldable pub truthy : Value → Bool
truthy null = false
truthy (bool b) = b
truthy (num n) = not (eqb_ℤ n (pos 0))
truthy (float (finite shown stored m k)) = not (eqb_ℤ m (pos 0))
truthy (float f) = true
truthy (str s) = not (is_empty s)
truthy (arr nil) = false
truthy (arr (cons v vs)) = true
truthy (obj end) = false
truthy (obj (field k v fs)) = true
