-- ===== src/Text/Numbers.antt =====
-- `int(s)` and `str(n)`.
use sui_ctf_infrastructure.Base.{
  ltb, leb, ◌==◌, if◌then◌else◌, ℤ, pos, negsuc, sub_ℕ, ℕ, zero, suc, ◌+◌, ◌-◌, ◌*◌, ◌/◌, ◌%◌, Bool,
  true, false, ◌&&◌, Option, none, some, [], ◌∷◌, ◌++◌,
}
use sui_ctf_infrastructure.Text.{Text, strip}

abbrev pub is_digit : ℕ → Bool
is_digit c = leb b'0' c && leb c b'9'

-- The digits of an integer literal, with single underscores between them; `after` tells that the
-- last character was a digit.
unfoldable pub read_digits : Text → ℕ → Bool → Option ℕ
read_digits [] acc after = if after then some acc else none
read_digits (c ∷ s) acc after = elim (is_digit c) [
  | true ↦ read_digits s (acc * 10 + (c - b'0')) true
  | false ↦ elim (after && c == b'_') [ true ↦ read_digits s acc false | false ↦ none ]
]

abbrev pub positive : Option ℕ → Option ℤ
positive none = none
positive (some n) = some (pos n)

abbrev pub negative : Option ℕ → Option ℤ
negative none = none
negative (some n) = some (sub_ℕ 0 n)

-- The sign, then the digits.
unfoldable pub read_signed : Text → Option ℤ
unfolding read_digits
read_signed [] = none
read_signed (c ∷ s) =
    if c == b'-'
    then negative (read_digits s 0 false)
    else if c == b'+'
    then positive (read_digits s 0 false)
    else positive (read_digits (c ∷ s) 0 false)

-- `int(s)`; `none` is a ValueError.
unfoldable pub int_of_text : Text → Option ℤ
unfolding read_signed strip
int_of_text s = read_signed (strip s)

-- The digits of a number, by rounds of division by ten.
unfoldable pub decimal_rounds : ℕ → ℕ → Text
decimal_rounds zero n = []
decimal_rounds (suc f) n =
    let rest = decimal_rounds f (n / 10) ++ (b'0' + n % 10) ∷ [] in
    if ltb n 10 then (b'0' + n) ∷ [] else rest

-- `str(n)` of a natural number
unfoldable pub decimal : ℕ → Text
unfolding decimal_rounds
decimal n = decimal_rounds (suc n) n

-- `str(n)`
unfoldable pub text_of_int : ℤ → Text
unfolding decimal
text_of_int (pos n) = decimal n
text_of_int (negsuc n) = b'-' ∷ decimal (suc n)
