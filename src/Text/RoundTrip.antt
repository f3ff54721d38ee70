-- ===== src/Text/RoundTrip.antt =====
-- `int(str(n))` is `n`.
use sui_ctf_infrastructure.Base.{
  ltb, Bool-cases, ℤ, pos, negsuc, sub_ℕ, ℕ, zero, suc, ◌+◌, ◌-◌, ◌*◌, ◌/◌, ◌%◌, ◌<◌, ◌≡◌, refl,
  ◌≢◌, inl, inr, true, false, some, [], ◌∷◌, ◌++◌, arith,
}
use sui_ctf_infrastructure.Text.{Text}
use sui_ctf_infrastructure.Text.Numbers.{
  read_digits, positive, read_signed, int_of_text, decimal_rounds, decimal, text_of_int,
}
use sui_ctf_infrastructure.Text.Laws.{
  strip-NoSpace, AllDigits, AllDigits-NoSpace, decimal-AllDigits, decimal-ne-nil,
}

-- The number that a row of digits spells behind the digits of `acc`.
spelled : ℕ → Text → ℕ
spelled acc [] = acc
spelled acc (c ∷ s) = spelled (acc * 10 + (c - b'0')) s

spelled-append_one :
    (acc : ℕ) (s : Text) (c : ℕ) → spelled acc (s ++ c ∷ []) ≡ spelled acc s * 10 + (c - b'0')
unfolding spelled
spelled-append_one acc [] c = refl
spelled-append_one acc (d ∷ s) c = spelled-append_one (acc * 10 + (d - b'0')) s c

spelled-decimal_rounds : (f n : ℕ) → n < f → spelled 0 (decimal_rounds f n) ≡ n
unfolding decimal_rounds spelled
spelled-decimal_rounds zero n h = absurd (omega arith)
spelled-decimal_rounds (suc f) n h = elim (Bool-cases (ltb n 10)) [
  | inl small ↦ rw small (omega arith)
  | inr big ↦
      rw (big, spelled-append_one 0 (decimal_rounds f (n / 10)) (b'0' + n % 10))
        (omega (arith, spelled-decimal_rounds f (n / 10) (ground arith)))
]

read_digits-spelled :
    (s : Text) (acc : ℕ) → AllDigits s → read_digits s acc true ≡ some (spelled acc s)
unfolding read_digits spelled
read_digits-spelled [] acc h = refl
read_digits-spelled (c ∷ s) acc h =
    rw (h.0, read_digits) (read_digits-spelled s (acc * 10 + (c - b'0')) h.1)

read_digits-start :
    (s : Text) (acc : ℕ) → AllDigits s → s ≢ [] → read_digits s acc false ≡ some (spelled acc s)
unfolding read_digits spelled
read_digits-start [] acc h n = absurd (n refl)
read_digits-start (c ∷ s) acc h n =
    rw (h.0, read_digits) (read_digits-spelled s (acc * 10 + (c - b'0')) h.1)

read_signed-digits :
    (s : Text) → AllDigits s → s ≢ [] → read_signed s ≡ positive (read_digits s 0 false)
unfolding read_signed
read_signed-digits [] h n = absurd (n refl)
read_signed-digits (c ∷ s) h n = ground arith

int_of_text-AllDigits : (s : Text) → AllDigits s → s ≢ [] → int_of_text s ≡ some (pos (spelled 0 s))
unfolding int_of_text
int_of_text-AllDigits s h n =
    rw
      (strip-NoSpace s (AllDigits-NoSpace s h), read_signed-digits s h n, read_digits-start s 0 h n)

int_of_text-negative :
    (s : Text) → AllDigits s → s ≢ [] → int_of_text (b'-' ∷ s) ≡ some (sub_ℕ 0 (spelled 0 s))
unfolding int_of_text read_signed
int_of_text-negative s h n =
    rw (strip-NoSpace (b'-' ∷ s) (refl, AllDigits-NoSpace s h), read_digits-start s 0 h n)

spelled-decimal : (n : ℕ) → spelled 0 (decimal n) ≡ n
unfolding decimal
spelled-decimal n = spelled-decimal_rounds (suc n) n (omega arith)

-- Every integer is read back from its decimal text.
pub int_of_text-text_of_int : (n : ℤ) → int_of_text (text_of_int n) ≡ some n
unfolding text_of_int
int_of_text-text_of_int (pos n) =
    rw (
      int_of_text-AllDigits (decimal n) (decimal-AllDigits n) (decimal-ne-nil n),
      spelled-decimal n,
    )
int_of_text-text_of_int (negsuc n) =
    rw
      (
        int_of_text-negative (decimal (suc n)) (decimal-AllDigits (suc n)) (decimal-ne-nil (suc n)),
        spelled-decimal (suc n),
      )
      (ground arith)

-- A zero in front changes nothing.
pub int_of_text-padded : (n : ℕ) → int_of_text (b'0' ∷ decimal n) ≡ some (pos n)
unfolding spelled
int_of_text-padded n = rw (
  int_of_text-AllDigits (b'0' ∷ decimal n) (refl, decimal-AllDigits n) (λ e. cc),
  spelled-decimal n,
)
