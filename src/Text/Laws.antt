-- ===== src/Text/Laws.antt =====
-- Laws of the text functions.
use sui_ctf_infrastructure.Base.{
  ltb, Bool-cases, All, ℕ, zero, suc, ◌/◌, ◌≡◌, refl, ◌≢◌, inl, inr, true, false, [], ◌∷◌, ◌++◌,
  arith,
}
use sui_ctf_infrastructure.Text.{Text, text_eq, is_space, strip_left, strip_right, strip}
use sui_ctf_infrastructure.Text.Numbers.{is_digit, decimal_rounds, decimal}

pub text_eq→eq : (s t : Text) → text_eq s t ≡ true → s ≡ t
text_eq→eq s t h = ground arith

pub text_eq_refl : (s : Text) → text_eq s s ≡ true
text_eq_refl s = ground arith

pub text_eq_comm : (s t : Text) → text_eq s t ≡ text_eq t s
text_eq_comm s t = ground arith

-- Text without a space at either end is what `strip` leaves alone.
abbrev pub NoSpace : Text → Type 0
NoSpace = All (λ c. is_space c ≡ false)

strip_left-NoSpace : (s : Text) → NoSpace s → strip_left s ≡ s
unfolding strip_left
strip_left-NoSpace [] h = refl
strip_left-NoSpace (c ∷ s) h = rw h.0

strip_right-NoSpace : (s : Text) → NoSpace s → strip_right s ≡ s
unfolding strip_right
strip_right-NoSpace [] h = refl
strip_right-NoSpace (c ∷ []) h = rw h.0
strip_right-NoSpace (c ∷ d ∷ s) h = rw (strip_right-NoSpace (d ∷ s) h.1)

pub strip-NoSpace : (s : Text) → NoSpace s → strip s ≡ s
unfolding strip
strip-NoSpace s h = rw (strip_left-NoSpace s h) (strip_right-NoSpace s h)

-- Decimal digits.
abbrev pub AllDigits : Text → Type 0
AllDigits = All (λ c. is_digit c ≡ true)

AllDigits-append : (s t : Text) → AllDigits s → AllDigits t → AllDigits (s ++ t)
AllDigits-append [] t hs ht = ht
AllDigits-append (c ∷ s) t hs ht = (hs.0, AllDigits-append s t hs.1 ht)

pub digit-no_space : (c : ℕ) → is_digit c ≡ true → is_space c ≡ false
unfolding is_space
digit-no_space c h = ground arith

pub AllDigits-NoSpace : (s : Text) → AllDigits s → NoSpace s
AllDigits-NoSpace [] h = tt
AllDigits-NoSpace (c ∷ s) h = (digit-no_space c h.0, AllDigits-NoSpace s h.1)

decimal_rounds-AllDigits : (f n : ℕ) → AllDigits (decimal_rounds f n)
unfolding decimal_rounds
decimal_rounds-AllDigits zero n = tt
decimal_rounds-AllDigits (suc f) n = elim (Bool-cases (ltb n 10)) [
  | inl small ↦ rw small (ground arith, tt)
  | inr big ↦ rw big (
      AllDigits-append (decimal_rounds f (n / 10)) _ (decimal_rounds-AllDigits f (n / 10))
        (ground arith, tt))
]

pub decimal-AllDigits : (n : ℕ) → AllDigits (decimal n)
unfolding decimal
decimal-AllDigits n = decimal_rounds-AllDigits (suc n) n

strip_right-append_space :
    (s : Text) (c : ℕ) → is_space c ≡ true → strip_right (s ++ c ∷ []) ≡ strip_right s
unfolding strip_right
strip_right-append_space [] c h = rw h
strip_right-append_space (d ∷ s) c h = rw (strip_right-append_space s c h)

strip_left-append_space :
    (s : Text) (c : ℕ)
    → NoSpace s
    → is_space c ≡ true
    → s ≢ []
    → strip_left (s ++ c ∷ []) ≡ s ++ c ∷ []
unfolding strip_left
strip_left-append_space [] c h k n = absurd (n refl)
strip_left-append_space (d ∷ s) c h k n = rw h.0

-- A space behind such a text is taken off.
pub strip-append_space :
    (s : Text) (c : ℕ) → NoSpace s → is_space c ≡ true → s ≢ [] → strip (s ++ c ∷ []) ≡ s
unfolding strip
strip-append_space s c h k n =
    rw (strip_left-append_space s c h k n, strip_right-append_space s c k) (strip_right-NoSpace s h)

append_one-ne-nil : (s : Text) (c : ℕ) → s ++ c ∷ [] ≢ []
append_one-ne-nil [] c e = cc
append_one-ne-nil (d ∷ s) c e = cc

decimal_rounds-ne-nil : (f n : ℕ) → decimal_rounds (suc f) n ≢ []
unfolding decimal_rounds
decimal_rounds-ne-nil f n = elim (Bool-cases (ltb n 10)) [
  | inl small ↦ rw small (λ e. cc)
  | inr big ↦ rw big (append_one-ne-nil (decimal_rounds f (n / 10)) _)
]

pub decimal-ne-nil : (n : ℕ) → decimal n ≢ []
unfolding decimal
decimal-ne-nil n = decimal_rounds-ne-nil n n

pub text_eq_ne : (s t : Text) → text_eq s t ≡ false → s ≢ t
text_eq_ne s t h = ground arith
