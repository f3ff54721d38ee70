-- ===== src/NcServer/Clock.antt =====
-- The remaining time, as the player reads it.
use sui_ctf_infrastructure.Base.{
  ltb, Bool-cases, length, length-append, ℤ, pos, pos_part, ℕ, zero, suc, ◌+◌, ◌*◌, ◌/◌, ◌%◌, ◌≤◌,
  ◌<◌, ◌≡◌, refl, ◌⊎◌, inl, inr, some, [], ◌∷◌, ◌++◌, arith,
}
use sui_ctf_infrastructure.Text.{Text, split}
use sui_ctf_infrastructure.Text.Numbers.{int_of_text, decimal_rounds, decimal, text_of_int}
use sui_ctf_infrastructure.Text.Laws.{AllDigits, decimal-AllDigits}
use sui_ctf_infrastructure.Text.RoundTrip.{int_of_text-text_of_int, int_of_text-padded}
use sui_ctf_infrastructure.NcServer.Format.{two_digits, fmt_secs}

split-digits : (s : Text) → AllDigits s → split b':' s ≡ s ∷ []
unfolding split
split-digits [] h = refl
split-digits (c ∷ s) h = ground (arith, h.0, split-digits s h.1)

split-at : (m s : Text) → AllDigits m → AllDigits s → split b':' (m ++ b':' ∷ s) ≡ m ∷ s ∷ []
unfolding split
split-at [] s hm hs = ground (arith, split-digits s hs)
split-at (c ∷ m) s hm hs = ground (arith, hm.0, split-at m s hm.1 hs)

two_digits_cases :
    (n : ℕ)
    → ((n < 10) × (two_digits n ≡ b'0' ∷ decimal n)) ⊎ ((10 ≤ n) × (two_digits n ≡ decimal n))
unfolding two_digits
two_digits_cases n = elim (Bool-cases (ltb n 10)) [
  | inl small ↦ inl (ground (arith, small), rw small refl)
  | inr big ↦ inr (ground (arith, big), rw big refl)
]

two_digits-AllDigits : (n : ℕ) → AllDigits (two_digits n)
two_digits-AllDigits n = elim (two_digits_cases n) [
  | inl (_, e) ↦ rw e (refl, decimal-AllDigits n)
  | inr (_, e) ↦ rw e (decimal-AllDigits n)
]

two_digits-reads : (n : ℕ) → int_of_text (two_digits n) ≡ some (pos n)
unfolding decimal text_of_int
two_digits-reads n = elim (two_digits_cases n) [
  | inl (_, e) ↦ rw e (int_of_text-padded n)
  | inr (_, e) ↦ rw e (int_of_text-text_of_int (pos n))
]

decimal_rounds-one : (f n : ℕ) → n < 10 → length (decimal_rounds (suc f) n) ≡ 1
unfolding decimal_rounds
decimal_rounds-one f n h = ground arith

decimal_rounds-step :
    (f n : ℕ) → 10 ≤ n → length (decimal_rounds (suc f) n) ≡ length (decimal_rounds f (n / 10)) + 1
unfolding decimal_rounds
decimal_rounds-step f n h =
    ground (arith, length-append (decimal_rounds f (n / 10)) ((b'0' + n % 10) ∷ []))

length-decimal_rounds : (f n : ℕ) → 1 ≤ length (decimal_rounds (suc f) n)
unfolding decimal_rounds
length-decimal_rounds f n =
    ground (arith, length-append (decimal_rounds f (n / 10)) ((b'0' + n % 10) ∷ []))

-- Two characters below a hundred, and never fewer.
length-two_digits_below : (n : ℕ) → n < 100 → length (two_digits n) ≡ 2
unfolding decimal
length-two_digits_below zero h = unfold two_digits decimal_rounds in refl
length-two_digits_below (suc n) h = elim (two_digits_cases (suc n)) [
  | inl (small, e) ↦ rw e (omega (arith, decimal_rounds-one (suc n) (suc n) small))
  | inr (big, e) ↦ rw e (
      omega (
        arith,
        decimal_rounds-step (suc n) (suc n) big,
        decimal_rounds-one n (suc n / 10) (omega arith),
      ))
]

length-two_digits : (n : ℕ) → 2 ≤ length (two_digits n)
unfolding decimal
length-two_digits zero = unfold two_digits decimal_rounds in omega arith
length-two_digits (suc n) = elim (two_digits_cases (suc n)) [
  | inl (small, e) ↦ rw e (omega (arith, decimal_rounds-one (suc n) (suc n) small))
  | inr (big, e) ↦
      rw e (
        omega
          (arith, decimal_rounds-step (suc n) (suc n) big, length-decimal_rounds n (suc n / 10)))
]

-- Two rows of digits with a colon between them: minutes, of two digits or more, and seconds, of two
-- digits and below sixty, that make up the time; a negative time counts as none.
abbrev pub ReadsBack : ℤ → Text → Type 0
ReadsBack secs t =
    (m : Text) × (s : Text) × (minutes : ℕ) × (rest : ℕ) × (split b':' t ≡ m ∷ s ∷ [])
    × (int_of_text m ≡ some (pos minutes))
    × (int_of_text s ≡ some (pos rest))
    × (2 ≤ length m)
    × (length s ≡ 2)
    × (rest < 60)
    × (minutes * 60 + rest ≡ pos_part secs)

-- The remaining time is shown as two rows of digits with a colon between them: minutes, of two digits
-- or more, and seconds, of two digits and below sixty. Together they give the time back; a negative
-- time is shown as none.
pub fmt_secs-ReadsBack : (secs : ℤ) → ReadsBack secs (fmt_secs secs)
unfolding fmt_secs
fmt_secs-ReadsBack secs =
    let n = pos_part secs in
    (
      two_digits (n / 60),
      two_digits (n % 60),
      n / 60,
      n % 60,
      split-at (two_digits (n / 60)) (two_digits (n % 60)) (two_digits-AllDigits (n / 60))
          (two_digits-AllDigits (n % 60)),
      two_digits-reads (n / 60),
      two_digits-reads (n % 60),
      length-two_digits (n / 60),
      length-two_digits_below (n % 60) (omega arith),
      omega arith,
      omega arith,
    )
