-- ===== src/Pow/Bits.antt =====
-- The bit length of a number, and the leading zero bits of a digest.
use native.Mathlib.Nat.{pow-suc, one-le-pow}
use sui_ctf_infrastructure.Base.{ℕ, zero, suc, ◌/◌, ◌^◌, ◌≤◌, ◌<◌, ◌≡◌, refl, ◌↔◌, arith}
use sui_ctf_infrastructure.Pow.{bit_rounds, bit_length}

abbrev Fits : ℕ → ℕ → ℕ → Type 0
Fits f v k = (bit_rounds f v ≤ k) ↔ (v < 2 ^ k)

bit_rounds-suc : (f v : ℕ) → bit_rounds (suc f) (suc v) ≡ suc (bit_rounds f (suc v / 2))
unfolding bit_rounds
bit_rounds-suc f v = ground arith

bit_rounds-zero : (f : ℕ) → bit_rounds f 0 ≡ 0
unfolding bit_rounds
bit_rounds-zero zero = refl
bit_rounds-zero (suc f) = ground arith

bit_rounds-Fits : (f v k : ℕ) → v ≤ f → Fits f v k
bit_rounds-Fits f zero k h =
    (λ _. omega (arith, one-le-pow k 2), λ _. omega (arith, bit_rounds-zero f))
bit_rounds-Fits zero (suc v) k h = absurd (omega arith)
bit_rounds-Fits (suc f) (suc v) zero h =
    (λ p. absurd (omega (arith, bit_rounds-suc f v)), λ p. absurd (omega arith))
bit_rounds-Fits (suc f) (suc v) (suc k) h =
    let rest = bit_rounds-Fits f (suc v / 2) k (omega arith) in
    (
      λ p. omega (arith, rest.0 (omega (arith, bit_rounds-suc f v)), pow-suc 2 k),
      λ p. omega (arith, rest.1 (omega (arith, pow-suc 2 k)), bit_rounds-suc f v),
    )

-- A number has at most `k` bits exactly when it is below 2 ^ k.
pub bit_length-le_iff : (v k : ℕ) → (bit_length v ≤ k) ↔ (v < 2 ^ k)
unfolding bit_length
bit_length-le_iff v k = bit_rounds-Fits v v k (omega arith)
