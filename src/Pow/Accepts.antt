-- ===== src/Pow/Accepts.antt =====
-- What `verify` accepts: the gate's rule in terms of the digest as a number.
use native.Mathlib.Nat.{one-le-pow, div-lt_iff_lt-mul}
use sui_ctf_infrastructure.Base.{
  pos, ◌≤ℤ◌, ℕ, ◌-◌, ◌/◌, ◌^◌, ◌≤◌, ◌<◌, ◌≡◌, ◌≢◌, ◌↔◌, true, List, [], arith,
}
use sui_ctf_infrastructure.Pow.{from_bytes, leading_zero_bits, PowChallenge, hash, verify}
use sui_ctf_infrastructure.Text.{Text, strip}
use sui_ctf_infrastructure.Pow.Bits.{bit_length-le_iff}

-- A digest has at least `d` leading zero bits when its value shifted right by 256 - d is zero.
abbrev pub HasZeroBits : ℕ → List ℕ → Type 0
HasZeroBits d digest = from_bytes digest / 2 ^ (256 - d) ≡ 0

pub shifted_zero_iff : (v k : ℕ) → (v / 2 ^ k ≡ 0) ↔ (v < 2 ^ k)
shifted_zero_iff v k =
    let h = one-le-pow k 2 (omega arith) in
    let e = div-lt_iff_lt-mul {k = 2 ^ k} {x = v} {y = 1} (omega (arith, h)) in
    (λ p. omega (arith, e.0 (omega arith)), λ p. omega (arith, e.1 (omega arith)))

pub leading_zero_bits_iff :
    (d : ℕ) (digest : List ℕ) → d ≤ 256 → (pos d ≤ℤ leading_zero_bits digest) ↔ HasZeroBits d digest
unfolding leading_zero_bits
leading_zero_bits_iff d digest h = ground (
  arith,
  bit_length-le_iff (from_bytes digest) (256 - d),
  shifted_zero_iff (from_bytes digest) (256 - d),
)

module _ (sha256 : List ℕ → List ℕ) where
  -- With a positive difficulty of at most 256 bits, `verify` accepts a nonce exactly when it is not
  -- blank and the digest of the challenge and the stripped nonce has that many leading zero bits.
  pub verify_iff :
      (c nonce : Text) (d : ℕ)
      → 0 < d
      → d ≤ 256
      → (verify sha256 (record { challenge = c; difficulty = pos d }) nonce ≡ true)
        ↔ ((strip nonce ≢ []) × HasZeroBits d (hash sha256 c (strip nonce)))
  unfolding verify
  verify_iff c nonce d h k = ground (arith, leading_zero_bits_iff d (hash sha256 c (strip nonce)) k)

  -- Without a positive difficulty the gate is open to every text.
  pub verify_open :
      (pc : PowChallenge) (nonce : Text) → pc.difficulty ≤ℤ pos 0 → verify sha256 pc nonce ≡ true
  unfolding verify
  verify_open pc nonce h = ground arith
