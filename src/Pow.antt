-- ===== src/Pow.antt =====
-- orchestrator/app/pow.py: the proof-of-work gate. SHA-256 is a parameter; a digest is its bytes.
pub mod Bits
pub mod Accepts
pub mod Solver
pub mod Tests
use sui_ctf_infrastructure.Base.{
  ltb, ◌==◌, if◌then◌else◌, ℤ, pos, sub_ℕ, ltb_ℤ, leb_ℤ, ℕ, zero, suc, ◌+◌, ◌-◌, ◌*◌, ◌/◌, ◌%◌, ◌^◌,
  Bool, true, false, Option, none, some, List, [], ◌∷◌, ◌++◌,
}
use sui_ctf_infrastructure.Text.{Text, codes, strip}
use sui_ctf_infrastructure.Text.Numbers.{decimal, text_of_int}

-- `int.from_bytes(digest, "big")`, on the value of the bytes before
unfoldable pub bytes_from : ℕ → List ℕ → ℕ
bytes_from acc [] = acc
bytes_from acc (b ∷ bs) = bytes_from (acc * 256 + b) bs

abbrev pub from_bytes : List ℕ → ℕ
from_bytes bs = bytes_from 0 bs

-- `v.bit_length()`, by rounds of halving
unfoldable pub bit_rounds : ℕ → ℕ → ℕ
bit_rounds zero v = 0
bit_rounds (suc f) v = let rest = suc (bit_rounds f (v / 2)) in if v == 0 then 0 else rest

unfoldable pub bit_length : ℕ → ℕ
unfolding bit_rounds
bit_length v = bit_rounds v v

unfoldable pub leading_zero_bits : List ℕ → ℤ
leading_zero_bits digest =
    let v = from_bytes digest in if v == 0 then pos 256 else sub_ℕ 256 (bit_length v)

-- `text.encode()`: UTF-8
unfoldable pub encode : Text → List ℕ
encode [] = []
encode (c ∷ s) =
    let rest = encode s in
    if ltb c 0x80
    then c ∷ rest
    else if ltb c 0x800
    then (0xc0 + c / 64) ∷ (0x80 + c % 64) ∷ rest
    else if ltb c 0x10000
    then (0xe0 + c / 4096) ∷ (0x80 + c / 64 % 64) ∷ (0x80 + c % 64) ∷ rest
    else (0xf0 + c / 262144)
      ∷ (0x80 + c / 4096 % 64)
      ∷ (0x80 + c / 64 % 64)
      ∷ (0x80 + c % 64)
      ∷ rest

pub record PowChallenge : Type 0 where
  pub challenge : Text
  pub difficulty : ℤ

-- `token` is what `secrets.token_hex(12)` returns.
unfoldable pub new_challenge : Text → ℤ → PowChallenge
new_challenge token difficulty = record {
  challenge = token;
  difficulty = if ltb_ℤ (pos 0) difficulty then difficulty else pos 0;
}

module _ (sha256 : List ℕ → List ℕ) where
  unfoldable pub hash : Text → Text → List ℕ
  hash challenge nonce = sha256 (encode (challenge ++ nonce))

  -- What is left of the test once the nonce is stripped.
  unfoldable pub verify_stripped : PowChallenge → Text → Bool
  verify_stripped pc [] = false
  verify_stripped pc (c ∷ s) = leb_ℤ pc.difficulty (leading_zero_bits (hash pc.challenge (c ∷ s)))

  unfoldable pub verify : PowChallenge → Text → Bool
  unfolding verify_stripped
  verify pc nonce = if leb_ℤ pc.difficulty (pos 0) then true else verify_stripped pc (strip nonce)

  -- The test in the printed command: `int.from_bytes(sha256(c+str(n)),'big')>>(256-d)==0`.
  unfoldable pub solver_test : Text → ℕ → ℕ → Bool
  solver_test c d n = from_bytes (hash c (decimal n)) / 2 ^ (256 - d) == 0

  -- `next(n for n in itertools.count() if …)`, from `n` on, for so many candidates
  unfoldable pub solver_search : ℕ → Text → ℕ → ℕ → Option ℕ
  solver_search zero c d n = none
  solver_search (suc fuel) c d n =
      let rest = solver_search fuel c d (n + 1) in if solver_test c d n then some n else rest

-- The text of the printed command.
unfoldable pub solver_command : PowChallenge → Text
unfolding text_of_int
solver_command pc =
    codes "python3 -c \"import hashlib,itertools;c='"
    ++ pc.challenge
    ++ codes "';d="
    ++ text_of_int pc.difficulty
    ++ codes ";print(next(n for n in itertools.count() "
    ++ codes "if int.from_bytes(hashlib.sha256((c+str(n)).encode()).digest(),'big')"
    ++ codes ">>(256-d)==0))\""
