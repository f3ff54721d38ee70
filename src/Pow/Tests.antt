-- ===== src/Pow/Tests.antt =====
-- Runs of the gate with a toy hash: its first byte is made from the sum of the bytes.
use sui_ctf_infrastructure.Base.{
  replicate, pos, ℕ, ◌+◌, ◌*◌, ◌%◌, ◌≡◌, refl, ◌≢◌, ◌↔◌, true, some, List, [], ◌∷◌, arith,
}
use sui_ctf_infrastructure.Text.{codes, strip}
use sui_ctf_infrastructure.Text.Numbers.{decimal}
use sui_ctf_infrastructure.Pow.{
  bytes_from, bit_length, leading_zero_bits, encode, PowChallenge, hash, verify, solver_test,
  solver_search, solver_command,
}
use sui_ctf_infrastructure.Pow.Accepts.{HasZeroBits, verify_iff}
use sui_ctf_infrastructure.Pow.Solver.{printed, solver_finds}

-- The sum of the bytes; the other bytes of the digest are zero.
abbrev sum_bytes : List ℕ → ℕ
sum_bytes [] = 0
sum_bytes (b ∷ bs) = b + sum_bytes bs

abbrev pub toy_hash : List ℕ → List ℕ
toy_hash bs = ((sum_bytes bs + 29) * 8 % 256) ∷ replicate 31 0

abbrev puzzle : PowChallenge
puzzle = record { challenge = codes "ab"; difficulty = pos 3 }

leading-zeros : leading_zero_bits (5 ∷ replicate 31 0) ≡ pos 5
unfolding leading_zero_bits bytes_from bit_length
leading-zeros = refl

pub search-hit : solver_search toy_hash 100 (codes "ab") 3 0 ≡ some 10
unfolding solver_search solver_test hash encode bytes_from decimal
search-hit = refl

command-text : strip (solver_command puzzle) ≡ solver_command puzzle
unfolding strip solver_command
command-text = refl

verify_iff_example : (verify toy_hash puzzle (codes " 11 ") ≡ true) ↔ (
    (strip (codes " 11 ") ≢ []) × HasZeroBits 3 (hash toy_hash (codes "ab") (strip (codes " 11 "))))
verify_iff_example = verify_iff toy_hash (codes "ab") (codes " 11 ") 3 (omega arith) (omega arith)

solver_finds_example :
    (m : ℕ) × (solver_search toy_hash 100 (codes "ab") 3 0 ≡ some m)
    × (verify toy_hash puzzle (printed m) ≡ true)
unfolding solver_test hash encode bytes_from decimal
solver_finds_example =
    solver_finds toy_hash 100 (codes "ab") 3 10 (omega arith) (omega arith) (omega arith) refl
