-- ===== src/Pow/Solver.antt =====
-- The printed solver command against the server's check.
use native.Mathlib.Nat.{add-zero}
use sui_ctf_infrastructure.Text.Laws.{
  AllDigits-NoSpace, decimal-AllDigits, strip-append_space, decimal-ne-nil,
}
use sui_ctf_infrastructure.Base.{
  Bool-cases, pos, ℕ, zero, suc, ◌+◌, ◌≤◌, ◌<◌, ◌≡◌, refl, subst, inl, inr, true, some, List, [],
  ◌∷◌, ◌++◌, arith,
}
use sui_ctf_infrastructure.Text.{Text, is_space, strip}
use sui_ctf_infrastructure.Text.Numbers.{decimal}
use sui_ctf_infrastructure.Pow.{verify, solver_test, solver_search}
use sui_ctf_infrastructure.Pow.Accepts.{verify_iff}

-- The output line of `print(n)`.
abbrev pub printed : ℕ → Text
printed n = decimal n ++ b'\n' ∷ []

pub strip-printed : (m : ℕ) → strip (printed m) ≡ decimal m
unfolding is_space
strip-printed m =
    strip-append_space (decimal m) b'\n' (AllDigits-NoSpace (decimal m) (decimal-AllDigits m)) refl
      (decimal-ne-nil m)

module _ (sha256 : List ℕ → List ℕ) where
  solver_search-test :
      (fuel : ℕ) (c : Text) (d n m : ℕ)
      → solver_search sha256 fuel c d n ≡ some m
      → solver_test sha256 c d m ≡ true
  unfolding solver_search
  solver_search-test zero c d n m h = cc
  solver_search-test (suc fuel) c d n m h = ground (arith, solver_search-test fuel c d (n + 1) m)

  -- A number that the printed command finds is accepted by the server's check at the same
  -- challenge, pasted with the line end that `print` adds, at a difficulty from 1 to 256.
  pub solver_accepted :
      (fuel : ℕ) (c : Text) (d m : ℕ)
      → 0 < d
      → d ≤ 256
      → solver_search sha256 fuel c d 0 ≡ some m
      → verify sha256 (record { challenge = c; difficulty = pos d }) (printed m) ≡ true
  unfolding solver_test
  solver_accepted fuel c d m h k e =
      (verify_iff sha256 c (printed m) d h k).1
        (rw (strip-printed m) (decimal-ne-nil m, ground (arith, solver_search-test fuel c d 0 m e)))

  solver_search_total :
      (fuel : ℕ) (c : Text) (d n k : ℕ)
      → k < fuel
      → solver_test sha256 c d (n + k) ≡ true
      → (m : ℕ) × (solver_search sha256 fuel c d n ≡ some m)
  unfolding solver_search
  solver_search_total zero c d n k h t = absurd (omega arith)
  solver_search_total (suc fuel) c d n zero h t =
      let hit : solver_test sha256 c d n ≡ true = rw (add-zero n) at t in (n, rw hit)
  solver_search_total (suc fuel) c d n (suc k) h t =
      let later : solver_test sha256 c d (n + 1 + k) ≡ true =
        subst (λ x. solver_test sha256 c d x ≡ true) (omega arith) t in
      let rest = solver_search_total fuel c d (n + 1) k (omega arith) later in
      elim (Bool-cases (solver_test sha256 c d n)) [
        | inl hit ↦ (n, rw hit)
        | inr miss ↦ rw miss rest
      ]

  -- When some number below the count of candidates passes the printed test, the command finds one,
  -- and the server's check accepts it.
  pub solver_finds :
      (fuel : ℕ) (c : Text) (d k : ℕ)
      → 0 < d
      → d ≤ 256
      → k < fuel
      → solver_test sha256 c d k ≡ true
      → (m : ℕ) × (solver_search sha256 fuel c d 0 ≡ some m)
        × (verify sha256 (record { challenge = c; difficulty = pos d }) (printed m) ≡ true)
  solver_finds fuel c d k h j l t =
      let found =
        solver_search_total fuel c d 0 k l
          (subst (λ x. solver_test sha256 c d x ≡ true) (omega arith) t) in
      (found.0, found.1, solver_accepted fuel c d found.0 h j found.1)
