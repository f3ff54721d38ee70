-- ===== src/Challenge/Coerce.antt =====
-- The comparisons of a solve condition.
use sui_ctf_infrastructure.Base.{Bool-cases, ℤ, ◌≡◌, refl, subst, ◌↔◌, inl, inr, true, some, arith}
use sui_ctf_infrastructure.Python.Errors.{Exception, Result, ok, raised, ◌>>=◌}
use sui_ctf_infrastructure.Python.Values.{Value, str}
use sui_ctf_infrastructure.Python.Operators.{int_of_value}
use sui_ctf_infrastructure.Python.Show.{str_value}
use sui_ctf_infrastructure.Challenge.Solve.{
  Op, Pair, numbers, texts, is_conversion_error, coerced, coerce_pair, apply_op, find_op,
}
use sui_ctf_infrastructure.Challenge.Orders.{name_of, Holds, apply_op_iff, find_op-name_of}

-- `int` takes both values.
abbrev pub IsTaken : Value → Value → Type 0
IsTaken a b = (m : ℤ) × (n : ℤ) × (int_of_value a ≡ ok m) × (int_of_value b ≡ ok n)

-- What two values are compared as: two integers where `int` takes both, and else their texts.
abbrev pub IsCoerced : Value → Value → Pair → Type 0
IsCoerced a b (numbers m n) = (int_of_value a ≡ ok m) × (int_of_value b ≡ ok n)
IsCoerced a b (texts s t) = (s ≡ str_value a) × (t ≡ str_value b) × (¬ IsTaken a b)

pair_inj : {p q : Pair} → ◌≡◌ {A = Result Pair} (ok p) (ok q) → p ≡ q
pair_inj e = cc

caught-IsCoerced :
    (a b : Value) (x : Exception) (p : Pair)
    → ¬ IsTaken a b
    → coerced a b (raised x) ≡ ok p
    → IsCoerced a b p
caught-IsCoerced a b x p apart e = elim (Bool-cases (is_conversion_error x.kind)) [
  | inl caught ↦ subst (IsCoerced a b) (pair_inj (rw caught at e)) (refl, refl, apart)
  | inr passed ↦ absurd (ground (arith, e, passed))
]

coerced-IsCoerced :
    (a b : Value) (r q : Result ℤ) (p : Pair)
    → int_of_value a ≡ r
    → int_of_value b ≡ q
    → coerced a b (r >>= λ m. q >>= λ n. ok (m, n)) ≡ ok p
    → IsCoerced a b p
coerced-IsCoerced a b (ok m) (ok n) p h k e = subst (IsCoerced a b) (pair_inj e) (h, k)
coerced-IsCoerced a b (ok m) (raised x) p h k e =
    caught-IsCoerced a b x p (λ (i, j, at_a, at_b). cc) e
coerced-IsCoerced a b (raised x) q p h k e = caught-IsCoerced a b x p (λ (i, j, at_a, at_b). cc) e

-- Where two values are compared by an operator of a condition: the table has the operator under its
-- word, the values are two integers if `int` takes both and their two texts if not, and the operator
-- gives `true` exactly where what it means holds of them; texts go by their code points.
pub coerce_pair-IsCoerced :
    (o : Op) (a b : Value) (p : Pair)
    → coerce_pair a b ≡ ok p
    → (find_op (str (name_of o)) ≡ ok (some o))
      × IsCoerced a b p
      × ((apply_op o p ≡ true) ↔ Holds o p)
unfolding coerce_pair
coerce_pair-IsCoerced o a b p e = (
  find_op-name_of o,
  coerced-IsCoerced a b (int_of_value a) (int_of_value b) p refl refl e,
  apply_op_iff o p,
)
