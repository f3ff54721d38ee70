-- ===== src/Challenge/Orders.antt =====
-- What the operators of a condition mean.
use sui_ctf_infrastructure.Python.Errors.{Result, ok}
use sui_ctf_infrastructure.Python.Values.{Value, null, bool, num, float, str, arr, obj}
use sui_ctf_infrastructure.Text.Laws.{text_eq→eq, text_eq_refl, text_eq_comm}
use sui_ctf_infrastructure.Base.{
  ltb, Bool-cases, All, ℤ, ◌≤ℤ◌, ◌<ℤ◌, eqb_ℤ, eq_of_parts, ◌<◌, ◌≡◌, refl, sym, ap, ◌∙◌, ◌≢◌, ◌↔◌,
  ◌⊎◌, inl, inr, Bool, true, not, ◌||◌, Option, some, List, [], ◌∷◌, ◌++◌, arith,
}
use sui_ctf_infrastructure.Text.{Text, codes, text_discrete, text_eq}
use sui_ctf_infrastructure.Challenge.Solve.{
  Op, op_eq, op_ne, op_lt, op_lte, op_gt, op_gte, Pair, numbers, texts, text_lt, apply_op, ops,
  op_named, find_op,
}

-- The word of an operator in a manifest.
abbrev pub name_of : Op → Text
name_of op_eq = codes "eq"
name_of op_ne = codes "ne"
name_of op_lt = codes "lt"
name_of op_lte = codes "lte"
name_of op_gt = codes "gt"
name_of op_gte = codes "gte"

-- The order of two texts that differ from here on.
abbrev pub Leads : Text → Text → Type 0
Leads s [] = ⊥
Leads [] (d ∷ t) = Unit {0}
Leads (c ∷ s) (d ∷ t) = c < d

-- The order of texts: a common beginning, and then the shorter one or the smaller character.
abbrev pub Before : Text → Text → Type 0
Before s t = (p : Text) × (s' : Text) × (t' : Text) × (s ≡ p ++ s') × (t ≡ p ++ t') × Leads s' t'

-- What an operator says of two integers, and of two texts.
abbrev pub Holds : Op → Pair → Type 0
Holds op_eq (numbers m n) = m ≡ n
Holds op_ne (numbers m n) = m ≢ n
Holds op_lt (numbers m n) = m <ℤ n
Holds op_lte (numbers m n) = m ≤ℤ n
Holds op_gt (numbers m n) = n <ℤ m
Holds op_gte (numbers m n) = n ≤ℤ m
Holds op_eq (texts s t) = s ≡ t
Holds op_ne (texts s t) = s ≢ t
Holds op_lt (texts s t) = Before s t
Holds op_lte (texts s t) = (s ≡ t) ⊎ Before s t
Holds op_gt (texts s t) = Before t s
Holds op_gte (texts s t) = (s ≡ t) ⊎ Before t s

text_lt-Before : (s t : Text) → text_lt s t ≡ true → Before s t
unfolding text_lt
text_lt-Before s [] h = ground arith
text_lt-Before [] (d ∷ t) h = ([], [], d ∷ t, refl, refl, tt)
text_lt-Before (c ∷ s) (d ∷ t) h = elim (Bool-cases (ltb c d)) [
  | inl less ↦ ([], c ∷ s, d ∷ t, refl, refl, ground (arith, less))
  | inr more ↦
      let (p, s', t', left, right, leads) = text_lt-Before s t (ground (arith, h, more)) in
      let same : c ≡ d = ground (arith, h, more) in
      (c ∷ p, s', t', ap (λ x. c ∷ x) left, rw same (ap (λ x. d ∷ x) right), leads)
]

Leads-text_lt : (p s t : Text) → Leads s t → text_lt (p ++ s) (p ++ t) ≡ true
unfolding text_lt
Leads-text_lt [] s [] h = absurd h
Leads-text_lt [] [] (d ∷ t) h = refl
Leads-text_lt [] (c ∷ s) (d ∷ t) h = ground (arith, h)
Leads-text_lt (c ∷ p) s t h = ground (arith, Leads-text_lt p s t h)

text_lt_iff : (s t : Text) → (text_lt s t ≡ true) ↔ Before s t
text_lt_iff s t = (
  text_lt-Before s t,
  λ (p, s', t', left, right, leads). rw (left, right) (Leads-text_lt p s' t' leads),
)

text_lt-flip : (s t : Text) → not (text_lt s t || text_eq s t) ≡ text_lt t s
unfolding text_lt
text_lt-flip [] [] = ground arith
text_lt-flip [] (d ∷ t) = ground arith
text_lt-flip (c ∷ s) [] = ground arith
text_lt-flip (c ∷ s) (d ∷ t) = ground (arith, text_lt-flip s t)

numbers_iff : (o : Op) (m n : ℤ) → (apply_op o (numbers m n) ≡ true) ↔ Holds o (numbers m n)
unfolding apply_op
numbers_iff op_eq m n = (λ h. eq_of_parts m n (ground (arith, h)), λ h. rw h (ground arith))
numbers_iff op_ne m n = (
  (λ h same. ground (arith, h, same)),
  λ h. elim (Bool-cases (eqb_ℤ m n)) [
    | inl same ↦ absurd (h (eq_of_parts m n (ground (arith, same))))
    | inr other ↦ rw other refl
  ],
)
numbers_iff op_lt m n = (λ h. ground (arith, h), λ h. ground (arith, h))
numbers_iff op_lte m n = (λ h. ground (arith, h), λ h. ground (arith, h))
numbers_iff op_gt m n = (λ h. ground (arith, h), λ h. ground (arith, h))
numbers_iff op_gte m n = (λ h. ground (arith, h), λ h. ground (arith, h))

-- The tests for "less" and "equal" on texts, against the relations.
or_iff :
    (s t : Text) (less : Bool) {A : Type 0}
    → (less ≡ true) ↔ A
    → (less || text_eq s t ≡ true) ↔ ((s ≡ t) ⊎ A)
or_iff s t less e = (
  (λ h. elim (Bool-cases less) [
    | inl is_less ↦ inr (e.0 is_less)
    | inr no_less ↦ inl (text_eq→eq s t (rw no_less at h))
  ]),
  λ h. elim h [
    | inl same ↦ ground (arith, text_eq_refl t, ap (λ x. text_eq x t) same)
    | inr before_it ↦ rw (e.1 before_it) refl
  ],
)

not_less : (s t : Text) → not (text_lt s t) ≡ (text_lt t s || text_eq s t)
not_less s t = ground (arith, text_lt-flip t s, text_eq_comm s t)

texts_iff : (o : Op) (s t : Text) → (apply_op o (texts s t) ≡ true) ↔ Holds o (texts s t)
unfolding apply_op
texts_iff op_eq s t = (text_eq→eq s t, λ h. rw h (text_eq_refl t))
texts_iff op_ne s t = (
  (λ h same. ground (arith, h, text_eq_refl t, ap (λ x. text_eq x t) same)),
  λ h. elim (Bool-cases (text_eq s t)) [
    | inl same ↦ absurd (h (text_eq→eq s t same))
    | inr other ↦ rw other refl
  ],
)
texts_iff op_lt s t = text_lt_iff s t
texts_iff op_lte s t = or_iff s t (text_lt s t) (text_lt_iff s t)
texts_iff op_gt s t = rw (text_lt-flip s t) (text_lt_iff t s)
texts_iff op_gte s t = rw (not_less s t) (or_iff s t (text_lt t s) (text_lt_iff t s))

-- An operator gives `true` exactly where what it means holds.
pub apply_op_iff : (o : Op) (p : Pair) → (apply_op o p ≡ true) ↔ Holds o p
apply_op_iff o (numbers m n) = numbers_iff o m n
apply_op_iff o (texts s t) = texts_iff o s t

-- The table of operators has each under its word.
pub find_op-name_of : (o : Op) → find_op (str (name_of o)) ≡ ok (some o)
unfolding find_op text_discrete
find_op-name_of op_eq = refl
find_op-name_of op_ne = refl
find_op-name_of op_lt = refl
find_op-name_of op_lte = refl
find_op-name_of op_gt = refl
find_op-name_of op_gte = refl

some_inj : {a b : Op} → ◌≡◌ {A = Option Op} (some a) (some b) → a ≡ b
some_inj e = cc

found_inj : {a b : Option Op} → ◌≡◌ {A = Result (Option Op)} (ok a) (ok b) → a ≡ b
found_inj e = cc

op_named-name :
    (s : Text) (o : Op) (os : List (Text × Op))
    → All (λ (x : Text × Op). x.0 ≡ name_of x.1) os
    → op_named s os ≡ some o
    → s ≡ name_of o
op_named-name s o [] names h = cc
op_named-name s o ((k, x) ∷ os) names h = elim (Bool-cases (text_eq k s)) [
  | inl hit ↦ sym (text_eq→eq k s hit) ∙ names.0 ∙ ap name_of (some_inj (rw hit at h))
  | inr miss ↦ op_named-name s o os names.1 (rw miss at h)
]

pub find_op_named : (v : Value) (o : Op) → find_op v ≡ ok (some o) → v ≡ str (name_of o)
unfolding find_op
find_op_named (str s) o h =
    ap str (op_named-name s o ops (refl, (refl, (refl, (refl, (refl, (refl, tt)))))) (found_inj h))
find_op_named null o h = cc
find_op_named (bool b) o h = cc
find_op_named (num n) o h = cc
find_op_named (float f) o h = cc
find_op_named (arr vs) o h = cc
find_op_named (obj fs) o h = cc
