-- ===== src/Challenge/Field.antt =====
-- When a state condition is met.
use mathlib.Core.Bool.{false≢true}
use sui_ctf_infrastructure.Challenge.Orders.{name_of, Holds, find_op_named}
use sui_ctf_infrastructure.Challenge.Coerce.{IsCoerced, coerce_pair-IsCoerced}
use sui_ctf_infrastructure.Base.{
  if◌then◌else◌, Bool-cases, Member, ◌≡◌, refl, ap, ◌∙◌, subst, inl, inr, true, false, Option, none,
  some, List, [], ◌∷◌,
}
use sui_ctf_infrastructure.Text.{codes}
use sui_ctf_infrastructure.Python.Errors.{Result, ok, raised, ◌>>=◌, bind-ok}
use sui_ctf_infrastructure.Python.Values.{Value, str, get, get_default}
use sui_ctf_infrastructure.Python.Operators.{contains, index_value, iterate}
use sui_ctf_infrastructure.Registry.{Record}
use sui_ctf_infrastructure.SuiRpc.Client.{HttpClient, SuiRpc, get_object_content}
use sui_ctf_infrastructure.Challenge.Solve.{
  Op, Pair, coerce_pair, find_op, unknown_op, type_matches, first_match, find_object, compare_field,
  checked_field, check_content, check_object, check_target, check_state,
}

-- An object of the list whose type, up to its arguments, ends with the suffix.
abbrev pub IsTarget : Value → Value → Value → Type 0
IsTarget objects suffix target =
    (os : List Value) × (t : Value) × (iterate objects ≡ ok os)
    × Member target os
    × (get target (codes "type") ≡ ok t)
    × (type_matches t suffix ≡ ok true)

-- The field is in the content, and what the operator of this word means holds of its value and the one
-- asked for, as integers or as texts; `eq` stands where no word is given.
abbrev pub FieldHolds : Value → Value → Type 0
FieldHolds spec content =
    (name : Value) × (fields : Value) × (actual : Value) × (expected : Value) × (p : Pair)
    × (op : Op) × (index_value spec (str (codes "field")) ≡ ok name)
    × (index_value content (str (codes "fields")) ≡ ok fields)
    × (index_value fields name ≡ ok actual)
    × (index_value spec (str (codes "value")) ≡ ok expected)
    × (get_default spec (codes "op") (str (codes "eq")) ≡ ok (str (name_of op)))
    × IsCoerced actual expected p
    × Holds op p

ok_inj : {A : Type 0} {a b : A} → ◌≡◌ {A = Result A} (ok a) (ok b) → a ≡ b
ok_inj e = cc

option_inj : {A : Type 0} {a b : A} → ◌≡◌ {A = Option A} (some a) (some b) → a ≡ b
option_inj e = cc

first_match-IsTarget :
    (suffix target : Value) (os : List Value)
    → first_match suffix os ≡ ok (some target)
    → (t : Value) × Member target os
      × (get target (codes "type") ≡ ok t)
      × (type_matches t suffix ≡ ok true)
first_match-IsTarget suffix target [] e = cc
first_match-IsTarget suffix target (o ∷ os) e =
    let (t, e1, typed) = bind-ok _ (get o (codes "type")) e in
    let (hit, e2, matched) = bind-ok _ (type_matches t suffix) e1 in
    elim (Bool-cases hit) [
      | inl h ↦
          let same = option_inj (ok_inj (rw h at e2)) in
          (t, inl same, subst (λ x. get x (codes "type") ≡ ok t) same typed, matched ∙ ap ok h)
      | inr h ↦
          let (t', m, typed', matched') = first_match-IsTarget suffix target os (rw h at e2) in
          (t', inr m, typed', matched')
    ]

find_object-IsTarget :
    (objects suffix target : Value)
    → find_object objects suffix ≡ ok (some target)
    → IsTarget objects suffix target
unfolding find_object
find_object-IsTarget objects suffix target e =
    let (os, found, listed) = bind-ok _ (iterate objects) e in
    let (t, m, typed, matched) = first_match-IsTarget suffix target os found in
    (os, t, listed, m, typed, matched)

unknown_op-known :
    (k : Value) (found : Option Op) (op : Op) → unknown_op k found ≡ ok op → found ≡ some op
unknown_op-known k none op e = cc
unknown_op-known k (some o) op e = ap some (ok_inj e)

compare_field-holds :
    (spec content name fields : Value)
    → index_value spec (str (codes "field")) ≡ ok name
    → index_value content (str (codes "fields")) ≡ ok fields
    → compare_field spec fields name ≡ ok true
    → FieldHolds spec content
unfolding compare_field
compare_field-holds spec content name fields named there e =
    let (actual, e1, a) = bind-ok _ (index_value fields name) e in
    let (expected, e2, b) = bind-ok _ (index_value spec (str (codes "value"))) e1 in
    let (p, e3, c) = bind-ok _ (coerce_pair actual expected) e2 in
    let (k, e4, word) = bind-ok _ (get_default spec (codes "op") (str (codes "eq"))) e3 in
    let (found, e5, looked) = bind-ok _ (find_op k) e4 in
    let (op, e6, known) = bind-ok _ (unknown_op k found) e5 in
    let listed = looked ∙ ap ok (unknown_op-known k found op known) in
    let (_, coerced_to, means) = coerce_pair-IsCoerced op actual expected p c in
    (
      name,
      fields,
      actual,
      expected,
      p,
      op,
      named,
      there,
      a,
      b,
      word ∙ ap ok (find_op_named k op listed),
      coerced_to,
      means.0 (ok_inj e6),
    )

checked_field-holds :
    (spec content : Value) → checked_field spec content ≡ ok true → FieldHolds spec content
checked_field-holds spec content e =
    let (name, e1, named) = bind-ok _ (index_value spec (str (codes "field"))) e in
    let (fields, e2, there) = bind-ok _ (index_value content (str (codes "fields"))) e1 in
    let (b, e3, _) = bind-ok _ (contains fields name) e2 in
    elim (Bool-cases b) [
      | inl h ↦ compare_field-holds spec content name fields named there (rw h at e3)
      | inr h ↦ absurd (false≢true (ok_inj (rw h at e3)))
    ]

check_content-FieldHolds :
    (spec content : Value) → check_content spec content ≡ ok true → FieldHolds spec content
unfolding check_content
check_content-FieldHolds spec content e =
    let (b, e1, _) =
      bind-ok (λ has_fields. if has_fields then checked_field spec content else ok false) _ e in
    elim (Bool-cases b) [
      | inl h ↦ checked_field-holds spec content (rw h at e1)
      | inr h ↦ absurd (false≢true (ok_inj (rw h at e1)))
    ]

module _ {W : Type 0} (http : HttpClient W) where
  -- What the RPC must have said.
  abbrev pub IsMet : SuiRpc → Value → Record → W → Type 0
  IsMet rpc spec row w =
      (suffix : Value) × (target : Value) × (id : Value) × (content : Value) × (index_value spec
          (str (codes "object_type"))
        ≡ ok suffix)
      × IsTarget row.objects suffix target
      × (index_value target (str (codes "objectId")) ≡ ok id)
      × ((get_object_content http rpc id w).0 ≡ ok content)
      × FieldHolds spec content

  check_object-FieldHolds :
      (rpc : SuiRpc) (spec : Value) (r : Result Value) (w : W)
      → (check_object http rpc spec r w).0 ≡ ok true
      → (id : Value) × (content : Value) × (r ≡ ok id)
        × ((get_object_content http rpc id w).0 ≡ ok content)
        × FieldHolds spec content
  check_object-FieldHolds rpc spec (raised x) w e = cc
  check_object-FieldHolds rpc spec (ok id) w e =
      let (content, checked, read) = bind-ok (check_content spec) _ e in
      (id, content, refl, read, check_content-FieldHolds spec content checked)

  check_target-IsMet :
      (rpc : SuiRpc) (spec : Value) (row : Record) (w : W) (r : Result (Option Value))
      → (index_value spec (str (codes "object_type")) >>= find_object row.objects) ≡ r
      → (check_target http rpc spec r w).0 ≡ ok true
      → IsMet rpc spec row w
  check_target-IsMet rpc spec row w (raised x) found e = cc
  check_target-IsMet rpc spec row w (ok none) found e = cc
  check_target-IsMet rpc spec row w (ok (some target)) found e =
      let (suffix, searched, typed) =
        bind-ok (find_object row.objects) (index_value spec (str (codes "object_type"))) found in
      let (id, content, named, read, holds) =
        check_object-FieldHolds rpc spec (index_value target (str (codes "objectId"))) w e in
      (
        suffix,
        target,
        id,
        content,
        typed,
        find_object-IsTarget row.objects suffix target searched,
        named,
        read,
        holds,
      )

  -- A state condition is met only if an object of the instance has a type that ends, up to its
  -- arguments, with the one asked for, the RPC has returned that object's content, and what the operator
  -- that the condition names means holds of the field in it and the value asked for.
  pub check_state-IsMet :
      (rpc : SuiRpc) (spec : Value) (row : Record) (w : W)
      → (check_state http rpc spec row w).0 ≡ ok true
      → IsMet rpc spec row w
  unfolding check_state
  check_state-IsMet rpc spec row w e = check_target-IsMet rpc spec row w _ refl e
