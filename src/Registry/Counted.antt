-- ===== src/Registry/Counted.antt =====
-- What the counts of the table count.
use sui_ctf_infrastructure.Base.{
  if◌then◌else◌, Bool-cases, length, keep, find_first, tally, any_of, length-keep, Member,
  Member-keep, keep-Member, ℕ, ◌≡◌, refl, sym, ap, subst, ◌⊎◌, inl, inr, Bool, true, false, Option,
  some, [], ◌∷◌, arith,
}
use sui_ctf_infrastructure.Text.{Text}
use sui_ctf_infrastructure.Text.Laws.{text_eq→eq, text_eq_refl}
use sui_ctf_infrastructure.Registry.Rows.{
  Status, starting, running, expired, killed, error, Row, Registry, is_active, has_uuid, fetch,
  active_row, active_from, active_count_for_ip, total_active,
}
use sui_ctf_infrastructure.Registry.Keys.{HasUniqueKeys}

-- The instance boots or runs.
abbrev pub IsUp : Row → Type 0
IsUp r = (r.status ≡ starting) ⊎ (r.status ≡ running)

-- So many uuids have a row with this property: some rows of distinct uuids are those that the table
-- reads as at their uuids and that have it, all of them, and there are so many.
pub record IsCountOf (rows : Registry) (P : Row → Type 0) (n : ℕ) : Type 0 where
  pub counted : Registry
  pub distinct : HasUniqueKeys counted
  pub stored : (r : Row) → Member r counted → (fetch r.uuid rows ≡ some r) × P r
  pub all_counted : (r : Row) → fetch r.uuid rows ≡ some r → P r → Member r counted
  pub many : n ≡ length counted

Member-uuid : (r : Row) (rows : Registry) → Member r rows → any_of (has_uuid r.uuid) rows ≡ true
Member-uuid r [] m = absurd m
Member-uuid r (x ∷ rows) (inl e) = ground (arith, ap (λ (y : Row). y.uuid) e, text_eq_refl r.uuid)
Member-uuid r (x ∷ rows) (inr m) = ground (arith, Member-uuid r rows m)

Member-fetch :
    (r : Row) (rows : Registry) → HasUniqueKeys rows → Member r rows → fetch r.uuid rows ≡ some r
unfolding fetch
Member-fetch r [] keys m = absurd m
Member-fetch r (x ∷ rows) keys (inl e) =
    subst (λ (y : Row). (if has_uuid y.uuid x then some x else fetch y.uuid rows) ≡ some y) e
      (ground (arith, text_eq_refl x.uuid))
Member-fetch r (x ∷ rows) keys (inr m) =
    ground
      (arith, Member-fetch r rows keys.1 m, Member-uuid r rows m, keys.0, text_eq→eq x.uuid r.uuid)

some_row_inj : {r x : Row} → ◌≡◌ {A = Option Row} (some x) (some r) → x ≡ r
some_row_inj e = cc

fetch-Member : (u : Text) (rows : Registry) (r : Row) → fetch u rows ≡ some r → Member r rows
unfolding fetch
fetch-Member u [] r h = cc
fetch-Member u (x ∷ rows) r h = elim (Bool-cases (has_uuid u x)) [
  | inl e ↦ inl (
      some_row_inj
        (subst (λ (b : Bool). (if b then some x else find_first (has_uuid u) rows) ≡ some r) e h))
  | inr e ↦ inr (
      fetch-Member u rows r
        (subst (λ (b : Bool). (if b then some x else find_first (has_uuid u) rows) ≡ some r) e h))
]

keep-fresh :
    (p : Row → Bool) (u : Text) (rows : Registry)
    → any_of (has_uuid u) rows ≡ false
    → any_of (has_uuid u) (keep p rows) ≡ false
keep-fresh p u [] h = refl
keep-fresh p u (r ∷ rows) h = ground (arith, h, keep-fresh p u rows)

keep-HasUniqueKeys :
    (p : Row → Bool) (rows : Registry) → HasUniqueKeys rows → HasUniqueKeys (keep p rows)
keep-HasUniqueKeys p [] keys = tt
keep-HasUniqueKeys p (r ∷ rows) keys =
    ground (arith, keep-fresh p r.uuid rows, keep-HasUniqueKeys p rows keys.1)

-- A test that tells a property counts the rows that have it.
tally-IsCountOf :
    (p : Row → Bool) (P : Row → Type 0) (rows : Registry)
    → ((r : Row) → p r ≡ true → P r)
    → ((r : Row) → P r → p r ≡ true)
    → HasUniqueKeys rows
    → IsCountOf rows P (tally p rows)
tally-IsCountOf p P rows holds tells keys = record {
  counted = keep p rows;
  distinct = keep-HasUniqueKeys p rows keys;
  stored = λ r m.
      let (stored, passes) = Member-keep p rows r m in
      (Member-fetch r rows keys stored, holds r passes);
  all_counted =
      λ r found has. keep-Member p rows r (fetch-Member r.uuid rows r found) (tells r has);
  many = sym (length-keep p rows);
}

active_status : (st : Status) → is_active st ≡ true → (st ≡ starting) ⊎ (st ≡ running)
active_status starting h = inl refl
active_status running h = inr refl
active_status expired h = cc
active_status killed h = cc
active_status error h = cc

up-active : (r : Row) → IsUp r → is_active r.status ≡ true
up-active r (inl e) = rw e refl
up-active r (inr e) = rw e refl

-- In a table with distinct keys, `total_active` is the number of uuids whose row is starting or running,
-- and `active_count_for_ip` that of those among them whose row has the source IP asked for.
pub counts-IsCountOf :
    (ip : Text) (rows : Registry)
    → HasUniqueKeys rows
    → IsCountOf rows IsUp (total_active rows)
      × IsCountOf rows (λ r. IsUp r × (r.source_ip ≡ ip)) (active_count_for_ip ip rows)
unfolding total_active active_count_for_ip
counts-IsCountOf ip rows keys = (
  tally-IsCountOf active_row IsUp rows (λ r h. active_status r.status h) up-active keys,
  tally-IsCountOf (active_from ip) (λ r. IsUp r × (r.source_ip ≡ ip)) rows
      (λ r h.
        (active_status r.status (ground (arith, h)), text_eq→eq r.source_ip ip (ground (arith, h))))
      (λ r (up, same). ground (arith, up-active r up, same, text_eq_refl ip)) keys,
)
