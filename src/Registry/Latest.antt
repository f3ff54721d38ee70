-- ===== src/Registry/Latest.antt =====
-- `active_for_ip` against its meaning: the newest active row of the source IP.
use sui_ctf_infrastructure.Text.{Text}
use sui_ctf_infrastructure.Base.{
  if◌then◌else◌, length, keep, All, length-keep, Member, Member-keep, ◌≤ℤ◌, ltb_ℤ, ◌≡◌, refl, sym,
  ap, ◌∙◌, ◌⊎◌, inl, inr, true, none, some, List, [], ◌∷◌, arith,
}
use sui_ctf_infrastructure.Registry.Rows.{
  Row, Registry, row_to_dict, active_from, active_count_for_ip, latest, active_for_ip,
}

-- The row is one of the list, and none of the list is newer.
abbrev pub IsNewest : Row → List Row → Type 0
IsNewest m rows = Member m rows × All (λ r. r.created_at ≤ℤ m.created_at) rows

newer : Row → Row → Row
newer b r = if ltb_ℤ b.created_at r.created_at then r else b

IsNewest-newer :
    (b r m : Row) (rows : List Row) → IsNewest m (newer b r ∷ rows) → IsNewest m (b ∷ r ∷ rows)
unfolding newer
IsNewest-newer b r m rows h = ground arith

latest-IsNewest :
    (b : Row) (rows : List Row)
    → (m : Row) × (latest (some b) rows ≡ some m) × IsNewest m (b ∷ rows)
unfolding latest newer
latest-IsNewest b [] = (b, refl, ground arith)
latest-IsNewest b (r ∷ rows) =
    let (m, e, h) = latest-IsNewest (newer b r) rows in (m, e, IsNewest-newer b r m rows h)

latest_cases :
    (rows : List Row)
    → ((rows ≡ []) × (latest none rows ≡ none))
      ⊎ ((m : Row) × (latest none rows ≡ some m) × IsNewest m rows)
unfolding latest
latest_cases [] = inl (refl, refl)
latest_cases (r ∷ rows) = inr (latest-IsNewest r rows)

-- The read for a source IP: nothing exactly when its count of active rows is zero, and otherwise the
-- record of a row of the table that is active, comes from that IP, and has no newer among them.
pub active_for_ip_cases :
    (ip : Text) (rows : Registry)
    → ((active_count_for_ip ip rows ≡ 0) × (active_for_ip ip rows ≡ none))
      ⊎ ((m : Row) × (active_for_ip ip rows ≡ some (row_to_dict m))
          × Member m rows
          × (active_from ip m ≡ true)
          × All (λ r. r.created_at ≤ℤ m.created_at) (keep (active_from ip) rows))
unfolding active_for_ip active_count_for_ip
active_for_ip_cases ip rows = elim (latest_cases (keep (active_from ip) rows)) [
  | inl (none_left, e) ↦ inl (sym (length-keep (active_from ip) rows) ∙ ap length none_left, rw e)
  | inr (m, e, h) ↦
      let (member, active) = Member-keep (active_from ip) rows m h.0 in
      inr (m, rw e, member, active, h.1)
]
