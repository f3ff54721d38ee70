-- ===== src/Registry/Updates.antt =====
-- What each write changes: the row of its uuid and no other, and of that row the columns it names.
use mathlib.Core.Bool.{true≢false}
use mathlib.Core.Option
use sui_ctf_infrastructure.Base.{
  if◌then◌else◌, Option-cases, any_of, ℤ, ◌≡◌, refl, sym, ◌∙◌, inl, inr, true, Option, none, some,
  [], ◌∷◌, arith,
}
use sui_ctf_infrastructure.Text.{Text, text_eq}
use sui_ctf_infrastructure.Python.Errors.{ok}
use sui_ctf_infrastructure.Python.Values.{Value}
use sui_ctf_infrastructure.Registry.Rows.{
  Row, Registry, column_text, has_uuid, new_row, create, update, with_running, set_running, fetch,
}
use sui_ctf_infrastructure.Registry.Keys.{
  IsFresh, fetch-fresh, fetch-update, fetch-append, create-inserts,
}

-- A uuid that no row has is not written.
pub update-fresh :
    (u : Text) (f : Row → Row) (rows : Registry) → IsFresh u rows → update u f rows ≡ rows
unfolding update
update-fresh u f [] h = refl
update-fresh u f (r ∷ rows) h = ground (arith, update-fresh u f rows)

pub fetch-none-IsFresh : (u : Text) (rows : Registry) → fetch u rows ≡ none → IsFresh u rows
unfolding fetch
fetch-none-IsFresh u [] h = refl
fetch-none-IsFresh u (r ∷ rows) h = ground (arith, fetch-none-IsFresh u rows)

fetch-some_of_present :
    (u : Text) (rows : Registry)
    → any_of (has_uuid u) rows ≡ true
    → (r : Row) × (fetch u rows ≡ some r)
fetch-some_of_present u rows h = elim (Option-cases (fetch u rows)) [
  | inl e ↦ absurd (true≢false (sym h ∙ fetch-none-IsFresh u rows e))
  | inr found ↦ found
]

-- After `create` succeeds, the new uuid reads as a starting instance with no container, and every
-- other uuid reads as before.
pub fetch-create :
    (v u ip : Text) (ch : Value) (name : Text) (expires_at : ℤ) (mode : Value) (now : ℤ)
    (rows : Registry) {rows' : Registry}
    → create u ip ch name expires_at mode now rows ≡ ok rows'
    → (title : Text) × (m : Option Text) × (column_text ch ≡ ok (some title))
      × (fetch v rows'
          ≡ (if text_eq u v then some (new_row u ip title name expires_at m now) else fetch v rows))
fetch-create v u ip ch name expires_at mode now rows {rows'} e =
    let (title, m, h1, h2, fresh, shape) = create-inserts u ip ch name expires_at mode now rows e in
    (
      title,
      m,
      h1,
      rw shape (
          ground (
            arith,
            fetch-append v rows (new_row u ip title name expires_at m now),
            fetch-fresh v rows,
            fetch-none-IsFresh v rows,
            fetch-some_of_present v rows,
          )),
    )

-- `set_running` raises before it writes anything, or has written its columns in the row of the uuid.
pub set_running-updates :
    (u url : Text) (a k d p o : Value) (rows : Registry) {rows' : Registry}
    → set_running u url a k d p o rows ≡ ok rows'
    → (a' : Option Text) × (k' : Option Text) × (d' : Option Text) × (p' : Option Text)
      × (column_text a ≡ ok a')
      × (column_text k ≡ ok k')
      × (column_text d ≡ ok d')
      × (column_text p ≡ ok p')
      × (rows' ≡ update u (with_running url a' k' d' p' o) rows)
unfolding set_running
set_running-updates u url a k d p o rows e = ground arith

-- So it leaves every other uuid as it was, and its own one running with the values that it was given.
pub fetch-set_running :
    (v u url : Text) (a k d p o : Value) (rows : Registry) {rows' : Registry}
    → set_running u url a k d p o rows ≡ ok rows'
    → (a' : Option Text) × (k' : Option Text) × (d' : Option Text) × (p' : Option Text)
      × (column_text k ≡ ok k')
      × (column_text p ≡ ok p')
      × (fetch v rows' ≡ (
          if text_eq v u
          then Option.map (with_running url a' k' d' p' o) (fetch v rows)
          else fetch v rows))
fetch-set_running v u url a k d p o rows e =
    let (a', k', d', p', _, hk, _, hp, shape) = set_running-updates u url a k d p o rows e in
    (
      a',
      k',
      d',
      p',
      hk,
      hp,
      rw shape (fetch-update v u (with_running url a' k' d' p' o) rows (λ r. refl)),
    )
