-- ===== src/Registry/Client.antt =====
-- What a client of the table can observe over any sequence of calls: the table against a function from
-- uuids to rows.
use sui_ctf_infrastructure.Text.Laws.{text_eq→eq, text_eq_comm}
use sui_ctf_infrastructure.Registry.Updates.{fetch-none-IsFresh}
use mathlib.Core.Option
use mathlib.Core.Path.{fun_ext}
use sui_ctf_infrastructure.Base.{
  if◌then◌else◌, Option-cases, any_of, ℤ, ◌≡◌, refl, ap, fun_ext, inl, inr, true, Option, none,
  some, List, [], ◌∷◌, ◌++◌, arith,
}
use sui_ctf_infrastructure.Text.{Text, text_eq}
use sui_ctf_infrastructure.Python.Errors.{integrity_error, Result, ok, raised, ◌>>=◌, raise}
use sui_ctf_infrastructure.Python.Values.{Value}
use sui_ctf_infrastructure.Registry.Rows.{
  Status, Row, Registry, column_text, not_null, has_uuid, insert_row, new_row, create, update,
  set_container, with_running, set_running, with_status, set_status, fetch,
}
use sui_ctf_infrastructure.Registry.Keys.{
  IsFresh, HasUniqueKeys, KeepsUuid, fetch-fresh, update-HasUniqueKeys, append-HasUniqueKeys,
  fetch-update, fetch-append,
}

-- The methods that write.
pub data Call : Type 0 where
  creates : Text → Text → Value → Text → ℤ → Value → ℤ → Call
  sets_container : Text → Text → Call
  sets_running : Text → Text → Value → Value → Value → Value → Value → Call
  sets_status : Text → Status → Option Text → Call

pub perform : Call → Registry → Result Registry
perform (creates u ip ch name expires_at mode now) rows =
    create u ip ch name expires_at mode now rows
perform (sets_container u cid) rows = ok (set_container u cid rows)
perform (sets_running u url a k d p o) rows = set_running u url a k d p o rows
perform (sets_status u st e) rows = ok (set_status u st e rows)

-- The abstract table.
abbrev pub View : Type 0
View = Text → Option Row

abbrev pub view : Registry → View
view rows u = fetch u rows

-- A function changed at one uuid.
abbrev pub assign : Text → Option Row → View → View
assign u o v w = if text_eq w u then o else v w

abbrev pub change : Text → (Row → Row) → View → View
change u f v = assign u (Option.map f (v u)) v

abbrev pub insert_at : Row → View → Option Row → Result View
insert_at r v none = ok (assign r.uuid (some r) v)
insert_at r v (some _) = raise integrity_error "UNIQUE constraint failed: instances.uuid"

abbrev pub insert_view : Row → View → Result View
insert_view r v = insert_at r v (v r.uuid)

pub replay : Call → View → Result View
replay (creates u ip ch name expires_at mode now) v = do
  title ← column_text ch
  flag_mode ← column_text mode
  there ← not_null title
  insert_view (new_row u ip there name expires_at flag_mode now) v
replay (sets_container u cid) v = ok (change u (λ r. record r { container_id = some cid }) v)
replay (sets_running u url a k d p o) v = do
  address ← column_text a
  privkey ← column_text k
  deployer ← column_text d
  pkg ← column_text p
  ok (change u (with_running url address privkey deployer pkg o) v)
replay (sets_status u st e) v = ok (change u (with_status st e) v)

-- The same outcome: a table with distinct keys that reads as the function, or the same exception.
abbrev pub Agrees : Result Registry → Result View → Type 0
Agrees (ok rows) (ok v) = HasUniqueKeys rows × (view rows ≡ v)
Agrees (raised e) (raised e') = e ≡ e'
Agrees _ _ = ⊥

bind-Agrees :
    {A : Type 0} (f : A → Result Registry) (g : A → Result View) (m : Result A)
    → ((a : A) → Agrees (f a) (g a))
    → Agrees (m >>= f) (m >>= g)
bind-Agrees f g (ok a) h = h a
bind-Agrees f g (raised e) h = refl

update-Agrees :
    (u : Text) (f : Row → Row) (rows : Registry)
    → KeepsUuid f
    → HasUniqueKeys rows
    → Agrees (ok (update u f rows)) (ok (change u f (view rows)))
update-Agrees u f rows k keys = (
  update-HasUniqueKeys u f rows k keys,
  fun_ext λ w. ground (arith, fetch-update w u f rows k, text_eq→eq w u),
)

is_present :
    (u : Text) (rows : Registry) (x : Row) → fetch u rows ≡ some x → any_of (has_uuid u) rows ≡ true
is_present u rows x found = ground (arith, found, fetch-fresh u rows)

appended-view :
    (r : Row) (rows : Registry)
    → IsFresh r.uuid rows
    → (w : Text) → view (rows ++ r ∷ []) w ≡ assign r.uuid (some r) (view rows) w
appended-view r rows fresh w =
    ground
      (arith, fetch-append w rows r, fetch-fresh w rows, text_eq→eq w r.uuid, text_eq_comm w r.uuid)

insert-Agrees :
    (r : Row) (rows : Registry)
    → HasUniqueKeys rows
    → Agrees (insert_row r rows) (insert_view r (view rows))
unfolding insert_row
insert-Agrees r rows keys = elim (Option-cases (fetch r.uuid rows)) [
  | inl absent ↦
      let fresh = fetch-none-IsFresh r.uuid rows absent in
      rw (absent, fresh)
        (append-HasUniqueKeys rows r fresh keys, fun_ext λ w. appended-view r rows fresh w)
  | inr (x, found) ↦ rw (found, is_present r.uuid rows x found) refl
]

perform-Agrees :
    (c : Call) (rows : Registry)
    → HasUniqueKeys rows
    → Agrees (perform c rows) (replay c (view rows))
unfolding perform replay create set_container set_running set_status
perform-Agrees (creates u ip ch name expires_at mode now) rows keys =
    bind-Agrees _ _ (column_text ch) λ title. bind-Agrees _ _ (column_text mode) λ flag_mode.
      bind-Agrees _ _ (not_null title)
        λ there. insert-Agrees (new_row u ip there name expires_at flag_mode now) rows keys
perform-Agrees (sets_container u cid) rows keys = update-Agrees u _ rows (λ r. refl) keys
perform-Agrees (sets_running u url a k d p o) rows keys = bind-Agrees _ _ (column_text a) λ address.
    bind-Agrees _ _ (column_text k) λ privkey. bind-Agrees _ _ (column_text d) λ deployer.
      bind-Agrees _ _ (column_text p) λ pkg.
        update-Agrees u (with_running url address privkey deployer pkg o) rows (λ r. refl) keys
perform-Agrees (sets_status u st e) rows keys =
    update-Agrees u (with_status st e) rows (λ r. refl) keys

-- What a client sees of each call: that it is done, or its exception.
abbrev pub outcome {ℓ} : {A : Type ℓ} → Result A → Result (Unit {0})
outcome (ok a) = ok tt
outcome (raised e) = raised e

-- A call that raises leaves the table as it was.
abbrev pub kept {ℓ} : {A : Type ℓ} → A → Result A → A
kept a (ok b) = b
kept a (raised e) = a

pub run : List Call → Registry → List (Result (Unit {0})) × Registry
run [] rows = ([], rows)
run (c ∷ cs) rows =
    let r = perform c rows in let (seen, last) = run cs (kept rows r) in (outcome r ∷ seen, last)

pub replays : List Call → View → List (Result (Unit {0})) × View
replays [] v = ([], v)
replays (c ∷ cs) v =
    let r = replay c v in let (seen, last) = replays cs (kept v r) in (outcome r ∷ seen, last)

kept-Agrees :
    (rows : Registry) (a : Result Registry) (b : Result View)
    → HasUniqueKeys rows
    → Agrees a b
    → HasUniqueKeys (kept rows a)
      × (view (kept rows a) ≡ kept (view rows) b)
      × (outcome a ≡ outcome b)
kept-Agrees rows (ok rows') (ok v) keys h = (h.0, h.1, refl)
kept-Agrees rows (ok rows') (raised e) keys h = absurd h
kept-Agrees rows (raised e) (ok v) keys h = absurd h
kept-Agrees rows (raised e) (raised e') keys h = (keys, refl, ap raised h)

-- Over any sequence of writes, a table with distinct keys keeps them distinct, and a client sees of it
-- what it would see of a function from uuids to rows: the same outcome of each call, exceptions
-- included, and the same row, or none, at every uuid afterwards.
pub run_refines :
    (cs : List Call) (rows : Registry)
    → HasUniqueKeys rows
    → HasUniqueKeys (run cs rows).1
      × ((run cs rows).0 ≡ (replays cs (view rows)).0)
      × (view (run cs rows).1 ≡ (replays cs (view rows)).1)
unfolding run replays
run_refines [] rows keys = (keys, refl, refl)
run_refines (c ∷ cs) rows keys =
    let (keys', same, seen) =
      kept-Agrees rows (perform c rows) (replay c (view rows)) keys (perform-Agrees c rows keys) in
    let (last_keys, rest, last) = run_refines cs (kept rows (perform c rows)) keys' in
    (
      last_keys,
      rw (seen, ← same) (ap (λ os. outcome (replay c (view rows)) ∷ os) rest),
      rw (← same) last,
    )
