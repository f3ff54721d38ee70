-- ===== src/Challenge/Sender.antt =====
-- Whose event meets an event condition.
use mathlib.Core.Bool.{false≢true}
use sui_ctf_infrastructure.Base.{
  Bool-cases, Option-cases, ◌≡◌, refl, sym, ap, ◌∙◌, subst, ◌⊎◌, inl, inr, true, some, [], ◌∷◌,
  ◌++◌, arith,
}
use sui_ctf_infrastructure.Text.{Text, codes, text_discrete, starts_with}
use sui_ctf_infrastructure.Python.Errors.{Result, ok, raised, bind-ok}
use sui_ctf_infrastructure.Python.Values.{Value, null, bool, num, float, str, arr, obj, get_default}
use sui_ctf_infrastructure.Python.Operators.{value_eq, index_value}
use sui_ctf_infrastructure.Registry.{Record}
use sui_ctf_infrastructure.SuiRpc.Client.{HttpClient, SuiRpc, query_event_exists}
use sui_ctf_infrastructure.SuiRpc.Events.{IsAnswered, query_event_exists-IsAnswered}
use sui_ctf_infrastructure.Challenge.Solve.{
  sender_of, full_event_type, query_event, event_query, check_package, check_event,
}

-- The condition names no sender.
abbrev pub HasNoSender : Value → Type 0
HasNoSender spec =
    get_default spec (codes "sender") (str (codes "player")) ≡ ok (str (codes "player"))

-- The full name of an event: behind the package where the suffix begins with two colons, and else as it
-- is.
abbrev pub IsFullName : Text → Text → Text → Type 0
IsFullName pkg suffix t =
    ((rest : Text) × (suffix ≡ codes "::" ++ rest) × (t ≡ pkg ++ suffix))
    ⊎ ((¬ ((rest : Text) × (suffix ≡ codes "::" ++ rest))) × (t ≡ suffix))

-- The event that a condition asks for, of the package of an instance.
abbrev pub IsAsked : Value → Record → Text → Type 0
IsAsked spec row t =
    (pkg : Text) × (suffix : Text) × (row.package_id ≡ some pkg)
    × (index_value spec (str (codes "event_type")) ≡ ok (str suffix))
    × IsFullName pkg suffix t

starts_with-rest : (s t : Text) → starts_with s t ≡ true → (rest : Text) × (s ≡ t ++ rest)
unfolding starts_with
starts_with-rest s [] h = (s, refl)
starts_with-rest [] (d ∷ t) h = cc
starts_with-rest (c ∷ s) (d ∷ t) h =
    let (rest, same) = starts_with-rest s t (ground (arith, h)) in
    let first : c ≡ d = ground (arith, h) in (rest, rw first (ap (λ x. d ∷ x) same))

starts_with-append : (t rest : Text) → starts_with (t ++ rest) t ≡ true
unfolding starts_with
starts_with-append [] rest = refl
starts_with-append (d ∷ t) rest = ground (arith, starts_with-append t rest)

text_inj : {s t : Text} → ◌≡◌ {A = Result Text} (ok s) (ok t) → s ≡ t
text_inj e = cc

full_event_type-IsFullName :
    (pkg t : Text) (v : Value)
    → full_event_type pkg v ≡ ok t
    → (suffix : Text) × (v ≡ str suffix) × IsFullName pkg suffix t
unfolding full_event_type
full_event_type-IsFullName pkg t (str suffix) e =
    elim (Bool-cases (starts_with suffix (codes "::"))) [
      | inl hit ↦
          let (rest, shape) = starts_with-rest suffix (codes "::") hit in
          (suffix, refl, inl (rest, shape, sym (text_inj (rw hit at e))))
      | inr miss ↦ (
        suffix,
        refl,
        inr (
          (λ (rest, shape). false≢true (
              sym miss
              ∙ ap (λ x. starts_with x (codes "::")) shape
              ∙ starts_with-append (codes "::") rest)),
          sym (text_inj (rw miss at e)),
        ),
      )
    ]
full_event_type-IsFullName pkg t null e = cc
full_event_type-IsFullName pkg t (bool b) e = cc
full_event_type-IsFullName pkg t (num n) e = cc
full_event_type-IsFullName pkg t (float f) e = cc
full_event_type-IsFullName pkg t (arr vs) e = cc
full_event_type-IsFullName pkg t (obj fs) e = cc

sender_of-player :
    (row : Record) (a : Text)
    → row.player_address ≡ some a
    → sender_of (str (codes "player")) row ≡ str a
unfolding sender_of value_eq text_discrete
sender_of-player row a e = rw e refl

module _ {W : Type 0} (http : HttpClient W) where
  event_query-IsAsked :
      (spec : Value) (row : Record) (pkg a t : Text) (sender : Value)
      → HasNoSender spec
      → row.player_address ≡ some a
      → row.package_id ≡ some pkg
      → event_query http spec row pkg ≡ ok (t, sender)
      → (sender ≡ str a) × IsAsked spec row t
  event_query-IsAsked spec row pkg a t sender plain address package_there e =
      let (v, e1, named) = bind-ok _ (index_value spec (str (codes "event_type"))) e in
      let (full, e2, typed) = bind-ok _ (full_event_type pkg v) e1 in
      let (by, e3, chosen) =
        bind-ok _ (get_default spec (codes "sender") (str (codes "player"))) e2 in
      let (suffix, is_text, shape) = full_event_type-IsFullName pkg full v typed in
      let same_type : full ≡ t = ground (arith, e3) in
      (
        ground (arith, plain, chosen, e3, sender_of-player row a address),
        (
          pkg,
          suffix,
          package_there,
          named ∙ ap ok is_text,
          subst (IsFullName pkg suffix) same_type shape,
        ),
      )

  query_event-IsAnswered :
      (rpc : SuiRpc) (spec : Value) (row : Record) (a : Text) (q : Result (Text × Value)) (w : W)
      → ((t : Text) (sender : Value) → q ≡ ok (t, sender) → (sender ≡ str a) × IsAsked spec row t)
      → (query_event http rpc q w).0 ≡ ok true
      → (t : Text) × IsAsked spec row t × IsAnswered http rpc t a w
  query_event-IsAnswered rpc spec row a (raised x) w h e = cc
  query_event-IsAnswered rpc spec row a (ok (t, sender)) w h e =
      let (by_player, asked) = h t sender refl in
      (
        t,
        asked,
        query_event_exists-IsAnswered http rpc t a w
            (subst (λ v. (query_event_exists http rpc t v w).0 ≡ ok true) by_player e),
      )

  check_package-IsAnswered :
      (rpc : SuiRpc) (spec : Value) (row : Record) (pkg a : Text) (w : W)
      → HasNoSender spec
      → row.player_address ≡ some a
      → row.package_id ≡ some pkg
      → (check_package http rpc spec row pkg w).0 ≡ ok true
      → (t : Text) × IsAsked spec row t × IsAnswered http rpc t a w
  check_package-IsAnswered rpc spec row [] a w plain address package_there e = cc
  check_package-IsAnswered rpc spec row (c ∷ s) a w plain address package_there e =
      query_event-IsAnswered rpc spec row a (event_query http spec row (c ∷ s)) w
        (λ t sender q.
          event_query-IsAsked spec row (c ∷ s) a t sender plain address package_there q)
        e

  -- Of an instance whose player has an address in its row, an event condition that names no sender is
  -- met only by an event of the player: the RPC has answered a query with a result in which an event's
  -- sender is that address. The type asked for is that of the condition, behind the instance's package
  -- where it begins with two colons.
  pub check_event-IsAnswered :
      (rpc : SuiRpc) (spec : Value) (row : Record) (a : Text) (w : W)
      → HasNoSender spec
      → row.player_address ≡ some a
      → (check_event http rpc spec row w).0 ≡ ok true
      → (t : Text) × IsAsked spec row t × IsAnswered http rpc t a w
  unfolding check_event sender_of
  check_event-IsAnswered rpc spec row a w plain address e = elim (Option-cases row.package_id) [
    | inl absent ↦ absurd (ground (arith, absent, e))
    | inr (pkg, there) ↦
        check_package-IsAnswered rpc spec row pkg a w plain address there (rw there at e)
  ]
