-- ===== src/NcServer/Session.antt =====
-- A connection as the menu sees it: the lines that come in, the texts that go out, and when it breaks.
-- A wait for the client also lets the other tasks of the event loop run.
use sui_ctf_infrastructure.Base.{ℕ, zero, suc, ◌≡◌, refl, Option, none, some, List, [], ◌∷◌, ◌++◌}
use sui_ctf_infrastructure.Text.{Text, codes}
use sui_ctf_infrastructure.Python.Errors.{ExceptionKind, Exception, Result, ok, raised}
use sui_ctf_infrastructure.Docker.Sdk.{Host}
use sui_ctf_infrastructure.Instances.Tasks.{State, give_way}

-- What one `readline` meets: a line, the end of the input or of the time, or an exception.
pub data Input : Type 0 where
  line : Text → Input
  silence : Input
  broken : Exception → Input

pub record Session (W : Type 0) : Type 0 where
  pub inputs : List Input
  -- The texts sent, in order.
  pub outputs : List Text
  -- After how many texts the connection breaks; `none` if it does not.
  pub room : Option ℕ
  pub manager : State W

abbrev pub Action : Type 0 → Type 0 → Type 0
Action W A = Session W → Result A × Session W

module _ {W : Type 0} where
  abbrev pub pure : {A : Type 0} → A → Action W A
  pure a s = (ok a, s)

  -- A call of the instance manager.
  abbrev pub manage : {A : Type 0} → (State W → Result A × State W) → Action W A
  manage f s = let (r, m) = f s.manager in (r, record s { manager = m })

  -- `try`: the exception becomes a value.
  abbrev pub attempt : {A : Type 0} → Action W A → Action W (Result A)
  attempt m s = let (r, s') = m s in (ok r, s')

  abbrev pub of_result : {A : Type 0} → Result A → Action W A
  of_result r s = (r, s)

infixl 5 ◌>>=◌ ◌>>◌
-- What follows a step; an exception ends the chain.
abbrev pub proceed :
    {W A B : Type 0} → (A → Action W B) → Result A × Session W → Result B × Session W
proceed f (ok a, s) = f a s
proceed f (raised e, s) = (raised e, s)

abbrev pub ◌>>=◌ : {W A B : Type 0} → Action W A → (A → Action W B) → Action W B
◌>>=◌ m f s = proceed f (m s)

abbrev pub ◌>>◌ : {W B : Type 0} → Action W (Unit {0}) → Action W B → Action W B
m >> k = m >>= λ _. k

abbrev pub reset : Exception
reset = record { kind = ExceptionKind.connection_error; message = codes "Connection lost" }

abbrev pub spend : Option ℕ → Option (Option ℕ)
spend none = some none
spend (some zero) = none
spend (some (suc n)) = some (some n)

module _ {W : Type 0} (host : Host W) where
  abbrev pub rest_while : State W → State W
  rest_while m = give_way host m

  abbrev pub send_if : Option (Option ℕ) → Text → Action W (Unit {0})
  send_if none t s = (raised reset, s)
  send_if (some room) t s = (
    ok tt,
    record s { outputs = s.outputs ++ t ∷ []; room = room; manager = rest_while s.manager },
  )

  -- `_send`
  unfoldable pub send : Text → Action W (Unit {0})
  send t s = send_if (spend s.room) t s

  abbrev pub read_from : List Input → Session W → Result (Option Text) × Session W
  read_from [] s = (ok none, s)
  read_from (line t ∷ ins) s = (ok (some t), record s { inputs = ins })
  read_from (silence ∷ ins) s = (ok none, record s { inputs = ins })
  read_from (broken e ∷ ins) s = (raised e, record s { inputs = ins })

  -- `_readline`; `None` is `none`.
  unfoldable pub readline : Action W (Option Text)
  readline s = read_from s.inputs (record s { manager = rest_while s.manager })

-- `_heartbeat`, for so many of its pauses: a dot after each, until the connection breaks, which it keeps
-- to itself. The waits are those of the spawn beside it.
abbrev pub beat_if :
    {W : Type 0} → (Session W → Session W) → Option (Option ℕ) → Session W → Session W
beat_if again none s = s
beat_if again (some room) s =
    again (record s { outputs = s.outputs ++ codes " ." ∷ []; room = room })

unfoldable pub heartbeat : {W : Type 0} → ℕ → Session W → Session W
heartbeat zero s = s
heartbeat (suc n) s = beat_if (heartbeat n) (spend s.room) s

beat_if-frame :
    {W : Type 0} (again : Session W → Session W) (room : Option (Option ℕ)) (s : Session W)
    → ((s : Session W) → ((again s).inputs ≡ s.inputs) × ((again s).manager ≡ s.manager))
    → ((beat_if again room s).inputs ≡ s.inputs) × ((beat_if again room s).manager ≡ s.manager)
beat_if-frame again none s h = (refl, refl)
beat_if-frame again (some room) s h = h _

-- The dots are all that it adds.
pub heartbeat-frame :
    {W : Type 0} (n : ℕ) (s : Session W)
    → ((heartbeat n s).inputs ≡ s.inputs) × ((heartbeat n s).manager ≡ s.manager)
unfolding heartbeat
heartbeat-frame zero s = (refl, refl)
heartbeat-frame (suc n) s = beat_if-frame (heartbeat n) (spend s.room) s (heartbeat-frame n)
