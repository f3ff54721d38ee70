-- ===== src/NcServer/Writing.antt =====
-- Actions of a session that reach the table of instances by writes.
use sui_ctf_infrastructure.Python.Errors.{Result, ok, raised}
use sui_ctf_infrastructure.NcServer.Session.{
  Input, line, silence, broken, Session, Action, pure, manage, proceed, ◌>>=◌, ◌>>◌, spend, send_if,
  send, read_from, readline,
}
use sui_ctf_infrastructure.NcServer.Menu.{uuid_prompt}
use sui_ctf_infrastructure.Base.{ℕ, Option, none, some, List, [], ◌∷◌}
use sui_ctf_infrastructure.Text.{Text}
use sui_ctf_infrastructure.Config.{Config}
use sui_ctf_infrastructure.Registry.{Registry}
use sui_ctf_infrastructure.Docker.Sdk.{Host}
use sui_ctf_infrastructure.Docker.Manager.{DockerManager}
use sui_ctf_infrastructure.Challenge.Manifest.{Challenge}
use sui_ctf_infrastructure.Instances.Tasks.{State, give_way}
use sui_ctf_infrastructure.Instances.Interleaving.{Writes}
use sui_ctf_infrastructure.Instances.Steps.{OthersWrite, Writes-trans, OthersWrite-IsKept}

module _ {W : Type 0} (host : Host W) (cfg : Config) (docker : DockerManager) (ch : Challenge)
    (others : OthersWrite host cfg docker ch) where
  -- The action reaches the table by writes.
  abbrev pub IsWriting : {A : Type 0} → Action W A → Type 0
  IsWriting m =
      (start : Registry) (s : Session W)
      → Writes W cfg docker ch start s.manager.reg
      → Writes W cfg docker ch start (m s).1.manager.reg

  pub proceed-IsWriting :
      {A B : Type 0} (f : A → Action W B) (start : Registry) (x : Result A × Session W)
      → Writes W cfg docker ch start x.1.manager.reg
      → ((a : A) → IsWriting (f a))
      → Writes W cfg docker ch start (proceed f x).1.manager.reg
  proceed-IsWriting f start (ok a, s) h k = k a start s h
  proceed-IsWriting f start (raised e, s) h k = h

  pub manage-IsWriting :
      {A : Type 0} (f : State W → Result A × State W)
      → ((m : State W) → Writes W cfg docker ch m.reg (f m).1.reg)
      → IsWriting (manage f)
  manage-IsWriting f k start s h = Writes-trans host cfg docker ch h (k s.manager)

  send_if-IsWriting : (room : Option (Option ℕ)) (t : Text) → IsWriting (send_if host room t)
  unfolding give_way
  send_if-IsWriting none t start s h = h
  send_if-IsWriting (some room) t start s h =
      OthersWrite-IsKept host cfg docker ch others start s.manager.reg _ h

  pub send-IsWriting : (t : Text) → IsWriting (send host t)
  unfolding send
  send-IsWriting t start s h = send_if-IsWriting (spend s.room) t start s h

  pub say-IsWriting : {A : Type 0} (t : Text) (a : A) → IsWriting (send host t >> pure a)
  say-IsWriting t a start s h =
      proceed-IsWriting (λ _. pure a) start (send host t s) (send-IsWriting t start s h)
        (λ _ start' s' h'. h')

  read_from-IsWriting : (ins : List Input) → IsWriting (read_from host ins)
  read_from-IsWriting [] start s h = h
  read_from-IsWriting (line t ∷ ins) start s h = h
  read_from-IsWriting (silence ∷ ins) start s h = h
  read_from-IsWriting (broken x ∷ ins) start s h = h

  pub readline-IsWriting : IsWriting (readline host)
  unfolding readline give_way
  readline-IsWriting start s h =
      read_from-IsWriting s.inputs start _
        (OthersWrite-IsKept host cfg docker ch others start s.manager.reg _ h)

  pub named-IsWriting :
      (f : Option Text → Action W (Unit {0}))
      → ((o : Option Text) → IsWriting (f o))
      → IsWriting (send host uuid_prompt >>= λ _. readline host >>= f)
  named-IsWriting f hf start s h =
      proceed-IsWriting _ start (send host uuid_prompt s) (send-IsWriting uuid_prompt start s h)
        λ _ start' s' h'.
          proceed-IsWriting f start' (readline host s') (readline-IsWriting start' s' h') hf
