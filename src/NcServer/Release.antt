-- ===== src/NcServer/Release.antt =====
-- What `_handle` leaves of the counters.
use sui_ctf_infrastructure.Base.{
  pos, ◌+ℤ◌, add_sub_one, ℕ, ◌≡◌, refl, inl, Option, none, some, List, ◌∷◌, arith,
}
use sui_ctf_infrastructure.Text.{Text}
use sui_ctf_infrastructure.Counters.{
  lookup, count-close_one, Tracks, enter, enter-Tracks, leave-Tracks,
}
use sui_ctf_infrastructure.Config.{Config}
use sui_ctf_infrastructure.Docker.Sdk.{Host}
use sui_ctf_infrastructure.Docker.Manager.{DockerManager}
use sui_ctf_infrastructure.SuiRpc.Client.{HttpClient}
use sui_ctf_infrastructure.Challenge.Manifest.{Challenge}
use sui_ctf_infrastructure.NcServer.Connections.{Caps, NcState, peer_ip, accept, disconnect}
use sui_ctf_infrastructure.NcServer.Session.{Session}
use sui_ctf_infrastructure.NcServer.Menu.{after_accept, handle}
use sui_ctf_infrastructure.NcServer.Bounds.{accept-some}

-- The counters say the same, of every address.
abbrev pub IsSameCount : NcState → NcState → Type 0
IsSameCount n m = (n.active ≡ m.active) × ((k : Text) → lookup k n.per_ip ≡ lookup k m.per_ip)

enter-disconnect :
    (ip : Text) (n : NcState) (ks : List Text)
    → Tracks ks n.per_ip
    → IsSameCount
        (disconnect ip (record { active = n.active +ℤ pos 1; per_ip = enter ip n.per_ip }))
        n
unfolding disconnect
enter-disconnect ip n ks tracks =
    let entered = enter-Tracks ip ks n.per_ip tracks in
    let left = leave-Tracks ip (ip ∷ ks) (enter ip n.per_ip) (inl refl) entered in
    (
      add_sub_one n.active,
      λ k. ground (arith, left k, tracks k, count-close_one k ip (ip ∷ ks) (inl refl)),
    )

module _ {W : Type 0} (host : Host W) (http : HttpClient W) (sha256 : List ℕ → List ℕ)
    (cfg : Config) (docker : DockerManager) (ch : Challenge) where
  after_accept-count :
      (caps : Caps) (ip : Text) (n : NcState) (s : Session W) (ks : List Text) (o : Option NcState)
      → Tracks ks n.per_ip
      → accept caps ip n ≡ o
      → IsSameCount (after_accept host http sha256 cfg docker ch ip (λ m. m) n s o).0 n
  after_accept-count caps ip n s ks none tracks e = (refl, λ k. refl)
  after_accept-count caps ip n s ks (some n') tracks e =
      rw ((accept-some caps ip n n' e).1) (enter-disconnect ip n ks tracks)

  -- Whatever a client does, and however its session ends, the counters say afterwards what they said
  -- before it, of every address and in all, where no other connection moved them meanwhile and the
  -- dictionary counted what was open.
  pub handle-releases :
      (caps : Caps) (peer : Option Text) (n : NcState) (s : Session W) (ks : List Text)
      → Tracks ks n.per_ip
      → IsSameCount (handle host http sha256 cfg docker ch caps peer (λ m. m) (n, s)).0 n
  unfolding handle
  handle-releases caps peer n s ks tracks =
      after_accept-count caps (peer_ip peer) n s ks (accept caps (peer_ip peer) n) tracks refl
