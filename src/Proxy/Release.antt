-- ===== src/Proxy/Release.antt =====
-- What `_forward` leaves of the counters.
use sui_ctf_infrastructure.Config.{Config}
use sui_ctf_infrastructure.Registry.{Registry}
use sui_ctf_infrastructure.Proxy.Inflight.{gate-admitted}
use sui_ctf_infrastructure.Base.{add_sub_one, ◌≡◌, refl, inl, List, ◌∷◌, arith}
use sui_ctf_infrastructure.Text.{Text}
use sui_ctf_infrastructure.Counters.{
  lookup, count-close_one, Tracks, enter, enter-Tracks, leave-Tracks,
}
use sui_ctf_infrastructure.Proxy.Forward.{
  Limits, AppState, Request, enter_inflight, leave_inflight, Gate, refused, admitted, gate,
  Upstream, after_gate, forward,
}

-- The counters say the same, of every uuid.
abbrev pub IsSameLoad : AppState → AppState → Type 0
IsSameLoad a b =
    (a.inflight_total ≡ b.inflight_total)
    × ((k : Text) → lookup k a.inflight_per ≡ lookup k b.inflight_per)

enter-leave :
    (uuid : Text) (a : AppState) (ks : List Text)
    → Tracks ks a.inflight_per
    → IsSameLoad (leave_inflight uuid (enter_inflight uuid a)) a
unfolding leave_inflight enter_inflight
enter-leave uuid a ks tracks =
    let entered = enter-Tracks uuid ks a.inflight_per tracks in
    let left = leave-Tracks uuid (uuid ∷ ks) (enter uuid a.inflight_per) (inl refl) entered in
    (
      add_sub_one a.inflight_total,
      λ k. ground (arith, left k, tracks k, count-close_one k uuid (uuid ∷ ks) (inl refl)),
    )

after_gate-load :
    (cfg : Config) (limits : Limits) (upstream : Upstream) (uuid path : Text) (request : Request)
    (reg : Registry) (a : AppState) (ks : List Text) (g : Gate)
    → Tracks ks a.inflight_per
    → gate limits uuid reg a ≡ g
    → IsSameLoad (after_gate cfg upstream (λ b. b) uuid path request a g).1 a
after_gate-load cfg limits upstream uuid path request reg a ks (refused reply) tracks e =
    (refl, λ k. refl)
after_gate-load cfg limits upstream uuid path request reg a ks (admitted r a') tracks e =
    let (_, _, _, entered) = gate-admitted limits uuid reg a r a' e in
    rw entered (enter-leave uuid a ks tracks)

-- Whatever comes of a request, a refusal, a reply of the instance, an upstream error or an exception of
-- the body or of the call, the counters say afterwards what they said before it, of every uuid and in
-- all, where no other request moved them meanwhile and the dictionary counted what was in flight.
pub forward-releases :
    (cfg : Config) (limits : Limits) (reg : Registry) (upstream : Upstream) (uuid path : Text)
    (request : Request) (a : AppState) (ks : List Text)
    → Tracks ks a.inflight_per
    → IsSameLoad (forward cfg limits reg upstream (λ b. b) uuid path request a).1 a
unfolding forward
forward-releases cfg limits reg upstream uuid path request a ks tracks =
    after_gate-load cfg limits upstream uuid path request reg a ks (gate limits uuid reg a) tracks
      refl
