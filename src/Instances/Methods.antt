-- ===== src/Instances/Methods.antt =====
-- `spawn`, whatever comes of its reservation, and `get_flag`, as sequences of writes.
use sui_ctf_infrastructure.Python.Errors.{Exception, Result, ok, raised}
use sui_ctf_infrastructure.Base.{
  Bool-cases, ◌≡◌, refl, sym, ap, subst, inl, inr, Bool, Option, none, some, arith,
}
use sui_ctf_infrastructure.Text.{Text}
use sui_ctf_infrastructure.Config.{Config}
use sui_ctf_infrastructure.Registry.{Registry, Record, get_record}
use sui_ctf_infrastructure.Docker.Sdk.{Host}
use sui_ctf_infrastructure.Docker.Manager.{DockerManager}
use sui_ctf_infrastructure.SuiRpc.Client.{HttpClient, new_rpc}
use sui_ctf_infrastructure.Challenge.Manifest.{Challenge}
use sui_ctf_infrastructure.Challenge.Solve.{check_solved}
use sui_ctf_infrastructure.Instances.Tasks.{State}
use sui_ctf_infrastructure.Instances.Capacity.{reserve-draws}
use sui_ctf_infrastructure.Instances.Spawn.{
  slot_table, slot_result, reserve_slot, reserve, after_reserve, spawn,
}
use sui_ctf_infrastructure.Instances.Control.{is_running, internal_rpc_url, flag_of, get_flag}
use sui_ctf_infrastructure.Instances.Interleaving.{IsStarting, Writes}
use sui_ctf_infrastructure.Instances.Steps.{OthersWrite, thread-Writes}
use sui_ctf_infrastructure.Instances.SpawnSteps.{spawn-Writes}

module _ {W : Type 0} (host : Host W) (cfg : Config) (docker : DockerManager) (ch : Challenge) where
  -- The other tasks leave the row of a uuid alone that this task can draw, while it is starting. Those
  -- that they draw themselves, on hosts of their own, they may end and publish at any time.
  abbrev pub OthersSpare : Type 0
  OthersSpare =
      (drawn : W) (reg : Registry) (w : W)
      → let (u, _) = host.uuid4 drawn in IsStarting u reg → IsStarting u (host.others reg w)

  slot_result-raised :
      (uuid : Text) (reg : Registry) (w : W) (r : Result Registry) (e : Exception) (t : State W)
      → slot_result host cfg docker ch uuid reg w r ≡ (raised e, t)
      → t.reg ≡ reg
  slot_result-raised uuid reg w (raised x) e t h =
      ap (λ (a : Result (Text × Text) × State W). a.1.reg) (sym h)
  slot_result-raised uuid reg w (ok reg') e t h = cc

  -- A reservation that is refused leaves the table as it was.
  pub reserve-raised :
      (ip : Text) (s : State W) (e : Exception) (t : State W)
      → reserve host cfg docker ch ip s ≡ (raised e, t)
      → t.reg ≡ s.reg
  unfolding reserve reserve_slot
  reserve-raised ip s e t h =
      let (uuid, w) = host.uuid4 s.world in
      ground (
        arith,
        slot_result-raised uuid s.reg w (slot_table host cfg docker ch ip s.reg uuid (host.time w))
            e t,
      )

  module _ (others : OthersWrite host cfg docker ch) where
    flag_of-Writes :
        (http : HttpClient W) (o : Option Record) (s : State W)
        → Writes W cfg docker ch s.reg (flag_of host http cfg ch o s).1.reg
    flag_of-Writes http none s = Writes.here
    flag_of-Writes http (some r) s = elim (Bool-cases (is_running r.status)) [
      | inl running_now ↦ rw running_now (
          thread-Writes host cfg docker ch others Bool
            (check_solved http ch (new_rpc (internal_rpc_url cfg r.row)) r) s.reg s Writes.here)
      | inr not_now ↦ rw not_now Writes.here
    ]

    pub get_flag-Writes :
        (http : HttpClient W) (u : Text) (s : State W)
        → Writes W cfg docker ch s.reg (get_flag host http cfg ch u s).1.reg
    unfolding get_flag
    get_flag-Writes http u s = flag_of-Writes http (get_record u s.reg) s

  module _ (others : OthersWrite host cfg docker ch) (spare : OthersSpare) where
    spared :
        (ip : Text) (s : State W) (u name : Text) (t : State W)
        → reserve host cfg docker ch ip s ≡ (ok (u, name), t)
        → (reg : Registry) (w : W) → IsStarting u reg
        → IsStarting u (host.others reg w)
    spared ip s u name t e =
        subst (λ v. (reg : Registry) (w : W) → IsStarting v reg → IsStarting v (host.others reg w))
          (sym (reserve-draws host cfg docker ch ip s u name t e)) (spare s.world)

    after_reserve-Writes :
        (ip : Text) (s : State W) (a : Result (Text × Text) × State W)
        → reserve host cfg docker ch ip s ≡ a
        → Writes W cfg docker ch s.reg (after_reserve host cfg docker ch a).1.reg
    unfolding spawn
    after_reserve-Writes ip s (raised e, t) h =
        subst (Writes W cfg docker ch s.reg) (sym (reserve-raised ip s e t h)) Writes.here
    after_reserve-Writes ip s (ok (u, name), t) h =
        subst (λ a. Writes W cfg docker ch s.reg (after_reserve host cfg docker ch a).1.reg) h
          (spawn-Writes host cfg docker ch others u (spared ip s u name t h) ip name s t h).0

    pub any_spawn-Writes :
        (ip : Text) (s : State W)
        → Writes W cfg docker ch s.reg (spawn host cfg docker ch ip s).1.reg
    unfolding spawn
    any_spawn-Writes ip s = after_reserve-Writes ip s (reserve host cfg docker ch ip s) refl
