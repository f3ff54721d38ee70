-- ===== src/Instances/BesideTests.antt =====
-- A host where another task reserves an instance and ends it while it is starting.
use sui_ctf_infrastructure.Base.{
  ℕ, ◌≡◌, refl, sym, ap, ◌∙◌, subst, false, none, [], ◌∷◌, ◌++◌, arith,
}
use sui_ctf_infrastructure.Text.{Text, codes, text_discrete}
use sui_ctf_infrastructure.Python.Errors.{Result, ok, raised}
use sui_ctf_infrastructure.Registry.{
  expired, Row, Registry, has_uuid, with_status, set_status, fetch,
}
use sui_ctf_infrastructure.Registry.Keys.{fetch-fresh, fetch-update, fetch-append}
use sui_ctf_infrastructure.Docker.Sdk.{Host}
use sui_ctf_infrastructure.Docker.Tests.{small_host}
use sui_ctf_infrastructure.Instances.Tasks.{State}
use sui_ctf_infrastructure.Instances.Spawn.{reserve}
use sui_ctf_infrastructure.Instances.Capacity.{reserve-draws, reserve-inserts}
use sui_ctf_infrastructure.Instances.Interleaving.{Write, Writes}
use sui_ctf_infrastructure.Instances.Steps.{OthersWrite}
use sui_ctf_infrastructure.Instances.Methods.{OthersSpare, reserve-raised}
use sui_ctf_infrastructure.Instances.BootTests.{small_config, small_docker, small_challenge}

-- The other task draws `u5`.
abbrev other_host : Host ℕ
other_host = record small_host { uuid4 = λ w. (codes "u5", w) }

abbrev other_start : Registry → ℕ → State ℕ
other_start reg w = record { reg = reg; world = w }

abbrev beside : Registry → ℕ → Result (Text × Text) × State ℕ
beside reg w =
    reserve other_host small_config small_docker small_challenge (codes "10.0.0.5")
      (other_start reg w)

-- At every wait it reserves an instance if there is room, and its boot fails.
abbrev pub spawning_host : Host ℕ
spawning_host = record small_host {
  others = λ reg w. set_status (codes "u5") expired none (beside reg w).1.reg;
}

beside-Writes :
    (reg : Registry) (w : ℕ) (a : Result (Text × Text) × State ℕ)
    → beside reg w ≡ a
    → Writes ℕ small_config small_docker small_challenge reg a.1.reg
beside-Writes reg w (raised e, t) h =
    subst (Writes ℕ small_config small_docker small_challenge reg)
      (sym (
        reserve-raised other_host small_config small_docker small_challenge (codes "10.0.0.5")
          (other_start reg w) e t h))
      Writes.here
beside-Writes reg w (ok (u, name), t) h =
    Writes.next Writes.here
      (Write.reserves other_host (codes "10.0.0.5") u name (other_start reg w) t h refl refl)

pub spawning_host-OthersWrite : OthersWrite spawning_host small_config small_docker small_challenge
spawning_host-OthersWrite reg w =
    Writes.next (beside-Writes reg w (beside reg w) refl)
      (Write.ends (codes "u5") expired none refl refl)

-- A row of another uuid is not read.
fetch-other :
    (u : Text) (rows : Registry) (r : Row)
    → has_uuid u r ≡ false
    → fetch u (rows ++ r ∷ []) ≡ fetch u rows
fetch-other u rows r h = ground (arith, h, fetch-append u rows r, fetch-fresh u rows)

beside-fetch :
    (reg : Registry) (w : ℕ) (a : Result (Text × Text) × State ℕ)
    → beside reg w ≡ a
    → fetch (codes "u9") a.1.reg ≡ fetch (codes "u9") reg
unfolding text_discrete
beside-fetch reg w (raised e, t) h = ap (fetch (codes "u9")) (
    reserve-raised other_host small_config small_docker small_challenge (codes "10.0.0.5")
      (other_start reg w) e t h)
beside-fetch reg w (ok (u, name), t) h =
    let (ttl, title, m, _, fresh, _, shape, _, _) =
      reserve-inserts other_host small_config small_docker small_challenge (codes "10.0.0.5")
        (other_start reg w) u name t h in
    let same =
      reserve-draws other_host small_config small_docker small_challenge (codes "10.0.0.5")
        (other_start reg w) u name t h in
    ap (fetch (codes "u9")) shape ∙ fetch-other (codes "u9") reg _ (rw (same) refl)

-- The row of `u9` is left alone.
pub spawning_host-OthersSpare : OthersSpare spawning_host small_config small_docker small_challenge
unfolding set_status text_discrete
spawning_host-OthersSpare drawn reg w first r e = first r (
    sym (
      fetch-update (codes "u9") (codes "u5") (with_status expired none) (beside reg w).1.reg
        (λ q. refl)
      ∙ beside-fetch reg w (beside reg w) refl)
    ∙ e)
