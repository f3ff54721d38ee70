-- ===== src/NcServer/PassTests.antt =====
-- A client that solves a small puzzle.
use sui_ctf_infrastructure.Base.{pos, ℕ, ◌≡◌, refl, true, [], ◌∷◌, arith}
use sui_ctf_infrastructure.Text.{codes}
use sui_ctf_infrastructure.Python.Errors.{ok}
use sui_ctf_infrastructure.Config.{Config}
use sui_ctf_infrastructure.Pow.Tests.{toy_hash, search-hit}
use sui_ctf_infrastructure.Docker.Tests.{small_host}
use sui_ctf_infrastructure.Instances.FlagTests.{eventful}
use sui_ctf_infrastructure.Instances.BootTests.{
  small_config, small_docker, small_challenge, at_start,
}
use sui_ctf_infrastructure.NcServer.Session.{line, Session}
use sui_ctf_infrastructure.NcServer.Menu.{pow_gate}
use sui_ctf_infrastructure.NcServer.Passing.{pasting, pow_gate-passes}

abbrev easy : Config
easy = record small_config { pow_difficulty_bits = pos 3 }

-- It pastes the number that the command finds, and means to quit afterwards.
abbrev solving : Session ℕ
solving = pasting 10 (line (codes "4\n") ∷ []) [] at_start

pow_gate-passes_example :
    ((pow_gate small_host eventful toy_hash easy small_docker small_challenge solving).0 ≡ ok true)
    × ((pow_gate small_host eventful toy_hash easy small_docker small_challenge solving).1.inputs
        ≡ line (codes "4\n") ∷ [])
pow_gate-passes_example =
    pow_gate-passes small_host eventful toy_hash easy small_docker small_challenge 100 3 10
      (line (codes "4\n") ∷ []) [] at_start refl (omega arith) (omega arith) search-hit
