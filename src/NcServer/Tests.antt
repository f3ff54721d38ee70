-- ===== src/NcServer/Tests.antt =====
-- Sessions and connections of the menu server, and the theorems on them.

use sui_ctf_infrastructure.Instances.Capacity.{IsWithin}
use sui_ctf_infrastructure.Instances.Interleaving.{Writes}
use sui_ctf_infrastructure.Instances.StepTests.{busy_host}
use sui_ctf_infrastructure.Instances.BesideTests.{
  spawning_host, spawning_host-OthersWrite, spawning_host-OthersSpare,
}
use sui_ctf_infrastructure.NcServer.Effects.{handle-Writes}
use sui_ctf_infrastructure.NcServer.Clock.{ReadsBack, fmt_secs-ReadsBack}
use sui_ctf_infrastructure.NcServer.Format.{fmt_secs}
use sui_ctf_infrastructure.NcServer.Release.{IsSameCount, handle-releases}
use sui_ctf_infrastructure.Base.{
  length, replicate, pos, ◌+ℤ◌, ℕ, suc, ◌+◌, ◌≡◌, refl, ◌∙◌, false, none, some, List, [], ◌∷◌,
  arith,
}
use sui_ctf_infrastructure.Text.{Text, codes, text_discrete, strip}
use sui_ctf_infrastructure.Counters.{lookup, put, enter}
use sui_ctf_infrastructure.Config.{env_text, env_int, config_of}
use sui_ctf_infrastructure.Pow.{
  bytes_from, bit_length, leading_zero_bits, new_challenge, hash, verify,
}
use sui_ctf_infrastructure.Registry.{expired, Registry, with_status, set_status, fetch}
use sui_ctf_infrastructure.Registry.Keys.{fetch-update}
use sui_ctf_infrastructure.Instances.Frames.{IsKept}
use sui_ctf_infrastructure.Registry.Tests.{small_table}
use sui_ctf_infrastructure.Docker.Tests.{small_host}
use sui_ctf_infrastructure.Instances.BootTests.{
  small_config, small_docker, small_challenge, at_start,
}
use sui_ctf_infrastructure.Instances.FlagTests.{eventful}
use sui_ctf_infrastructure.NcServer.Connections.{Caps, NcState, no_connections, accept}
use sui_ctf_infrastructure.NcServer.Session.{Input, line, Session}
use sui_ctf_infrastructure.NcServer.Menu.{do_spawn, rounds, handle}
use sui_ctf_infrastructure.NcServer.Bounds.{Open, Step, listening, step, IsCapped, Steps-IsCapped}
use sui_ctf_infrastructure.NcServer.Gate.{do_spawn-gated}
use sui_ctf_infrastructure.NcServer.Rounds.{rounds-enough}

-- A digest with no leading zero.
abbrev high_hash : List ℕ → List ℕ
high_hash bs = replicate 32 255

-- A client that answers the puzzle with 12.
abbrev guessing : Session ℕ
guessing = record {
  inputs = line (codes "12\n") ∷ [];
  outputs = [];
  room = none;
  manager = at_start;
}

rejected :
    verify high_hash
      (new_challenge (codes "ab") small_config.pow_difficulty_bits)
      (strip (codes "12\n"))
    ≡ false
unfolding verify new_challenge strip hash leading_zero_bits config_of env_int env_text bytes_from
    bit_length
rejected = refl

wrong :
    (t : Text) (later : List Input)
    → ◌≡◌ {A = List Input} (line (codes "12\n") ∷ []) (line t ∷ later)
    → verify high_hash (new_challenge (codes "ab") small_config.pow_difficulty_bits) (strip t)
      ≡ false
wrong t later e = ground (arith, e, rejected)

-- The table has no row of the uuid that a spawn would draw.
abbrev IsAbsent : Registry → Type 0
IsAbsent reg = fetch (codes "u9") reg ≡ none

IsAbsent-IsKept : IsKept busy_host IsAbsent
unfolding set_status text_discrete
IsAbsent-IsKept reg w h =
    fetch-update (codes "u9") (codes "u1") (with_status expired none) reg (λ q. refl) ∙ h

do_spawn-gated_example :
    IsAbsent
      (do_spawn busy_host eventful high_hash small_config small_docker small_challenge
        (codes "10.0.0.9")
        guessing).1.manager.reg
unfolding config_of env_int env_text fetch text_discrete
do_spawn-gated_example =
    do_spawn-gated busy_host eventful high_hash small_config small_docker small_challenge IsAbsent
      IsAbsent-IsKept (codes "10.0.0.9") guessing refl wrong refl

rounds-enough_example :
    rounds small_host eventful high_hash small_config small_docker small_challenge
      (4 + suc (length guessing.inputs))
      (codes "10.0.0.9")
      guessing
    ≡ rounds small_host eventful high_hash small_config small_docker small_challenge
        (suc (length guessing.inputs))
        (codes "10.0.0.9")
        guessing
rounds-enough_example =
    rounds-enough small_host eventful high_hash small_config small_docker small_challenge 4
      (codes "10.0.0.9") guessing

abbrev small_caps : Caps
small_caps = record { max_conn = pos 2; max_conn_per_ip = pos 1 }

abbrev one_open : Open
one_open = record {
  nc = record { active = pos 1; per_ip = (codes "a", pos 1) ∷ [] };
  peers = codes "a" ∷ [];
}

first_connects : accept small_caps (codes "a") no_connections ≡ some one_open.nc
unfolding accept enter lookup put ◌+ℤ◌
first_connects = refl

second_rejected : accept small_caps (codes "a") one_open.nc ≡ none
unfolding accept lookup text_discrete
second_rejected = refl

Steps-IsCapped_example : IsCapped small_caps one_open
Steps-IsCapped_example = Steps-IsCapped small_caps one_open (
    step (step listening (Step.connect (codes "a") one_open.nc first_connects refl))
      (Step.reject (codes "a") second_rejected refl))

-- The guessing client connects, fails at the puzzle, and goes.
handle-releases_example :
    IsSameCount
      (handle small_host eventful high_hash small_config small_docker small_challenge small_caps
        (some (codes "a"))
        (λ m. m)
        (no_connections, guessing)).0
      no_connections
unfolding lookup
handle-releases_example =
    handle-releases small_host eventful high_hash small_config small_docker small_challenge
      small_caps (some (codes "a")) no_connections guessing [] (λ k. refl)

-- Twelve minutes and thirty-four seconds.
fmt_secs-ReadsBack_example : ReadsBack (pos 754) (fmt_secs (pos 754))
fmt_secs-ReadsBack_example = fmt_secs-ReadsBack (pos 754)

-- A digest of zeros, which any nonce solves.
abbrev low_hash : List ℕ → List ℕ
low_hash bs = replicate 32 0

-- A client that spawns an instance, destroys it and goes, while another task spawns in vain.
abbrev playing : Session ℕ
playing = record {
  inputs =
      line (codes "1\n")
      ∷ line (codes "12\n")
      ∷ line (codes "2\n")
      ∷ line (codes "u9\n")
      ∷ line (codes "4\n")
      ∷ [];
  outputs = [];
  room = none;
  manager = at_start;
}

abbrev after_play : NcState × Session ℕ
after_play =
    handle spawning_host eventful low_hash small_config small_docker small_challenge small_caps
      (some (codes "a")) (λ m. m) (no_connections, playing)

handle-Writes_example :
    Writes ℕ small_config small_docker small_challenge small_table after_play.1.manager.reg
    × (IsWithin small_config small_table → IsWithin small_config after_play.1.manager.reg)
handle-Writes_example =
    handle-Writes spawning_host small_config small_docker small_challenge spawning_host-OthersWrite
      eventful low_hash spawning_host-OthersSpare small_caps (some (codes "a")) (λ m. m)
      no_connections playing
