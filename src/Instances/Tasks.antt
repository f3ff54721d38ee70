-- ===== src/Instances/Tasks.antt =====
-- The state that a task works on, and what its waits do to it.
use sui_ctf_infrastructure.Base.{ℤ, pos, negsuc, pos_part, sub_ℕ, ◌-ℤ◌, scale, ℕ, suc, ◌/◌}
use sui_ctf_infrastructure.Python.Errors.{Result}
use sui_ctf_infrastructure.Registry.{Registry}
use sui_ctf_infrastructure.Docker.Sdk.{Host}

pub record State (W : Type 0) : Type 0 where
  pub reg : Registry
  pub world : W

-- One second of the clock.
abbrev pub ticks_per_second : ℕ
ticks_per_second = 1_000_000

abbrev pub seconds : ℤ → ℤ
seconds n = scale ticks_per_second n

-- `max(0, int(until - now))`
unfoldable pub seconds_left : ℤ → ℤ → ℕ
unfolding ◌-ℤ◌
seconds_left until now = pos_part (until -ℤ now) / ticks_per_second

-- `int(t)` of a time: towards zero
unfoldable pub whole_seconds : ℤ → ℤ
whole_seconds (pos n) = pos (n / ticks_per_second)
whole_seconds (negsuc n) = sub_ℕ 0 (suc n / ticks_per_second)

module _ {W : Type 0} (host : Host W) where
  -- The other tasks' turn.
  unfoldable pub give_way : State W → State W
  give_way s = record s { reg = host.others s.reg s.world }

  -- `await asyncio.to_thread(op)`
  unfoldable pub to_thread : {A : Type 0} → (W → Result A × W) → State W → Result A × State W
  unfolding give_way
  to_thread op s = let (r, w) = op s.world in (r, give_way (record { reg = s.reg; world = w }))

  -- `await asyncio.sleep(n)`
  unfoldable pub sleep_for : ℕ → State W → State W
  unfolding give_way
  sleep_for n s = give_way (record s { world = host.sleep n s.world })
