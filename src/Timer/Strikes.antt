-- ===== src/Timer/Strikes.antt =====
-- The specification of timer_lkm.c: a clock that strikes at equal intervals.
use advanced_practical_embed.Base.{
  ℕ, zero, suc, ◌+◌, ◌-◌, ◌*◌, ◌/◌, ◌≤◌, ◌≡◌, arith, leb, ◌==◌, if◌then◌else◌,
}

-- The specification: how many ticks are left until the next strike, and how often the clock struck.
pub record Clock : Type 0 where
  pub left : ℕ
  pub fired : ℕ

-- A period of 0 is one tick.
abbrev pub interval : ℕ → ℕ
interval d = if d == 0 then 1 else d

unfoldable pub clock_tick : ℕ → Clock → Clock
clock_tick every c =
    if leb c.left 1
    then record { left = every; fired = suc c.fired }
    else record c { left = c.left - 1 }

unfoldable pub clock_ticks : ℕ → ℕ → Clock
unfolding clock_tick
clock_ticks every zero = record { left = every; fired = 0 }
clock_ticks every (suc n) = clock_tick every (clock_ticks every n)

record IsWound (every n : ℕ) (c : Clock) : Type 0 where
  some_left : 1 ≤ c.left
  at_most : c.left ≤ every
  elapsed : c.fired * every + (every - c.left) ≡ n

clock_tick-IsWound :
    (every n : ℕ) (c : Clock) → IsWound every n c → IsWound every (suc n) (clock_tick every c)
unfolding clock_tick
clock_tick-IsWound every n c w =
    let strike : suc c.fired * every ≡ c.fired * every + every = grind arith in ground arith

clock_ticks-IsWound : (every n : ℕ) → 1 ≤ every → IsWound every n (clock_ticks every n)
unfolding clock_ticks
clock_ticks-IsWound every zero h = record {
  some_left = h;
  at_most = omega arith;
  elapsed = omega arith;
}
clock_ticks-IsWound every (suc n) h =
    clock_tick-IsWound every n (clock_ticks every n) (clock_ticks-IsWound every n h)

pub clock_ticks-div : (every n : ℕ) → 1 ≤ every → (clock_ticks every n).fired ≡ n / every
clock_ticks-div every n h = let w = clock_ticks-IsWound every n h in grind arith
