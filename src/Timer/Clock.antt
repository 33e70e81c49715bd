-- ===== src/Timer/Clock.antt =====
-- timer_lkm.c under a kernel that runs a due timer at each tick.
use advanced_practical_embed.Base.{
  ℕ, zero, suc, ◌+◌, ◌-◌, ◌/◌, ◌≤◌, ◌<◌, ◌≡◌, refl, ap, ◌∙◌, arith, List, [], ◌∷◌, some, true,
  false, dec_le,
}
use advanced_practical_embed.Timer.Kernel.{u32, half, Timers}
use advanced_practical_embed.Timer.{
  called, my_name_is, initialisation, initialised, loaded, idle, State, delay, timer_start,
  callback_prints, callback_rearms, run_timer, finish_callback, tick, prompt_tick, prompt_ticks,
  calls, up_to, custom_timer_init,
}
use advanced_practical_embed.Timer.Log.{IsFresh, calls-append, calls_silent, count_lem}
use advanced_practical_embed.Timer.Strikes.{
  Clock, interval, clock_tick, clock_ticks, clock_ticks-div,
}

-- The module at time `now` behaves as the clock: the next call is `ahead` ticks away.
record Shows (K : Timers) (d now : ℕ) (s : State K.Base) (c : Clock) : Type 0 where
  ahead : ℕ
  clock : s.jiffies ≡ u32 now
  armed : K.pending s.base ≡ some (u32 (now + ahead))
  distance : c.left ≡ interval ahead
  near : ahead ≤ d
  printed : calls s.log ≡ up_to c.fired
  counter : s.timer_count ≡ u32 c.fired
  in_memory : s.phase ≡ loaded
  between : s.callback ≡ idle
  set_up : s.my_timer_t.has_function ≡ true
  sound : s.crashed ≡ false

module _ (K : Timers) (hz : ℕ) (my_name : List ℕ) (time_period : ℕ) where
  abbrev d : ℕ
  d = delay hz time_period

  abbrev now_tick : State K.Base → State K.Base
  now_tick s = tick K hz my_name time_period s

  abbrev called_back : State K.Base → State K.Base
  called_back s =
      callback_rearms K hz my_name time_period
        (callback_prints K hz my_name time_period (record (now_tick s) { base = K.detach s.base }))

  prompt_tick_due :
      (s : State K.Base) (expires : ℕ)
      → s.phase ≡ loaded
      → s.my_timer_t.has_function ≡ true
      → K.pending s.base ≡ some expires
      → K.is_due (u32 (s.jiffies + 1)) expires ≡ true
      → prompt_tick K hz my_name time_period s ≡ called_back s
  unfolding prompt_tick run_timer finish_callback callback_prints callback_rearms
  prompt_tick_due s expires l f e due = ground arith

  prompt_tick_early :
      (s : State K.Base) (expires : ℕ)
      → K.pending s.base ≡ some expires
      → K.is_due (u32 (s.jiffies + 1)) expires ≡ false
      → prompt_tick K hz my_name time_period s ≡ now_tick s
  unfolding prompt_tick
  prompt_tick_early s expires e early = ground arith

  strike_lem :
      (c : Clock) (ahead : ℕ)
      → c.left ≡ interval ahead
      → ahead ≤ 1
      → clock_tick (interval d) c ≡ record { left = interval d; fired = suc c.fired }
  unfolding clock_tick
  strike_lem c ahead e near = ground arith

  wait_lem :
      (c : Clock) (ahead : ℕ)
      → c.left ≡ interval ahead
      → 2 ≤ ahead
      → clock_tick (interval d) c ≡ record { left = interval (ahead - 1); fired = c.fired }
  unfolding clock_tick
  wait_lem c ahead e far = ground arith

  due_soon : (now ahead : ℕ) → ahead ≤ 1 → K.is_due (u32 (now + 1)) (u32 (now + ahead)) ≡ true
  due_soon now ahead near =
      let e : now + 1 ≡ now + ahead + (1 - ahead) = omega arith in
      rw e (K.is_due_late (now + ahead) (1 - ahead) (omega arith))

  called_back-Shows :
      {now : ℕ} {s : State K.Base} {c : Clock}
      → Shows K d now s c
      → Shows K d (now + 1) (called_back s) (record { left = interval d; fired = suc c.fired })
  unfolding callback_rearms callback_prints
  called_back-Shows {now} {s} {c} p =
      let again = count_lem s.timer_count c.fired p.counter in
      let jiffies : u32 (s.jiffies + 1) ≡ u32 (now + 1) = omega (arith, p.clock) in
      let set : u32 (u32 (s.jiffies + 1) + d) ≡ u32 (now + 1 + d) = omega (arith, p.clock) in
      record {
        ahead = d;
        clock = jiffies;
        armed = rw (K.pending-mod_timer, set) refl;
        distance = refl;
        near = omega arith;
        printed =
            calls-append s.log (my_name_is my_name ∷ called (u32 (s.timer_count + 1)) ∷ [])
            ∙ rw (p.printed, again);
        counter = again;
        in_memory = p.in_memory;
        between = refl;
        set_up = p.set_up;
        sound = p.sound;
      }

  late_Shows :
      {now : ℕ} {s : State K.Base} {c : Clock}
      → (p : Shows K d now s c) → p.ahead ≤ 1
      → Shows K d (now + 1) (prompt_tick K hz my_name time_period s) (clock_tick (interval d) c)
  late_Shows {now} {s} {c} p soon =
      let jiffies : u32 (s.jiffies + 1) ≡ u32 (now + 1) = omega (arith, p.clock) in
      let due : K.is_due (u32 (s.jiffies + 1)) (u32 (now + p.ahead)) ≡ true =
        rw jiffies (due_soon now p.ahead soon) in
      rw
        (prompt_tick_due s _ p.in_memory p.set_up p.armed due, strike_lem c p.ahead p.distance soon)
        (called_back-Shows p)

  early_Shows :
      {now : ℕ} {s : State K.Base} {c : Clock}
      → d < half
      → (p : Shows K d now s c) → 2 ≤ p.ahead
      → Shows K d (now + 1) (prompt_tick K hz my_name time_period s) (clock_tick (interval d) c)
  early_Shows {now} {s} {c} small p far =
      let e : now + p.ahead ≡ now + 1 + (p.ahead - 1) = omega arith in
      let jiffies : u32 (s.jiffies + 1) ≡ u32 (now + 1) = omega (arith, p.clock) in
      let early : K.is_due (u32 (s.jiffies + 1)) (u32 (now + p.ahead)) ≡ false =
        rw (jiffies, e)
          (K.is_due_early (now + 1) (p.ahead - 1) (omega arith) (omega (arith, p.near))) in
      rw (prompt_tick_early s _ p.armed early, wait_lem c p.ahead p.distance far)
        (record {
          ahead = p.ahead - 1;
          clock = jiffies;
          armed = p.armed ∙ ap (λ x. some (u32 x)) e;
          distance = refl;
          near = omega (arith, p.near);
          printed = p.printed;
          counter = p.counter;
          in_memory = p.in_memory;
          between = p.between;
          set_up = p.set_up;
          sound = p.sound;
        })

  tick_Shows :
      {now : ℕ} {s : State K.Base} {c : Clock}
      → d < half
      → (p : Shows K d now s c)
      → Shows K d (now + 1) (prompt_tick K hz my_name time_period s) (clock_tick (interval d) c)
  tick_Shows small p = elim (dec_le p.ahead 1) [
    | yes soon ↦ late_Shows p soon
    | no far ↦ early_Shows small p (omega arith)
  ]

  start_Shows :
      {s : State K.Base}
      → IsFresh K s
      → Shows K d s.jiffies
          (timer_start K hz my_name time_period s)
          (record { left = interval d; fired = 0 })
  unfolding timer_start custom_timer_init
  start_Shows {s} f = record {
    ahead = d;
    clock = omega (arith, f.in_range);
    armed = K.pending-add_timer _ _ (K.pending-init_timer s.base f.not_pending);
    distance = refl;
    near = omega arith;
    printed = calls_silent s.log (initialisation ∷ initialised ∷ []) refl f.not_called;
    counter = f.zero_count;
    in_memory = refl;
    between = f.not_running;
    set_up = refl;
    sound = f.not_crashed;
  }

  abbrev after : ℕ → State K.Base → State K.Base
  after n s = prompt_ticks K hz my_name time_period n (timer_start K hz my_name time_period s)

  ticks_Shows :
      {s : State K.Base} (n : ℕ)
      → d < half
      → IsFresh K s
      → Shows K d (s.jiffies + n) (after n s) (clock_ticks (interval d) n)
  unfolding prompt_ticks clock_ticks
  ticks_Shows {s} zero small f =
      let e : s.jiffies + 0 ≡ s.jiffies = omega arith in rw e (start_Shows f)
  ticks_Shows {s} (suc n) small f =
      let e : s.jiffies + suc n ≡ s.jiffies + n + 1 = omega arith in
      rw e (tick_Shows small (ticks_Shows n small f))

  -- Under a kernel that runs a due timer at once, the loaded module refines the clock that strikes
  -- every `interval` ticks: after any number of ticks, also past a wrap of `jiffies`, the callback has
  -- printed the numbers from 1 to the clock's count of strikes, and that count is the number of ticks
  -- divided by the interval, where a period of 0 makes an interval of one tick; the period is below half
  -- the range of `jiffies`.
  pub prompt_ticks-clock :
      {s : State K.Base} (n : ℕ)
      → delay hz time_period < half
      → IsFresh K s
      → (calls
            (prompt_ticks K hz my_name time_period n (timer_start K hz my_name time_period s)).log
          ≡ up_to (clock_ticks (interval (delay hz time_period)) n).fired)
        × ((clock_ticks (interval (delay hz time_period)) n).fired
            ≡ n / interval (delay hz time_period))
  prompt_ticks-clock n small f =
      let p = ticks_Shows n small f in (p.printed, clock_ticks-div (interval d) n (ground arith))
