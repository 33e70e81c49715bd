-- ===== src/Timer/Tests.antt =====
-- The timer module with a base that holds its one timer.
use advanced_practical_embed.Base.{
  ℕ, ◌+◌, ◌-◌, ◌*◌, ◌/◌, ◌≤◌, ◌<◌, ◌≡◌, ◌↔◌, Bool, true, false, Option, none, some, [], ◌∷◌, refl,
  arith, ltb, lt→ltb, le→ltb,
}
use advanced_practical_embed.Timer.Kernel.{u32, half, Timers}
use advanced_practical_embed.Timer.{
  absent, idle, rearming, State, initial_name, initial_time_period, delay, timer_start, timer_end,
  run_timer, tick, Run, load, expire, here, step, pass, prompt_tick, prompt_ticks, calls, up_to,
}
use advanced_practical_embed.Timer.Calls.{calls_spaced}
use advanced_practical_embed.Timer.Log.{IsFresh}
use advanced_practical_embed.Timer.Clock.{prompt_ticks-clock}
use advanced_practical_embed.Timer.Strikes.{interval, clock_ticks}
use advanced_practical_embed.Timer.Exit.{CanCrash, exit_crash_iff}

after_eq : ℕ → ℕ → Bool
after_eq now expires = ltb (u32 (now + 4294967296 - expires)) half

after_eq_early :
    (now ahead : ℕ) → 1 ≤ ahead → ahead < half → after_eq (u32 now) (u32 (now + ahead)) ≡ false
unfolding after_eq
after_eq_early now ahead some_ahead near = le→ltb _ _ (omega arith)

after_eq_late :
    (expires late : ℕ) → late < half → after_eq (u32 (expires + late)) (u32 expires) ≡ true
unfolding after_eq
after_eq_late expires late near = lt→ltb _ _ (omega arith)

abbrev one_timer : Timers
one_timer = record {
  Base = Option ℕ;
  init_timer = λ b. b;
  add_timer = λ expires b. some expires;
  mod_timer = λ expires b. some expires;
  del_timer = λ b. none;
  detach = λ b. none;
  is_due = after_eq;
  pending = λ b. b;
  pending-init_timer = λ b off. off;
  pending-add_timer = λ expires b off. refl;
  pending-mod_timer = λ expires b. refl;
  pending-del_timer = λ b. refl;
  pending-detach = λ b. refl;
  is_due_early = after_eq_early;
  is_due_late = after_eq_late;
}

-- The machine two ticks before `jiffies` wraps.
abbrev booted : State (Option ℕ)
booted = record {
  jiffies = 4294967294;
  base = none;
  my_timer_t = record { has_function = false; argument = 0; expires = 0 };
  timer_count = 0;
  log = [];
  phase = absent;
  callback = idle;
  crashed = false;
}

booted-IsFresh : IsFresh one_timer booted
booted-IsFresh = record {
  not_loaded = refl;
  not_called = refl;
  zero_count = refl;
  not_running = refl;
  not_pending = refl;
  not_crashed = refl;
  in_range = omega arith;
}

-- With 100 ticks a second and a period of one second, and with the period that the file sets.
abbrev after : ℕ → ℕ → State (Option ℕ)
after period n =
    prompt_ticks one_timer 100 initial_name period n
      (timer_start one_timer 100 initial_name period booted)

after_seconds : calls (after 1 250).log ≡ 1 ∷ 2 ∷ []
unfolding prompt_tick prompt_ticks timer_start after_eq
after_seconds = refl

after_default : calls (after initial_time_period 3).log ≡ 1 ∷ 2 ∷ 3 ∷ []
unfolding prompt_tick prompt_ticks timer_start after_eq
after_default = refl

prompt_ticks-clock_example :
    (calls (after 1 250).log ≡ up_to (clock_ticks (interval (delay 100 1)) 250).fired)
    × ((clock_ticks (interval (delay 100 1)) 250).fired ≡ 250 / interval (delay 100 1))
prompt_ticks-clock_example =
    prompt_ticks-clock one_timer 100 initial_name 1 250 (omega arith) booted-IsFresh

-- With two ticks a second and a period of one second: the callback runs at the second tick.
abbrev started : State (Option ℕ)
started = timer_start one_timer 2 initial_name 1 booted

abbrev ticked : State (Option ℕ)
ticked = tick one_timer 2 initial_name 1 (tick one_timer 2 initial_name 1 started)

abbrev running : State (Option ℕ)
running = run_timer one_timer 2 initial_name 1 ticked

one_call : Run one_timer 2 initial_name 1 booted 2 running
unfolding timer_start after_eq
one_call = step (pass (pass (step here (load booted refl)))) (expire ticked 0 refl refl refl)

calls_spaced_example : (made : ℕ) × (calls running.log ≡ up_to made) × (made * delay 2 1 ≤ 2)
calls_spaced_example = calls_spaced one_timer 2 initial_name 1 booted-IsFresh (omega arith) one_call

exit_crash_iff_example :
    CanCrash one_timer 2 initial_name 1 (timer_end one_timer 2 initial_name 1 running)
    ↔ (running.callback ≡ rearming)
unfolding run_timer timer_start
exit_crash_iff_example = exit_crash_iff one_timer 2 initial_name 1 running refl
