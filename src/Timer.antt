-- ===== src/Timer.antt =====
-- HW3_APES/PROBLEM3/timer_kernel_module/timer_lkm.c: a kernel module whose timer calls it back again
-- and again. The kernel's timers are those of Timer.Kernel; `HZ`, the module parameters and what the
-- kernel does in between are given from outside. `jiffies` and `int` are 32-bit words, and a signed
-- overflow wraps, as the module's compiler flags have it.
pub mod Kernel
pub mod Log
pub mod Paced
pub mod Calls
pub mod Strikes
pub mod Clock
pub mod Exit
pub mod Tests
use advanced_practical_embed.Base.{
  ℕ, zero, suc, ◌+◌, ◌*◌, ◌≡◌, Bool, true, false, List, [], ◌∷◌, ◌++◌, Option, none, some,
  if◌then◌else◌,
}
use advanced_practical_embed.Timer.Kernel.{u32, Timers}

-- what `printk` is given
pub data Message : Type 0 where
  initialisation initialised exiting : Message
  my_name_is : List ℕ → Message
  called : ℕ → Message

-- `struct timer_list`, as far as the module sets it; `function` is NULL or the callback.
pub record TimerList : Type 0 where
  pub has_function : Bool
  pub argument : ℕ
  pub expires : ℕ

-- the initial values of the module parameters; `static int time_period = 0.5;` stores 0
abbrev pub initial_name : List ℕ
initial_name = b'V' ∷ b'i' ∷ b'k' ∷ b'r' ∷ b'a' ∷ b'n' ∷ b't' ∷ []

abbrev pub initial_time_period : ℕ
initial_time_period = 0

-- Not loaded, loaded, the exit function has returned, the module's memory is given back.
pub data Phase : Type 0 where
  absent loaded exited freed : Phase

-- The callback is not running, or is about to set the timer again.
pub data Callback : Type 0 where
  idle rearming : Callback

pub record State (B : Type 0) : Type 0 where
  pub jiffies : ℕ
  pub base : B
  pub my_timer_t : TimerList
  pub timer_count : ℕ
  pub log : List Message
  pub phase : Phase
  pub callback : Callback
  pub crashed : Bool

-- `HZ * time_period` as it is added to `jiffies`
abbrev pub delay : ℕ → ℕ → ℕ
delay hz time_period = u32 (hz * time_period)

unfoldable pub custom_timer_init : ℕ → ℕ → ℕ → TimerList → TimerList
custom_timer_init hz time_period jiffies timer = record {
  has_function = true;
  argument = 0;
  expires = u32 (jiffies + delay hz time_period);
}

-- `my_name` and `time_period` are the module parameters, the latter as a 32-bit pattern.
module _ (K : Timers) (hz : ℕ) (my_name : List ℕ) (time_period : ℕ) where
  unfoldable pub timer_start : State K.Base → State K.Base
  unfolding custom_timer_init
  timer_start s =
      let timer = custom_timer_init hz time_period s.jiffies s.my_timer_t in
      record s {
        log = s.log ++ initialisation ∷ initialised ∷ [];
        my_timer_t = timer;
        base = K.add_timer timer.expires (K.init_timer s.base);
        phase = loaded;
      }

  -- `timer_callback`, up to its call of `mod_timer`
  unfoldable pub callback_prints : State K.Base → State K.Base
  callback_prints s =
      let count = u32 (s.timer_count + 1) in
      record s {
        timer_count = count;
        log = s.log ++ my_name_is my_name ∷ called count ∷ [];
        callback = rearming;
      }

  -- `mod_timer(&my_timer_t, jiffies + ((HZ*(time_period))))`
  unfoldable pub callback_rearms : State K.Base → State K.Base
  callback_rearms s =
      let expires = u32 (s.jiffies + delay hz time_period) in
      record s {
        my_timer_t = record (s.my_timer_t) { expires = expires };
        base = K.mod_timer expires s.base;
        callback = idle;
      }

  unfoldable pub timer_end : State K.Base → State K.Base
  timer_end s = record s { log = s.log ++ exiting ∷ []; base = K.del_timer s.base; phase = exited }

  -- The code of the module runs: where its memory is given back, the machine crashes.
  abbrev pub in_module : Phase → State K.Base → State K.Base → State K.Base
  in_module freed s next = record s { crashed = true }
  in_module _ s next = next

  -- The kernel takes the due timer off its base and calls the timer's function.
  unfoldable pub run_timer : State K.Base → State K.Base
  unfolding callback_prints
  run_timer s =
      let taken = record s { base = K.detach s.base } in
      if s.my_timer_t.has_function
      then in_module s.phase taken (callback_prints taken)
      else record taken { crashed = true }

  unfoldable pub finish_callback : State K.Base → State K.Base
  unfolding callback_rearms
  finish_callback s = in_module s.phase s (callback_rearms s)

  abbrev pub tick : State K.Base → State K.Base
  tick s = record s { jiffies = u32 (s.jiffies + 1) }

  -- What can happen next, apart from the passing of time. The entry function runs once, the exit
  -- function on any processor and at any time, also while the callback runs on another one.
  pub data Step : State K.Base → State K.Base → Type 0 where
    load : (s : State K.Base) → s.phase ≡ absent → Step s (timer_start s)
    expire :
        (s : State K.Base) (expires : ℕ)
        → s.callback ≡ idle
        → K.pending s.base ≡ some expires
        → K.is_due s.jiffies expires ≡ true
        → Step s (run_timer s)
    finish : (s : State K.Base) → s.callback ≡ rearming → Step s (finish_callback s)
    unload : (s : State K.Base) → s.phase ≡ loaded → Step s (timer_end s)
    release : (s : State K.Base) → s.phase ≡ exited → Step s (record s { phase = freed })

  -- What can be reached from `s` while `n` ticks pass.
  pub data Run (s : State K.Base) : ℕ → State K.Base → Type 0 where
    here : Run s 0 s
    step : {n : ℕ} {t u : State K.Base} → Run s n t → Step t u → Run s n u
    pass : {n : ℕ} {t : State K.Base} → Run s n t → Run s (suc n) (tick t)

  -- A kernel that runs the timer at once: at each tick, a due timer's function runs from start to end.
  unfoldable pub prompt_tick : State K.Base → State K.Base
  unfolding run_timer finish_callback
  prompt_tick s =
      let now = tick s in
      elim (K.pending s.base) [
        | none ↦ now
        | some expires ↦
            if K.is_due now.jiffies expires then finish_callback (run_timer now) else now
      ]

  unfoldable pub prompt_ticks : ℕ → State K.Base → State K.Base
  prompt_ticks zero s = s
  prompt_ticks (suc n) s = prompt_tick (prompt_ticks n s)

-- the numbers that the callback printed
abbrev pub calls : List Message → List ℕ
calls [] = []
calls (called n ∷ log) = n ∷ calls log
calls (_ ∷ log) = calls log

-- 1 to `k`, as `%d` prints a counter of 32 bits
abbrev pub up_to : ℕ → List ℕ
up_to zero = []
up_to (suc k) = up_to k ++ u32 (suc k) ∷ []
