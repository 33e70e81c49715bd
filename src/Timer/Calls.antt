-- ===== src/Timer/Calls.antt =====
-- How often timer_lkm.c can be called back, whatever the kernel does and whenever it does it.
use advanced_practical_embed.Base.{ℕ, ◌*◌, ◌≤◌, ◌<◌, ◌≡◌, inl, arith, List}
use advanced_practical_embed.Timer.Kernel.{half, Timers}
use advanced_practical_embed.Timer.{State, delay, Run, here, step, pass, calls, up_to}
use advanced_practical_embed.Timer.Log.{IsFresh}
use advanced_practical_embed.Timer.Paced.{Paced, step-Paced, pass-Paced}

module _ (K : Timers) (hz : ℕ) (my_name : List ℕ) (time_period j : ℕ) where
  run-Paced :
      {s : State K.Base} {n : ℕ} {t : State K.Base}
      → delay hz time_period < half
      → Paced K (delay hz time_period) j 0 s
      → Run K hz my_name time_period s n t
      → Paced K (delay hz time_period) j n t
  run-Paced small p here = p
  run-Paced small p (step r st) =
      step-Paced K hz my_name time_period j small st (run-Paced small p r)
  run-Paced small p (pass r) = pass-Paced K hz my_name time_period j (run-Paced small p r)

module _ (K : Timers) (hz : ℕ) (my_name : List ℕ) (time_period : ℕ) where
  fresh-Paced : {s : State K.Base} → IsFresh K s → Paced K (delay hz time_period) s.jiffies 0 s
  fresh-Paced {s} f = record {
    made = 0;
    printed = f.not_called;
    counter = f.zero_count;
    spaced = omega arith;
    clock = omega (arith, f.in_range);
    armed = inl f.not_pending;
    quiet = λ a. (f.not_pending, f.not_running);
  }

  -- Whatever the kernel and the user do in `n` ticks from before the module is loaded, with a period of
  -- less than half the range of `jiffies`: the callback has printed the numbers from 1 to some `made`,
  -- in order, as 32 bits show them, and `made` periods have passed, also where `jiffies` has wrapped.
  pub calls_spaced :
      {s : State K.Base} {n : ℕ} {t : State K.Base}
      → IsFresh K s
      → delay hz time_period < half
      → Run K hz my_name time_period s n t
      → (made : ℕ) × (calls t.log ≡ up_to made) × (made * delay hz time_period ≤ n)
  calls_spaced {s} f small r =
      let p = run-Paced K hz my_name time_period s.jiffies small (fresh-Paced f) r in
      (p.made, p.printed, p.spaced)
