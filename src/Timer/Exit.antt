-- ===== src/Timer/Exit.antt =====
-- What the exit function of timer_lkm.c leaves behind.
use advanced_practical_embed.Base.{ℕ, ◌≡◌, ◌⊎◌, ◌↔◌, inl, inr, refl, List, none, true, false}
use advanced_practical_embed.Timer.Kernel.{Timers}
use advanced_practical_embed.Timer.{
  Callback, exited, freed, idle, rearming, State, timer_end, finish_callback, Step, Run, load,
  expire, finish, unload, release, here, step, pass,
}

Callback-cases : (c : Callback) → (c ≡ idle) ⊎ (c ≡ rearming)
Callback-cases idle = inl refl
Callback-cases rearming = inr refl

-- The exit function has returned, and the timer will not run again.
record IsOver (K : Timers) (s : State K.Base) : Type 0 where
  behind : (s.phase ≡ exited) ⊎ (s.phase ≡ freed)
  not_pending : K.pending s.base ≡ none
  not_running : s.callback ≡ idle
  not_crashed : s.crashed ≡ false

module _ (K : Timers) (hz : ℕ) (my_name : List ℕ) (time_period : ℕ) where
  step-IsOver : {s t : State K.Base} → Step K hz my_name time_period s t → IsOver K s → IsOver K t
  step-IsOver (load s a) o = absurd (elim o.behind [ inl e ↦ cc | inr e ↦ cc ])
  step-IsOver (expire s expires i e due) o = absurd (let off = o.not_pending in cc)
  step-IsOver (finish s r) o = absurd (let i = o.not_running in cc)
  step-IsOver (unload s l) o = absurd (elim o.behind [ inl e ↦ cc | inr e ↦ cc ])
  step-IsOver (release s x) o = record {
    behind = inr refl;
    not_pending = o.not_pending;
    not_running = o.not_running;
    not_crashed = o.not_crashed;
  }

  run-IsOver :
      {s : State K.Base} {n : ℕ} {t : State K.Base}
      → Run K hz my_name time_period s n t
      → IsOver K s
      → IsOver K t
  run-IsOver here o = o
  run-IsOver (step r st) o = step-IsOver st (run-IsOver r o)
  run-IsOver (pass {t = t} r) o =
      let p = run-IsOver r o in
      record {
        behind = p.behind;
        not_pending = p.not_pending;
        not_running = p.not_running;
        not_crashed = p.not_crashed;
      }

  end-IsOver :
      (s : State K.Base)
      → s.callback ≡ idle
      → s.crashed ≡ false
      → IsOver K (timer_end K hz my_name time_period s)
  unfolding timer_end
  end-IsOver s i c = record {
    behind = inl refl;
    not_pending = K.pending-del_timer s.base;
    not_running = i;
    not_crashed = c;
  }

  -- The machine can crash some time after `s`.
  abbrev pub CanCrash : State K.Base → Type 0
  CanCrash s =
      (n : ℕ) × (t : State K.Base) × Run K hz my_name time_period s n t × (t.crashed ≡ true)

  race_lem :
      (s : State K.Base) → s.callback ≡ rearming → CanCrash (timer_end K hz my_name time_period s)
  unfolding timer_end finish_callback
  race_lem s r =
      let gone = record (timer_end K hz my_name time_period s) { phase = freed } in
      (
        0,
        finish_callback K hz my_name time_period gone,
        step (step here (release (timer_end K hz my_name time_period s) refl)) (finish gone r),
        refl,
      )

  safe_lem :
      (s : State K.Base)
      → s.crashed ≡ false
      → CanCrash (timer_end K hz my_name time_period s)
      → s.callback ≡ rearming
  safe_lem s c (n, t, r, bad) = elim (Callback-cases s.callback) [
    | inr running ↦ running
    | inl i ↦ absurd (let o = run-IsOver r (end-IsOver s i c) in let fine = o.not_crashed in cc)
  ]

  -- The exit function removes the timer but does not wait for its callback: the machine can crash at
  -- some time after it exactly when the callback was running while the exit function ran, if it had not
  -- crashed before.
  pub exit_crash_iff :
      (s : State K.Base)
      → s.crashed ≡ false
      → CanCrash (timer_end K hz my_name time_period s) ↔ (s.callback ≡ rearming)
  exit_crash_iff s c = (safe_lem s c, race_lem s)
