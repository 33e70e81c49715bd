-- ===== src/Timer/Paced.antt =====
-- What holds of timer_lkm.c at any time, whatever the kernel does, and that every step keeps it.
use advanced_practical_embed.Base.{
  ℕ, suc, ◌+◌, ◌-◌, ◌*◌, ◌≤◌, ◌<◌, ◌≡◌, ◌⊎◌, inl, inr, refl, sym, ap, ◌∙◌, arith, List, [], ◌∷◌,
  none, some, true, false, dec_lt, some-eq, Bool, if◌then◌else◌,
}
use advanced_practical_embed.Timer.Kernel.{u32, half, Timers}
use advanced_practical_embed.Timer.{
  Phase, called, my_name_is, initialisation, initialised, exiting, absent, freed, idle, rearming,
  State, delay, timer_start, callback_prints, timer_end, run_timer, finish_callback, tick, Step,
  load, expire, finish, unload, release, calls, up_to, in_module,
}
use advanced_practical_embed.Timer.Log.{calls-append, calls_silent, count_lem}

-- What holds `n` ticks after `jiffies` was `j`: the calls so far, and the earliest next one.
pub record Paced (K : Timers) (d j n : ℕ) (s : State K.Base) : Type 0 where
  pub made : ℕ
  pub printed : calls s.log ≡ up_to made
  pub counter : s.timer_count ≡ u32 made
  pub spaced : made * d ≤ n
  pub clock : s.jiffies ≡ u32 (j + n)
  pub armed :
      (K.pending s.base ≡ none)
      ⊎ ((at : ℕ) × (K.pending s.base ≡ some (u32 (j + at))) × (made * d + d ≤ at) × (at ≤ n + d))
  pub quiet : s.phase ≡ absent → (K.pending s.base ≡ none) × (s.callback ≡ idle)

suc_call : (k d : ℕ) → suc k * d ≡ k * d + d
suc_call k d = grind arith

module _ (K : Timers) (hz : ℕ) (my_name : List ℕ) (time_period j : ℕ) where
  abbrev pub d : ℕ
  d = delay hz time_period

  abbrev pub Good : ℕ → State K.Base → Type 0
  Good n s = Paced K d j n s

  -- Setting the timer now is setting it for `d` ticks from now.
  set_now : (jiffies n : ℕ) → jiffies ≡ u32 (j + n) → u32 (jiffies + d) ≡ u32 (j + (n + d))
  set_now jiffies n e = omega arith

  start-Paced :
      {n : ℕ} {s : State K.Base}
      → s.phase ≡ absent
      → Good n s
      → Good n (timer_start K hz my_name time_period s)
  unfolding timer_start
  start-Paced {n} {s} a p = record {
    made = p.made;
    printed = calls_silent s.log (initialisation ∷ initialised ∷ []) refl p.printed;
    counter = p.counter;
    spaced = p.spaced;
    clock = p.clock;
    armed = inr (
      n + d,
      rw (← set_now s.jiffies n p.clock)
          (K.pending-add_timer _ _ (K.pending-init_timer s.base (p.quiet a).0)),
      omega (arith, p.spaced),
      omega arith,
    );
    quiet = λ e. cc;
  }

  -- A timer that is found to be due has expired: it was set at most `d` ticks ahead.
  due_lem :
      (n at : ℕ) → at ≤ n + d → d < half → K.is_due (u32 (j + n)) (u32 (j + at)) ≡ true → at ≤ n
  due_lem n at near small due = elim (dec_lt n at) [
    | no late ↦ omega arith
    | yes early ↦
        let e : j + at ≡ j + n + (at - n) = omega arith in
        let not_due = K.is_due_early (j + n) (at - n) (omega arith) (omega arith) in cc (ap u32 e)
  ]

  call_time :
      {n : ℕ} {s : State K.Base} (expires : ℕ)
      → d < half
      → K.pending s.base ≡ some expires
      → K.is_due s.jiffies expires ≡ true
      → (p : Good n s) → p.made * d + d ≤ n
  call_time {n} {s} expires small e due p = elim p.armed [
    | inl none_pending ↦ absurd (cc)
    | inr (at, armed_at, late, near) ↦
        let same = some-eq (sym e ∙ armed_at) in
        let due_at : K.is_due (u32 (j + n)) (u32 (j + at)) ≡ true =
          ap (λ x. K.is_due x (u32 (j + at))) (sym p.clock)
          ∙ ap (K.is_due s.jiffies) (sym same)
          ∙ due in
        omega (arith, due_lem n at near small due_at)
  ]

  crash-Paced : {n : ℕ} {s : State K.Base} → Good n s → Good n (record s { crashed = true })
  crash-Paced p = record {
    made = p.made;
    printed = p.printed;
    counter = p.counter;
    spaced = p.spaced;
    clock = p.clock;
    armed = p.armed;
    quiet = p.quiet;
  }

  detach-Paced :
      {n : ℕ} {s : State K.Base} → Good n s → Good n (record s { base = K.detach s.base })
  detach-Paced {s = s} p = record {
    made = p.made;
    printed = p.printed;
    counter = p.counter;
    spaced = p.spaced;
    clock = p.clock;
    armed = inl (K.pending-detach s.base);
    quiet = λ a. (K.pending-detach s.base, (p.quiet a).1);
  }

  prints-Paced :
      {n : ℕ} {s : State K.Base}
      → (s.phase ≡ absent → ⊥)
      → K.pending s.base ≡ none
      → (p : Good n s) → p.made * d + d ≤ n
      → Good n (callback_prints K hz my_name time_period s)
  unfolding callback_prints
  prints-Paced {n} {s} there off p late =
      let again = count_lem s.timer_count p.made p.counter in
      record {
        made = suc p.made;
        printed =
            calls-append s.log (my_name_is my_name ∷ called (u32 (s.timer_count + 1)) ∷ [])
            ∙ rw (p.printed, again);
        counter = again;
        spaced = rw suc_call late;
        clock = p.clock;
        armed = inl off;
        quiet = λ a. absurd (there a);
      }

  in_module-Paced :
      {n : ℕ} (phase : Phase) (s next : State K.Base)
      → Good n s
      → Good n next
      → Good n (in_module K hz my_name time_period phase s next)
  in_module-Paced freed s next p q = crash-Paced p
  in_module-Paced _ s next p q = q

  if-Paced :
      {n : ℕ} (b : Bool) {s t : State K.Base} → Good n s → Good n t → Good n (if b then s else t)
  if-Paced true p q = p
  if-Paced false p q = q

  call-Paced :
      {n : ℕ} {s : State K.Base} (expires : ℕ)
      → d < half
      → K.pending s.base ≡ some expires
      → K.is_due s.jiffies expires ≡ true
      → Good n s
      → Good n (run_timer K hz my_name time_period s)
  unfolding run_timer detach-Paced
  call-Paced {n} {s} expires small e due p =
      let taken = record s { base = K.detach s.base } in
      let there : s.phase ≡ absent → ⊥ = λ a. absurd (cc ((p.quiet a).0)) in
      if-Paced s.my_timer_t.has_function
        (in_module-Paced s.phase taken _ (detach-Paced p) (
          prints-Paced there (K.pending-detach s.base) (detach-Paced p)
            (call_time expires small e due p)))
        (crash-Paced (detach-Paced p))

  finish-Paced :
      {n : ℕ} {s : State K.Base}
      → s.callback ≡ rearming
      → Good n s
      → Good n (finish_callback K hz my_name time_period s)
  unfolding finish_callback
  finish-Paced {n} {s} r p = in_module-Paced s.phase s _ p (record {
    made = p.made;
    printed = p.printed;
    counter = p.counter;
    spaced = p.spaced;
    clock = p.clock;
    armed = inr (
      n + d,
      rw (← set_now s.jiffies n p.clock) (K.pending-mod_timer _ _),
      omega (arith, p.spaced),
      omega arith,
    );
    quiet = λ a. absurd (cc ((p.quiet a).1));
  })

  end-Paced : {n : ℕ} {s : State K.Base} → Good n s → Good n (timer_end K hz my_name time_period s)
  unfolding timer_end
  end-Paced {s = s} p = record {
    made = p.made;
    printed = calls_silent s.log (exiting ∷ []) refl p.printed;
    counter = p.counter;
    spaced = p.spaced;
    clock = p.clock;
    armed = inl (K.pending-del_timer s.base);
    quiet = λ e. cc;
  }

  pub pass-Paced :
      {n : ℕ} {s : State K.Base} → Good n s → Good (suc n) (tick K hz my_name time_period s)
  pass-Paced {n} {s} p = record {
    made = p.made;
    printed = p.printed;
    counter = p.counter;
    spaced = omega (arith, p.spaced);
    clock = omega (arith, p.clock);
    armed = later p.armed;
    quiet = p.quiet;
  }
    where
      later :
          (K.pending s.base ≡ none)
            ⊎ ((at : ℕ) × (K.pending s.base ≡ some (u32 (j + at)))
                × (p.made * d + d ≤ at)
                × (at ≤ n + d))
          → (K.pending s.base ≡ none)
            ⊎ ((at : ℕ) × (K.pending s.base ≡ some (u32 (j + at)))
                × (p.made * d + d ≤ at)
                × (at ≤ suc n + d))
      later (inl off) = inl off
      later (inr (at, on, late, near)) = inr (at, on, late, omega arith)

  pub step-Paced :
      {n : ℕ} {s t : State K.Base}
      → d < half
      → Step K hz my_name time_period s t
      → Good n s
      → Good n t
  step-Paced small (load s a) p = start-Paced a p
  step-Paced small (expire s expires i e due) p = call-Paced expires small e due p
  step-Paced small (finish s r) p = finish-Paced r p
  step-Paced small (unload s l) p = end-Paced p
  step-Paced small (release s x) p = record {
    made = p.made;
    printed = p.printed;
    counter = p.counter;
    spaced = p.spaced;
    clock = p.clock;
    armed = p.armed;
    quiet = λ e. cc;
  }
