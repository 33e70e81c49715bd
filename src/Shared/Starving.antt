-- ===== src/Shared/Starving.antt =====
-- An announcement of thread 2 that is lost, and thread 1 and `main` after it.
use mathlib.Core.Path.{subst}
use advanced_practical_embed.Base.{
  After, ℕ, ◌<◌, ◌≡◌, ◌↔◌, refl, sym, ◌∙◌, false, Option, none, some, List, Bool-cases, inl, inr,
  arith, ◌==◌,
}
use advanced_practical_embed.Ipc.Packets.{Packet, Entry}
use advanced_practical_embed.Ipc.Messages.{t1}
use advanced_practical_embed.Shared.{
  Place, unborn, head, copying, setting_command, setting_len, waiting, finished, copied, byte_at,
  join1, join2, Memory, thread1_step, thread2_step, main_step, Step, by_main, by_thread1,
  by_thread2, sigint,
}

module _ (beyond1 beyond2 : ℕ → Packet) where
  -- The steps that follow until a signal arrives.
  pub data Quiet (s : Memory) : Memory → Type 0 where
    stay : Quiet s s
    more : {t u : Memory} → Quiet s t → Step beyond1 beyond2 t u → u.flag ≡ false → Quiet s u

-- Thread 1 is between the head of its loop, with a record left to write, and its wait.
abbrev pub IsAsking : Place → ℕ → Type 0
IsAsking head i = i < 10
IsAsking (copying k) i = Unit
IsAsking setting_command i = Unit
IsAsking setting_len i = Unit
IsAsking waiting i = Unit
IsAsking _ i = ⊥

pub record Starved (log : List Entry) (s : Memory) : Type 0 where
  pub done : s.place2 ≡ finished
  pub low : s.send ≡ false
  pub quiet : s.flag ≡ false
  pub joining : s.main ≡ join1
  pub asking : IsAsking s.place1 s.i1
  pub same : s.log ≡ log

module _ (beyond1 beyond2 : ℕ → Packet) where
  IsAsking-copied : (k c i : ℕ) → IsAsking (copied k c) i
  IsAsking-copied k c i = elim (Bool-cases (c == 0)) [ inl e ↦ rw e tt | inr e ↦ rw e tt ]

  thread1-Starved :
      (p : Place) (log : List Entry) (s : Memory)
      → Starved log s
      → IsAsking p s.i1
      → After (Starved log) (thread1_step beyond1 beyond2 p s)
  unfolding thread1_step
  thread1-Starved head log s h below =
      let more : (s.i1 == 10) ≡ false = ground arith in
      simp (h.quiet, more, After)
        (record {
          done = h.done;
          low = h.low;
          quiet = refl;
          joining = h.joining;
          asking = tt;
          same = h.same;
        })
  thread1-Starved (copying k) log s h a = record {
    done = h.done;
    low = h.low;
    quiet = h.quiet;
    joining = h.joining;
    asking = IsAsking-copied k (byte_at (t1 beyond1 s.i1).messages k) s.i1;
    same = h.same;
  }
  thread1-Starved setting_command log s h a = record {
    done = h.done;
    low = h.low;
    quiet = h.quiet;
    joining = h.joining;
    asking = tt;
    same = h.same;
  }
  thread1-Starved setting_len log s h a = record {
    done = h.done;
    low = h.low;
    quiet = h.quiet;
    joining = h.joining;
    asking = tt;
    same = h.same;
  }
  thread1-Starved waiting log s h a = simp (h.low, h.quiet, After) tt
  thread1-Starved unborn log s h a = absurd a
  thread1-Starved _ log s h a = absurd a

  main-Starved :
      (p : Place) (s : Memory) (i : ℕ)
      → IsAsking p i
      → elim p as (λ _. Option Memory) [ finished ↦ some s | _ ↦ none ] ≡ none
  main-Starved finished s i a = absurd a
  main-Starved unborn s i a = refl
  main-Starved _ s i a = refl

  Step-Starved :
      (log : List Entry) (s : Memory) {u : Memory}
      → Starved log s
      → u.flag ≡ false
      → Step beyond1 beyond2 s u
      → Starved log u
  unfolding main_step thread2_step
  Step-Starved log s {u} h q (by_main e) =
      let moved = subst (λ m. main_step beyond1 beyond2 m s ≡ some u) h.joining e in
      let held = main-Starved s.place1 (record s { main = join2 }) s.i1 h.asking in
      let no : none ≡ some u = sym held ∙ moved in absurd (cc)
  Step-Starved log s h q (by_thread1 e) =
      subst (After (Starved log)) e (thread1-Starved s.place1 log s h h.asking)
  Step-Starved log s {u} h q (by_thread2 e) =
      let no : none ≡ some u = subst (λ p. thread2_step beyond1 beyond2 p s ≡ some u) h.done e in
      absurd (cc)
  Step-Starved log s h q sigint = cc

  Quiet-Starved :
      (log : List Entry) (s : Memory) {u : Memory}
      → Starved log s
      → Quiet beyond1 beyond2 s u
      → Starved log u
  Quiet-Starved log s h stay = h
  Quiet-Starved log s h (more {t} r step q) = Step-Starved log t (Quiet-Starved log s h r) q step

  rests :
      (p : Place) (s : Memory)
      → s.send ≡ false
      → s.flag ≡ false
      → IsAsking p s.i1
      → (thread1_step beyond1 beyond2 p s ≡ none) ↔ (p ≡ waiting)
  unfolding thread1_step
  rests head s low quiet below =
      let more : (s.i1 == 10) ≡ false = ground arith in
      let goes : thread1_step beyond1 beyond2 head s ≡ some (record s { place1 = copying 0 }) =
        simp (quiet, more) in
      (
        λ e. let no : none ≡ some (record s { place1 = copying 0 }) = sym e ∙ goes in absurd (cc),
        λ e. absurd (cc),
      )
  rests (copying k) s low quiet a = (λ e. absurd (cc), λ e. absurd (cc))
  rests setting_command s low quiet a = (λ e. absurd (cc), λ e. absurd (cc))
  rests setting_len s low quiet a = (λ e. absurd (cc), λ e. absurd (cc))
  rests waiting s low quiet a = (λ e. refl, λ e. simp (low, quiet))
  rests unborn s low quiet a = absurd a
  rests _ s low quiet a = absurd a

  -- Where thread 2 has finished, `send` is 0, no signal has arrived, and thread 1 is at its wait while
  -- `main` waits for it, nothing can move any more: neither thread nor `main`.
  pub shared_stuck :
      (s : Memory)
      → s.place2 ≡ finished
      → s.send ≡ false
      → s.flag ≡ false
      → s.place1 ≡ waiting
      → s.main ≡ join1
      → (main_step beyond1 beyond2 s.main s ≡ none)
        × (thread1_step beyond1 beyond2 s.place1 s ≡ none)
        × (thread2_step beyond1 beyond2 s.place2 s ≡ none)
  unfolding main_step thread1_step thread2_step
  shared_stuck s two_done low quiet at_wait m =
      (simp (main_step, m, at_wait), simp (at_wait, low, quiet), simp two_done)

  -- Where thread 2 has finished and `send` is 0 while thread 1 still has an answer to wait for and no
  -- signal has arrived, then until a signal arrives `main` stays at its wait for thread 1, the log stays
  -- as it is, and `send` stays 0; once thread 1 has come to its wait, nothing can move any more.
  pub shared_starves :
      (s u : Memory)
      → s.place2 ≡ finished
      → s.send ≡ false
      → s.flag ≡ false
      → s.main ≡ join1
      → IsAsking s.place1 s.i1
      → Quiet beyond1 beyond2 s u
      → (u.main ≡ join1)
        × (u.log ≡ s.log)
        × (u.send ≡ false)
        × IsAsking u.place1 u.i1
        × ((main_step beyond1 beyond2 u.main u ≡ none)
            × (thread2_step beyond1 beyond2 u.place2 u ≡ none))
        × ((thread1_step beyond1 beyond2 u.place1 u ≡ none) ↔ (u.place1 ≡ waiting))
  unfolding main_step thread2_step
  shared_starves s u two_done low quiet m asking r =
      let h =
        Quiet-Starved s.log s
          (record {
            done = two_done;
            low = low;
            quiet = quiet;
            joining = m;
            asking = asking;
            same = refl;
          })
          r in
      (
        h.joining,
        h.same,
        h.low,
        h.asking,
        (
          rw (h.joining, main_step)
              (main-Starved u.place1 (record u { main = join2 }) u.i1 h.asking),
          rw h.done refl,
        ),
        rests u.place1 u h.low h.quiet h.asking,
      )
