-- ===== src/Ipc/Exchange/Ends.antt =====
-- Every state that is reached before a signal is as `IsGood` says; some thread can move until `main`
-- has ended; and each step brings the end nearer.
use mathlib.Core.Path.{subst}
use advanced_practical_embed.Base.{
  After, ℕ, ◌≡◌, refl, sym, ◌∙◌, ◌⊎◌, inl, inr, true, false, Option, none, some, arith,
}
use advanced_practical_embed.Ipc.Packets.{Packet, heard}
use advanced_practical_embed.Ipc.Messages.{first}
use advanced_practical_embed.Ipc.Transport.{Transport}
use advanced_practical_embed.Ipc.Exchange.{
  Pc, unborn, finished, MainPc, boot, Protocol, System, thread1_at, thread2_at, main_at, move,
  Mover, main_moves, thread1_moves, thread2_moves, start, turn, signal, break_off1, break_off2,
  interrupt1, interrupt2, entry, sending, receiving, Reach, begin, next, sigint, other_signal,
  kill_thread_handler,
}
use advanced_practical_embed.Ipc.Exchange.Links.{Delivers, stream}
use advanced_practical_embed.Ipc.Exchange.Stages.{IsGood, IsComplete, IsFinished}
use advanced_practical_embed.Ipc.Exchange.Keeps.One.{thread1-Good}
use advanced_practical_embed.Ipc.Exchange.Keeps.Two.{thread2-Good}
use advanced_practical_embed.Ipc.Exchange.Keeps.Main.{main-Good}

module _ (T : Transport) (P : Protocol) where
  thread1-flag :
      (pc : Pc) (s : System T) {t : System T} → thread1_at T P pc s ≡ some t → t.flag ≡ s.flag
  unfolding thread1_at
  thread1-flag unborn s e = cc
  thread1-flag _ s e = ground arith

  thread2-flag :
      (pc : Pc) (s : System T) {t : System T} → thread2_at T P pc s ≡ some t → t.flag ≡ s.flag
  unfolding thread2_at
  thread2-flag unborn s e = cc
  thread2-flag _ s e = ground arith

  main-flag :
      (m : MainPc) (s : System T) {t : System T} → main_at T P m s ≡ some t → t.flag ≡ s.flag
  unfolding main_at
  main-flag boot s e = ground arith
  main-flag _ s e = ground arith

  move-flag : (m : Mover) (s : System T) {t : System T} → move T P m s ≡ some t → t.flag ≡ s.flag
  move-flag main_moves s e = main-flag s.main s e
  move-flag thread1_moves s e = thread1-flag s.th1.pc s e
  move-flag thread2_moves s e = thread2-flag s.th2.pc s e

  interrupt1-flag :
      (pc : Pc) (s : System T) {t : System T} → interrupt1 T P pc s ≡ some t → t.flag ≡ true
  unfolding interrupt1
  interrupt1-flag entry s e = ground arith
  interrupt1-flag sending s e = ground arith
  interrupt1-flag receiving s e = ground arith
  interrupt1-flag unborn s e = cc
  interrupt1-flag _ s e = cc

  interrupt2-flag :
      (pc : Pc) (s : System T) {t : System T} → interrupt2 T P pc s ≡ some t → t.flag ≡ true
  unfolding interrupt2
  interrupt2-flag sending s e = ground arith
  interrupt2-flag receiving s e = ground arith
  interrupt2-flag unborn s e = cc
  interrupt2-flag _ s e = cc

  -- Nothing moves any more when `main` has ended.
  pub complete-stuck :
      (t1 t2 : ℕ → Packet) (m : Mover) (s : System T) → IsComplete T P t1 t2 s → move T P m s ≡ none
  unfolding main_at thread1_at thread2_at
  complete-stuck t1 t2 main_moves s c = rw (c.ended_main)
  complete-stuck t1 t2 thread1_moves s c = go s.th1.pc c.both_finished.0
    where
      go : (pc : Pc) → IsFinished pc → thread1_at T P pc s ≡ none
      go finished h = refl
      go unborn h = refl
      go _ h = absurd h
  complete-stuck t1 t2 thread2_moves s c = go s.th2.pc c.both_finished.1
    where
      go : (pc : Pc) → IsFinished pc → thread2_at T P pc s ≡ none
      go finished h = refl
      go unborn h = refl
      go _ h = absurd h

module _ (T : Transport) (P : Protocol) (t1 t2 : ℕ → Packet)
    (ways1 : Delivers T.capacity P.payload1 t1) (ways2 : Delivers T.capacity P.payload2 t2) where
  -- What holds of every state before a signal.
  abbrev pub Kept : System T → Type 0
  Kept s = IsGood T P t1 t2 s ⊎ IsComplete T P t1 t2 s

  keep : {s : System T} → IsGood T P t1 t2 s → Kept s
  keep g = inl g

  After-keep : (o : Option (System T)) → After (IsGood T P t1 t2) o → After Kept o
  After-keep none h = tt
  After-keep (some s) h = inl h

  pub move-Kept : (m : Mover) (s : System T) → IsGood T P t1 t2 s → After Kept (move T P m s)
  move-Kept main_moves s g =
      main-Good T P t1 t2 ways1 ways2 s.flag s.misused s.log s.chan1 s.chan2 s.th1.i
        s.th1.receive_buff s.th2.i s.th2.receive_buff s.main s.th1.pc s.th2.pc g
  move-Kept thread1_moves s g = After-keep _ (
      thread1-Good T P t1 t2 ways1 ways2 s.flag s.misused s.log s.chan1 s.chan2 s.main s.th1.i
        s.th1.receive_buff s.th2.pc s.th2.i s.th2.receive_buff s.th1.pc g)
  move-Kept thread2_moves s g = After-keep _ (
      thread2-Good T P t1 t2 ways1 ways2 s.flag s.misused s.log s.chan1 s.chan2 s.main s.th1.pc
        s.th1.i s.th1.receive_buff s.th2.i s.th2.receive_buff s.th2.pc g)

  pub start-Good : (junk1 junk2 : Packet) → IsGood T P t1 t2 (start T P junk1 junk2)
  unfolding stream heard first
  start-Good junk1 junk2 = record {
    quiet = refl;
    running = λ e. cc;
    staged = (tt, tt);
    range1 = refl;
    range2 = refl;
    there = record { is_open = T.fresh_empty.1; left = T.fresh_empty.0; behind = omega arith };
    back = record { is_open = T.fresh_empty.1; left = T.fresh_empty.0; behind = omega arith };
    buffered1 = tt;
    buffered2 = tt;
    stream = refl;
    logged = record { logged1 = refl; logged2 = refl };
  }

  signal-Kept :
      (g : _) (s : System T)
      → kill_thread_handler g s.flag ≡ false
      → (s.flag ≡ false → Kept s)
      → Kept (record s { flag = kill_thread_handler g s.flag })
  unfolding kill_thread_handler
  signal-Kept sigint s e k = cc
  signal-Kept other_signal s e k = k e

  pub Reach-Kept :
      {junk1 junk2 : Packet} {s : System T} → Reach T P junk1 junk2 s → s.flag ≡ false → Kept s
  Reach-Kept {junk1} {junk2} begin e = inl (start-Good junk1 junk2)
  Reach-Kept (next {s} r (signal g)) e = signal-Kept g s e (Reach-Kept r)
  Reach-Kept (next {s} r (break_off1 off)) e = cc (interrupt1-flag T P s.th1.pc s off)
  Reach-Kept (next {s} r (break_off2 off)) e = cc (interrupt2-flag T P s.th2.pc s off)
  Reach-Kept (next {s} r (turn m {t} moved)) e =
      elim (Reach-Kept r (sym (move-flag T P m s moved) ∙ e)) [
        | inl g ↦ subst (After Kept) moved (move-Kept m s g)
        | inr c ↦ absurd (cc (complete-stuck T P t1 t2 m s c))
      ]
