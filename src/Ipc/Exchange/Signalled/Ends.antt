-- ===== src/Ipc/Exchange/Signalled/Ends.antt =====
-- The steps of `main`, and every reachable state.
use mathlib.Core.Path.{subst}
use advanced_practical_embed.Base.{
  After, ℕ, ◌≡◌, ap, inr, Bool, true, false, List, arith, length, if◌then◌else◌,
}
use advanced_practical_embed.Ipc.Packets.{Packet, Entry}
use advanced_practical_embed.Ipc.Transport.{Transport}
use advanced_practical_embed.Ipc.Exchange.{
  Pc, unborn, finished, MainPc, boot, create1, create2, join1, join2, leave, ended, Protocol,
  System, main_at, main_moves, thread1_moves, thread2_moves, Mover, move, Step, turn, signal,
  break_off1, break_off2, Reach, begin, next,
}
use advanced_practical_embed.Ipc.Exchange.Links.{Delivers, stream}
use advanced_practical_embed.Ipc.Exchange.Flow.{OpenFlow, OpenFlow-closed}
use advanced_practical_embed.Ipc.Exchange.Keeps.Parts.{state}
use advanced_practical_embed.Ipc.Exchange.Signalled.{Over, Sound}
use advanced_practical_embed.Ipc.Exchange.Signalled.One.{thread1-Sound, interrupt1-Sound}
use advanced_practical_embed.Ipc.Exchange.Signalled.Two.{thread2-Sound, interrupt2-Sound}

module _ (T : Transport) (P : Protocol) where
  OpenFlow-kept :
      (b : Bool) (payload : ℕ → List Packet) (c : T.Chan) (s r : ℕ)
      → OpenFlow T payload c s r
      → OpenFlow T payload (if b then T.close c else c) s r
  OpenFlow-kept true payload c s r f = OpenFlow-closed T payload (T.close c) s r (T.close_closed c)
  OpenFlow-kept false payload c s r f = f

  Over-kept :
      (b : Bool) (i : ℕ) (c : T.Chan)
      → Over T finished i c
      → Over T finished i (if b then T.close c else c)
  Over-kept true i c h = inr (T.close_closed c)
  Over-kept false i c h = h

  module _ (flag misused : Bool) (log : List Entry) (c1 c2 : T.Chan) (i1 : ℕ) (b1 : Packet) (i2 : ℕ)
      (b2 : Packet) where
    abbrev at : MainPc → Pc → Pc → System T
    at main pc1 pc2 = state T flag misused log c1 c2 main pc1 i1 b1 pc2 i2 b2

    main-Sound :
        (main : MainPc) (pc1 pc2 : Pc)
        → Sound T P (at main pc1 pc2)
        → After (Sound T P) (main_at T P main (at main pc1 pc2))
    unfolding main_at
    main-Sound boot pc1 pc2 g = record {
      staged = g.staged;
      in1 = g.in1;
      in2 = g.in2;
      there = g.there;
      back = g.back;
      over1 = g.over1;
      over2 = g.over2;
    }
    main-Sound create1 unborn pc2 g = record {
      staged = (tt, g.staged.1);
      in1 = g.in1;
      in2 = g.in2;
      there = g.there;
      back = g.back;
      over1 = tt;
      over2 = g.over2;
    }
    main-Sound create1 _ pc2 g = absurd g.staged.0
    main-Sound create2 pc1 unborn g = record {
      staged = (g.staged.0, tt);
      in1 = g.in1;
      in2 = g.in2;
      there = g.there;
      back = g.back;
      over1 = g.over1;
      over2 = tt;
    }
    main-Sound create2 pc1 _ g = absurd g.staged.1
    main-Sound join1 finished pc2 g = record {
      staged = (tt, g.staged.1);
      in1 = g.in1;
      in2 = g.in2;
      there = g.there;
      back = g.back;
      over1 = g.over1;
      over2 = g.over2;
    }
    main-Sound join1 unborn pc2 g = tt
    main-Sound join1 _ pc2 g = tt
    main-Sound join2 pc1 finished g = record {
      staged = (g.staged.0, tt);
      in1 = g.in1;
      in2 = g.in2;
      there = g.there;
      back = g.back;
      over1 = g.over1;
      over2 = g.over2;
    }
    main-Sound join2 pc1 unborn g = tt
    main-Sound join2 pc1 _ g = tt
    main-Sound leave finished finished g = record {
      staged = (tt, tt);
      in1 = g.in1;
      in2 = g.in2;
      there = OpenFlow-kept P.main_closes P.payload1 c1 i1 i2 g.there;
      back = OpenFlow-kept P.main_closes P.payload2 c2 i2 i1 g.back;
      over1 = Over-kept P.main_closes i1 c1 g.over1;
      over2 = Over-kept P.main_closes i2 c2 g.over2;
    }
    main-Sound leave finished _ g = absurd g.staged.1
    main-Sound leave _ pc2 g = absurd g.staged.0
    main-Sound ended pc1 pc2 g = tt

module _ (T : Transport) (P : Protocol) (t1 t2 : ℕ → Packet)
    (ways1 : Delivers T.capacity P.payload1 t1) (ways2 : Delivers T.capacity P.payload2 t2)
    (closes : P.kill_closes ≡ true) (accepts : P.accepts ≡ false) where
  move-Sound : (m : Mover) (s : System T) → Sound T P s → After (Sound T P) (move T P m s)
  move-Sound main_moves s g =
      main-Sound T P s.flag s.misused s.log s.chan1 s.chan2 s.th1.i s.th1.receive_buff s.th2.i
        s.th2.receive_buff s.main s.th1.pc s.th2.pc g
  move-Sound thread1_moves s g =
      thread1-Sound T P t1 t2 ways1 ways2 closes accepts s.flag s.misused s.log s.chan1 s.chan2
        s.main s.th1.i s.th1.receive_buff s.th2.pc s.th2.i s.th2.receive_buff s.th1.pc g
  move-Sound thread2_moves s g =
      thread2-Sound T P t1 t2 ways1 ways2 closes accepts s.flag s.misused s.log s.chan1 s.chan2
        s.main s.th1.pc s.th1.i s.th1.receive_buff s.th2.i s.th2.receive_buff s.th2.pc g

  Step-Sound : (s : System T) {u : System T} → Sound T P s → Step T P s u → Sound T P u
  Step-Sound s g (turn m e) = subst (After (Sound T P)) e (move-Sound m s g)
  Step-Sound s g (signal x) = record {
    staged = g.staged;
    in1 = g.in1;
    in2 = g.in2;
    there = g.there;
    back = g.back;
    over1 = g.over1;
    over2 = g.over2;
  }
  Step-Sound s g (break_off1 e) = subst (After (Sound T P)) e (
      interrupt1-Sound T P t1 t2 ways1 ways2 closes accepts s.flag s.misused s.log s.chan1 s.chan2
        s.main s.th1.i s.th1.receive_buff s.th2.pc s.th2.i s.th2.receive_buff s.th1.pc g)
  Step-Sound s g (break_off2 e) = subst (After (Sound T P)) e (
      interrupt2-Sound T P t1 t2 ways1 ways2 closes accepts s.flag s.misused s.log s.chan1 s.chan2
        s.main s.th1.pc s.th1.i s.th1.receive_buff s.th2.i s.th2.receive_buff s.th2.pc g)

  pub Reach-Sound : {junk1 junk2 : Packet} {s : System T} → Reach T P junk1 junk2 s → Sound T P s
  unfolding stream
  Reach-Sound begin = record {
    staged = (tt, tt);
    in1 = omega arith;
    in2 = omega arith;
    there = λ o. record {
      taken = 0;
      at_most = omega arith;
      counted = omega (arith, ap length T.fresh_empty.0);
    };
    back = λ o. record {
      taken = 0;
      at_most = omega arith;
      counted = omega (arith, ap length T.fresh_empty.0);
    };
    over1 = tt;
    over2 = tt;
  }
  Reach-Sound (next {s} r step) = Step-Sound s (Reach-Sound r) step
