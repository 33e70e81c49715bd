-- ===== src/Ipc/Exchange/Signalled/Two.antt =====
-- The steps of thread 2, also when a signal breaks off a call.
use advanced_practical_embed.Base.{
  After, ℕ, suc, ◌≡◌, inl, inr, Bool, true, false, List, arith, Bool-cases, ◌==◌,
}
use advanced_practical_embed.Ipc.Packets.{Packet, Entry}
use advanced_practical_embed.Ipc.Transport.{Transport}
use advanced_practical_embed.Ipc.Exchange.{
  Pc, unborn, entry, head, sending, receiving, report, finished, MainPc, Protocol, System,
  thread2_at, interrupt2,
}
use advanced_practical_embed.Ipc.Exchange.Links.{Delivers}
use advanced_practical_embed.Ipc.Exchange.Flow.{
  OpenFlow, OpenFlow-closed, OpenFlow-later, OpenFlow-send, OpenFlow-receive,
}
use advanced_practical_embed.Ipc.Exchange.Stages.{sent1, Staged-two}
use advanced_practical_embed.Ipc.Exchange.Keeps.Parts.{state}
use advanced_practical_embed.Ipc.Exchange.Signalled.{Over, Sound, Over-open}

module _ (T : Transport) (P : Protocol) (t1 t2 : ℕ → Packet)
    (ways1 : Delivers T.capacity P.payload1 t1) (ways2 : Delivers T.capacity P.payload2 t2)
    (closes : P.kill_closes ≡ true) (accepts : P.accepts ≡ false) where
  module _ (flag misused : Bool) (log : List Entry) (c1 c2 : T.Chan) (main : MainPc) (pc1 : Pc)
      (i1 : ℕ) (b1 : Packet) (i2 : ℕ) (b2 : Packet) where
    abbrev at2 : Pc → System T
    at2 pc = state T flag misused log c1 c2 main pc1 i1 b1 pc i2 b2

    later : Sound T P (at2 receiving) → OpenFlow T P.payload1 c1 (sent1 pc1 i1) (suc i2)
    later g = OpenFlow-later T P.payload1 c1 (sent1 pc1 i1) i2 (suc i2) (omega arith) g.there

    has_read :
        (flag' : Bool) (c' : T.Chan) (b : Packet)
        → Sound T P (at2 receiving)
        → OpenFlow T P.payload1 c' (sent1 pc1 i1) (suc i2)
        → Over T pc1 i1 c'
        → Sound T P (state T flag' misused log c' c2 main pc1 i1 b1 report i2 b)
    has_read flag' c' b g flow over = record {
      staged = Staged-two main pc1 receiving report tt tt g.staged;
      in1 = g.in1;
      in2 = g.in2;
      there = flow;
      back = g.back;
      over1 = over;
      over2 = tt;
    }

    pub thread2-Sound :
        (pc : Pc) → Sound T P (at2 pc) → After (Sound T P) (thread2_at T P pc (at2 pc))
    unfolding thread2_at
    thread2-Sound unborn g = tt
    thread2-Sound entry g = record {
      staged = Staged-two main pc1 entry head tt tt g.staged;
      in1 = g.in1;
      in2 = g.in2;
      there = g.there;
      back = g.back;
      over1 = g.over1;
      over2 = tt;
    }
    thread2-Sound head g = elim (Bool-cases flag) [
      | inl f ↦
          rw (f, closes, After)
            (record {
              staged = Staged-two main pc1 head finished tt tt g.staged;
              in1 = g.in1;
              in2 = g.in2;
              there = g.there;
              back = OpenFlow-closed T P.payload2 (T.close c2) i2 i1 (T.close_closed c2);
              over1 = g.over1;
              over2 = inr (T.close_closed c2);
            })
      | inr f ↦ elim (Bool-cases (i2 == 10)) [
        | inl e ↦
            rw (f, e, After)
              (record {
                staged = Staged-two main pc1 head finished tt tt g.staged;
                in1 = g.in1;
                in2 = g.in2;
                there = g.there;
                back = g.back;
                over1 = g.over1;
                over2 = inl (ground arith);
              })
        | inr e ↦
            let small = g.in2 in
            rw (f, e, After)
              (record {
                staged = Staged-two main pc1 head receiving tt tt g.staged;
                in1 = g.in1;
                in2 = ground arith;
                there = g.there;
                back = g.back;
                over1 = g.over1;
                over2 = tt;
              })
      ]
    ]
    thread2-Sound receiving g = elim (OpenFlow-receive T P.payload1 c1 (sent1 pc1 i1) i2 g.there) [
      | inl (wait, _, _) ↦ rw (wait, After) tt
      | inr (inl (p, c', got, o, flow)) ↦
          rw (got, After) (has_read flag c' p g flow (Over-open T pc1 i1 c1 c' o g.over1))
      | inr (inr fails) ↦ rw (fails, After) (has_read flag c1 b2 g (later g) g.over1)
    ]
    thread2-Sound report g = record {
      staged = Staged-two main pc1 report sending tt tt g.staged;
      in1 = g.in1;
      in2 = g.in2;
      there = g.there;
      back = g.back;
      over1 = g.over1;
      over2 = tt;
    }
    thread2-Sound sending g = elim (OpenFlow-send T P.payload2 t2 ways2 c2 i2 i1 g.back g.in2) [
      | inl (c', sent, flow) ↦
          rw (sent, After)
            (record {
              staged = Staged-two main pc1 sending head tt tt g.staged;
              in1 = g.in1;
              in2 = omega (arith, g.in2);
              there = g.there;
              back = flow;
              over1 = g.over1;
              over2 = tt;
            })
      | inr (failed_send, flow) ↦
          rw (failed_send, After)
            (record {
              staged = Staged-two main pc1 sending head tt tt g.staged;
              in1 = g.in1;
              in2 = omega (arith, g.in2);
              there = g.there;
              back = flow;
              over1 = g.over1;
              over2 = tt;
            })
    ]
    thread2-Sound finished g = tt

    pub interrupt2-Sound :
        (pc : Pc) → Sound T P (at2 pc) → After (Sound T P) (interrupt2 T P pc (at2 pc))
    unfolding interrupt2
    interrupt2-Sound sending g = elim (OpenFlow-send T P.payload2 t2 ways2 c2 i2 i1 g.back g.in2) [
      | inl (c', sent, flow) ↦ rw (sent, After) tt
      | inr (failed_send, flow) ↦ rw (failed_send, After) tt
    ]
    interrupt2-Sound receiving g =
        elim (OpenFlow-receive T P.payload1 c1 (sent1 pc1 i1) i2 g.there) [
          | inl (wait, _, _) ↦ rw (wait, After) (has_read true c1 b2 g (later g) g.over1)
          | inr (inl (p, c', got, o, flow)) ↦ rw (got, After) tt
          | inr (inr fails) ↦ rw (fails, After) tt
        ]
    interrupt2-Sound unborn g = tt
    interrupt2-Sound _ g = tt
