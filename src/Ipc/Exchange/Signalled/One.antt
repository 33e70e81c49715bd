-- ===== src/Ipc/Exchange/Signalled/One.antt =====
-- The steps of thread 1, also when a signal breaks off a call.
use advanced_practical_embed.Base.{
  After, ℕ, suc, ◌≡◌, inl, inr, Bool, true, false, List, arith, Bool-cases, ◌==◌,
}
use advanced_practical_embed.Ipc.Packets.{Packet, Entry}
use advanced_practical_embed.Ipc.Transport.{Transport}
use advanced_practical_embed.Ipc.Exchange.{
  Pc, unborn, entry, head, sending, receiving, report, finished, MainPc, Protocol, System,
  thread1_at, interrupt1,
}
use advanced_practical_embed.Ipc.Exchange.Links.{Delivers}
use advanced_practical_embed.Ipc.Exchange.Flow.{
  OpenFlow, OpenFlow-closed, OpenFlow-later, OpenFlow-send, OpenFlow-receive,
}
use advanced_practical_embed.Ipc.Exchange.Stages.{read2, Staged-one}
use advanced_practical_embed.Ipc.Exchange.Keeps.Parts.{state}
use advanced_practical_embed.Ipc.Exchange.Signalled.{Over, Sound, Over-open}

module _ (T : Transport) (P : Protocol) (t1 t2 : ℕ → Packet)
    (ways1 : Delivers T.capacity P.payload1 t1) (ways2 : Delivers T.capacity P.payload2 t2)
    (closes : P.kill_closes ≡ true) (accepts : P.accepts ≡ false) where
  module _ (flag misused : Bool) (log : List Entry) (c1 c2 : T.Chan) (main : MainPc) (i1 : ℕ)
      (b1 : Packet) (pc2 : Pc) (i2 : ℕ) (b2 : Packet) where
    abbrev at1 : Pc → System T
    at1 pc = state T flag misused log c1 c2 main pc i1 b1 pc2 i2 b2

    later : Sound T P (at1 receiving) → OpenFlow T P.payload2 c2 i2 (suc i1)
    later g = OpenFlow-later T P.payload2 c2 i2 i1 (suc i1) (omega arith) g.back

    has_read :
        (flag' : Bool) (c' : T.Chan) (b : Packet)
        → Sound T P (at1 receiving)
        → OpenFlow T P.payload2 c' i2 (suc i1)
        → Over T pc2 i2 c'
        → Sound T P (state T flag' misused log c1 c' main report (suc i1) b pc2 i2 b2)
    has_read flag' c' b g flow over = record {
      staged = Staged-one main receiving report pc2 tt tt g.staged;
      in1 = omega (arith, g.in1);
      in2 = g.in2;
      there = g.there;
      back = flow;
      over1 = tt;
      over2 = over;
    }

    pub thread1-Sound :
        (pc : Pc) → Sound T P (at1 pc) → After (Sound T P) (thread1_at T P pc (at1 pc))
    unfolding thread1_at
    thread1-Sound unborn g = tt
    thread1-Sound entry g =
        rw (accepts, After)
          (record {
            staged = Staged-one main entry head pc2 tt tt g.staged;
            in1 = g.in1;
            in2 = g.in2;
            there = g.there;
            back = g.back;
            over1 = tt;
            over2 = g.over2;
          })
    thread1-Sound head g = elim (Bool-cases flag) [
      | inl f ↦
          rw (f, closes, After)
            (record {
              staged = Staged-one main head finished pc2 tt tt g.staged;
              in1 = g.in1;
              in2 = g.in2;
              there =
                  OpenFlow-closed T P.payload1 (T.close c1) i1 (read2 pc2 i2) (T.close_closed c1);
              back = g.back;
              over1 = inr (T.close_closed c1);
              over2 = g.over2;
            })
      | inr f ↦ elim (Bool-cases (i1 == 10)) [
        | inl e ↦
            rw (f, e, After)
              (record {
                staged = Staged-one main head finished pc2 tt tt g.staged;
                in1 = g.in1;
                in2 = g.in2;
                there = g.there;
                back = g.back;
                over1 = inl (ground arith);
                over2 = g.over2;
              })
        | inr e ↦
            let small = g.in1 in
            rw (f, e, After)
              (record {
                staged = Staged-one main head sending pc2 tt tt g.staged;
                in1 = ground arith;
                in2 = g.in2;
                there = g.there;
                back = g.back;
                over1 = tt;
                over2 = g.over2;
              })
      ]
    ]
    thread1-Sound sending g =
        elim (OpenFlow-send T P.payload1 t1 ways1 c1 i1 (read2 pc2 i2) g.there g.in1) [
          | inl (c', sent, flow) ↦
              rw (sent, After)
                (record {
                  staged = Staged-one main sending receiving pc2 tt tt g.staged;
                  in1 = g.in1;
                  in2 = g.in2;
                  there = flow;
                  back = g.back;
                  over1 = tt;
                  over2 = g.over2;
                })
          | inr (failed_send, flow) ↦
              rw (failed_send, After)
                (record {
                  staged = Staged-one main sending receiving pc2 tt tt g.staged;
                  in1 = g.in1;
                  in2 = g.in2;
                  there = flow;
                  back = g.back;
                  over1 = tt;
                  over2 = g.over2;
                })
        ]
    thread1-Sound receiving g = elim (OpenFlow-receive T P.payload2 c2 i2 i1 g.back) [
      | inl (wait, _, _) ↦ rw (wait, After) tt
      | inr (inl (p, c', got, o, flow)) ↦
          rw (got, After) (has_read flag c' p g flow (Over-open T pc2 i2 c2 c' o g.over2))
      | inr (inr fails) ↦ rw (fails, After) (has_read flag c2 b1 g (later g) g.over2)
    ]
    thread1-Sound report g = record {
      staged = Staged-one main report head pc2 tt tt g.staged;
      in1 = g.in1;
      in2 = g.in2;
      there = g.there;
      back = g.back;
      over1 = tt;
      over2 = g.over2;
    }
    thread1-Sound finished g = tt

    pub interrupt1-Sound :
        (pc : Pc) → Sound T P (at1 pc) → After (Sound T P) (interrupt1 T P pc (at1 pc))
    unfolding interrupt1
    interrupt1-Sound entry g = rw (accepts, After) tt
    interrupt1-Sound sending g =
        elim (OpenFlow-send T P.payload1 t1 ways1 c1 i1 (read2 pc2 i2) g.there g.in1) [
          | inl (c', sent, flow) ↦ rw (sent, After) tt
          | inr (failed_send, flow) ↦ rw (failed_send, After) tt
        ]
    interrupt1-Sound receiving g = elim (OpenFlow-receive T P.payload2 c2 i2 i1 g.back) [
      | inl (wait, _, _) ↦ rw (wait, After) (has_read true c2 b1 g (later g) g.over2)
      | inr (inl (p, c', got, o, flow)) ↦ rw (got, After) tt
      | inr (inr fails) ↦ rw (fails, After) tt
    ]
    interrupt1-Sound unborn g = tt
    interrupt1-Sound _ g = tt
