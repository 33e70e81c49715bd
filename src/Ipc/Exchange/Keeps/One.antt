-- ===== src/Ipc/Exchange/Keeps/One.antt =====
-- The steps of thread 1.
use advanced_practical_embed.Base.{
  After, ℕ, zero, suc, refl, inl, inr, Bool, List, [], ◌∷◌, ◌++◌, arith, ℕ_discrete, Bool-cases,
  ◌&&◌, not,
}
use advanced_practical_embed.Ipc.Packets.{Packet, one, Entry, entering, exiting, received}
use advanced_practical_embed.Ipc.Transport.{Transport}
use advanced_practical_embed.Ipc.Exchange.{
  Pc, unborn, entry, head, sending, receiving, report, finished, MainPc, Protocol, connected,
  thread1_at,
}
use advanced_practical_embed.Ipc.Exchange.Links.{Delivers, Link-send, Link-receive}
use advanced_practical_embed.Ipc.Exchange.Stages.{
  IsGood, Logged-other, Logged-one, Staged-one, heard2,
}
use advanced_practical_embed.Ipc.Exchange.Keeps.Parts.{state, ==-eq, ==-ne}

module _ (T : Transport) (P : Protocol) (t1 t2 : ℕ → Packet)
    (ways1 : Delivers T.capacity P.payload1 t1) (ways2 : Delivers T.capacity P.payload2 t2) where
  module _ (flag misused : Bool) (log : List Entry) (c1 c2 : T.Chan) (main : MainPc) (i1 : ℕ)
      (b1 : Packet) (pc2 : Pc) (i2 : ℕ) (b2 : Packet) where
    thread1-report-Good :
        (i : ℕ)
        → IsGood T P t1 t2 (state T flag misused log c1 c2 main report i b1 pc2 i2 b2)
        → IsGood T P t1 t2
            (state T flag misused (log ++ received one b1 ∷ []) c1 c2 main head i b1 pc2 i2 b2)
    thread1-report-Good zero g = absurd (omega (arith, g.range1.0))
    thread1-report-Good (suc i) g = record {
      quiet = g.quiet;
      running = g.running;
      staged = Staged-one main report head pc2 tt tt g.staged;
      range1 = g.range1.1;
      range2 = g.range2;
      there = g.there;
      back = g.back;
      buffered1 = tt;
      buffered2 = g.buffered2;
      stream = g.stream;
      logged = Logged-one i (heard2 pc2 i2) b1 g.buffered1 g.logged;
    }

    pub thread1-Good :
        (pc : Pc)
        → IsGood T P t1 t2 (state T flag misused log c1 c2 main pc i1 b1 pc2 i2 b2)
        → After
            (IsGood T P t1 t2)
            (thread1_at T P pc (state T flag misused log c1 c2 main pc i1 b1 pc2 i2 b2))
    unfolding thread1_at
    thread1-Good unborn g = tt
    thread1-Good entry g = elim (Bool-cases (P.accepts && not (connected pc2))) [
      | inl wait ↦ rw (wait, After) tt
      | inr ready ↦
          rw (ready, After)
            (record {
              quiet = g.quiet;
              running = g.running;
              staged = Staged-one main entry head pc2 tt tt g.staged;
              range1 = omega arith;
              range2 = g.range2;
              there = g.there;
              back = g.back;
              buffered1 = tt;
              buffered2 = g.buffered2;
              stream = g.stream;
              logged = Logged-other (entering one) refl refl g.logged;
            })
    ]
    thread1-Good head g = elim (ℕ_discrete i1 10) [
      | yes all ↦
          rw (g.quiet, ==-eq i1 10 all, After)
            (record {
              quiet = refl;
              running = g.running;
              staged = Staged-one main head finished pc2 tt tt g.staged;
              range1 = all;
              range2 = g.range2;
              there = g.there;
              back = g.back;
              buffered1 = tt;
              buffered2 = g.buffered2;
              stream = g.stream;
              logged = Logged-other (exiting one) refl refl g.logged;
            })
      | no more ↦
          rw (g.quiet, ==-ne i1 10 more, After)
            (record {
              quiet = refl;
              running = g.running;
              staged = Staged-one main head sending pc2 tt tt g.staged;
              range1 = omega arith;
              range2 = g.range2;
              there = g.there;
              back = g.back;
              buffered1 = tt;
              buffered2 = g.buffered2;
              stream = g.stream;
              logged = g.logged;
            })
    ]
    thread1-Good sending g =
        let (c', sent, link) = Link-send T P.payload1 t1 ways1 c1 i1 _ g.there g.range1 in
        rw (sent, After)
          (record {
            quiet = g.quiet;
            running = g.running;
            staged = Staged-one main sending receiving pc2 tt tt g.staged;
            range1 = g.range1;
            range2 = g.range2;
            there = link;
            back = g.back;
            buffered1 = tt;
            buffered2 = g.buffered2;
            stream = g.stream;
            logged = g.logged;
          })
    thread1-Good receiving g = elim (Link-receive T P.payload2 t2 ways2 c2 i2 i1 g.back g.range1) [
      | inl (wait, _) ↦ rw (wait, After) tt
      | inr (c', got, link) ↦
          rw (got, After)
            (record {
              quiet = g.quiet;
              running = g.running;
              staged = Staged-one main receiving report pc2 tt tt g.staged;
              range1 = (omega arith, omega arith);
              range2 = g.range2;
              there = g.there;
              back = link;
              buffered1 = refl;
              buffered2 = g.buffered2;
              stream = g.stream;
              logged = g.logged;
            })
    ]
    thread1-Good report g = thread1-report-Good i1 g
    thread1-Good finished g = tt
