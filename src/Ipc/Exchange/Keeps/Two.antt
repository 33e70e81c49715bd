-- ===== src/Ipc/Exchange/Keeps/Two.antt =====
-- The steps of thread 2.
use advanced_practical_embed.Base.{
  After, ℕ, refl, ap, true, if◌then◌else◌, inl, inr, Bool, List, arith, ℕ_discrete,
}
use advanced_practical_embed.Ipc.Packets.{Packet, two, Entry, entering, exiting}
use advanced_practical_embed.Ipc.Transport.{Transport}
use advanced_practical_embed.Ipc.Exchange.{
  Pc, unborn, entry, head, sending, receiving, report, finished, MainPc, Protocol, thread2_at,
}
use advanced_practical_embed.Ipc.Exchange.Links.{Delivers, Link-send, Link-receive}
use advanced_practical_embed.Ipc.Exchange.Stages.{
  IsGood, Logged-other, Logged-two, Staged-two, sent1, heard1,
}
use advanced_practical_embed.Ipc.Exchange.Keeps.Parts.{state, ==-eq, ==-ne}

module _ (T : Transport) (P : Protocol) (t1 t2 : ℕ → Packet)
    (ways1 : Delivers T.capacity P.payload1 t1) (ways2 : Delivers T.capacity P.payload2 t2) where
  module _ (flag misused : Bool) (log : List Entry) (c1 c2 : T.Chan) (main : MainPc) (pc1 : Pc)
      (i1 : ℕ) (b1 : Packet) (i2 : ℕ) (b2 : Packet) where
    pub thread2-Good :
        (pc : Pc)
        → IsGood T P t1 t2 (state T flag misused log c1 c2 main pc1 i1 b1 pc i2 b2)
        → After
            (IsGood T P t1 t2)
            (thread2_at T P pc (state T flag misused log c1 c2 main pc1 i1 b1 pc i2 b2))
    unfolding thread2_at
    thread2-Good unborn g = tt
    thread2-Good entry g = record {
      quiet = g.quiet;
      running = g.running;
      staged = Staged-two main pc1 entry head tt tt g.staged;
      range1 = g.range1;
      range2 = omega arith;
      there = g.there;
      back = g.back;
      buffered1 = g.buffered1;
      buffered2 = tt;
      stream = g.stream;
      logged = Logged-other (entering two) refl refl g.logged;
    }
    thread2-Good head g = elim (ℕ_discrete i2 10) [
      | yes all ↦
          rw (g.quiet, ==-eq i2 10 all, After)
            (record {
              quiet = refl;
              running = g.running;
              staged = Staged-two main pc1 head finished tt tt g.staged;
              range1 = g.range1;
              range2 = all;
              there = g.there;
              back = g.back;
              buffered1 = g.buffered1;
              buffered2 = tt;
              stream = ap (λ b. if P.assigns then b else true) g.stream;
              logged = Logged-other (exiting two) refl refl g.logged;
            })
      | no more ↦
          rw (g.quiet, ==-ne i2 10 more, After)
            (record {
              quiet = refl;
              running = g.running;
              staged = Staged-two main pc1 head receiving tt tt g.staged;
              range1 = g.range1;
              range2 = omega arith;
              there = g.there;
              back = g.back;
              buffered1 = g.buffered1;
              buffered2 = tt;
              stream = g.stream;
              logged = g.logged;
            })
    ]
    thread2-Good receiving g =
        elim (Link-receive T P.payload1 t1 ways1 c1 (sent1 pc1 i1) i2 g.there g.range2) [
          | inl (wait, _) ↦ rw (wait, After) tt
          | inr (c', got, link) ↦
              rw (got, After)
                (record {
                  quiet = g.quiet;
                  running = g.running;
                  staged = Staged-two main pc1 receiving report tt tt g.staged;
                  range1 = g.range1;
                  range2 = g.range2;
                  there = link;
                  back = g.back;
                  buffered1 = g.buffered1;
                  buffered2 = refl;
                  stream = g.stream;
                  logged = g.logged;
                })
        ]
    thread2-Good report g = record {
      quiet = g.quiet;
      running = g.running;
      staged = Staged-two main pc1 report sending tt tt g.staged;
      range1 = g.range1;
      range2 = g.range2;
      there = g.there;
      back = g.back;
      buffered1 = g.buffered1;
      buffered2 = tt;
      stream = g.stream;
      logged = Logged-two (heard1 pc1 i1) i2 b2 g.buffered2 g.logged;
    }
    thread2-Good sending g =
        let (c', sent, link) = Link-send T P.payload2 t2 ways2 c2 i2 i1 g.back g.range2 in
        rw (sent, After)
          (record {
            quiet = g.quiet;
            running = g.running;
            staged = Staged-two main pc1 sending head tt tt g.staged;
            range1 = g.range1;
            range2 = omega arith;
            there = g.there;
            back = link;
            buffered1 = g.buffered1;
            buffered2 = tt;
            stream = g.stream;
            logged = g.logged;
          })
    thread2-Good finished g = tt
