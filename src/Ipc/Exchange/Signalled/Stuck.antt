-- ===== src/Ipc/Exchange/Signalled/Stuck.antt =====
-- Which thread cannot move after SIGINT.
use advanced_practical_embed.Base.{
  ℕ, suc, ◌≡◌, refl, inl, inr, Bool, true, false, List, arith, none, length,
}
use advanced_practical_embed.Ipc.Packets.{Packet, Entry}
use advanced_practical_embed.Ipc.Transport.{Transport}
use advanced_practical_embed.Ipc.Exchange.{
  Pc, unborn, sending, receiving, finished, MainPc, boot, join1, join2, ended, Protocol, System,
  thread1_at, thread2_at, main_at, main_moves, thread1_moves, thread2_moves, Mover, move,
}
use advanced_practical_embed.Ipc.Exchange.Links.{Delivers}
use advanced_practical_embed.Ipc.Exchange.Flow.{OpenFlow-send, OpenFlow-receive, OpenFlow-empty}
use advanced_practical_embed.Ipc.Exchange.Stages.{sent1, read2}
use advanced_practical_embed.Ipc.Exchange.Keeps.Parts.{state}
use advanced_practical_embed.Ipc.Exchange.Signalled.{Sound}

-- A thread that cannot move is not there, or waits at an open and empty channel.
abbrev Rests : (T : Transport) → Pc → T.Chan → Type 0
Rests T unborn c = Unit
Rests T finished c = Unit
Rests T receiving c = (T.is_open c ≡ true) × (length (T.contents c) ≡ 0)
Rests T _ c = ⊥

module _ (T : Transport) (P : Protocol) (t1 t2 : ℕ → Packet)
    (ways1 : Delivers T.capacity P.payload1 t1) (ways2 : Delivers T.capacity P.payload2 t2)
    (closes : P.kill_closes ≡ true) (accepts : P.accepts ≡ false) where
  module _ (flag misused : Bool) (log : List Entry) (c1 c2 : T.Chan) (i1 : ℕ) (b1 : Packet) (i2 : ℕ)
      (b2 : Packet) (signalled : flag ≡ true) where
    abbrev at : MainPc → Pc → Pc → System T
    at main pc1 pc2 = state T flag misused log c1 c2 main pc1 i1 b1 pc2 i2 b2

    thread1-Rests :
        (main : MainPc) (pc1 pc2 : Pc)
        → Sound T P (at main pc1 pc2)
        → thread1_at T P pc1 (at main pc1 pc2) ≡ none
        → Rests T pc1 c2
    unfolding thread1_at
    thread1-Rests main unborn pc2 g e = tt
    thread1-Rests main finished pc2 g e = tt
    thread1-Rests main receiving pc2 g e = elim (OpenFlow-receive T P.payload2 c2 i2 i1 g.back) [
      | inl (_, o, empty) ↦ (o, empty)
      | inr (inl (p, c', got, _, _)) ↦ absurd (ground arith)
      | inr (inr fails) ↦ absurd (ground arith)
    ]
    thread1-Rests main sending pc2 g e =
        elim (OpenFlow-send T P.payload1 t1 ways1 c1 i1 (read2 pc2 i2) g.there g.in1) [
          | inl (c', sent, _) ↦ absurd (ground arith)
          | inr (fails, _) ↦ absurd (ground arith)
        ]
    thread1-Rests main _ pc2 g e = absurd (ground arith)

    thread2-Rests :
        (main : MainPc) (pc1 pc2 : Pc)
        → Sound T P (at main pc1 pc2)
        → thread2_at T P pc2 (at main pc1 pc2) ≡ none
        → Rests T pc2 c1
    unfolding thread2_at
    thread2-Rests main pc1 unborn g e = tt
    thread2-Rests main pc1 finished g e = tt
    thread2-Rests main pc1 receiving g e =
        elim (OpenFlow-receive T P.payload1 c1 (sent1 pc1 i1) i2 g.there) [
          | inl (_, o, empty) ↦ (o, empty)
          | inr (inl (p, c', got, _, _)) ↦ absurd (ground arith)
          | inr (inr fails) ↦ absurd (ground arith)
        ]
    thread2-Rests main pc1 sending g e =
        elim (OpenFlow-send T P.payload2 t2 ways2 c2 i2 i1 g.back g.in2) [
          | inl (c', sent, _) ↦ absurd (ground arith)
          | inr (fails, _) ↦ absurd (ground arith)
        ]
    thread2-Rests main pc1 _ g e = absurd (ground arith)

    -- Thread 1 does not wait for ever: thread 2 still has an answer to write, or has closed the channel.
    one_released :
        (main : MainPc) (pc2 : Pc)
        → Sound T P (at main receiving pc2)
        → Rests T receiving c2
        → Rests T pc2 c1
        → main ≡ join1
        → ⊥
    one_released main receiving g (o, empty) (o', empty') m =
        let all2 = OpenFlow-empty T P.payload2 t2 ways2 c2 i2 i1 g.back o empty in
        let all1 = OpenFlow-empty T P.payload1 t1 ways1 c1 (suc i1) i2 g.there o' empty' in
        omega (arith, all1, all2)
    one_released main finished g (o, empty) r m = elim g.over2 [
      | inl all ↦
          let all2 = OpenFlow-empty T P.payload2 t2 ways2 c2 i2 i1 g.back o empty in
          omega (arith, all2, all, g.in1)
      | inr shut ↦ cc
    ]
    one_released join1 unborn g r r' m = absurd g.staged.1
    one_released _ unborn g r r' m = absurd (cc)
    one_released main _ g r r' m = absurd r'

    two_released :
        (main : MainPc) → Sound T P (at main finished receiving) → Rests T receiving c1 → ⊥
    two_released main g (o, empty) = elim g.over1 [
      | inl all ↦
          let all1 = OpenFlow-empty T P.payload1 t1 ways1 c1 i1 i2 g.there o empty in
          omega (arith, all1, all, g.in2)
      | inr shut ↦ cc
    ]

    main-ended :
        (main : MainPc) (pc1 pc2 : Pc)
        → Sound T P (at main pc1 pc2)
        → Rests T pc1 c2
        → Rests T pc2 c1
        → main_at T P main (at main pc1 pc2) ≡ none
        → main ≡ ended
    unfolding main_at
    main-ended ended pc1 pc2 g r1 r2 e = refl
    main-ended join1 receiving pc2 g r1 r2 e = absurd (one_released join1 pc2 g r1 r2 refl)
    main-ended join1 finished pc2 g r1 r2 e = cc
    main-ended join1 unborn pc2 g r1 r2 e = absurd g.staged.0
    main-ended join1 _ pc2 g r1 r2 e = absurd r1
    main-ended join2 finished receiving g r1 r2 e = absurd (two_released join2 g r2)
    main-ended join2 finished finished g r1 r2 e = cc
    main-ended join2 finished unborn g r1 r2 e = absurd g.staged.1
    main-ended join2 finished _ g r1 r2 e = absurd r2
    main-ended join2 unborn pc2 g r1 r2 e = absurd g.staged.0
    main-ended join2 _ pc2 g r1 r2 e = absurd g.staged.0
    main-ended boot pc1 pc2 g r1 r2 e = cc
    main-ended _ pc1 pc2 g r1 r2 e = cc

  pub stuck-ended :
      (s : System T)
      → Sound T P s
      → s.flag ≡ true
      → ((m : Mover) → move T P m s ≡ none)
      → s.main ≡ ended
  stuck-ended s g f stuck =
      let r1 =
        thread1-Rests s.flag s.misused s.log s.chan1 s.chan2 s.th1.i s.th1.receive_buff s.th2.i
          s.th2.receive_buff f s.main s.th1.pc s.th2.pc g (stuck thread1_moves) in
      let r2 =
        thread2-Rests s.flag s.misused s.log s.chan1 s.chan2 s.th1.i s.th1.receive_buff s.th2.i
          s.th2.receive_buff f s.main s.th1.pc s.th2.pc g (stuck thread2_moves) in
      main-ended s.flag s.misused s.log s.chan1 s.chan2 s.th1.i s.th1.receive_buff s.th2.i
        s.th2.receive_buff f s.main s.th1.pc s.th2.pc g r1 r2 (stuck main_moves)
