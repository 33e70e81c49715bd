-- ===== src/Ipc/Exchange/Measure.antt =====
-- Each step brings the end nearer: how many steps are left at most.
use mathlib.Core.Path.{subst}
use advanced_practical_embed.Base.{
  After, ℕ, suc, ◌+◌, ◌-◌, ◌*◌, ◌≤◌, ◌<◌, ◌≡◌, inl, inr, Bool, List, none, some, arith,
}
use advanced_practical_embed.Ipc.Packets.{Packet, Entry}
use advanced_practical_embed.Ipc.Transport.{Transport}
use advanced_practical_embed.Ipc.Exchange.{
  Pc, unborn, entry, head, sending, receiving, report, finished, MainPc, boot, create1, create2,
  join1, join2, leave, ended, Protocol, System, thread1_at, thread2_at, main_at, move, Mover,
  main_moves, thread1_moves, thread2_moves, start,
}
use advanced_practical_embed.Ipc.Exchange.Links.{Delivers}
use advanced_practical_embed.Ipc.Exchange.Stages.{IsGood, IsComplete, Range1, Range2}
use advanced_practical_embed.Ipc.Exchange.Keeps.Parts.{state}
use advanced_practical_embed.Ipc.Exchange.Progress.{progress, IsMove}
use advanced_practical_embed.Ipc.Exchange.Ends.{Kept, move-Kept, complete-stuck, start-Good}

abbrev pub rank1 : Pc → ℕ → ℕ
rank1 unborn i = 44
rank1 entry i = 4 * (10 - i) + 3
rank1 head i = 4 * (10 - i) + 2
rank1 sending i = 4 * (10 - i) + 1
rank1 receiving i = 4 * (10 - i)
rank1 report i = 4 * (10 - i) + 3
rank1 finished i = 0

abbrev pub rank2 : Pc → ℕ → ℕ
rank2 unborn i = 44
rank2 entry i = 4 * (10 - i) + 3
rank2 head i = 4 * (10 - i) + 2
rank2 receiving i = 4 * (10 - i) + 1
rank2 report i = 4 * (10 - i)
rank2 sending i = 4 * (10 - i) - 1
rank2 finished i = 0

abbrev pub rank_main : MainPc → ℕ
rank_main boot = 6
rank_main create1 = 5
rank_main create2 = 4
rank_main join1 = 3
rank_main join2 = 2
rank_main leave = 1
rank_main ended = 0

module _ (T : Transport) (P : Protocol) where
  abbrev pub measure : System T → ℕ
  measure s = rank_main s.main + rank1 s.th1.pc s.th1.i + rank2 s.th2.pc s.th2.i

  module _ (flag misused : Bool) (log : List Entry) (c1 c2 : T.Chan) (i1 : ℕ) (b1 : Packet) (i2 : ℕ)
      (b2 : Packet) where
    abbrev at : MainPc → Pc → Pc → System T
    at main pc1 pc2 = state T flag misused log c1 c2 main pc1 i1 b1 pc2 i2 b2

    thread1_falls :
        (main : MainPc) (pc1 pc2 : Pc) {t : System T}
        → Range1 pc1 i1
        → thread1_at T P pc1 (at main pc1 pc2) ≡ some t
        → measure t < measure (at main pc1 pc2)
    unfolding thread1_at
    thread1_falls main unborn pc2 r e = cc
    thread1_falls main _ pc2 r e = ground arith

    thread2_falls :
        (main : MainPc) (pc1 pc2 : Pc) {t : System T}
        → Range2 pc2 i2
        → thread2_at T P pc2 (at main pc1 pc2) ≡ some t
        → measure t < measure (at main pc1 pc2)
    unfolding thread2_at
    thread2_falls main pc1 unborn r e = cc
    thread2_falls main pc1 _ r e = ground arith

    main_falls :
        (main : MainPc) (pc1 pc2 : Pc) {t : System T} (t1 t2 : ℕ → Packet)
        → IsGood T P t1 t2 (at main pc1 pc2)
        → main_at T P main (at main pc1 pc2) ≡ some t
        → measure t < measure (at main pc1 pc2)
    unfolding main_at
    main_falls boot pc1 pc2 t1 t2 g e = ground arith
    main_falls create1 unborn pc2 t1 t2 g e = ground arith
    main_falls create1 _ pc2 t1 t2 g e = absurd g.staged.0
    main_falls create2 pc1 unborn t1 t2 g e = ground arith
    main_falls create2 pc1 _ t1 t2 g e = absurd g.staged.1
    main_falls join1 finished pc2 t1 t2 g e = ground arith
    main_falls join1 _ pc2 t1 t2 g e = cc
    main_falls join2 pc1 finished t1 t2 g e = ground arith
    main_falls join2 pc1 _ t1 t2 g e = cc
    main_falls leave pc1 pc2 t1 t2 g e = ground arith
    main_falls ended pc1 pc2 t1 t2 g e = cc

  pub move_falls :
      (m : Mover) (s : System T) {t : System T} (t1 t2 : ℕ → Packet)
      → IsGood T P t1 t2 s
      → move T P m s ≡ some t
      → measure t < measure s
  move_falls main_moves s t1 t2 g e =
      main_falls s.flag s.misused s.log s.chan1 s.chan2 s.th1.i s.th1.receive_buff s.th2.i
        s.th2.receive_buff s.main s.th1.pc s.th2.pc t1 t2 g e
  move_falls thread1_moves s t1 t2 g e =
      thread1_falls s.flag s.misused s.log s.chan1 s.chan2 s.th1.i s.th1.receive_buff s.th2.i
        s.th2.receive_buff s.main s.th1.pc s.th2.pc g.range1 e
  move_falls thread2_moves s t1 t2 g e =
      thread2_falls s.flag s.misused s.log s.chan1 s.chan2 s.th1.i s.th1.receive_buff s.th2.i
        s.th2.receive_buff s.main s.th1.pc s.th2.pc g.range2 e

  -- `n` steps of the threads, with no signal in between.
  pub data Turns : ℕ → System T → System T → Type 0 where
    stay : {s : System T} → Turns 0 s s
    onward :
        {n : ℕ} {s t u : System T} (m : Mover)
        → Turns n s t
        → move T P m t ≡ some u
        → Turns (suc n) s u

module _ (T : Transport) (P : Protocol) (t1 t2 : ℕ → Packet)
    (ways1 : Delivers T.capacity P.payload1 t1) (ways2 : Delivers T.capacity P.payload2 t2) where
  Turns-measure :
      {n : ℕ} {s t : System T}
      → Turns T P n s t
      → IsGood T P t1 t2 s
      → Kept T P t1 t2 ways1 ways2 t × (n + measure T P t ≤ measure T P s)
  Turns-measure stay g = (inl g, omega arith)
  Turns-measure (onward {t} m r e) g =
      let (kept, count) = Turns-measure r g in
      elim kept [
        | inl h ↦ (
          subst (After (Kept T P t1 t2 ways1 ways2)) e (move-Kept T P t1 t2 ways1 ways2 m t h),
          omega (arith, move_falls T P m t t1 t2 h e),
        )
        | inr c ↦ absurd (cc (complete-stuck T P t1 t2 m t c))
      ]

  -- At most 94 steps, in any order, before `main` has ended.
  pub Turns-bounded :
      {n : ℕ} (junk1 junk2 : Packet) {t : System T} → Turns T P n (start T P junk1 junk2) t → n ≤ 94
  Turns-bounded junk1 junk2 {t} r =
      let (_, count) = Turns-measure r (start-Good T P t1 t2 ways1 ways2 junk1 junk2) in
      omega (arith, count)

  pub stuck-IsComplete :
      {n : ℕ} (junk1 junk2 : Packet) {t : System T}
      → Turns T P n (start T P junk1 junk2) t
      → ((m : Mover) → move T P m t ≡ none)
      → IsComplete T P t1 t2 t
  stuck-IsComplete junk1 junk2 {t} r stuck =
      elim (Turns-measure r (start-Good T P t1 t2 ways1 ways2 junk1 junk2)).0 [
        | inr c ↦ c
        | inl g ↦
            let (m, moves) = progress T P t1 t2 ways1 ways2 t g in
            absurd (subst IsMove (stuck m) moves)
      ]
