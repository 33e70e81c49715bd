-- ===== src/Ipc/Exchange/Progress.antt =====
-- Until `main` has ended, some thread can move.
use advanced_practical_embed.Base.{
  ℕ, ◌≤◌, ◌≡◌, refl, ◌⊎◌, inl, inr, Bool, List, Option, none, some, arith, ℕ_discrete, Bool-cases,
  ◌&&◌, not, false,
}
use advanced_practical_embed.Ipc.Packets.{Packet, Entry}
use advanced_practical_embed.Ipc.Transport.{Transport}
use advanced_practical_embed.Ipc.Exchange.{
  Pc, unborn, entry, head, sending, receiving, report, finished, MainPc, join1, join2, ended,
  Protocol, System, connected, thread1_at, thread2_at, main_at, move, Mover, main_moves,
  thread1_moves, thread2_moves,
}
use advanced_practical_embed.Ipc.Exchange.Links.{Delivers, Link-send, Link-receive}
use advanced_practical_embed.Ipc.Exchange.Stages.{IsGood, IsAlive, sent1}
use advanced_practical_embed.Ipc.Exchange.Keeps.Parts.{state, ==-eq, ==-ne}

-- There is a step.
abbrev pub IsMove {ℓ} : {A : Type ℓ} → Option A → Type 0
IsMove none = ⊥
IsMove (some _) = Unit

module _ (T : Transport) (P : Protocol) where
  abbrev pub Moves : Mover → System T → Type 0
  Moves m s = IsMove (move T P m s)

module _ (T : Transport) (P : Protocol) (t1 t2 : ℕ → Packet)
    (ways1 : Delivers T.capacity P.payload1 t1) (ways2 : Delivers T.capacity P.payload2 t2) where
  module _ (flag misused : Bool) (log : List Entry) (c1 c2 : T.Chan) (i1 : ℕ) (b1 : Packet) (i2 : ℕ)
      (b2 : Packet) where
    abbrev at : MainPc → Pc → Pc → System T
    at main pc1 pc2 = state T flag misused log c1 c2 main pc1 i1 b1 pc2 i2 b2

    -- Thread 1 moves, or waits for what thread 2 has not sent yet.
    thread1_progress :
        (main : MainPc) (pc1 pc2 : Pc)
        → IsGood T P t1 t2 (at main pc1 pc2)
        → IsAlive pc1
        → Moves T P thread1_moves (at main pc1 pc2)
          ⊎ ((pc1 ≡ receiving) × (i2 ≤ i1))
          ⊎ ((pc1 ≡ entry) × (connected pc2 ≡ false))
    unfolding thread1_at
    thread1_progress main unborn pc2 g h = absurd h
    thread1_progress main entry pc2 g h = elim (Bool-cases (P.accepts && not (connected pc2))) [
      | inl wait ↦ inr (inr (refl, ground arith))
      | inr ready ↦ inl (rw (ready, IsMove) tt)
    ]
    thread1_progress main head pc2 g h = elim (ℕ_discrete i1 10) [
      | yes e ↦ inl (rw (g.quiet, ==-eq i1 10 e, IsMove) tt)
      | no e ↦ inl (rw (g.quiet, ==-ne i1 10 e, IsMove) tt)
    ]
    thread1_progress main sending pc2 g h =
        let (c', sent, _) = Link-send T P.payload1 t1 ways1 c1 i1 _ g.there g.range1 in
        inl (rw (sent, IsMove) tt)
    thread1_progress main receiving pc2 g h =
        elim (Link-receive T P.payload2 t2 ways2 c2 i2 i1 g.back g.range1) [
          | inl (_, all) ↦ inr (inl (refl, omega (arith, ways2.enough i2)))
          | inr (c', got, _) ↦ inl (rw (got, IsMove) tt)
        ]
    thread1_progress main report pc2 g h = inl tt
    thread1_progress main finished pc2 g h = absurd h

    thread2_progress :
        (main : MainPc) (pc1 pc2 : Pc)
        → IsGood T P t1 t2 (at main pc1 pc2)
        → IsAlive pc2
        → Moves T P thread2_moves (at main pc1 pc2) ⊎ ((pc2 ≡ receiving) × (sent1 pc1 i1 ≤ i2))
    unfolding thread2_at
    thread2_progress main pc1 unborn g h = absurd h
    thread2_progress main pc1 entry g h = inl tt
    thread2_progress main pc1 head g h = elim (ℕ_discrete i2 10) [
      | yes e ↦ inl (rw (g.quiet, ==-eq i2 10 e, IsMove) tt)
      | no e ↦ inl (rw (g.quiet, ==-ne i2 10 e, IsMove) tt)
    ]
    thread2_progress main pc1 receiving g h =
        elim (Link-receive T P.payload1 t1 ways1 c1 (sent1 pc1 i1) i2 g.there g.range2) [
          | inl (_, all) ↦ inr (refl, omega (arith, ways1.enough (sent1 pc1 i1)))
          | inr (c', got, _) ↦ inl (rw (got, IsMove) tt)
        ]
    thread2_progress main pc1 report g h = inl tt
    thread2_progress main pc1 sending g h =
        let (c', sent, _) = Link-send T P.payload2 t2 ways2 c2 i2 i1 g.back g.range2 in
        inl (rw (sent, IsMove) tt)
    thread2_progress main pc1 finished g h = absurd h

    abbrev SomeMove : System T → Type 0
    SomeMove s = (m : Mover) × Moves T P m s

    -- While thread 1 waits, thread 2 can move.
    while_waiting1 :
        (pc2 : Pc)
        → IsGood T P t1 t2 (at join1 receiving pc2)
        → i2 ≤ i1
        → SomeMove (at join1 receiving pc2)
    while_waiting1 unborn g h = absurd g.staged.1
    while_waiting1 finished g h = absurd (omega (arith, g.range1, g.range2))
    while_waiting1 pc2 g h = elim (thread2_progress join1 receiving pc2 g tt) [
      | inl moves ↦ (thread2_moves, moves)
      | inr (e, waits) ↦ absurd (omega (arith, g.range1))
    ]

    join1_progress :
        (pc1 pc2 : Pc) → IsGood T P t1 t2 (at join1 pc1 pc2) → SomeMove (at join1 pc1 pc2)
    unfolding main_at thread2_at
    join1_progress unborn pc2 g = absurd g.staged.0
    join1_progress finished pc2 g = (main_moves, tt)
    join1_progress receiving pc2 g = elim (thread1_progress join1 receiving pc2 g tt) [
      | inl moves ↦ (thread1_moves, moves)
      | inr (inl (_, waits)) ↦ while_waiting1 pc2 g waits
      | inr (inr (e, _)) ↦ absurd cc
    ]
    join1_progress entry unborn g = absurd g.staged.1
    join1_progress entry entry g = (thread2_moves, tt)
    join1_progress entry pc2 g = elim (thread1_progress join1 entry pc2 g tt) [
      | inl moves ↦ (thread1_moves, moves)
      | inr (inl (e, _)) ↦ absurd cc
      | inr (inr (_, waits)) ↦ absurd cc
    ]
    join1_progress pc1 pc2 g = elim (thread1_progress join1 pc1 pc2 g tt) [
      | inl moves ↦ (thread1_moves, moves)
      | inr (inl (e, _)) ↦ absurd cc
      | inr (inr (e, _)) ↦ absurd cc
    ]

    join2_progress :
        (pc1 pc2 : Pc) → IsGood T P t1 t2 (at join2 pc1 pc2) → SomeMove (at join2 pc1 pc2)
    unfolding main_at
    join2_progress finished unborn g = absurd g.staged.1
    join2_progress finished finished g = (main_moves, tt)
    join2_progress finished receiving g = elim (thread2_progress join2 finished receiving g tt) [
      | inl moves ↦ (thread2_moves, moves)
      | inr (_, waits) ↦ absurd (omega (arith, g.range1, g.range2))
    ]
    join2_progress finished pc2 g = elim (thread2_progress join2 finished pc2 g tt) [
      | inl moves ↦ (thread2_moves, moves)
      | inr (e, _) ↦ absurd cc
    ]
    join2_progress _ pc2 g = absurd g.staged.0

    main_progress :
        (main : MainPc) (pc1 pc2 : Pc)
        → IsGood T P t1 t2 (at main pc1 pc2)
        → SomeMove (at main pc1 pc2)
    unfolding main_at
    main_progress join1 pc1 pc2 g = join1_progress pc1 pc2 g
    main_progress join2 pc1 pc2 g = join2_progress pc1 pc2 g
    main_progress ended pc1 pc2 g = absurd (g.running refl)
    main_progress _ pc1 pc2 g = (main_moves, tt)

  pub progress : (s : System T) → IsGood T P t1 t2 s → (m : Mover) × Moves T P m s
  progress s g =
      main_progress s.flag s.misused s.log s.chan1 s.chan2 s.th1.i s.th1.receive_buff s.th2.i
        s.th2.receive_buff s.main s.th1.pc s.th2.pc g
