-- ===== src/Ipc/Exchange/Signalled.antt =====
-- What holds in every state, also after signals, where a killed handler closes its channel and thread 1
-- has no connection to accept; and that each step keeps it.
pub mod One
pub mod Two
pub mod Ends
pub mod Stuck
use advanced_practical_embed.Base.{
  After, ℕ, zero, suc, ◌≤◌, ◌<◌, ◌≡◌, refl, ◌⊎◌, inl, inr, Bool, true, false, List, [], ◌∷◌, ◌++◌,
  arith, Bool-cases, ◌==◌, none, some, Option,
}
use advanced_practical_embed.Ipc.Packets.{Packet, Entry}
use advanced_practical_embed.Ipc.Transport.{Transport}
use advanced_practical_embed.Ipc.Exchange.{
  Pc, unborn, entry, head, sending, receiving, report, finished, MainPc, boot, create1, create2,
  join1, join2, leave, ended, Protocol, System, thread1_at, thread2_at, main_at, interrupt1,
  interrupt2,
}
use advanced_practical_embed.Ipc.Exchange.Links.{Delivers}
use advanced_practical_embed.Ipc.Exchange.Flow.{
  OpenFlow, OpenFlow-closed, OpenFlow-later, OpenFlow-send, OpenFlow-receive,
}
use advanced_practical_embed.Ipc.Exchange.Stages.{sent1, read2, Staged, Staged-one, Staged-two}
use advanced_practical_embed.Ipc.Exchange.Keeps.Parts.{state, ==-eq, ==-ne}

abbrev pub In1 : Pc → ℕ → Type 0
In1 sending i = i < 10
In1 receiving i = i < 10
In1 _ i = i ≤ 10

abbrev pub In2 : Pc → ℕ → Type 0
In2 sending i = i < 10
In2 receiving i = i < 10
In2 report i = i < 10
In2 _ i = i ≤ 10

module _ (T : Transport) where
  -- A handler that has ended has done all its rounds or closed its channel.
  abbrev pub Over : Pc → ℕ → T.Chan → Type 0
  Over finished i c = (i ≡ 10) ⊎ (T.is_open c ≡ false)
  Over _ i c = Unit

  pub record Sound (P : Protocol) (s : System T) : Type 0 where
    pub staged : Staged s.main s.th1.pc s.th2.pc
    pub in1 : In1 s.th1.pc s.th1.i
    pub in2 : In2 s.th2.pc s.th2.i
    pub there : OpenFlow T P.payload1 s.chan1 (sent1 s.th1.pc s.th1.i) (read2 s.th2.pc s.th2.i)
    pub back : OpenFlow T P.payload2 s.chan2 s.th2.i s.th1.i
    pub over1 : Over s.th1.pc s.th1.i s.chan1
    pub over2 : Over s.th2.pc s.th2.i s.chan2

  -- What is taken from an open channel does not matter to it.
  pub Over-open :
      (pc : Pc) (i : ℕ) (c c' : T.Chan) → T.is_open c ≡ true → Over pc i c → Over pc i c'
  Over-open finished i c c' o (inl all) = inl all
  Over-open finished i c c' o (inr shut) = cc
  Over-open unborn i c c' o h = tt
  Over-open _ i c c' o h = tt
