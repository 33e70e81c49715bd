-- ===== src/Ipc/Exchange/Keeps/Parts.antt =====
-- A state by its parts, so that a proof can match on the position of a thread.
use advanced_practical_embed.Base.{ℕ, ◌≡◌, ◌≢◌, Bool, true, false, List, arith, ◌==◌}
use advanced_practical_embed.Ipc.Packets.{Packet, Entry}
use advanced_practical_embed.Ipc.Transport.{Transport}
use advanced_practical_embed.Ipc.Exchange.{Pc, MainPc, System}

pub ==-eq : (a b : ℕ) → a ≡ b → (a == b) ≡ true
==-eq a b h = ground arith

pub ==-ne : (a b : ℕ) → a ≢ b → (a == b) ≡ false
==-ne a b h = ground arith

module _ (T : Transport) where
  abbrev pub state :
      Bool
      → Bool
      → List Entry
      → T.Chan
      → T.Chan
      → MainPc
      → Pc
      → ℕ
      → Packet
      → Pc
      → ℕ
      → Packet
      → System T
  state flag misused log c1 c2 main pc1 i1 b1 pc2 i2 b2 = record {
    flag = flag;
    misused = misused;
    log = log;
    chan1 = c1;
    chan2 = c2;
    main = main;
    th1 = record { pc = pc1; i = i1; receive_buff = b1 };
    th2 = record { pc = pc2; i = i2; receive_buff = b2 };
  }
