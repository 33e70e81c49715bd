-- ===== src/Sockets/Hanging.antt =====
-- Thread 1 in its `recv`, and `main`, once thread 2 has ended.
use advanced_practical_embed.Base.{ℕ, ◌≡◌, true, []}
use advanced_practical_embed.Ipc.Packets.{LedCmd, Packet}
use advanced_practical_embed.Ipc.Transport.{Transport}
use advanced_practical_embed.Ipc.Exchange.{Pc, sending, receiving, finished, join1, System}

-- Thread 1 is in its `send` or in the `recv` behind it.
abbrev pub IsTalking : Pc → Type 0
IsTalking sending = Unit
IsTalking receiving = Unit
IsTalking _ = ⊥

module _ (T : Transport) (unset8 unset9 : LedCmd) (beyond1 beyond2 : ℕ → Packet) where
  record Hangs (s : System T) : Type 0 where
    gone : s.th2.pc ≡ finished
    joining : s.main ≡ join1
    opened : T.is_open s.chan2 ≡ true
    empty : T.contents s.chan2 ≡ []
    talking : IsTalking s.th1.pc
