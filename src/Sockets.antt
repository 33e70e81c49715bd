-- ===== src/Sockets.antt =====
-- HW4_APES/PROBLEM2/ipc_sockets_thread/sockets.c: the exchange over a TCP connection within one host.
-- Thread 1 binds, listens and accepts before its first log line; thread 2 connects before its own.
-- That thread 2's `connect` finds thread 1 listening (`main` sleeps three seconds between the two
-- creations) is assumed, and so is that a `recv` delivers a whole record of 48 bytes.
pub mod Delivery
pub mod Hanging
pub mod Tests
use advanced_practical_embed.Base.{ℕ, true, false, Option, List, [], ◌∷◌}
use advanced_practical_embed.Ipc.Packets.{LedCmd, Packet}
use advanced_practical_embed.Ipc.Messages.{sockets_messages}
use advanced_practical_embed.Ipc.Exchange.Single.{single_protocol}
use advanced_practical_embed.Ipc.Transport.{Transport}
use advanced_practical_embed.Ipc.Exchange.{
  Protocol, System, MainPc, thread1_at, thread2_at, main_at, Signal,
}

-- `send(socket, &t[i], sizeof(thread1_cmd_t), 0)` is a write of one record. `unset8` and `unset9` are the
-- commands of `t1[8]` and `t1[9]`, which the handler never sets. A killed handler leaves the connection
-- open; `main` closes both ends.
abbrev pub sockets_protocol : LedCmd → LedCmd → (ℕ → Packet) → (ℕ → Packet) → Protocol
sockets_protocol unset8 unset9 beyond1 beyond2 =
    single_protocol (sockets_messages unset8 unset9) beyond1 beyond2 false true true true

module _ (T : Transport) (unset8 unset9 : LedCmd) (beyond1 beyond2 : ℕ → Packet) where
  unfoldable pub thread1_handler : System T → Option (System T)
  thread1_handler s = thread1_at T (sockets_protocol unset8 unset9 beyond1 beyond2) s.th1.pc s

  unfoldable pub thread2_handler : System T → Option (System T)
  thread2_handler s = thread2_at T (sockets_protocol unset8 unset9 beyond1 beyond2) s.th2.pc s

  unfoldable pub main_thread : System T → Option (System T)
  main_thread s = main_at T (sockets_protocol unset8 unset9 beyond1 beyond2) s.main s
