-- ===== src/Queues.antt =====
-- HW4_APES/PROBLEM2/ipc_queues_thread/queues.c: the exchange over two message queues, which `main`
-- opens with room for ten messages each, closes and unlinks. They are empty at the start.
pub mod Delivery
pub mod Tests
use advanced_practical_embed.Base.{ℕ, true, false, Option, List, [], ◌∷◌}
use advanced_practical_embed.Ipc.Packets.{Packet}
use advanced_practical_embed.Ipc.Messages.{thread1_messages}
use advanced_practical_embed.Ipc.Exchange.Single.{single_protocol}
use advanced_practical_embed.Ipc.Transport.{Transport}
use advanced_practical_embed.Ipc.Exchange.{
  Protocol, System, MainPc, thread1_at, thread2_at, main_at, Signal,
}

-- `attr1.mq_maxmsg`
abbrev pub max_messages : ℕ
max_messages = 10

-- `mq_send(mqdes, &t[i], sizeof(thread1_cmd_t), 0)` is a write of one record. A killed handler closes
-- and unlinks its queue, and so does `main` at the end.
abbrev pub queues_protocol : (ℕ → Packet) → (ℕ → Packet) → Protocol
queues_protocol beyond1 beyond2 =
    single_protocol thread1_messages beyond1 beyond2 true true false false

module _ (T : Transport) (beyond1 beyond2 : ℕ → Packet) where
  unfoldable pub thread1_handler : System T → Option (System T)
  thread1_handler s = thread1_at T (queues_protocol beyond1 beyond2) s.th1.pc s

  unfoldable pub thread2_handler : System T → Option (System T)
  thread2_handler s = thread2_at T (queues_protocol beyond1 beyond2) s.th2.pc s

  unfoldable pub main_thread : System T → Option (System T)
  main_thread s = main_at T (queues_protocol beyond1 beyond2) s.main s
