-- ===== src/Pipes.antt =====
-- HW4_APES/PROBLEM2/ipc_pipes_thread/pipes.c: the exchange over two pipes. A record is 48 bytes, and
-- all writes and reads are of whole records, so a pipe is a sequence of records; it holds 65536 bytes.
pub mod Delivery
pub mod Killed
pub mod Tests
use advanced_practical_embed.Base.{ℕ, true, false, Option, List}
use advanced_practical_embed.Ipc.Packets.{Packet}
use advanced_practical_embed.Ipc.Messages.{t1, t2, records}
use advanced_practical_embed.Ipc.Transport.{Transport}
use advanced_practical_embed.Ipc.Exchange.{
  Protocol, System, MainPc, thread1_at, thread2_at, main_at, Signal,
}

-- `write(fd[1], &t[i], sizeof(t))`: the size is that of the array, ten records, wherever `i` is.
unfoldable pub written : (ℕ → Packet) → ℕ → List Packet
unfolding records
written t i = records t i 10

-- `main` leaves the pipes open.
abbrev pub pipes_protocol : (ℕ → Packet) → (ℕ → Packet) → Protocol
pipes_protocol beyond1 beyond2 = record {
  payload1 = written (t1 beyond1);
  payload2 = written (t2 beyond2);
  kill_closes = true;
  main_closes = false;
  accepts = false;
  assigns = false;
}

module _ (T : Transport) (beyond1 beyond2 : ℕ → Packet) where
  unfoldable pub thread1_handler : System T → Option (System T)
  thread1_handler s = thread1_at T (pipes_protocol beyond1 beyond2) s.th1.pc s

  unfoldable pub thread2_handler : System T → Option (System T)
  thread2_handler s = thread2_at T (pipes_protocol beyond1 beyond2) s.th2.pc s

  unfoldable pub main_thread : System T → Option (System T)
  main_thread s = main_at T (pipes_protocol beyond1 beyond2) s.main s
