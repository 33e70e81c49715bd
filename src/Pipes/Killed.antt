-- ===== src/Pipes/Killed.antt =====
-- The exchange over pipes after SIGINT: a killed handler closes both ends of its pipe, so that a reader
-- that waits there gets the end of the file.
use advanced_practical_embed.Base.{ℕ, ◌≤◌, ◌≡◌, refl, true, none}
use advanced_practical_embed.Ipc.Packets.{Packet}
use advanced_practical_embed.Ipc.Messages.{t1, t2}
use advanced_practical_embed.Ipc.Transport.{Transport}
use advanced_practical_embed.Ipc.Exchange.{
  System, Reach, move, ended, main_moves, thread1_moves, thread2_moves,
}
use advanced_practical_embed.Ipc.Exchange.Signalled.Ends.{Reach-Sound}
use advanced_practical_embed.Ipc.Exchange.Signalled.Stuck.{stuck-ended}
use advanced_practical_embed.Pipes.{pipes_protocol, thread1_handler, thread2_handler, main_thread}
use advanced_practical_embed.Pipes.Delivery.{written-Delivers}

-- Over pipes with room for 4800 bytes, after SIGINT, whichever waiting call it has broken off: where
-- neither `main` nor a thread can move, `main` has ended.
pub pipes_killed :
    (T : Transport) (beyond1 beyond2 : ℕ → Packet) (junk1 junk2 : Packet) (s : System T)
    → 100 ≤ T.capacity
    → Reach T (pipes_protocol beyond1 beyond2) junk1 junk2 s
    → s.flag ≡ true
    → main_thread T beyond1 beyond2 s ≡ none
    → thread1_handler T beyond1 beyond2 s ≡ none
    → thread2_handler T beyond1 beyond2 s ≡ none
    → s.main ≡ ended
unfolding main_thread thread1_handler thread2_handler
pipes_killed T beyond1 beyond2 junk1 junk2 s large r f m h1 h2 =
    let P = pipes_protocol beyond1 beyond2 in
    let ways1 = written-Delivers (t1 beyond1) T.capacity large in
    let ways2 = written-Delivers (t2 beyond2) T.capacity large in
    stuck-ended T P (t1 beyond1) (t2 beyond2) ways1 ways2 refl refl s
      (Reach-Sound T P (t1 beyond1) (t2 beyond2) ways1 ways2 refl refl r) f
      (λ v. elim v as (λ v. move T P v s ≡ none) [
        | main_moves ↦ m
        | thread1_moves ↦ h1
        | thread2_moves ↦ h2
      ])
