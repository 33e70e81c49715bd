-- ===== src/Sockets/Delivery.antt =====
-- Delivery over a connection, and the lockstep of the two threads.
use advanced_practical_embed.Base.{ℕ, ◌+◌, ◌≤◌, ◌≡◌, refl, true, false, none, length, take}
use advanced_practical_embed.Ipc.Packets.{LedCmd, Packet, one, two, heard}
use advanced_practical_embed.Ipc.Messages.{sockets_messages, thread2_messages, nth, t2}
use advanced_practical_embed.Ipc.Transport.{Transport}
use advanced_practical_embed.Ipc.Exchange.{
  System, start, Reach, move, ended, main_moves, thread1_moves, thread2_moves,
}
use advanced_practical_embed.Ipc.Exchange.Measure.{Turns}
use advanced_practical_embed.Ipc.Exchange.Results.{Turns-complete}
use advanced_practical_embed.Ipc.Exchange.Single.{
  single-Delivers, single_logged, single_bounded, single_lockstep,
}
use advanced_practical_embed.Sockets.{
  sockets_protocol, thread1_handler, thread2_handler, main_thread,
}

module _ (T : Transport) (large : 10 ≤ T.capacity) (unset8 unset9 : LedCmd)
    (beyond1 beyond2 : ℕ → Packet) where
  -- Over a connection with room for ten records, in any interleaving and before any signal, the log of thread
  -- 1 holds a beginning of thread 2's messages, in order, and that of thread 2 a beginning of thread
  -- 1's, whatever lies behind the arrays.
  pub sockets_in_order :
      (junk1 junk2 : Packet) (s : System T)
      → Reach T (sockets_protocol unset8 unset9 beyond1 beyond2) junk1 junk2 s
      → s.flag ≡ false
      → (n1 : ℕ) × (n2 : ℕ) × (heard one s.log ≡ take n1 thread2_messages)
        × (heard two s.log ≡ take n2 (sockets_messages unset8 unset9))
  unfolding t2 sockets_messages
  sockets_in_order junk1 junk2 s r quiet =
      single_logged T large (sockets_messages unset8 unset9) refl beyond1 beyond2 false true true
        true junk1 junk2 s r quiet

  -- Over a connection with room for ten records, as long as no signal arrives, the threads and `main` make at
  -- most 94 steps, whichever of them moves when.
  pub sockets_bounded :
      {n : ℕ} (junk1 junk2 : Packet) (s : System T)
      → Turns T
          (sockets_protocol unset8 unset9 beyond1 beyond2)
          n
          (start T (sockets_protocol unset8 unset9 beyond1 beyond2) junk1 junk2)
          s
      → n ≤ 94
  unfolding sockets_messages
  sockets_bounded junk1 junk2 s r =
      single_bounded T large (sockets_messages unset8 unset9) refl beyond1 beyond2 false true true
        true junk1 junk2 s r

  -- Over a connection with room for ten records, where no signal has arrived and neither `main` nor
  -- a thread can move, `main` has ended and each thread has logged all ten messages of the other,
  -- in order, where thread 1's last two go out with whatever command their memory held; and thread 2
  -- has used no stream that it had closed.
  pub sockets_complete :
      {n : ℕ} (junk1 junk2 : Packet) (s : System T)
      → Turns T
          (sockets_protocol unset8 unset9 beyond1 beyond2)
          n
          (start T (sockets_protocol unset8 unset9 beyond1 beyond2) junk1 junk2)
          s
      → main_thread T unset8 unset9 beyond1 beyond2 s ≡ none
      → thread1_handler T unset8 unset9 beyond1 beyond2 s ≡ none
      → thread2_handler T unset8 unset9 beyond1 beyond2 s ≡ none
      → (s.main ≡ ended)
        × (heard one s.log ≡ thread2_messages)
        × (heard two s.log ≡ sockets_messages unset8 unset9)
        × (s.misused ≡ false)
  unfolding t2 sockets_messages main_thread thread1_handler thread2_handler
  sockets_complete junk1 junk2 s r m h1 h2 =
      Turns-complete T (sockets_protocol unset8 unset9 beyond1 beyond2)
        (sockets_messages unset8 unset9) refl beyond1 beyond2
        (single-Delivers (nth (sockets_messages unset8 unset9) beyond1) T.capacity large)
        (single-Delivers (t2 beyond2) T.capacity large) junk1 junk2 r
        (λ v. elim v as (λ v. move T (sockets_protocol unset8 unset9 beyond1 beyond2) v s ≡ none) [
          | main_moves ↦ m
          | thread1_moves ↦ h1
          | thread2_moves ↦ h2
        ])

  -- Over a connection with room for ten records and before any signal, the threads stay in lockstep:
  -- thread 1 has not logged more acknowledgements than thread 2 has logged messages, and thread 2 is
  -- ahead by at most one message.
  pub sockets_lockstep :
      (junk1 junk2 : Packet) (s : System T)
      → Reach T (sockets_protocol unset8 unset9 beyond1 beyond2) junk1 junk2 s
      → s.flag ≡ false
      → (length (heard one s.log) ≤ length (heard two s.log))
        × (length (heard two s.log) ≤ length (heard one s.log) + 1)
  unfolding sockets_messages
  sockets_lockstep junk1 junk2 s r quiet =
      single_lockstep T large (sockets_messages unset8 unset9) refl beyond1 beyond2 false true true
        true junk1 junk2 s r quiet
