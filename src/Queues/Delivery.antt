-- ===== src/Queues/Delivery.antt =====
-- Delivery over message queues, and the lockstep of the two threads.
use advanced_practical_embed.Base.{ℕ, ◌+◌, ◌≤◌, ◌≡◌, refl, true, false, none, length, take}
use advanced_practical_embed.Ipc.Packets.{Packet, one, two, heard}
use advanced_practical_embed.Ipc.Messages.{thread1_messages, thread2_messages, nth, t2}
use advanced_practical_embed.Ipc.Transport.{Transport}
use advanced_practical_embed.Ipc.Exchange.{
  System, start, Reach, move, ended, main_moves, thread1_moves, thread2_moves,
}
use advanced_practical_embed.Ipc.Exchange.Measure.{Turns}
use advanced_practical_embed.Ipc.Exchange.Results.{Turns-complete}
use advanced_practical_embed.Ipc.Exchange.Single.{
  single-Delivers, single_logged, single_bounded, single_lockstep,
}
use advanced_practical_embed.Queues.{
  max_messages, queues_protocol, thread1_handler, thread2_handler, main_thread,
}

module _ (T : Transport) (large : max_messages ≤ T.capacity) (beyond1 beyond2 : ℕ → Packet) where
  -- Over queues with room for ten messages, in any interleaving and before any signal, the log of thread
  -- 1 holds a beginning of thread 2's messages, in order, and that of thread 2 a beginning of thread
  -- 1's, whatever lies behind the arrays.
  pub queues_in_order :
      (junk1 junk2 : Packet) (s : System T)
      → Reach T (queues_protocol beyond1 beyond2) junk1 junk2 s
      → s.flag ≡ false
      → (n1 : ℕ) × (n2 : ℕ) × (heard one s.log ≡ take n1 thread2_messages)
        × (heard two s.log ≡ take n2 thread1_messages)
  unfolding t2 thread1_messages
  queues_in_order junk1 junk2 s r quiet =
      single_logged T large thread1_messages refl beyond1 beyond2 true true false false junk1 junk2
        s r quiet

  -- Over queues with room for ten messages, as long as no signal arrives, the threads and `main` make at
  -- most 94 steps, whichever of them moves when.
  pub queues_bounded :
      {n : ℕ} (junk1 junk2 : Packet) (s : System T)
      → Turns T
          (queues_protocol beyond1 beyond2)
          n
          (start T (queues_protocol beyond1 beyond2) junk1 junk2)
          s
      → n ≤ 94
  unfolding thread1_messages
  queues_bounded junk1 junk2 s r =
      single_bounded T large thread1_messages refl beyond1 beyond2 true true false false junk1 junk2
        s r

  -- Over queues with room for ten messages, where no signal has arrived and neither `main` nor a
  -- thread can move, `main` has ended and each thread has logged all ten messages of the other, in
  -- order; and thread 2 has written its last line to a stream that it had already closed, which is
  -- taken to do no other harm.
  pub queues_complete :
      {n : ℕ} (junk1 junk2 : Packet) (s : System T)
      → Turns T
          (queues_protocol beyond1 beyond2)
          n
          (start T (queues_protocol beyond1 beyond2) junk1 junk2)
          s
      → main_thread T beyond1 beyond2 s ≡ none
      → thread1_handler T beyond1 beyond2 s ≡ none
      → thread2_handler T beyond1 beyond2 s ≡ none
      → (s.main ≡ ended)
        × (heard one s.log ≡ thread2_messages)
        × (heard two s.log ≡ thread1_messages)
        × (s.misused ≡ true)
  unfolding t2 thread1_messages main_thread thread1_handler thread2_handler
  queues_complete junk1 junk2 s r m h1 h2 =
      Turns-complete T (queues_protocol beyond1 beyond2) thread1_messages refl beyond1 beyond2
        (single-Delivers (nth thread1_messages beyond1) T.capacity large)
        (single-Delivers (t2 beyond2) T.capacity large) junk1 junk2 r
        (λ v. elim v as (λ v. move T (queues_protocol beyond1 beyond2) v s ≡ none) [
          | main_moves ↦ m
          | thread1_moves ↦ h1
          | thread2_moves ↦ h2
        ])

  -- Over queues with room for ten messages and before any signal, the threads stay in lockstep:
  -- thread 1 has not logged more acknowledgements than thread 2 has logged messages, and thread 2 is
  -- ahead by at most one message.
  pub queues_lockstep :
      (junk1 junk2 : Packet) (s : System T)
      → Reach T (queues_protocol beyond1 beyond2) junk1 junk2 s
      → s.flag ≡ false
      → (length (heard one s.log) ≤ length (heard two s.log))
        × (length (heard two s.log) ≤ length (heard one s.log) + 1)
  unfolding thread1_messages
  queues_lockstep junk1 junk2 s r quiet =
      single_lockstep T large thread1_messages refl beyond1 beyond2 true true false false junk1
        junk2 s r quiet
