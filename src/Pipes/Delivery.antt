-- ===== src/Pipes/Delivery.antt =====
-- Delivery over pipes: the oversized writes still hand over the ten messages in order, since only the
-- records of the first write are ever read.
use advanced_practical_embed.Base.{
  ℕ, zero, suc, ◌+◌, ◌*◌, ◌≤◌, ◌<◌, ◌≡◌, refl, ap, ◌∙◌, false, true, none, some, arith, length,
  length-append, get_elem?, take,
}
use advanced_practical_embed.Ipc.Packets.{Packet, one, two, heard}
use advanced_practical_embed.Ipc.Messages.{thread1_messages, thread2_messages, t1, t2, records}
use advanced_practical_embed.Ipc.Transport.{Transport}
use advanced_practical_embed.Ipc.Exchange.{
  System, start, Reach, move, ended, main_moves, thread1_moves, thread2_moves,
}
use advanced_practical_embed.Ipc.Exchange.Links.{Delivers, stream}
use advanced_practical_embed.Ipc.Exchange.Measure.{Turns, Turns-bounded}
use advanced_practical_embed.Ipc.Exchange.Results.{get_elem?-prefix, Reach-InOrder, Turns-complete}
use advanced_practical_embed.Pipes.{
  written, pipes_protocol, thread1_handler, thread2_handler, main_thread,
}

length-records : (t : ℕ → Packet) (i n : ℕ) → length (records t i n) ≡ n
unfolding records
length-records t i zero = refl
length-records t i (suc n) = ap suc (length-records t (suc i) n)

get_elem?-records :
    (t : ℕ → Packet) (i n r k : ℕ) → r < n → i + r ≡ k → get_elem? (records t i n) r ≡ some (t k)
unfolding records
get_elem?-records t i zero r k h e = absurd (omega arith)
get_elem?-records t i (suc n) zero k h e = let e' : i ≡ k = omega arith in rw e'
get_elem?-records t i (suc n) (suc r) k h e =
    get_elem?-records t (suc i) n r k (omega arith) (omega arith)

module _ (t : ℕ → Packet) where
  length-stream : (n : ℕ) → length (stream (written t) n) ≡ 10 * n
  unfolding stream written
  length-stream zero = refl
  length-stream (suc n) = omega (
    arith,
    length-append (stream (written t) n) (records t n 10),
    length-records t n 10,
    length-stream n,
  )

  written_in_order :
      (n r : ℕ)
      → r < 10
      → r < length (stream (written t) n)
      → get_elem? (stream (written t) n) r ≡ some (t r)
  unfolding stream written
  written_in_order zero r small h = absurd (omega arith)
  written_in_order (suc zero) r small h = get_elem?-records t 0 10 r r small (omega arith)
  written_in_order (suc (suc n)) r small h =
      let room : r < length (stream (written t) (suc n)) = omega (arith, length-stream (suc n)) in
      get_elem?-prefix (stream (written t) (suc n)) (written t (suc n)) r room
      ∙ written_in_order (suc n) r small room

  pub written-Delivers : (capacity : ℕ) → 100 ≤ capacity → Delivers capacity (written t) t
  written-Delivers capacity large = record {
    in_order = written_in_order;
    enough = λ n. omega (arith, length-stream n);
    room = λ n small. omega (arith, length-stream n);
  }

module _ (T : Transport) (large : 100 ≤ T.capacity) (beyond1 beyond2 : ℕ → Packet) where
  -- Over pipes with room for 4800 bytes, in any interleaving and before any signal, the log of thread
  -- 1 holds a beginning of thread 2's messages, in order, and that of thread 2 a beginning of thread
  -- 1's, whatever lies behind the arrays.
  pub pipes_in_order :
      (junk1 junk2 : Packet) (s : System T)
      → Reach T (pipes_protocol beyond1 beyond2) junk1 junk2 s
      → s.flag ≡ false
      → (n1 : ℕ) × (n2 : ℕ) × (heard one s.log ≡ take n1 thread2_messages)
        × (heard two s.log ≡ take n2 thread1_messages)
  unfolding t1 t2 thread1_messages
  pipes_in_order junk1 junk2 s r quiet =
      Reach-InOrder T (pipes_protocol beyond1 beyond2) thread1_messages refl beyond1 beyond2
        (written-Delivers (t1 beyond1) T.capacity large)
        (written-Delivers (t2 beyond2) T.capacity large) r quiet

  -- Over pipes with room for 4800 bytes, as long as no signal arrives, the threads and `main` make at
  -- most 94 steps, whichever of them moves when.
  pub pipes_bounded :
      {n : ℕ} (junk1 junk2 : Packet) (s : System T)
      → Turns T
          (pipes_protocol beyond1 beyond2)
          n
          (start T (pipes_protocol beyond1 beyond2) junk1 junk2)
          s
      → n ≤ 94
  pipes_bounded junk1 junk2 s r =
      Turns-bounded T (pipes_protocol beyond1 beyond2) (t1 beyond1) (t2 beyond2)
        (written-Delivers (t1 beyond1) T.capacity large)
        (written-Delivers (t2 beyond2) T.capacity large) junk1 junk2 r

  -- Over pipes with room for 4800 bytes, where no signal has arrived and neither `main` nor a
  -- thread can move, `main` has ended and each thread has logged all ten messages of the other, in
  -- order; and thread 2 has written its last line to a stream that it had already closed, which is
  -- taken to do no other harm.
  pub pipes_complete :
      {n : ℕ} (junk1 junk2 : Packet) (s : System T)
      → Turns T
          (pipes_protocol beyond1 beyond2)
          n
          (start T (pipes_protocol beyond1 beyond2) junk1 junk2)
          s
      → main_thread T beyond1 beyond2 s ≡ none
      → thread1_handler T beyond1 beyond2 s ≡ none
      → thread2_handler T beyond1 beyond2 s ≡ none
      → (s.main ≡ ended)
        × (heard one s.log ≡ thread2_messages)
        × (heard two s.log ≡ thread1_messages)
        × (s.misused ≡ true)
  unfolding t1 t2 thread1_messages main_thread thread1_handler thread2_handler
  pipes_complete junk1 junk2 s r m h1 h2 =
      Turns-complete T (pipes_protocol beyond1 beyond2) thread1_messages refl beyond1 beyond2
        (written-Delivers (t1 beyond1) T.capacity large)
        (written-Delivers (t2 beyond2) T.capacity large) junk1 junk2 r
        (λ v. elim v as (λ v. move T (pipes_protocol beyond1 beyond2) v s ≡ none) [
          | main_moves ↦ m
          | thread1_moves ↦ h1
          | thread2_moves ↦ h2
        ])
