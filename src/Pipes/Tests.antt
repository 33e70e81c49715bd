-- ===== src/Pipes/Tests.antt =====
-- The exchange run to its end over a channel that behaves as the manual says.
use advanced_practical_embed.Base.{
  ℕ, ◌≤◌, ◌≡◌, refl, false, true, arith, take, none, inl, inr, Option-cases,
}
use advanced_practical_embed.Ipc.Packets.{Packet, one, two, heard}
use advanced_practical_embed.Ipc.Messages.{thread1_messages, thread2_messages, t1, t2}
use advanced_practical_embed.Ipc.Exchange.{
  ended, thread1_at, thread2_at, main_at, start, System, Reach, begin, next, turn, signal, sigint,
  kill_thread_handler, Mover, move, main_moves, thread1_moves, thread2_moves,
}
use advanced_practical_embed.Ipc.Fifo.{fifo, junk, course, Course, put, take_from}
use advanced_practical_embed.Pipes.{
  written, pipes_protocol, thread1_handler, thread2_handler, main_thread,
}
use advanced_practical_embed.Pipes.Killed.{pipes_killed}
use advanced_practical_embed.Pipes.Delivery.{pipes_in_order, pipes_bounded, pipes_complete}

abbrev beyond : ℕ → Packet
beyond i = junk

-- the threads in the middle of the exchange, and at its end
abbrev midway : Course (pipes_protocol beyond beyond)
midway = course (pipes_protocol beyond beyond) 12

abbrev end : Course (pipes_protocol beyond beyond)
end = course (pipes_protocol beyond beyond) 80

midway_quiet : midway.last.flag ≡ false
unfolding course thread1_at thread2_at main_at put take_from t1 t2 written
midway_quiet = refl

end_quiet : end.last.flag ≡ false
unfolding course thread1_at thread2_at main_at put take_from t1 t2 written
end_quiet = refl

end_steps : end.steps ≡ 90
unfolding course thread1_at thread2_at main_at put take_from t1 t2 written
end_steps = refl

end_main : main_thread fifo beyond beyond end.last ≡ none
unfolding main_thread course thread1_at thread2_at main_at put take_from t1 t2 written
end_main = refl

end_thread1 : thread1_handler fifo beyond beyond end.last ≡ none
unfolding thread1_handler course thread1_at thread2_at main_at put take_from t1 t2 written
end_thread1 = refl

end_thread2 : thread2_handler fifo beyond beyond end.last ≡ none
unfolding thread2_handler course thread1_at thread2_at main_at put take_from t1 t2 written
end_thread2 = refl

pipes_in_order_example :
    (n1 : ℕ) × (n2 : ℕ) × (heard one midway.last.log ≡ take n1 thread2_messages)
    × (heard two midway.last.log ≡ take n2 thread1_messages)
pipes_in_order_example =
    pipes_in_order fifo (omega arith) beyond beyond junk junk midway.last midway.reach midway_quiet

pipes_bounded_example : end.steps ≤ 94
pipes_bounded_example = pipes_bounded fifo (omega arith) beyond beyond junk junk end.last end.turns

pipes_complete_example :
    (end.last.main ≡ ended)
    × (heard one end.last.log ≡ thread2_messages)
    × (heard two end.last.log ≡ thread1_messages)
    × (end.last.misused ≡ true)
pipes_complete_example =
    pipes_complete fifo (omega arith) beyond beyond junk junk end.last end.turns end_main
      end_thread1 end_thread2

record Trace : Type 0 where
  last : System fifo
  reach : Reach fifo (pipes_protocol beyond beyond) junk junk last

goes : Mover → Trace → Trace
goes m c = elim (Option-cases (move fifo (pipes_protocol beyond beyond) m c.last)) [
  | inl _ ↦ c
  | inr (t, e) ↦ record { last = t; reach = next c.reach (turn m e) }
]

-- Thread 1 waits in its read; thread 2 has read, and SIGINT arrives before it writes its answer.
abbrev interrupted : Trace
unfolding goes Option-cases kill_thread_handler
interrupted =
    let created = goes main_moves (
      goes main_moves (
        goes main_moves (record {
          last = start fifo (pipes_protocol beyond beyond) junk junk;
          reach = begin;
        }))) in
    let sent = goes thread1_moves (goes thread1_moves (goes thread1_moves created)) in
    let read = goes thread2_moves (goes thread2_moves (goes thread2_moves sent)) in
    record { last = record read.last { flag = true }; reach = next read.reach (signal sigint) }

abbrev killed_off : Trace
unfolding goes Option-cases
killed_off =
    let answered = goes thread2_moves (goes thread2_moves (goes thread2_moves interrupted)) in
    let done_reading = goes thread1_moves (goes thread1_moves (goes thread1_moves answered)) in
    goes main_moves (goes main_moves (goes main_moves done_reading))

pipes_killed_example : killed_off.last.main ≡ ended
unfolding thread1_handler thread2_handler main_thread thread1_at thread2_at main_at put take_from t1
    t2 written interrupted killed_off
pipes_killed_example =
    pipes_killed fifo beyond beyond junk junk killed_off.last (omega arith) killed_off.reach refl
      refl refl refl
