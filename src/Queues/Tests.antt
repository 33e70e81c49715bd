-- ===== src/Queues/Tests.antt =====
-- The exchange run to its end over a channel that behaves as the manual says.
use advanced_practical_embed.Base.{ℕ, ◌≤◌, ◌≡◌, refl, false, true, arith, take, none}
use advanced_practical_embed.Ipc.Packets.{Packet, one, two, heard}
use advanced_practical_embed.Ipc.Messages.{thread1_messages, thread2_messages, nth, t2, single}
use advanced_practical_embed.Ipc.Exchange.{ended, thread1_at, thread2_at, main_at}
use advanced_practical_embed.Ipc.Exchange.Single.{single_logged, single_bounded}
use advanced_practical_embed.Ipc.Fifo.{fifo, junk, course, Course, put, take_from}
use advanced_practical_embed.Queues.{queues_protocol, thread1_handler, thread2_handler, main_thread}
use advanced_practical_embed.Queues.Delivery.{queues_complete}

abbrev beyond : ℕ → Packet
beyond i = junk

-- the threads in the middle of the exchange, and at its end
abbrev midway : Course (queues_protocol beyond beyond)
midway = course (queues_protocol beyond beyond) 12

abbrev end : Course (queues_protocol beyond beyond)
end = course (queues_protocol beyond beyond) 80

midway_quiet : midway.last.flag ≡ false
unfolding course thread1_at thread2_at main_at put take_from nth thread1_messages t2 single
midway_quiet = refl

end_quiet : end.last.flag ≡ false
unfolding course thread1_at thread2_at main_at put take_from nth thread1_messages t2 single
end_quiet = refl

end_steps : end.steps ≡ 90
unfolding course thread1_at thread2_at main_at put take_from nth thread1_messages t2 single
end_steps = refl

end_main : main_thread fifo beyond beyond end.last ≡ none
unfolding main_thread course thread1_at thread2_at main_at put take_from nth thread1_messages t2
    single
end_main = refl

end_thread1 : thread1_handler fifo beyond beyond end.last ≡ none
unfolding thread1_handler course thread1_at thread2_at main_at put take_from nth thread1_messages t2
    single
end_thread1 = refl

end_thread2 : thread2_handler fifo beyond beyond end.last ≡ none
unfolding thread2_handler course thread1_at thread2_at main_at put take_from nth thread1_messages t2
    single
end_thread2 = refl

single_logged_example :
    (n1 : ℕ) × (n2 : ℕ) × (heard one midway.last.log ≡ take n1 thread2_messages)
    × (heard two midway.last.log ≡ take n2 thread1_messages)
unfolding thread1_messages
single_logged_example =
    single_logged fifo (omega arith) thread1_messages refl beyond beyond true true false false junk
      junk midway.last midway.reach midway_quiet

single_bounded_example : end.steps ≤ 94
unfolding thread1_messages
single_bounded_example =
    single_bounded fifo (omega arith) thread1_messages refl beyond beyond true true false false junk
      junk end.last end.turns

queues_complete_example :
    (end.last.main ≡ ended)
    × (heard one end.last.log ≡ thread2_messages)
    × (heard two end.last.log ≡ thread1_messages)
    × (end.last.misused ≡ true)
queues_complete_example =
    queues_complete fifo (omega arith) beyond beyond junk junk end.last end.turns end_main
      end_thread1 end_thread2
