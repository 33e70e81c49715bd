-- ===== src/Sockets/Tests.antt =====
-- The exchange run to its end over a channel that behaves as the manual says.
use advanced_practical_embed.Base.{ℕ, ◌+◌, ◌≤◌, ◌≡◌, refl, false, true, arith, none, length, some}
use advanced_practical_embed.Ipc.Packets.{Packet, unnamed, one, two, heard}
use advanced_practical_embed.Ipc.Messages.{sockets_messages, thread2_messages, nth, t2, single}
use advanced_practical_embed.Ipc.Exchange.{
  ended, thread1_at, thread2_at, main_at, start, System, Mover, move, main_moves, thread1_moves,
  thread2_moves,
}
use advanced_practical_embed.Ipc.Exchange.Single.{single_lockstep}
use advanced_practical_embed.Ipc.Fifo.{fifo, junk, course, Course, put, take_from}
use advanced_practical_embed.Sockets.{
  sockets_protocol, thread1_handler, thread2_handler, main_thread,
}
use advanced_practical_embed.Sockets.Delivery.{sockets_complete}

abbrev beyond : ℕ → Packet
beyond i = junk

-- the threads in the middle of the exchange, and at its end
abbrev midway : Course (sockets_protocol (unnamed 10) (unnamed 32764) beyond beyond)
midway = course (sockets_protocol (unnamed 10) (unnamed 32764) beyond beyond) 12

abbrev end : Course (sockets_protocol (unnamed 10) (unnamed 32764) beyond beyond)
end = course (sockets_protocol (unnamed 10) (unnamed 32764) beyond beyond) 80

midway_quiet : midway.last.flag ≡ false
unfolding course thread1_at thread2_at main_at put take_from nth sockets_messages t2 single
midway_quiet = refl

end_quiet : end.last.flag ≡ false
unfolding course thread1_at thread2_at main_at put take_from nth sockets_messages t2 single
end_quiet = refl

end_steps : end.steps ≡ 90
unfolding course thread1_at thread2_at main_at put take_from nth sockets_messages t2 single
end_steps = refl

end_main : main_thread fifo (unnamed 10) (unnamed 32764) beyond beyond end.last ≡ none
unfolding main_thread course thread1_at thread2_at main_at put take_from nth sockets_messages t2
    single
end_main = refl

end_thread1 : thread1_handler fifo (unnamed 10) (unnamed 32764) beyond beyond end.last ≡ none
unfolding thread1_handler course thread1_at thread2_at main_at put take_from nth sockets_messages t2
    single
end_thread1 = refl

end_thread2 : thread2_handler fifo (unnamed 10) (unnamed 32764) beyond beyond end.last ≡ none
unfolding thread2_handler course thread1_at thread2_at main_at put take_from nth sockets_messages t2
    single
end_thread2 = refl

sockets_complete_example :
    (end.last.main ≡ ended)
    × (heard one end.last.log ≡ thread2_messages)
    × (heard two end.last.log ≡ sockets_messages (unnamed 10) (unnamed 32764))
    × (end.last.misused ≡ false)
sockets_complete_example =
    sockets_complete fifo (omega arith) (unnamed 10) (unnamed 32764) beyond beyond junk junk
      end.last end.turns end_main end_thread1 end_thread2

single_lockstep_example :
    (length (heard one midway.last.log) ≤ length (heard two midway.last.log))
    × (length (heard two midway.last.log) ≤ length (heard one midway.last.log) + 1)
unfolding sockets_messages
single_lockstep_example =
    single_lockstep fifo (omega arith) (sockets_messages (unnamed 10) (unnamed 32764)) refl beyond
      beyond false true true true junk junk midway.last midway.reach midway_quiet

forced : Mover → System fifo → System fifo
forced m s = elim (move fifo (sockets_protocol (unnamed 10) (unnamed 32764) beyond beyond) m s) [
  | none ↦ s
  | some t ↦ t
]

-- Thread 1 is about to send its first message when SIGINT arrives, and thread 2 sees it first.
abbrev left_alone : System fifo
unfolding forced
left_alone =
    let talking = forced thread1_moves (
      forced thread1_moves (
        forced thread2_moves (
          forced main_moves (
            forced main_moves (
              forced main_moves (
                start fifo (sockets_protocol (unnamed 10) (unnamed 32764) beyond beyond) junk
                  junk)))))) in
    forced thread2_moves (record talking { flag = true })

sent_in_vain : System fifo
sent_in_vain = forced thread1_moves left_alone
