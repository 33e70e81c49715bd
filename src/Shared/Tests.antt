-- ===== src/Shared/Tests.antt =====
-- The exchange over shared memory by evaluation: thread 2 runs to its end before thread 1 looks, and a
-- log line that is read while thread 2 is writing.
use advanced_practical_embed.Base.{
  ℕ, zero, suc, ◌≤◌, ◌≡◌, ◌↔◌, refl, true, false, none, inl, inr, Bool-cases, Option-cases, length,
  [], ◌∷◌, List,
}
use advanced_practical_embed.Ipc.Packets.{Packet, on, one, two, heard, bytes}
use advanced_practical_embed.Ipc.Messages.{t1, t2, nth, thread1_messages, thread2_messages}
use advanced_practical_embed.Ipc.Fifo.{junk}
use advanced_practical_embed.Shared.{
  Block, byte_at, put_byte, Memory, main_step, thread1_step, thread2_step, Reach, begin, next,
  by_main, by_thread1, by_thread2, sigint, ended, at_start, finished, waiting, join1,
}
use advanced_practical_embed.Shared.Bytes.{AllShown}
use advanced_practical_embed.Shared.Kept.{begun}
use advanced_practical_embed.Shared.Answers.{shared_answers}
use advanced_practical_embed.Shared.Starving.{Quiet, IsAsking, more, stay, shared_starves}
use advanced_practical_embed.Shared.Killed.{killed_ends}
use advanced_practical_embed.Shared.Inside.{IsInside, AllShort}
use advanced_practical_embed.Shared.Inside.Reached.{shared_offsets}

abbrev beyond : ℕ → Packet
beyond i = junk

abbrev zeroed : Block
zeroed = record { messages = λ k. 0; command = on; string_len = 0 }

record Course : Type 0 where
  last : Memory
  reach : Reach beyond beyond zeroed zeroed last

main_goes : Course → Course
main_goes c = elim (Option-cases (main_step beyond beyond c.last.main c.last)) [
  | inl _ ↦ c
  | inr (s, e) ↦ record { last = s; reach = next c.reach (by_main e) }
]

thread1_goes : ℕ → Course → Course
thread1_goes zero c = c
thread1_goes (suc n) c =
    let rest = thread1_goes n c in
    elim (Option-cases (thread1_step beyond beyond rest.last.place1 rest.last)) [
      | inl _ ↦ rest
      | inr (s, e) ↦ record { last = s; reach = next rest.reach (by_thread1 e) }
    ]

thread2_goes : ℕ → Course → Course
thread2_goes zero c = c
thread2_goes (suc n) c =
    let rest = thread2_goes n c in
    elim (Option-cases (thread2_step beyond beyond rest.last.place2 rest.last)) [
      | inl _ ↦ rest
      | inr (s, e) ↦ record { last = s; reach = next rest.reach (by_thread2 e) }
    ]

abbrev created : Course
unfolding main_goes Option-cases
created =
    main_goes (
      main_goes (main_goes (record { last = at_start beyond beyond zeroed zeroed; reach = begin })))

abbrev stalling : Course
unfolding thread1_goes thread2_goes Option-cases
stalling = thread1_goes 98 (thread2_goes 400 created)

record Silence : Type 0 where
  last : Memory
  run : Quiet beyond beyond stalling.last last

silence_goes : Silence → Silence
silence_goes c = elim (Option-cases (thread1_step beyond beyond c.last.place1 c.last)) [
  | inl _ ↦ c
  | inr (s, e) ↦ elim (Bool-cases s.flag) [
    | inl _ ↦ c
    | inr q ↦ record { last = s; run = more c.run (by_thread1 e) q }
  ]
]

abbrev stalled : Silence
unfolding silence_goes Option-cases Bool-cases
stalled = silence_goes (record { last = stalling.last; run = stay })

-- Thread 2 has finished, and thread 1 is about to wait for a second announcement.
stalls :
    (stalling.last.place2 ≡ finished)
    × (stalling.last.send ≡ false)
    × (stalling.last.flag ≡ false)
    × (stalling.last.main ≡ join1)
    × IsAsking stalling.last.place1 stalling.last.i1
unfolding main_step thread1_step thread2_step stalling put_byte byte_at t1 t2 nth thread1_messages
    thread2_messages created
stalls = (refl, refl, refl, refl, tt)

-- One more step, and it waits.
waits : stalled.last.place1 ≡ waiting
unfolding main_step thread1_step thread2_step stalling stalled put_byte byte_at t1 t2 nth
    thread1_messages thread2_messages created
waits = refl

-- Thread 1 reads twelve bytes of the first answer; then thread 2 writes its second one.
abbrev torn : Course
unfolding thread1_goes thread2_goes Option-cases
torn = thread1_goes 12 (thread2_goes 63 (thread1_goes 55 (thread2_goes 43 created)))

-- The line that thread 1 then logs is none that thread 2 has sent.
torn_line : List Packet
torn_line =
    record { messages = bytes "Thread2: Comeway opened"; command = on; string_len = 34 } ∷ []

tears : heard one torn.last.log ≡ torn_line
unfolding main_step thread1_step thread2_step torn torn_line put_byte byte_at t1 t2 nth
    thread1_messages thread2_messages created heard
tears = refl

shared_answers_example :
    AllShown (t2 beyond) zeroed (begun torn.last.place2 torn.last.i2) ⊥ (heard one torn.last.log)
    × (begun torn.last.place2 torn.last.i2 ≤ 10)
    × AllShown (t1 beyond) zeroed 10 (Unit {0}) (heard two torn.last.log)
    × (length (heard one torn.last.log) ≤ torn.last.i2)
shared_answers_example = shared_answers beyond beyond zeroed zeroed torn.last torn.reach

shared_offsets_example :
    IsInside torn.last.place1 torn.last.line1
    × IsInside torn.last.place2 torn.last.line2
    × AllShort (heard one torn.last.log)
    × AllShort (heard two torn.last.log)
shared_offsets_example = shared_offsets beyond beyond zeroed zeroed torn.last refl refl torn.reach

shared_starves_example :
    (stalled.last.main ≡ join1)
    × (stalled.last.log ≡ stalling.last.log)
    × (stalled.last.send ≡ false)
    × IsAsking stalled.last.place1 stalled.last.i1
    × ((main_step beyond beyond stalled.last.main stalled.last ≡ none)
        × (thread2_step beyond beyond stalled.last.place2 stalled.last ≡ none))
    × ((thread1_step beyond beyond stalled.last.place1 stalled.last ≡ none)
        ↔ (stalled.last.place1 ≡ waiting))
shared_starves_example =
    shared_starves beyond beyond stalling.last stalled.last stalls.0 stalls.1 stalls.2 stalls.3
      stalls.4 stalled.run

-- The stalled program gets SIGINT.
abbrev killed_course : Course
unfolding thread1_goes main_goes Option-cases
killed_course = main_goes (
    main_goes (
      main_goes (
        thread1_goes 1 (
          let waiting_course = thread1_goes 1 stalling in
          record {
            last = record waiting_course.last { flag = true };
            reach = next waiting_course.reach sigint;
          }))))

killed_ends_example : killed_course.last.main ≡ ended
unfolding main_step thread1_step thread2_step stalling killed_course put_byte byte_at t1 t2 nth
    thread1_messages thread2_messages created
killed_ends_example =
    killed_ends beyond beyond zeroed zeroed killed_course.last killed_course.reach refl refl refl
      refl
