-- ===== src/Shared.antt =====
-- HW4_APES/PROBLEM2/ipc_shared_memory_thread/shared_memory.c: the exchange over two records in shared
-- memory and a flag `send`. Thread 1 waits until `send` is set; thread 2 never waits. Each access to
-- the shared memory is a step of its own: every byte that `strcpy` stores or `fprintf` reads, and the
-- fields `command` and `string_len`. So a record may be read while it is half written. The arguments of
-- `fprintf` are taken in one order of those that C leaves open, the length first; its string is read
-- byte by byte up to a zero. A line goes to the log as a whole, as `fclose` appends it. The waiting
-- loop is a step that cannot be taken. Time stamps and thread identifiers are left out of the log.
pub mod Bytes
pub mod Kept
pub mod Asking
pub mod Answering
pub mod Answers
pub mod Starving
pub mod Killed
pub mod Inside
pub mod Tests
use advanced_practical_embed.Base.{
  ℕ, zero, suc, ◌+◌, ◌≡◌, Bool, true, false, Option, none, some, List, [], ◌∷◌, ◌++◌, ◌==◌,
  if◌then◌else◌, length,
}
use advanced_practical_embed.Ipc.Packets.{
  Packet, LedCmd, on, one, two, Entry, main_entering, main_exiting, entering, exiting, killed,
  received,
}
use advanced_practical_embed.Ipc.Messages.{t1, t2}

-- A record in shared memory: the bytes from the start of `messages` on, then the other fields.
pub record Block : Type 0 where
  pub messages : ℕ → ℕ
  pub command : LedCmd
  pub string_len : ℕ

-- Byte `k` of a string literal with its closing zero.
unfoldable pub byte_at : List ℕ → ℕ → ℕ
byte_at [] k = 0
byte_at (c ∷ cs) zero = c
byte_at (c ∷ cs) (suc k) = byte_at cs k

unfoldable pub put_byte : (ℕ → ℕ) → ℕ → ℕ → ℕ → ℕ
put_byte bytes k c a = if a == k then c else bytes a

-- Where a handler stands: not created, at its first log line, at the head of its loop, in `strcpy`
-- before a byte, before it sets `command` and `string_len`, in or before the wait for `send`, before
-- it takes `string_len`, `command` and the next byte of the other thread's record for its log line,
-- before it sets or clears `send`, after `pthread_exit`.
pub data Place : Type 0 where
  unborn entry head : Place
  copying : ℕ → Place
  setting_command setting_len waiting taking_len taking_command taking_text flagging finished :
      Place

-- `strcpy` after it has stored byte `c` at `k`: a zero ends it.
abbrev pub copied : ℕ → ℕ → Place
copied k c = if c == 0 then setting_command else copying (suc k)

pub data MainPlace : Type 0 where
  boot create1 create2 join1 join2 leave ended : MainPlace

-- `line1` and `line2` are what the handlers' `fprintf` has read for its line so far.
pub record Memory : Type 0 where
  pub flag : Bool
  pub send : Bool
  pub log : List Entry
  pub ptr : Block
  pub ptr1 : Block
  pub main : MainPlace
  pub place1 : Place
  pub i1 : ℕ
  pub line1 : Packet
  pub place2 : Place
  pub i2 : ℕ
  pub line2 : Packet

abbrev pub nothing_read : Packet
nothing_read = record { messages = []; command = on; string_len = 0 }

module _ (beyond1 beyond2 : ℕ → Packet) where
  -- `thread1_handler`
  unfoldable pub thread1_step : Place → Memory → Option Memory
  thread1_step unborn s = none
  thread1_step entry s = some (record s { log = s.log ++ entering one ∷ []; place1 = head })
  thread1_step head s =
      if s.flag
      then some (record s { log = s.log ++ killed one ∷ []; place1 = finished })
      else if s.i1 == 10
      then some (record s { log = s.log ++ exiting one ∷ []; place1 = finished })
      else some (record s { place1 = copying 0 })
  thread1_step (copying k) s =
      let c = byte_at (t1 beyond1 s.i1).messages k in
      some (record s {
        ptr = record s.ptr { messages = put_byte s.ptr.messages k c };
        place1 = copied k c;
      })
  thread1_step setting_command s = some (record s {
    ptr = record s.ptr { command = (t1 beyond1 s.i1).command };
    place1 = setting_len;
  })
  thread1_step setting_len s = some (record s {
    ptr = record s.ptr { string_len = (t1 beyond1 s.i1).string_len };
    place1 = waiting;
  })
  thread1_step waiting s =
      if s.send
      then some (record s { place1 = taking_len })
      else if s.flag
      then some (record s { log = s.log ++ killed one ∷ []; place1 = finished })
      else none
  thread1_step taking_len s = some (record s {
    line1 = record s.line1 { messages = []; string_len = s.ptr1.string_len };
    place1 = taking_command;
  })
  thread1_step taking_command s =
      some (record s { line1 = record s.line1 { command = s.ptr1.command }; place1 = taking_text })
  thread1_step taking_text s =
      let c = s.ptr1.messages (length s.line1.messages) in
      if c == 0
      then some (record s { log = s.log ++ received one s.line1 ∷ []; place1 = flagging })
      else some (record s {
        line1 = record s.line1 { messages = s.line1.messages ++ c ∷ [] };
        place1 = taking_text;
      })
  thread1_step flagging s = some (record s { send = false; place1 = head; i1 = suc s.i1 })
  thread1_step finished s = none

  -- `thread2_handler`; `i++` comes with the write of `send` after it: no other thread can notice.
  unfoldable pub thread2_step : Place → Memory → Option Memory
  thread2_step unborn s = none
  thread2_step entry s = some (record s { log = s.log ++ entering two ∷ []; place2 = head })
  thread2_step head s =
      if s.flag
      then some (record s { log = s.log ++ killed two ∷ []; place2 = finished })
      else if s.i2 == 10
      then some (record s { log = s.log ++ exiting two ∷ []; place2 = finished })
      else some (record s { place2 = taking_len })
  thread2_step taking_len s = some (record s {
    line2 = record s.line2 { messages = []; string_len = s.ptr.string_len };
    place2 = taking_command;
  })
  thread2_step taking_command s =
      some (record s { line2 = record s.line2 { command = s.ptr.command }; place2 = taking_text })
  thread2_step taking_text s =
      let c = s.ptr.messages (length s.line2.messages) in
      if c == 0
      then some (record s { log = s.log ++ received two s.line2 ∷ []; place2 = copying 0 })
      else some (record s {
        line2 = record s.line2 { messages = s.line2.messages ++ c ∷ [] };
        place2 = taking_text;
      })
  thread2_step (copying k) s =
      let c = byte_at (t2 beyond2 s.i2).messages k in
      some (record s {
        ptr1 = record s.ptr1 { messages = put_byte s.ptr1.messages k c };
        place2 = copied k c;
      })
  thread2_step setting_command s = some (record s {
    ptr1 = record s.ptr1 { command = (t2 beyond2 s.i2).command };
    place2 = setting_len;
  })
  thread2_step setting_len s = some (record s {
    ptr1 = record s.ptr1 { string_len = (t2 beyond2 s.i2).string_len };
    place2 = flagging;
  })
  thread2_step flagging s = some (record s { send = true; place2 = head; i2 = suc s.i2 })
  thread2_step waiting s = none
  thread2_step finished s = none

  -- `main`
  unfoldable pub main_step : MainPlace → Memory → Option Memory
  main_step boot s = some (record s { log = s.log ++ main_entering ∷ []; main = create1 })
  main_step create1 s = some (record s { place1 = entry; main = create2 })
  main_step create2 s = some (record s { place2 = entry; main = join1 })
  main_step join1 s = elim s.place1 [ finished ↦ some (record s { main = join2 }) | _ ↦ none ]
  main_step join2 s = elim s.place2 [ finished ↦ some (record s { main = leave }) | _ ↦ none ]
  main_step leave s = some (record s { log = s.log ++ main_exiting ∷ []; main = ended })
  main_step ended s = none

  -- Before `main` runs; the shared records hold whatever was there.
  abbrev pub at_start : Block → Block → Memory
  at_start old1 old2 = record {
    flag = false;
    send = false;
    log = [];
    ptr = old1;
    ptr1 = old2;
    main = boot;
    place1 = unborn;
    i1 = 0;
    line1 = nothing_read;
    place2 = unborn;
    i2 = 0;
    line2 = nothing_read;
  }

  -- Any thread that can move does, or SIGINT arrives.
  pub data Step (s : Memory) : Memory → Type 0 where
    by_main : {t : Memory} → main_step s.main s ≡ some t → Step s t
    by_thread1 : {t : Memory} → thread1_step s.place1 s ≡ some t → Step s t
    by_thread2 : {t : Memory} → thread2_step s.place2 s ≡ some t → Step s t
    sigint : Step s (record s { flag = true })

  pub data Reach (old1 old2 : Block) : Memory → Type 0 where
    begin : Reach old1 old2 (at_start old1 old2)
    next : {s t : Memory} → Reach old1 old2 s → Step s t → Reach old1 old2 t
