-- ===== src/Ipc/Exchange.antt =====
-- The handlers and `main` that pipes.c, queues.c and sockets.c have in common, one step for each call
-- that another thread can notice. What differs is the `Protocol`: what one write hands over, who
-- closes the channels, and whether thread 1 accepts a connection. A step that would wait gives `none`.
pub mod Links
pub mod Stages
pub mod Keeps
pub mod Ends
pub mod Progress
pub mod Results
pub mod Single
pub mod Measure
pub mod Flow
pub mod Signalled
use advanced_practical_embed.Base.{
  ℕ, zero, suc, ◌+◌, ◌≡◌, Bool, true, false, Option, none, some, List, [], ◌∷◌, ◌++◌, ◌==◌, ◌&&◌,
  not, if◌then◌else◌,
}
use advanced_practical_embed.Ipc.Packets.{
  Packet, Thread, one, two, Entry, main_entering, main_exiting, entering, exiting, killed, received,
}
use advanced_practical_embed.Ipc.Transport.{Transport, Reply, done, blocked, failed}

-- Where a handler stands: not created, at its first log line, at the head of its loop, before its
-- write, before its read, before it logs what it has read, after `pthread_exit`.
pub data Pc : Type 0 where
  unborn entry head sending receiving report finished : Pc

-- Where `main` stands.
pub data MainPc : Type 0 where
  boot create1 create2 join1 join2 leave ended : MainPc

-- Thread 2 has run as far as its first log line, so its `connect` is done.
abbrev pub connected : Pc → Bool
connected unborn = false
connected entry = false
connected _ = true

-- the local variables of a handler
pub record Worker : Type 0 where
  pub pc : Pc
  pub i : ℕ
  pub receive_buff : Packet

pub record Protocol : Type 0 where
  pub payload1 : ℕ → List Packet
  pub payload2 : ℕ → List Packet
  pub kill_closes : Bool  -- a handler that is killed closes its channel
  pub main_closes : Bool  -- `main` closes the channels at the end
  pub accepts : Bool  -- thread 1 waits for the connection of thread 2 first
  pub assigns : Bool  -- thread 2 keeps the stream that it opens for its last line in `fptr`

pub data Signal : Type 0 where
  sigint other_signal : Signal

-- the handler of signals, on the global `flag`
unfoldable pub kill_thread_handler : Signal → Bool → Bool
kill_thread_handler sigint flag = true
kill_thread_handler other_signal flag = flag

-- what moves
pub data Mover : Type 0 where
  main_moves thread1_moves thread2_moves : Mover

module _ (T : Transport) where
  open T use {Chan, fresh, send, receive, close}

  -- `chan1` goes from thread 1 to thread 2, `chan2` back. `misused` says that a stream has been written
  -- to and closed after it had been closed: what the program does from then on is not defined in C,
  -- and the steps go on as if nothing else had happened.
  pub record System : Type 0 where
    pub flag : Bool
    pub misused : Bool
    pub log : List Entry
    pub chan1 : Chan
    pub chan2 : Chan
    pub main : MainPc
    pub th1 : Worker
    pub th2 : Worker

module _ (T : Transport) (P : Protocol) where
  open T use {Chan, fresh, send, receive, close}

  -- `thread1_handler`
  unfoldable pub thread1_at : Pc → System T → Option (System T)
  thread1_at unborn s = none
  thread1_at entry s =
      if P.accepts && not (connected s.th2.pc)
      then none
      else some (record s { log = s.log ++ entering one ∷ []; th1 = record (s.th1) { pc = head } })
  thread1_at head s =
      if s.flag
      then some (record s {
        log = s.log ++ killed one ∷ [];
        chan1 = if P.kill_closes then close s.chan1 else s.chan1;
        th1 = record (s.th1) { pc = finished };
      })
      else if s.th1.i == 10
      then some
          (record s { log = s.log ++ exiting one ∷ []; th1 = record (s.th1) { pc = finished } })
      else some (record s { th1 = record (s.th1) { pc = sending } })
  thread1_at sending s = elim (send s.chan1 (P.payload1 s.th1.i)) [
    | done c ↦ some (record s { chan1 = c; th1 = record (s.th1) { pc = receiving } })
    | blocked ↦ none
    | failed ↦ some (record s { th1 = record (s.th1) { pc = receiving } })
  ]
  thread1_at receiving s = elim (receive s.chan2) [
    | done (p, c) ↦
        some
          (record s { chan2 = c; th1 = record { pc = report; i = suc s.th1.i; receive_buff = p } })
    | blocked ↦ none
    | failed ↦ some (record s { th1 = record (s.th1) { pc = report; i = suc s.th1.i } })
  ]
  thread1_at report s = some (record s {
    log = s.log ++ received one s.th1.receive_buff ∷ [];
    th1 = record (s.th1) { pc = head };
  })
  thread1_at finished s = none

  -- `thread2_handler`
  unfoldable pub thread2_at : Pc → System T → Option (System T)
  thread2_at unborn s = none
  thread2_at entry s =
      some (record s { log = s.log ++ entering two ∷ []; th2 = record (s.th2) { pc = head } })
  thread2_at head s =
      if s.flag
      then some (record s {
        log = s.log ++ killed two ∷ [];
        chan2 = if P.kill_closes then close s.chan2 else s.chan2;
        th2 = record (s.th2) { pc = finished };
      })
      else if s.th2.i == 10
      then some (record s {
        misused = if P.assigns then s.misused else true;
        log = s.log ++ exiting two ∷ [];
        th2 = record (s.th2) { pc = finished };
      })
      else some (record s { th2 = record (s.th2) { pc = receiving } })
  thread2_at receiving s = elim (receive s.chan1) [
    | done (p, c) ↦
        some (record s { chan1 = c; th2 = record { pc = report; i = s.th2.i; receive_buff = p } })
    | blocked ↦ none
    | failed ↦ some (record s { th2 = record (s.th2) { pc = report } })
  ]
  thread2_at report s = some (record s {
    log = s.log ++ received two s.th2.receive_buff ∷ [];
    th2 = record (s.th2) { pc = sending };
  })
  thread2_at sending s = elim (send s.chan2 (P.payload2 s.th2.i)) [
    | done c ↦ some (record s { chan2 = c; th2 = record (s.th2) { pc = head; i = suc s.th2.i } })
    | blocked ↦ none
    | failed ↦ some (record s { th2 = record (s.th2) { pc = head; i = suc s.th2.i } })
  ]
  thread2_at finished s = none

  -- `pthread_join`
  abbrev joined : Pc → System T → Option (System T)
  joined finished s = some s
  joined _ s = none

  -- `main`, where the calls that create channels and threads succeed
  unfoldable pub main_at : MainPc → System T → Option (System T)
  main_at boot s = some (record s { log = s.log ++ main_entering ∷ []; main = create1 })
  main_at create1 s = some (record s { th1 = record (s.th1) { pc = entry }; main = create2 })
  main_at create2 s = some (record s { th2 = record (s.th2) { pc = entry }; main = join1 })
  main_at join1 s = joined s.th1.pc (record s { main = join2 })
  main_at join2 s = joined s.th2.pc (record s { main = leave })
  main_at leave s = some (record s {
    log = s.log ++ main_exiting ∷ [];
    chan1 = if P.main_closes then close s.chan1 else s.chan1;
    chan2 = if P.main_closes then close s.chan2 else s.chan2;
    main = ended;
  })
  main_at ended s = none

  abbrev pub move : Mover → System T → Option (System T)
  move main_moves s = main_at s.main s
  move thread1_moves s = thread1_at s.th1.pc s
  move thread2_moves s = thread2_at s.th2.pc s

  -- Before `main` runs. The buffers hold whatever the stack held.
  abbrev pub start : Packet → Packet → System T
  start junk1 junk2 = record {
    flag = false;
    misused = false;
    log = [];
    chan1 = fresh;
    chan2 = fresh;
    main = boot;
    th1 = record { pc = unborn; i = 0; receive_buff = junk1 };
    th2 = record { pc = unborn; i = 0; receive_buff = junk2 };
  }

  -- SIGINT arrives in a thread that waits in a call: its handler is installed with no flags, so the
  -- call fails, and the thread goes on.
  unfoldable pub interrupt1 : Pc → System T → Option (System T)
  interrupt1 entry s =
      if P.accepts && not (connected s.th2.pc)
      then some (record s {
        flag = true;
        log = s.log ++ entering one ∷ [];
        th1 = record (s.th1) { pc = head };
      })
      else none
  interrupt1 sending s = elim (send s.chan1 (P.payload1 s.th1.i)) [
    | done c ↦ none
    | blocked ↦ some (record s { flag = true; th1 = record (s.th1) { pc = receiving } })
    | failed ↦ none
  ]
  interrupt1 receiving s = elim (receive s.chan2) [
    | done (p, c) ↦ none
    | blocked ↦
        some (record s { flag = true; th1 = record (s.th1) { pc = report; i = suc s.th1.i } })
    | failed ↦ none
  ]
  interrupt1 _ s = none

  unfoldable pub interrupt2 : Pc → System T → Option (System T)
  interrupt2 receiving s = elim (receive s.chan1) [
    | done (p, c) ↦ none
    | blocked ↦ some (record s { flag = true; th2 = record (s.th2) { pc = report } })
    | failed ↦ none
  ]
  interrupt2 sending s = elim (send s.chan2 (P.payload2 s.th2.i)) [
    | done c ↦ none
    | blocked ↦ some (record s { flag = true; th2 = record (s.th2) { pc = head; i = suc s.th2.i } })
    | failed ↦ none
  ]
  interrupt2 _ s = none

  -- Any thread that can move does, or a signal arrives.
  pub data Step (s : System T) : System T → Type 0 where
    turn : (m : Mover) {t : System T} → move m s ≡ some t → Step s t
    signal : (g : Signal) → Step s (record s { flag = kill_thread_handler g s.flag })
    break_off1 : {t : System T} → interrupt1 s.th1.pc s ≡ some t → Step s t
    break_off2 : {t : System T} → interrupt2 s.th2.pc s ≡ some t → Step s t

  pub data Reach (junk1 junk2 : Packet) : System T → Type 0 where
    begin : Reach junk1 junk2 (start junk1 junk2)
    next : {s t : System T} → Reach junk1 junk2 s → Step s t → Reach junk1 junk2 t
