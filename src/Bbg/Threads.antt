-- ===== src/Bbg/Threads.antt =====
-- The two threads, `main` and the signals as steps, in any order. A step that cannot be taken gives
-- `none`. The text file is there and was read, the log opens, and the process dies at a fault, as
-- which a number past an `int` counts too. Time stamps, thread identifiers and what goes to the console
-- are left out.
pub mod Order
pub mod Lines
pub mod Report
pub mod Ends
use advanced_practical_embed.Base.{
  ℕ, zero, suc, ◌+◌, ◌≡◌, ◌≢◌, Bool, true, false, List, [], ◌∷◌, ◌++◌, Option, none, some, leb, ltb,
  get_elem?, if◌then◌else◌,
}
use advanced_practical_embed.Bbg.Letters.{zeros, count_char}
use advanced_practical_embed.Bbg.Cpu.{sample}

-- a line of the log
pub data Line : Type 0 where
  main_entering main_exiting entering1 processed stopped1 completed1 entering2 stopped2 : Line
  letter : ℕ → ℕ → Line
  cpu : ℕ → ℕ → Line

-- Where the first thread stands: not created, at its first log line, in its first and second loop,
-- behind them, after `pthread_exit`.
pub data Place1 : Type 0 where
  unborn entry counting printing closing finished : Place1

-- Where the second one stands: not created, at its first log line, at the head of its loop, before it
-- clears `flag2`, before it reads /proc/stat, before it clears `flag`, after `pthread_exit`.
pub data Place2 : Type 0 where
  unborn entry looping clearing sampling resetting finished : Place2

pub data MainPlace : Type 0 where
  boot create1 create2 join1 join2 leave ended : MainPlace

pub record State : Type 0 where
  pub flag : Bool
  pub flag2 : Bool
  pub crashed : Bool
  pub log : List Line
  pub main : MainPlace
  pub place1 : Place1
  pub i : ℕ
  pub counts : List ℕ
  pub place2 : Place2
  pub samples : ℕ  -- how often /proc/stat was read

abbrev pub crash : State → Option State
crash s = some (record s { crashed = true })

-- the early exit of the first thread
abbrev pub stop1 : State → Option State
stop1 s = some (record s { log = s.log ++ stopped1 ∷ []; place1 = Place1.finished })

-- `text` is what gdb.txt holds, and `stat` what /proc/stat holds each time that it is read.
module _ (text : List ℕ) (stat : ℕ → List ℕ) where
  -- `child1_thread_callback`
  unfoldable pub child1_step : Place1 → State → Option State
  child1_step Place1.unborn s = none
  child1_step Place1.entry s =
      some (record s { log = s.log ++ entering1 ∷ []; place1 = counting; i = 0; counts = zeros 26 })
  child1_step counting s = elim (get_elem? text s.i) [
    | none ↦ some (record s { log = s.log ++ processed ∷ []; place1 = printing; i = 0 })
    | some c ↦ if s.flag2 then stop1 s else elim (count_char c s.counts) [
      | none ↦ crash s
      | some counts ↦ some (record s { i = suc s.i; counts = counts })
    ]
  ]
  child1_step printing s =
      if ltb s.i 26
      then if s.flag2 then stop1 s else elim (get_elem? s.counts s.i) [
        | none ↦ crash s
        | some n ↦ some (record s {
          log = if leb n 100 then s.log ++ letter s.i n ∷ [] else s.log;
          i = suc s.i;
        })
      ]
      else some (record s { place1 = closing })
  child1_step closing s =
      some (record s { log = s.log ++ completed1 ∷ []; place1 = Place1.finished })
  child1_step Place1.finished s = none

  -- `child2_thread_callback`
  unfoldable pub child2_step : Place2 → State → Option State
  child2_step Place2.unborn s = none
  child2_step Place2.entry s = some (record s { log = s.log ++ entering2 ∷ []; place2 = looping })
  child2_step looping s =
      if s.flag2
      then some (record s { log = s.log ++ stopped2 ∷ []; place2 = clearing })
      else if s.flag
      then some (record s { place2 = sampling })
      else none
  child2_step clearing s = some (record s { flag2 = false; place2 = Place2.finished })
  child2_step sampling s = elim (sample (stat s.samples)) [
    | none ↦ crash s
    | some (usage, time) ↦ some (record s {
      log = s.log ++ cpu usage time ∷ [];
      place2 = resetting;
      samples = suc s.samples;
    })
  ]
  child2_step resetting s = some (record s { flag = false; place2 = looping })
  child2_step Place2.finished s = none

  -- `main`
  unfoldable pub main_step : MainPlace → State → Option State
  main_step boot s = some (record s { log = s.log ++ main_entering ∷ []; main = create1 })
  main_step create1 s = some (record s { place1 = Place1.entry; main = create2 })
  main_step create2 s = some (record s { place2 = Place2.entry; main = join1 })
  main_step join1 s = elim s.place1 [
    | Place1.finished ↦ some (record s { main = join2 })
    | _ ↦ none
  ]
  main_step join2 s = elim s.place2 [
    | Place2.finished ↦ some (record s { main = leave })
    | _ ↦ none
  ]
  main_step leave s = some (record s { log = s.log ++ main_exiting ∷ []; main = ended })
  main_step ended s = none

  abbrev pub at_start : State
  at_start = record {
    flag = false;
    flag2 = false;
    crashed = false;
    log = [];
    main = boot;
    place1 = Place1.unborn;
    i = 0;
    counts = [];
    place2 = Place2.unborn;
    samples = 0;
  }

  -- A thread moves, or a signal comes once `main` has set its handlers: `timer_handler` sets `flag`,
  -- `kill_thread_handler` sets `flag2`. The index tells whether USR2 has come.
  pub data Reach : Bool → State → Type 0 where
    begin : Reach false at_start
    by_main :
        {told : Bool} {s t : State}
        → Reach told s
        → s.crashed ≡ false
        → main_step s.main s ≡ some t
        → Reach told t
    by_child1 :
        {told : Bool} {s t : State}
        → Reach told s
        → s.crashed ≡ false
        → child1_step s.place1 s ≡ some t
        → Reach told t
    by_child2 :
        {told : Bool} {s t : State}
        → Reach told s
        → s.crashed ≡ false
        → child2_step s.place2 s ≡ some t
        → Reach told t
    usr1 :
        {told : Bool} {s : State}
        → Reach told s
        → s.main ≢ boot
        → Reach told (record s { flag = true })
    usr2 :
        {told : Bool} {s : State}
        → Reach told s
        → s.main ≢ boot
        → Reach true (record s { flag2 = true })
