-- ===== src/Shared/Answering.antt =====
-- Every step of thread 2 keeps what holds of the shared memory.
use advanced_practical_embed.Base.{
  After, ℕ, suc, ◌≤◌, refl, [], ◌∷◌, ◌++◌, arith, length, Bool-cases, inl, inr, ◌==◌,
}
use advanced_practical_embed.Ipc.Packets.{
  entering, exiting, killed, received, Packet, one, two, heard, heard-snoc,
}
use advanced_practical_embed.Shared.{
  Block, Place, unborn, entry, head, copying, setting_command, setting_len, waiting, taking_len,
  taking_command, taking_text, flagging, finished, copied, byte_at, put_byte, Memory, thread2_step,
}
use advanced_practical_embed.Shared.Bytes.{
  Contents, Contents-more, Holds, IsLine, AllShown-snoc, Holds-byte, Holds-command, Holds-len,
  read_len_lem, read_command_lem, read_byte_lem,
}
use advanced_practical_embed.Shared.Kept.{
  pending-small, bound, begun, commands, lens, Staged, KeptAt, Kept, silent, move2,
}
use advanced_practical_embed.Shared.Asking.{asked, answered}

module _ (beyond1 beyond2 : ℕ → Packet) (old1 old2 : Block) where
  abbrev ask : ℕ → Packet
  ask = asked beyond1 beyond2 old1 old2

  abbrev answer : ℕ → Packet
  answer = answered beyond1 beyond2 old1 old2

  abbrev pub At : Memory → Block → Place → Packet → Type 0
  At s b p line =
      KeptAt ask answer old1 old2 s.send (heard one s.log) (heard two s.log) s.ptr b s.main s.place1
        s.i1 s.line1 p s.i2 line

  -- The answers, with thread 2 at a place.
  abbrev Answers : Memory → Block → Place → Type 0
  Answers s b p =
      Contents answer old2 (begun p s.i2) ⊥ (commands p s.i2) (lens p s.i2) b s.place1 s.line1
        (heard one s.log)

  -- Thread 2 goes from one place to another, with its line and its record as given.
  abbrev shift :
      (s : Memory) (p q : Place) (b : Block) (line : Packet)
      → s.i2 ≤ bound q
      → (Staged two p s.main → Staged two q s.main)
      → Answers s b q
      → IsLine ask old1 10 (Unit {0}) q line
      → At s s.ptr1 p s.line2
      → At s b q line
  shift s p q b line small born answers reading k = record {
    counts = move2 s.send (heard one s.log) s.main s.i1 s.i2 s.place1 p q small born k.counts;
    answers = answers;
    records = record { holds = k.records.holds; reading = reading; shown = k.records.shown };
  }

  -- Thread 2 has written to its record.
  abbrev wrote :
      (s : Memory) (b : Block) (n mc ml mc' ml' : ℕ)
      → Holds answer old2 n mc' ml' b
      → Contents answer old2 n ⊥ mc ml s.ptr1 s.place1 s.line1 (heard one s.log)
      → Contents answer old2 n ⊥ mc' ml' b s.place1 s.line1 (heard one s.log)
  wrote s b n mc ml mc' ml' holds c = record { holds = holds; reading = c.reading; shown = c.shown }

  copied-moves :
      (s : Memory) (j c : ℕ) (b : Block)
      → Answers s b (copying j)
      → At s s.ptr1 (copying j) s.line2
      → At s b (copied j c) s.line2
  copied-moves s j c b answers k = elim (Bool-cases (c == 0)) [
    | inl e ↦
        rw e (shift s (copying j) setting_command b s.line2 k.counts.bounded2 (λ x. x) answers tt k)
    | inr e ↦
        rw e
          (shift s (copying j) (copying (suc j)) b s.line2 k.counts.bounded2 (λ x. x) answers tt k)
  ]

  -- The line of log is whole, and thread 2 begins to write its next answer.
  logs :
      (s : Memory)
      → At s s.ptr1 taking_text s.line2
      → KeptAt ask answer old1 old2 s.send
          (heard one s.log)
          (heard two s.log ++ s.line2 ∷ [])
          s.ptr
          s.ptr1
          s.main
          s.place1
          s.i1
          s.line1
          (copying 0)
          s.i2
          s.line2
  logs s k = record {
    counts =
        move2 s.send (heard one s.log) s.main s.i1 s.i2 s.place1 taking_text (copying 0)
          k.counts.bounded2 (λ x. x) k.counts;
    answers =
        Contents-more answer old2 s.i2 (suc s.i2) (omega arith) ⊥ s.i2 s.i2 s.ptr1 s.place1 s.line1
          (heard one s.log) k.answers;
    records = record {
      holds = k.records.holds;
      reading = tt;
      shown =
          AllShown-snoc ask old1 10 (Unit {0}) (heard two s.log) s.line2 k.records.shown
            k.records.reading;
    };
  }

  pub thread2-Kept :
      (p : Place) (s : Memory)
      → At s s.ptr1 p s.line2
      → After (Kept ask answer old1 old2) (thread2_step beyond1 beyond2 p s)
  unfolding thread2_step
  thread2-Kept unborn s k = tt
  thread2-Kept entry s k =
      rw (silent one s.log (entering two) refl, silent two s.log (entering two) refl)
        (shift s entry head s.ptr1 s.line2 k.counts.bounded2 (λ x. x) k.answers tt k)
  thread2-Kept head s k = elim (Bool-cases s.flag) [
    | inl f ↦
        rw (f, After, silent one s.log (killed two) refl, silent two s.log (killed two) refl)
          (shift s head finished s.ptr1 s.line2 k.counts.bounded2 (λ x. x) k.answers tt k)
    | inr f ↦ elim (Bool-cases (s.i2 == 10)) [
      | inl e ↦
          rw (f, e, After, silent one s.log (exiting two) refl, silent two s.log (exiting two) refl)
            (shift s head finished s.ptr1 s.line2 k.counts.bounded2 (λ x. x) k.answers tt k)
      | inr e ↦
          let below = k.counts.bounded2 in
          let small : s.i2 ≤ 9 = ground arith in
          rw (f, e, After) (shift s head taking_len s.ptr1 s.line2 small (λ x. x) k.answers tt k)
    ]
  ]
  thread2-Kept taking_len s k =
      shift s taking_len taking_command s.ptr1
        (record s.line2 { messages = []; string_len = s.ptr.string_len }) k.counts.bounded2 (λ x. x)
        k.answers
        (
          refl,
          read_len_lem ask old1 10 (Unit {0}) 0 0 s.ptr k.records.holds
              (record s.line2 { messages = [] }) (λ z. tt),
        )
        k
  thread2-Kept taking_command s k =
      let (fresh, len) = k.records.reading in
      shift s taking_command taking_text s.ptr1 (record s.line2 { command = s.ptr.command })
        k.counts.bounded2 (λ x. x) k.answers
        (read_command_lem ask old1 10 (Unit {0}) 0 0 s.ptr k.records.holds s.line2 (λ z. tt) fresh
          len)
        k
  thread2-Kept taking_text s k = elim (Bool-cases (s.ptr.messages (length s.line2.messages) == 0)) [
    | inl e ↦
        rw
          (
            e,
            After,
            silent one s.log (received two s.line2) refl,
            heard-snoc two s.log (received two s.line2),
          )
          (logs s k)
    | inr e ↦
        rw (e, After)
          (shift s taking_text taking_text s.ptr1
            (record s.line2 {
              messages = s.line2.messages ++ s.ptr.messages (length s.line2.messages) ∷ [];
            })
            k.counts.bounded2 (λ x. x) k.answers
            (read_byte_lem ask old1 10 (Unit {0}) 0 0 s.ptr k.records.holds s.line2
              k.records.reading)
            k)
  ]
  thread2-Kept (copying j) s k =
      let c = byte_at (answer s.i2).messages j in
      let b = record s.ptr1 { messages = put_byte s.ptr1.messages j c } in
      copied-moves s j c b
        (wrote s b (suc s.i2) s.i2 s.i2 s.i2 s.i2
          (Holds-byte answer old2 (suc s.i2) s.i2 s.i2 s.ptr1 k.answers.holds s.i2 (omega arith) j)
          k.answers)
        k
  thread2-Kept setting_command s k =
      let b = record s.ptr1 { command = (answer s.i2).command } in
      shift s setting_command setting_len b s.line2 k.counts.bounded2 (λ x. x)
        (wrote s b (suc s.i2) s.i2 s.i2 (suc s.i2) s.i2
          (Holds-command answer old2 (suc s.i2) s.i2 s.i2 s.ptr1 k.answers.holds s.i2 (omega arith)
            (suc s.i2))
          k.answers)
        tt k
  thread2-Kept setting_len s k =
      let b = record s.ptr1 { string_len = (answer s.i2).string_len } in
      shift s setting_len flagging b s.line2 k.counts.bounded2 (λ x. x)
        (wrote s b (suc s.i2) (suc s.i2) s.i2 (suc s.i2) (suc s.i2)
          (Holds-len answer old2 (suc s.i2) (suc s.i2) s.i2 s.ptr1 k.answers.holds s.i2
            (omega arith) (suc s.i2))
          k.answers)
        tt k
  thread2-Kept flagging s k = record {
    counts = record {
      counted = k.counts.counted;
      announced = omega (arith, k.counts.announced, pending-small s.place1);
      bounded1 = k.counts.bounded1;
      bounded2 = omega (arith, k.counts.bounded2);
      staged1 = k.counts.staged1;
      staged2 = k.counts.staged2;
    };
    answers = k.answers;
    records = record { holds = k.records.holds; reading = tt; shown = k.records.shown };
  }
  thread2-Kept waiting s k = tt
  thread2-Kept finished s k = tt
