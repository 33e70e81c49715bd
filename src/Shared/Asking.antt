-- ===== src/Shared/Asking.antt =====
-- Every step of thread 1 keeps what holds of the shared memory.
use mathlib.Core.Path.{subst}
use advanced_practical_embed.Base.{
  After, ℕ, suc, ◌≤◌, ◌≡◌, refl, ap, [], ◌∷◌, ◌++◌, arith, length, length-append, Bool, Bool-cases,
  inl, inr, ◌==◌,
}
use advanced_practical_embed.Ipc.Packets.{
  entering, exiting, killed, received, Packet, one, two, heard, heard-snoc,
}
use advanced_practical_embed.Ipc.Messages.{t1, t2}
use advanced_practical_embed.Shared.{
  Block, Place, unborn, entry, head, copying, setting_command, setting_len, waiting, taking_len,
  taking_command, taking_text, flagging, finished, copied, byte_at, put_byte, Memory, thread1_step,
}
use advanced_practical_embed.Shared.Bytes.{
  Holds, IsLine, AllShown-snoc, Holds-byte, Holds-command, Holds-len, read_len_lem,
  read_command_lem, read_byte_lem,
}
use advanced_practical_embed.Shared.Kept.{
  pending, logged, bound, begun, commands, lens, Staged, KeptAt, Kept, as_number, silent, move1,
  commands-large, lens-large,
}

module _ (beyond1 beyond2 : ℕ → Packet) (old1 old2 : Block) where
  abbrev pub asked : ℕ → Packet
  asked = t1 beyond1

  abbrev pub answered : ℕ → Packet
  answered = t2 beyond2

  abbrev pub At : Memory → Place → Packet → Type 0
  At s p line =
      KeptAt asked answered old1 old2 s.send (heard one s.log) (heard two s.log) s.ptr s.ptr1 s.main
        p s.i1 line s.place2 s.i2 s.line2

  abbrev Sent : Memory → Bool → Place → Type 0
  Sent s send p =
      KeptAt asked answered old1 old2 send (heard one s.log) (heard two s.log) s.ptr s.ptr1 s.main p
        s.i1 s.line1 s.place2 s.i2 s.line2

  -- Thread 1 goes from one place to another, and nothing else changes but its line.
  abbrev shift :
      (s : Memory) (p q : Place) (line line' : Packet)
      → logged q ≡ logged p
      → pending q s.send ≤ pending p s.send
      → s.i1 ≤ bound q
      → (Staged one p s.main → Staged one q s.main)
      → IsLine answered old2 (begun s.place2 s.i2) ⊥ q line'
      → At s p line
      → At s q line'
  shift s p q line line' same less small born reading k = record {
    counts =
        move1 s.send (heard one s.log) s.main s.i1 s.i2 p q s.place2 same less small born k.counts;
    answers = record { holds = k.answers.holds; reading = reading; shown = k.answers.shown };
    records = k.records;
  }

  -- Thread 1 has written to its record.
  abbrev wrote :
      (s : Memory) (q : Place) (b : Block)
      → Holds asked old1 10 0 0 b
      → At s q s.line1
      → At (record s { ptr = b }) q s.line1
  wrote s q b holds k = record {
    counts = k.counts;
    answers = k.answers;
    records = record { holds = holds; reading = k.records.reading; shown = k.records.shown };
  }

  copied-moves : (s : Memory) (j c : ℕ) → At s (copying j) s.line1 → At s (copied j c) s.line1
  copied-moves s j c k = elim (Bool-cases (c == 0)) [
    | inl e ↦ rw e (
        shift s (copying j) setting_command s.line1 s.line1 refl (omega arith) k.counts.bounded1
          (λ b. b) tt k)
    | inr e ↦ rw e (
        shift s (copying j) (copying (suc j)) s.line1 s.line1 refl (omega arith) k.counts.bounded1
          (λ b. b) tt k)
  ]

  logs :
      (s : Memory)
      → At s taking_text s.line1
      → KeptAt asked answered old1 old2 s.send
          (heard one s.log ++ s.line1 ∷ [])
          (heard two s.log)
          s.ptr
          s.ptr1
          s.main
          flagging
          s.i1
          s.line1
          s.place2
          s.i2
          s.line2
  logs s k = record {
    counts = record {
      counted = omega (arith, k.counts.counted, length-append (heard one s.log) (s.line1 ∷ []));
      announced = k.counts.announced;
      bounded1 = k.counts.bounded1;
      bounded2 = k.counts.bounded2;
      staged1 = k.counts.staged1;
      staged2 = k.counts.staged2;
    };
    answers = record {
      holds = k.answers.holds;
      reading = tt;
      shown =
          AllShown-snoc answered old2 (begun s.place2 s.i2) ⊥ (heard one s.log) s.line1
            k.answers.shown k.answers.reading;
    };
    records = k.records;
  }

  pub thread1-Kept :
      (p : Place) (s : Memory)
      → At s p s.line1
      → After (Kept asked answered old1 old2) (thread1_step beyond1 beyond2 p s)
  unfolding thread1_step
  thread1-Kept unborn s k = tt
  thread1-Kept entry s k =
      rw (silent one s.log (entering one) refl, silent two s.log (entering one) refl)
        (shift s entry head s.line1 s.line1 refl (omega arith) k.counts.bounded1 (λ b. b) tt k)
  thread1-Kept head s k = elim (Bool-cases s.flag) [
    | inl f ↦
        rw (f, After, silent one s.log (killed one) refl, silent two s.log (killed one) refl)
          (shift s head finished s.line1 s.line1 refl (omega arith) k.counts.bounded1 (λ b. b) tt k)
    | inr f ↦ elim (Bool-cases (s.i1 == 10)) [
      | inl e ↦
          rw (f, e, After, silent one s.log (exiting one) refl, silent two s.log (exiting one) refl)
            (shift s head finished s.line1 s.line1 refl (omega arith) k.counts.bounded1 (λ b. b) tt
              k)
      | inr e ↦
          let below = k.counts.bounded1 in
          rw (f, e, After)
            (shift s head (copying 0) s.line1 s.line1 refl (omega arith) (ground arith) (λ b. b) tt
              k)
    ]
  ]
  thread1-Kept (copying j) s k =
      wrote s (copied j (byte_at (asked s.i1).messages j))
        (record s.ptr { messages = put_byte s.ptr.messages j (byte_at (asked s.i1).messages j) })
        (Holds-byte asked old1 10 0 0 s.ptr k.records.holds s.i1 (omega (arith, k.counts.bounded1))
          j)
        (copied-moves s j (byte_at (asked s.i1).messages j) k)
  thread1-Kept setting_command s k =
      wrote s setting_len (record s.ptr { command = (asked s.i1).command })
        (Holds-command asked old1 10 0 0 s.ptr k.records.holds s.i1
          (omega (arith, k.counts.bounded1)) 0)
        (shift s setting_command setting_len s.line1 s.line1 refl (omega arith) k.counts.bounded1
          (λ b. b) tt k)
  thread1-Kept setting_len s k =
      wrote s waiting (record s.ptr { string_len = (asked s.i1).string_len })
        (Holds-len asked old1 10 0 0 s.ptr k.records.holds s.i1 (omega (arith, k.counts.bounded1))
          0)
        (shift s setting_len waiting s.line1 s.line1 refl (omega arith) k.counts.bounded1 (λ b. b)
          tt k)
  thread1-Kept waiting s k = elim (Bool-cases s.send) [
    | inl h ↦
        let more = ap as_number h in
        simp (h, After)
          (subst (λ b. Sent s b taking_len) h
            (shift s waiting taking_len s.line1 s.line1 refl (omega (arith, more)) k.counts.bounded1
              (λ b. b) tt k))
    | inr h ↦ elim (Bool-cases s.flag) [
      | inl f ↦
          let small = k.counts.bounded1 in
          simp (h, f, After, silent one s.log (killed one) refl, silent two s.log (killed one) refl)
            (subst (λ b. Sent s b finished) h
              (shift s waiting finished s.line1 s.line1 refl (omega arith) (omega (arith, small))
                (λ b. b) tt k))
      | inr f ↦ simp (h, f, After) tt
    ]
  ]
  thread1-Kept taking_len s k =
      let a = k.counts.announced in
      let old = lens-large s.place2 s.i2 in
      shift s taking_len taking_command s.line1
        (record s.line1 { messages = []; string_len = s.ptr1.string_len }) refl (omega arith)
        k.counts.bounded1 (λ b. b)
        (
          refl,
          read_len_lem answered old2 (begun s.place2 s.i2) ⊥ (commands s.place2 s.i2)
              (lens s.place2 s.i2) s.ptr1 k.answers.holds (record s.line1 { messages = [] })
              (λ z. absurd (omega (arith, a, old, z))),
        )
        k
  thread1-Kept taking_command s k =
      let a = k.counts.announced in
      let old = commands-large s.place2 s.i2 in
      let (fresh, len) = k.answers.reading in
      shift s taking_command taking_text s.line1 (record s.line1 { command = s.ptr1.command }) refl
        (omega arith) k.counts.bounded1 (λ b. b)
        (read_command_lem answered old2 (begun s.place2 s.i2) ⊥ (commands s.place2 s.i2)
          (lens s.place2 s.i2) s.ptr1 k.answers.holds s.line1
          (λ z. absurd (omega (arith, a, old, z))) fresh len)
        k
  thread1-Kept taking_text s k =
      elim (Bool-cases (s.ptr1.messages (length s.line1.messages) == 0)) [
        | inl e ↦
            rw
              (
                e,
                After,
                heard-snoc one s.log (received one s.line1),
                silent two s.log (received one s.line1) refl,
              )
              (logs s k)
        | inr e ↦
            rw (e, After)
              (shift s taking_text taking_text s.line1
                (record s.line1 {
                  messages = s.line1.messages ++ s.ptr1.messages (length s.line1.messages) ∷ [];
                })
                refl (omega arith) k.counts.bounded1 (λ b. b)
                (read_byte_lem answered old2 (begun s.place2 s.i2) ⊥ (commands s.place2 s.i2)
                  (lens s.place2 s.i2) s.ptr1 k.answers.holds s.line1 k.answers.reading)
                k)
      ]
  thread1-Kept flagging s k = record {
    counts = record {
      counted = omega (arith, k.counts.counted);
      announced = omega (arith, k.counts.announced);
      bounded1 = omega (arith, k.counts.bounded1);
      bounded2 = k.counts.bounded2;
      staged1 = k.counts.staged1;
      staged2 = k.counts.staged2;
    };
    answers = record { holds = k.answers.holds; reading = tt; shown = k.answers.shown };
    records = k.records;
  }
  thread1-Kept finished s k = tt
