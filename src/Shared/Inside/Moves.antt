-- ===== src/Shared/Inside/Moves.antt =====
-- The offsets over the steps of the two threads.
use mathlib.Core.Path.{subst}
use advanced_practical_embed.Base.{
  After, ℕ, ◌≤◌, ◌≡◌, refl, sym, ap, [], ◌∷◌, ◌++◌, arith, length, Bool-cases, inl, inr, ◌==◌,
}
use advanced_practical_embed.Ipc.Packets.{
  Packet, entering, exiting, killed, received, one, two, heard, heard-snoc,
}
use advanced_practical_embed.Ipc.Messages.{t1, t2}
use advanced_practical_embed.Shared.{
  Block, Place, unborn, entry, head, copying, setting_command, setting_len, waiting, taking_len,
  taking_command, taking_text, flagging, finished, copied, byte_at, Memory, thread1_step,
  thread2_step,
}
use advanced_practical_embed.Shared.Kept.{silent, bound, begun, begun-small}
use advanced_practical_embed.Shared.Asking
use advanced_practical_embed.Shared.Answering
use advanced_practical_embed.Shared.Inside.{
  AllShort-snoc, t1_short, t2_short, copied-IsInside, WithinAt, Within, moved1, moved2, next_lem,
}

module _ (beyond1 beyond2 : ℕ → Packet) (old1 old2 : Block) where
  pub thread1-Within :
      (p : Place) (s : Memory)
      → Asking.At beyond1 beyond2 old1 old2 s p s.line1
      → old2.messages 39 ≡ 0
      → s.i2 ≤ bound s.place2
      → WithinAt (heard one s.log) (heard two s.log) p s.line1 s.place2 s.line2
      → After Within (thread1_step beyond1 beyond2 p s)
  unfolding thread1_step
  thread1-Within unborn s k zero2 b w = tt
  thread1-Within entry s k zero2 b w =
      rw (silent one s.log (entering one) refl, silent two s.log (entering one) refl)
        (moved1 s entry head s.line1 s.line1 tt w)
  thread1-Within head s k zero2 b w = elim (Bool-cases s.flag) [
    | inl f ↦
        rw (f, After, silent one s.log (killed one) refl, silent two s.log (killed one) refl)
          (moved1 s head finished s.line1 s.line1 tt w)
    | inr f ↦ elim (Bool-cases (s.i1 == 10)) [
      | inl e ↦
          rw (f, e, After, silent one s.log (exiting one) refl, silent two s.log (exiting one) refl)
            (moved1 s head finished s.line1 s.line1 tt w)
      | inr e ↦ rw (f, e, After) (moved1 s head (copying 0) s.line1 s.line1 (omega arith) w)
    ]
  ]
  thread1-Within (copying j) s k zero2 b w =
      let i_small = k.counts.bounded1 in
      let c = byte_at (t1 beyond1 s.i1).messages j in
      let last = λ (e : j ≡ 39).
        subst (λ m. byte_at (t1 beyond1 s.i1).messages m ≡ 0) (sym e)
          (t1_short beyond1 s.i1 (omega (arith, i_small))) in
      moved1 s (copying j) (copied j c) s.line1 s.line1 (copied-IsInside j c s.line1 w.inside1 last)
        w
  thread1-Within setting_command s k zero2 b w =
      moved1 s setting_command setting_len s.line1 s.line1 tt w
  thread1-Within setting_len s k zero2 b w = moved1 s setting_len waiting s.line1 s.line1 tt w
  thread1-Within waiting s k zero2 b w = elim (Bool-cases s.send) [
    | inl h ↦ simp (h, After) (moved1 s waiting taking_len s.line1 s.line1 tt w)
    | inr h ↦ elim (Bool-cases s.flag) [
      | inl f ↦
          simp (h, f, After, silent one s.log (killed one) refl, silent two s.log (killed one) refl)
            (moved1 s waiting finished s.line1 s.line1 tt w)
      | inr f ↦ simp (h, f, After) tt
    ]
  ]
  thread1-Within taking_len s k zero2 b w =
      moved1 s taking_len taking_command s.line1
        (record s.line1 { messages = []; string_len = s.ptr1.string_len }) tt w
  thread1-Within taking_command s k zero2 b w =
      let (fresh, _) = k.answers.reading in
      moved1 s taking_command taking_text s.line1 (record s.line1 { command = s.ptr1.command })
        (omega (arith, ap length fresh)) w
  thread1-Within taking_text s k zero2 b w =
      let small = begun-small s.place2 s.i2 b in
      elim (Bool-cases (s.ptr1.messages (length s.line1.messages) == 0)) [
        | inl e ↦
            rw
              (
                e,
                After,
                heard-snoc one s.log (received one s.line1),
                silent two s.log (received one s.line1) refl,
              )
              (record {
                inside1 = tt;
                inside2 = w.inside2;
                short1 = AllShort-snoc (heard one s.log) s.line1 w.short1 w.inside1;
                short2 = w.short2;
              })
        | inr e ↦
            rw (e, After)
              (moved1 s taking_text taking_text s.line1
                (record s.line1 {
                  messages = s.line1.messages ++ s.ptr1.messages (length s.line1.messages) ∷ [];
                })
                (next_lem (t2 beyond2) old2 (begun s.place2 s.i2) s.ptr1.messages s.line1.messages
                  (t2_short beyond2) zero2 small k.answers.holds.bytes w.inside1 e)
                w)
      ]
  thread1-Within flagging s k zero2 b w = moved1 s flagging head s.line1 s.line1 tt w
  thread1-Within finished s k zero2 b w = tt

  pub thread2-Within :
      (p : Place) (s : Memory)
      → Answering.At beyond1 beyond2 old1 old2 s s.ptr1 p s.line2
      → old1.messages 39 ≡ 0
      → WithinAt (heard one s.log) (heard two s.log) s.place1 s.line1 p s.line2
      → After Within (thread2_step beyond1 beyond2 p s)
  unfolding thread2_step
  thread2-Within unborn s k zero1 w = tt
  thread2-Within entry s k zero1 w =
      rw (silent one s.log (entering two) refl, silent two s.log (entering two) refl)
        (moved2 s entry head s.line2 s.line2 tt w)
  thread2-Within head s k zero1 w = elim (Bool-cases s.flag) [
    | inl f ↦
        rw (f, After, silent one s.log (killed two) refl, silent two s.log (killed two) refl)
          (moved2 s head finished s.line2 s.line2 tt w)
    | inr f ↦ elim (Bool-cases (s.i2 == 10)) [
      | inl e ↦
          rw (f, e, After, silent one s.log (exiting two) refl, silent two s.log (exiting two) refl)
            (moved2 s head finished s.line2 s.line2 tt w)
      | inr e ↦ rw (f, e, After) (moved2 s head taking_len s.line2 s.line2 tt w)
    ]
  ]
  thread2-Within (copying j) s k zero1 w =
      let i_small = k.counts.bounded2 in
      let c = byte_at (t2 beyond2 s.i2).messages j in
      let last = λ (e : j ≡ 39).
        subst (λ m. byte_at (t2 beyond2 s.i2).messages m ≡ 0) (sym e)
          (t2_short beyond2 s.i2 (omega (arith, i_small))) in
      moved2 s (copying j) (copied j c) s.line2 s.line2 (copied-IsInside j c s.line2 w.inside2 last)
        w
  thread2-Within setting_command s k zero1 w =
      moved2 s setting_command setting_len s.line2 s.line2 tt w
  thread2-Within setting_len s k zero1 w = moved2 s setting_len flagging s.line2 s.line2 tt w
  thread2-Within taking_len s k zero1 w =
      moved2 s taking_len taking_command s.line2
        (record s.line2 { messages = []; string_len = s.ptr.string_len }) tt w
  thread2-Within taking_command s k zero1 w =
      let (fresh, _) = k.records.reading in
      moved2 s taking_command taking_text s.line2 (record s.line2 { command = s.ptr.command })
        (omega (arith, ap length fresh)) w
  thread2-Within taking_text s k zero1 w =
      elim (Bool-cases (s.ptr.messages (length s.line2.messages) == 0)) [
        | inl e ↦
            rw
              (
                e,
                After,
                silent one s.log (received two s.line2) refl,
                heard-snoc two s.log (received two s.line2),
              )
              (record {
                inside1 = w.inside1;
                inside2 = omega arith;
                short1 = w.short1;
                short2 = AllShort-snoc (heard two s.log) s.line2 w.short2 w.inside2;
              })
        | inr e ↦
            rw (e, After)
              (moved2 s taking_text taking_text s.line2
                (record s.line2 {
                  messages = s.line2.messages ++ s.ptr.messages (length s.line2.messages) ∷ [];
                })
                (next_lem (t1 beyond1) old1 10 s.ptr.messages s.line2.messages (t1_short beyond1)
                  zero1 (omega arith) k.records.holds.bytes w.inside2 e)
                w)
      ]
  thread2-Within flagging s k zero1 w = moved2 s flagging head s.line2 s.line2 tt w
  thread2-Within waiting s k zero1 w = tt
  thread2-Within finished s k zero1 w = tt
