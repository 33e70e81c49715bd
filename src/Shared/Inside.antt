-- ===== src/Shared/Inside.antt =====
-- The offsets at which `strcpy` writes and `fprintf` reads the 40 bytes of the `messages` arrays, half
-- written strings included.
pub mod Moves
pub mod Reached
use mathlib.Core.Path.{subst}
use advanced_practical_embed.Base.{
  ℕ, zero, suc, ◌≤◌, ◌<◌, ◌≡◌, refl, List, [], ◌∷◌, ◌++◌, arith, length, length-append, false,
  Bool-cases, inl, inr, ◌==◌, ◌∙◌,
}
use advanced_practical_embed.Ipc.Packets.{Packet, one, two, heard}
use advanced_practical_embed.Ipc.Messages.{t1, t2, nth, thread1_messages, thread2_messages}
use advanced_practical_embed.Shared.{
  Block, Place, copying, setting_command, taking_text, copied, byte_at, unborn, Memory,
}
use advanced_practical_embed.Shared.Bytes.{ToldByte}

-- The offset at which a handler is about to write or to read lies in the array.
abbrev pub IsInside : Place → Packet → Type 0
IsInside (copying k) line = k < 40
IsInside taking_text line = length line.messages < 40
IsInside _ line = Unit

-- Every logged text fits into the array, with its zero.
abbrev pub AllShort : List Packet → Type 0
AllShort [] = Unit
AllShort (p ∷ ps) = (length p.messages < 40) × AllShort ps

pub AllShort-snoc :
    (ps : List Packet) (p : Packet) → AllShort ps → length p.messages < 40 → AllShort (ps ++ p ∷ [])
AllShort-snoc [] p a h = (h, tt)
AllShort-snoc (q ∷ ps) p (first, rest) h = (first, AllShort-snoc ps p rest h)

-- Byte 39 of every text of the two arrays of packets is 0.
pub t1_short : (beyond : ℕ → Packet) (j : ℕ) → j < 10 → byte_at (t1 beyond j).messages 39 ≡ 0
unfolding t1 nth thread1_messages byte_at
t1_short beyond zero h = refl
t1_short beyond (suc zero) h = refl
t1_short beyond (suc (suc zero)) h = refl
t1_short beyond (suc (suc (suc zero))) h = refl
t1_short beyond (suc (suc (suc (suc zero)))) h = refl
t1_short beyond (suc (suc (suc (suc (suc zero))))) h = refl
t1_short beyond (suc (suc (suc (suc (suc (suc zero)))))) h = refl
t1_short beyond (suc (suc (suc (suc (suc (suc (suc zero))))))) h = refl
t1_short beyond (suc (suc (suc (suc (suc (suc (suc (suc zero)))))))) h = refl
t1_short beyond (suc (suc (suc (suc (suc (suc (suc (suc (suc zero))))))))) h = refl
t1_short beyond (suc (suc (suc (suc (suc (suc (suc (suc (suc (suc n)))))))))) h =
    absurd (omega arith)

pub t2_short : (beyond : ℕ → Packet) (j : ℕ) → j < 10 → byte_at (t2 beyond j).messages 39 ≡ 0
unfolding t2 nth thread2_messages byte_at
t2_short beyond zero h = refl
t2_short beyond (suc zero) h = refl
t2_short beyond (suc (suc zero)) h = refl
t2_short beyond (suc (suc (suc zero))) h = refl
t2_short beyond (suc (suc (suc (suc zero)))) h = refl
t2_short beyond (suc (suc (suc (suc (suc zero))))) h = refl
t2_short beyond (suc (suc (suc (suc (suc (suc zero)))))) h = refl
t2_short beyond (suc (suc (suc (suc (suc (suc (suc zero))))))) h = refl
t2_short beyond (suc (suc (suc (suc (suc (suc (suc (suc zero)))))))) h = refl
t2_short beyond (suc (suc (suc (suc (suc (suc (suc (suc (suc zero))))))))) h = refl
t2_short beyond (suc (suc (suc (suc (suc (suc (suc (suc (suc (suc n)))))))))) h =
    absurd (omega arith)

-- So byte 39 of a shared record stays 0.
pub last_zero :
    (t : ℕ → Packet) (o : Block) (n c : ℕ)
    → ((j : ℕ) → j < 10 → byte_at (t j).messages 39 ≡ 0)
    → o.messages 39 ≡ 0
    → n ≤ 10
    → ToldByte t o n 39 c
    → c ≡ 0
last_zero t o n c short old small (inl (j, below, e)) = e ∙ short j (omega arith)
last_zero t o n c short old small (inr (_, e)) = e ∙ old

-- After a byte that is not the last, the next one is inside.
pub room : (k c : ℕ) → k < 40 → (k ≡ 39 → c ≡ 0) → (c == 0) ≡ false → suc k < 40
room k c h last e = elim (Bool-cases (k == 39)) [
  | inl at_end ↦ let zero_here = last (ground arith) in absurd (ground arith)
  | inr before ↦ ground arith
]

pub copied-IsInside :
    (k c : ℕ) (line : Packet) → k < 40 → (k ≡ 39 → c ≡ 0) → IsInside (copied k c) line
copied-IsInside k c line h last = elim (Bool-cases (c == 0)) [
  | inl e ↦ rw e tt
  | inr e ↦ rw e (room k c h last e)
]

pub record WithinAt (seen1 seen2 : List Packet) (p1 : Place) (line1 : Packet) (p2 : Place)
    (line2 : Packet) : Type 0 where
  pub inside1 : IsInside p1 line1
  pub inside2 : IsInside p2 line2
  pub short1 : AllShort seen1
  pub short2 : AllShort seen2

abbrev pub Within : Memory → Type 0
Within s = WithinAt (heard one s.log) (heard two s.log) s.place1 s.line1 s.place2 s.line2

abbrev pub moved1 :
    (s : Memory) (p q : Place) (line line' : Packet)
    → IsInside q line'
    → WithinAt (heard one s.log) (heard two s.log) p line s.place2 s.line2
    → WithinAt (heard one s.log) (heard two s.log) q line' s.place2 s.line2
moved1 s p q line line' h w = record {
  inside1 = h;
  inside2 = w.inside2;
  short1 = w.short1;
  short2 = w.short2;
}

abbrev pub moved2 :
    (s : Memory) (p q : Place) (line line' : Packet)
    → IsInside q line'
    → WithinAt (heard one s.log) (heard two s.log) s.place1 s.line1 p line
    → WithinAt (heard one s.log) (heard two s.log) s.place1 s.line1 q line'
moved2 s p q line line' h w = record {
  inside1 = w.inside1;
  inside2 = h;
  short1 = w.short1;
  short2 = w.short2;
}

-- The next byte of a line, of a record whose byte 39 is 0.
pub next_lem :
    (t : ℕ → Packet) (o : Block) (n : ℕ) (bytes : ℕ → ℕ) (text : List ℕ)
    → ((j : ℕ) → j < 10 → byte_at (t j).messages 39 ≡ 0)
    → o.messages 39 ≡ 0
    → n ≤ 10
    → ((k : ℕ) → ToldByte t o n k (bytes k))
    → length text < 40
    → (bytes (length text) == 0) ≡ false
    → length (text ++ bytes (length text) ∷ []) < 40
next_lem t o n bytes text short old small told h e =
    let c = bytes (length text) in
    let last = λ (at_end : length text ≡ 39).
      last_zero t o n c short old small
        (subst (λ m. ToldByte t o n m c) at_end (told (length text))) in
    omega (arith, room (length text) c h last e, length-append text (c ∷ []))
