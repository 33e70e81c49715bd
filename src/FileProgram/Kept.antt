-- ===== src/FileProgram/Kept.antt =====
-- However `fflush` and `fclose` end, the file of myfileIO.c stays there.
use advanced_practical_embed.Base.{
  ℕ, ◌≡◌, refl, ◌∙◌, arith, Bool, true, false, Option, none, some, List,
}
use advanced_practical_embed.FileProgram.Stdio.{Stream, write_out, flush}
use advanced_practical_embed.FileProgram.{Message, Program, print_if, close_file, flush_file}

-- The file is there.
abbrev pub Exists : Program → Type 0
Exists p = (bytes : List ℕ) × (p.disk ≡ some bytes)

flush-Exists :
    (answer : Option ℕ) (file : Stream) (bytes : List ℕ)
    → (after : List ℕ) × ((flush answer file (some bytes)).1 ≡ some after)
unfolding flush write_out
flush-Exists none file bytes = (_, refl)
flush-Exists (some k) file bytes = (_, refl)

pub disk-close_file :
    (answer : Option ℕ) (file : Stream) (p : Program)
    → (close_file answer file p).disk ≡ (flush answer file p.disk).1
unfolding close_file
disk-close_file answer file p = ground arith

pub close_file-Exists :
    (answer : Option ℕ) (file : Stream) (p : Program) → Exists p → Exists (close_file answer file p)
close_file-Exists answer file p (bytes, e) =
    let (after, same) = flush-Exists answer file bytes in
    (after, disk-close_file answer file p ∙ rw e same)

pub disk-flush_file :
    (answer : Option ℕ) (file : Stream) (p : Program)
    → (flush_file answer file p).1.disk ≡ (flush answer file p.disk).1
unfolding flush_file
disk-flush_file answer file p = ground arith

pub flush_file-Exists :
    (answer : Option ℕ) (file : Stream) (p : Program)
    → Exists p
    → Exists (flush_file answer file p).1
flush_file-Exists answer file p (bytes, e) =
    let (after, same) = flush-Exists answer file bytes in
    (after, disk-flush_file answer file p ∙ rw e same)

pub disk-print_if :
    (test : Bool) (message : Message) (p : Program) → (print_if test message p).disk ≡ p.disk
disk-print_if true message p = refl
disk-print_if false message p = refl
