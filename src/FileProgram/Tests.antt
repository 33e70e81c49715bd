-- ===== src/FileProgram/Tests.antt =====
-- Runs of myfileIO.c: a short line, a line that is too long, a file that cannot be opened.
use advanced_practical_embed.Base.{
  ℕ, ◌≡◌, ◌↔◌, refl, arith, true, false, none, some, List, [], ◌∷◌, ◌++◌,
}
use advanced_practical_embed.Run.{ok, fault}
use advanced_practical_embed.FileProgram.Stdio.{Disk}
use advanced_practical_embed.FileProgram.{
  Machine, Program, banner, prompt, character, text, create_file, append_line, file_main,
}
use advanced_practical_embed.FileProgram.Contents.{IsKind, file_main_roundtrip}
use advanced_practical_embed.FileProgram.Ending.{IsReady, file_main_ends_iff}

abbrev hello : List ℕ
hello = b'h' ∷ b'e' ∷ b'l' ∷ b'l' ∷ b'o' ∷ []

abbrev with_line : List ℕ → Machine
with_line line = record {
  opens = λ i. true;
  flushes = λ i. none;
  gives = true;
  garbage = λ i. 170;
  typed = line ++ 10 ∷ [];
}

with_line-IsKind : IsKind (with_line hello)
with_line-IsKind = record { opens = λ i. refl; flushes = λ i. refl; gives = refl }

abbrev old_file : Disk
old_file = some (b'o' ∷ b'l' ∷ b'd' ∷ [])

file_main_roundtrip_example :
    file_main (with_line hello) old_file
    ≡ ok (record {
      messages = banner ∷ prompt ∷ character b'v' ∷ text hello ∷ [];
      disk = some (b'v' ∷ hello);
      left_open = 2;
    })
file_main_roundtrip_example =
    file_main_roundtrip (with_line hello) old_file hello [] with_line-IsKind refl (omega arith)
      (omega arith) (omega arith)

-- 25 bytes do not fit into the block of 20.
long_line : file_main (with_line (hello ++ (hello ++ (hello ++ (hello ++ (hello)))))) none ≡ fault
unfolding file_main create_file append_line
long_line = refl

-- An empty line leaves the block as `malloc` gave it, and here that is no string.
empty_line : file_main (with_line []) none ≡ fault
unfolding file_main create_file append_line
empty_line = refl

-- The third `fopen` fails, and `fputc` writes through NULL.
not_opened : file_main (record (with_line hello) { opens = λ i. false }) none ≡ fault
unfolding file_main create_file
not_opened = refl

file_main_ends_iff_example :
    ((p : Program) × (file_main (with_line hello) none ≡ ok p)) ↔ IsReady (with_line hello)
file_main_ends_iff_example = file_main_ends_iff (with_line hello) none
