-- ===== src/FileProgram/Contents.antt =====
-- What myfileIO.c leaves in the file, and what it reads back.
use advanced_practical_embed.Base.{
  ℕ, ◌≤◌, ◌<◌, ◌≡◌, refl, arith, true, none, some, List, [], ◌∷◌, ◌++◌, length, append-nil,
}
use advanced_practical_embed.Run.{ok}
use advanced_practical_embed.CStrings.{c_string, c_string-bounds, put_string_fits}
use advanced_practical_embed.FileProgram.Stdio.{Disk, scanf_line, store_line}
use advanced_practical_embed.FileProgram.{
  Machine, malloc, block_of, Program, start, create_file, append_line, print_read, print_line,
  print_text, read_back, file_main, banner, prompt, character, text,
}
use advanced_practical_embed.FileProgram.Strings.{
  IsLine, up_to_byte-line, line_of-line, c_string-line,
}
use advanced_practical_embed.FileProgram.Block.{malloc_gives, length-block_of}

-- The system refuses nothing.
pub record IsKind (m : Machine) : Type 0 where
  pub opens : (i : ℕ) → m.opens i ≡ true
  pub flushes : (i : ℕ) → m.flushes i ≡ none
  pub gives : m.gives ≡ true

module _ (m : Machine) (kind : IsKind m) where
  create_file_lem :
      (disk : Disk)
      → create_file m (start disk)
        ≡ ok (record { messages = banner ∷ []; disk = some (b'v' ∷ []); left_open = 2 })
  unfolding create_file
  create_file_lem disk = rw (kind.opens 0, kind.opens 1, kind.opens 2, kind.flushes 0) refl

  append_line_lem :
      (filled line : List ℕ)
      → scanf_line m.typed (malloc m 20) ≡ ok (some filled)
      → c_string filled ≡ ok line
      → append_line m (record { messages = banner ∷ []; disk = some (b'v' ∷ []); left_open = 2 })
        ≡ ok (
          filled,
          record { messages = banner ∷ prompt ∷ []; disk = some (b'v' ∷ line); left_open = 2 },
        )
  unfolding append_line
  append_line_lem filled line scanned found =
      rw (kind.opens 3, scanned, malloc_gives m kind.gives, found, kind.flushes 1, kind.flushes 2)
        (rw append-nil refl)

  print_read_lem :
      (byte : ℕ) (line filled : List ℕ) (p : Program)
      → IsLine (byte ∷ line)
      → c_string filled ≡ ok (byte ∷ line)
      → print_read (byte ∷ line) filled p ≡ ok (print_text (byte ∷ line) p)
  unfolding print_read
  print_read_lem byte line filled p clean found =
      let (short, nul) = c_string-bounds filled (byte ∷ line) found in
      let (rest, stored, size) = put_string_fits (byte ∷ line) filled short in
      rw (stored, c_string-line (byte ∷ line) rest clean) refl

  read_back_lem :
      (byte : ℕ) (line filled : List ℕ)
      → IsLine (byte ∷ line)
      → c_string filled ≡ ok (byte ∷ line)
      → read_back m filled (record {
        messages = banner ∷ prompt ∷ [];
        disk = some (b'v' ∷ byte ∷ line);
        left_open = 2;
      })
        ≡ ok (record {
          messages = banner ∷ prompt ∷ character b'v' ∷ text (byte ∷ line) ∷ [];
          disk = some (b'v' ∷ byte ∷ line);
          left_open = 2;
        })
  unfolding read_back print_line
  read_back_lem byte line filled clean found =
      rw
        (
          kind.opens 4,
          found,
          line_of-line (byte ∷ line) clean,
          print_read_lem byte line filled _ clean found,
          kind.flushes 3,
        )
        refl

-- Where the system refuses nothing and the user types a line of 1 to 19 bytes, with no NUL: whatever the
-- file held before, it holds the character and the line afterwards, the program has printed both as it
-- read them back, and the first two of the streams that it opened are never closed.
pub file_main_roundtrip :
    (m : Machine) (disk : Disk) (line rest : List ℕ)
    → IsKind m
    → m.typed ≡ line ++ 10 ∷ rest
    → IsLine line
    → 1 ≤ length line
    → length line < 20
    → file_main m disk
      ≡ ok (record {
        messages = banner ∷ prompt ∷ character b'v' ∷ text line ∷ [];
        disk = some (b'v' ∷ line);
        left_open = 2;
      })
unfolding file_main scanf_line store_line
file_main_roundtrip m disk [] rest kind typed clean some_bytes short = absurd (omega arith)
file_main_roundtrip m disk (byte ∷ line) rest kind typed clean some_bytes short =
    let (filled, stored, size) =
      put_string_fits (byte ∷ line) (block_of m.garbage 0 20)
        (rw (length-block_of m.garbage 0 20) short) in
    let found = c_string-line (byte ∷ line) filled clean in
    let block = (byte ∷ line) ++ 0 ∷ filled in
    let scanned : scanf_line m.typed (malloc m 20) ≡ ok (some block) =
      rw (malloc_gives m kind.gives, typed, up_to_byte-line (byte ∷ line) rest clean, stored)
        refl in
    rw (
      create_file_lem m kind disk,
      append_line_lem m kind block (byte ∷ line) scanned found,
      read_back_lem m kind byte line block clean found,
    )
