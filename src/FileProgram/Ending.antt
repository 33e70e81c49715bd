-- ===== src/FileProgram/Ending.antt =====
-- When myfileIO.c gets to its end.
use advanced_practical_embed.Base.{◌≤◌, ◌<◌, ◌⊎◌, [], length, ◌≡◌, ◌↔◌, true, some}
use advanced_practical_embed.Run.{ok, >>=-eq-ok}
use advanced_practical_embed.CStrings.{HasNul, c_string-nul}
use advanced_practical_embed.FileProgram.Stdio.{Disk, up_to_byte, scanf_line}
use advanced_practical_embed.FileProgram.{
  Machine, malloc, block_of, Program, start, create_file, append_line, file_main,
}
use advanced_practical_embed.FileProgram.Strings.{Fits, store_line-Fits, store_line-needs}
use advanced_practical_embed.FileProgram.Block.{malloc_gives, malloc_needs, length-block_of}
use advanced_practical_embed.FileProgram.Parts.{
  created, appended, create_file_ends, create_file_needs, created-Exists, append_line_ends,
  append_line_needs, appended-Exists, read_back_ends, read_back_needs,
}

-- All five calls of `fopen` but the first two succeed, `malloc` gives its block, and the line that is
-- typed has 1 to 19 bytes, or none where the block happens to hold a string.
abbrev pub IsReady : Machine → Type 0
IsReady m =
    (m.opens 2 ≡ true)
    × (m.opens 3 ≡ true)
    × (m.opens 4 ≡ true)
    × (m.gives ≡ true)
    × (((up_to_byte 10 m.typed ≡ []) × HasNul (block_of m.garbage 0 20))
        ⊎ ((1 ≤ length (up_to_byte 10 m.typed)) × (length (up_to_byte 10 m.typed) < 20)))

file_main_ends : (m : Machine) (disk : Disk) → IsReady m → (p : Program) × (file_main m disk ≡ ok p)
unfolding file_main scanf_line
file_main_ends m disk (open3, open4, open5, gives, fits) =
    let (block, scanned, nul) =
      store_line-Fits (up_to_byte 10 m.typed) (block_of m.garbage 0 20)
        (rw (length-block_of m.garbage 0 20) fits) in
    let (line, found) = c_string-nul block nul in
    let p = created m (start disk) in
    let there = created-Exists m (start disk) in
    let (q, last) =
      read_back_ends m (appended m line p) block line (appended-Exists m line p there) open5
        found in
    let stored : scanf_line m.typed (malloc m 20) ≡ ok (some block) =
      rw (malloc_gives m gives) scanned in
    (
      q,
      rw
          (
            create_file_ends m (start disk) open3,
            append_line_ends m p block line there open4 stored found,
          )
          last,
    )

file_main_needs : (m : Machine) (disk : Disk) (p : Program) → file_main m disk ≡ ok p → IsReady m
unfolding file_main scanf_line
file_main_needs m disk p h =
    let (first, made, h1) = >>=-eq-ok (create_file m (start disk)) _ h in
    let ((block, second), added, h2) = >>=-eq-ok (append_line m first) _ h1 in
    let (open4, scanned, line, found) = append_line_needs m first second block added in
    let (given, there, fits) =
      store_line-needs (up_to_byte 10 m.typed) (malloc m 20) block line scanned found in
    let (gives, same) = malloc_needs m given there in
    let in_block : Fits (up_to_byte 10 m.typed) (block_of m.garbage 0 20) = rw same fits in
    (
      create_file_needs m (start disk) first made,
      open4,
      read_back_needs m second p block h2,
      gives,
      rw length-block_of at in_block,
    )

-- Whatever the file held before, and however the calls of `fflush` and `fclose` end, the program gets to
-- its end exactly when its last three calls of `fopen` succeed, `malloc` gives the block, and the typed
-- line has 1 to 19 bytes, or is empty while the block happens to hold a NUL.
pub file_main_ends_iff :
    (m : Machine) (disk : Disk) → ((p : Program) × (file_main m disk ≡ ok p)) ↔ IsReady m
file_main_ends_iff m disk = (λ (p, e). file_main_needs m disk p e, file_main_ends m disk)
