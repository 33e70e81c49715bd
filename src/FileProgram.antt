-- ===== src/FileProgram.antt =====
-- HW2_APES/PROBLEM2/src/myfileIO.c: a program that creates a file, writes a character and a line that
-- the user types, and reads both back.
pub mod Stdio
pub mod Strings
pub mod Kept
pub mod Block
pub mod Parts
pub mod Ending
pub mod Contents
pub mod Tests
use advanced_practical_embed.Base.{
  ℕ, zero, suc, ◌+◌, ◌-◌, Bool, true, false, Option, none, some, List, [], ◌∷◌, ◌++◌, length, drop,
  if◌then◌else◌,
}
use advanced_practical_embed.Run.{Run, fault, ok, or_fault, ◌>>=◌}
use advanced_practical_embed.CStrings.{put_string, c_string}
use advanced_practical_embed.FileProgram.Stdio.{
  Mode, write, update, rewrite, append, read, Stream, Disk, fopen, put_bytes, flush, fgetc, line_of,
  scanf_line, bytes_on,
}

-- What the system answers: whether each `fopen` succeeds, how each `fflush` or `fclose` ends, whether
-- `malloc` gives a block, what the block holds then, and what the user types.
pub record Machine : Type 0 where
  pub opens : ℕ → Bool
  pub flushes : ℕ → Option ℕ
  pub gives : Bool
  pub garbage : ℕ → ℕ
  pub typed : List ℕ

-- A block of `size` bytes, from its byte `i` on.
unfoldable pub block_of : (ℕ → ℕ) → ℕ → ℕ → List ℕ
block_of garbage i zero = []
block_of garbage i (suc size) = garbage i ∷ block_of garbage (suc i) size

unfoldable pub malloc : Machine → ℕ → Option (List ℕ)
unfolding block_of
malloc m size = if m.gives then some (block_of m.garbage 0 size) else none

-- what is printed
pub data Message : Type 0 where
  banner open_failed open_failed_append array_failed prompt flush_failed close_failed : Message
  open_failed_reading end_of_file : Message
  character : ℕ → Message
  text : List ℕ → Message

-- `left_open` counts the streams that were opened and not closed.
pub record Program : Type 0 where
  pub messages : List Message
  pub disk : Disk
  pub left_open : ℕ

abbrev pub print : Message → Program → Program
print message p = record p { messages = p.messages ++ message ∷ [] }

abbrev pub print_if : Bool → Message → Program → Program
print_if test message p = if test then print message p else p

-- An empty text prints nothing.
abbrev pub print_text : List ℕ → Program → Program
print_text [] p = p
print_text (byte ∷ bytes) p = print (text (byte ∷ bytes)) p

-- `fopen`, and the message where it gives NULL
unfoldable pub open_file : Mode → Bool → Message → Program → Option Stream × Program
unfolding fopen
open_file mode allowed message p =
    let (file, disk) = fopen mode allowed p.disk in
    elim file [
      | none ↦ (none, print message (record p { disk = disk }))
      | some s ↦ (some s, record p { disk = disk; left_open = suc p.left_open })
    ]

-- `status = fclose(file1)` and its message
unfoldable pub close_file : Option ℕ → Stream → Program → Program
unfolding flush
close_file answer file p =
    let (done, disk) = flush answer file p.disk in
    let closed = record p { disk = disk; left_open = p.left_open - 1 } in
    if done then closed else print close_failed closed

-- `fflush` and its message; where the stream appends, its offset does not matter.
unfoldable pub flush_file : Option ℕ → Stream → Program → Stream × Program
unfolding flush
flush_file answer file p =
    let (done, disk) = flush answer file p.disk in
    let flushed = record p { disk = disk } in
    (record file { waiting = [] }, if done then flushed else print flush_failed flushed)

-- The file is opened three times, without a `fclose` in between, and gets its first character.
unfoldable pub create_file : Machine → Program → Run Program
unfolding open_file close_file put_bytes
create_file m p =
    let (file1, opened) = open_file write (m.opens 0) open_failed (print banner p) in
    let (file2, reopened) = open_file update (m.opens 1) open_failed opened in
    let (file3, emptied) = open_file rewrite (m.opens 2) open_failed reopened in
    or_fault file3 >>= λ file. ok (close_file (m.flushes 0) (put_bytes (b'v' ∷ []) file) emptied)

abbrev pub no_array : Option (List ℕ) → Bool
no_array none = true
no_array (some block) = false

-- The line that is typed is appended.
unfoldable pub append_line : Machine → Program → Run (List ℕ × Program)
unfolding open_file close_file flush_file put_bytes scanf_line c_string malloc
append_line m p =
    let (file4, opened) = open_file append (m.opens 3) open_failed_append p in
    let asked = print prompt (print_if (no_array (malloc m 20)) array_failed opened) in
    scanf_line m.typed (malloc m 20) >>= λ pointer. or_fault pointer >>= λ block.
    or_fault file4 >>= λ file. c_string block >>= λ line.
    let (flushed, stored) = flush_file (m.flushes 1) (put_bytes line file) asked in
    ok (block, close_file (m.flushes 2) flushed stored)

-- `fgets` has read a line, which goes to the block and is printed from there.
unfoldable pub print_read : List ℕ → List ℕ → Program → Run Program
unfolding put_string c_string
print_read [] block p = ok p
print_read (byte ∷ bytes) block p = put_string (byte ∷ bytes) block >>= λ filled.
    c_string filled >>= λ shown. ok (print_text shown p)

-- `fgets` takes as many bytes as the string in the block has.
unfoldable pub print_line : List ℕ → Stream → Program → Run Program
unfolding print_read
print_line block file p = c_string block >>= λ old.
    print_read (line_of (length old) (drop file.offset (bytes_on p.disk))) block p

unfoldable pub read_back : Machine → List ℕ → Program → Run Program
unfolding open_file close_file fgetc
read_back m block p =
    let (file5, opened) = open_file read (m.opens 4) open_failed_reading p in
    or_fault file5 >>= λ file.
    let (c, behind) = fgetc file opened.disk in
    let shown = print (if behind.at_end then end_of_file else character c) opened in
    print_line block behind shown >>= λ printed. ok (close_file (m.flushes 3) behind printed)

abbrev pub start : Disk → Program
start disk = record { messages = []; disk = disk; left_open = 0 }

unfoldable pub file_main : Machine → Disk → Run Program
file_main m disk = create_file m (start disk) >>= λ created.
    append_line m created >>= λ (block, appended). read_back m block appended
