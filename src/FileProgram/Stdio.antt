-- ===== src/FileProgram/Stdio.antt =====
-- The streams of C's standard library, as far as myfileIO.c uses them, on a disk with one file. Bytes
-- that are written wait in the stream until it is flushed or closed; if that fails, some of them are on
-- disk and the rest is lost.
use advanced_practical_embed.Base.{
  ℕ, suc, ◌+◌, Bool, true, false, Option, none, some, List, [], ◌∷◌, ◌++◌, ◌==◌, take, drop,
  get_elem?, length, if◌then◌else◌,
}
use advanced_practical_embed.CStrings.{put_string}
use advanced_practical_embed.Run.{Run, fault, ok, ◌>>=◌}

-- "w", "r+", "w+", "a" and "r"
pub data Mode : Type 0 where
  write update rewrite append read : Mode

pub record Stream : Type 0 where
  pub offset : ℕ
  pub appends : Bool
  pub waiting : List ℕ
  pub at_end : Bool

-- what the file holds, if it is there
abbrev pub Disk : Type 0
Disk = Option (List ℕ)

abbrev pub stream : Bool → Option Stream
stream appends = some (record { offset = 0; appends = appends; waiting = []; at_end = false })

-- `fopen`, where the system allows it or not; NULL is `none`.
unfoldable pub fopen : Mode → Bool → Disk → Option Stream × Disk
fopen _ false disk = (none, disk)
fopen write true disk = (stream false, some [])
fopen rewrite true disk = (stream false, some [])
fopen append true none = (stream true, some [])
fopen append true (some bytes) = (stream true, some bytes)
fopen update true none = (none, none)
fopen update true (some bytes) = (stream false, some bytes)
fopen read true none = (none, none)
fopen read true (some bytes) = (stream false, some bytes)

-- `fputc`, and `fprintf` with "%s"
unfoldable pub put_bytes : List ℕ → Stream → Stream
put_bytes bytes file = record file { waiting = file.waiting ++ bytes }

-- Bytes get on the disk: at the stream's offset, or at the end.
unfoldable pub write_out : Stream → List ℕ → Disk → Disk
write_out file bytes none = none
write_out file bytes (some old) = some (
    if file.appends
    then old ++ bytes
    else take file.offset old ++ (bytes ++ drop (file.offset + length bytes) old))

-- `fflush` and `fclose`: whether they succeed, and the disk. `some k` says that the system has stored
-- `k` bytes and then failed.
unfoldable pub flush : Option ℕ → Stream → Disk → Bool × Disk
unfolding write_out
flush none file disk = (true, write_out file file.waiting disk)
flush (some k) file disk = (false, write_out file (take k file.waiting) disk)

abbrev pub bytes_on : Disk → List ℕ
bytes_on none = []
bytes_on (some bytes) = bytes

-- `fgetc`: EOF, which is -1, is 255 in a `uint8_t`.
unfoldable pub fgetc : Stream → Disk → ℕ × Stream
fgetc file disk = elim (get_elem? (bytes_on disk) file.offset) [
  | none ↦ (255, record file { at_end = true })
  | some byte ↦ (byte, record file { offset = suc file.offset })
]

-- The bytes in front of the first `stop`.
unfoldable pub up_to_byte : ℕ → List ℕ → List ℕ
up_to_byte stop [] = []
up_to_byte stop (byte ∷ bytes) =
    let rest = up_to_byte stop bytes in if byte == stop then [] else byte ∷ rest

-- At most `room` bytes of a line with its newline.
unfoldable pub line_of : ℕ → List ℕ → List ℕ
line_of ℕ.zero bytes = []
line_of (suc room) [] = []
line_of (suc room) (byte ∷ bytes) =
    let rest = line_of room bytes in if byte == 10 then byte ∷ [] else byte ∷ rest

-- The line goes to the block; an empty line is not stored at all.
unfoldable pub store_line : List ℕ → Option (List ℕ) → Run (Option (List ℕ))
unfolding put_string
store_line [] pointer = ok pointer
store_line (byte ∷ line) none = fault
store_line (byte ∷ line) (some block) =
    put_string (byte ∷ line) block >>= λ filled. ok (some filled)

-- `scanf("%[^\n]s", p)`
unfoldable pub scanf_line : List ℕ → Option (List ℕ) → Run (Option (List ℕ))
unfolding up_to_byte store_line
scanf_line typed pointer = store_line (up_to_byte 10 typed) pointer
