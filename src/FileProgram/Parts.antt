-- ===== src/FileProgram/Parts.antt =====
-- The three parts of myfileIO.c, and when each ends.
use advanced_practical_embed.Base.{
  ℕ, suc, ◌<◌, ◌≡◌, inl, inr, refl, ap, sym, ◌∙◌, arith, Bool, true, false, Option, none, some,
  List, [], ◌∷◌, ◌++◌, drop, length, if◌then◌else◌, Bool-cases,
}
use advanced_practical_embed.Run.{Run, fault, ok, or_fault, >>=-eq-ok}
use advanced_practical_embed.CStrings.{
  c_string, c_string-nul, c_string-bounds, put_string_fits, HasNul-append,
}
use advanced_practical_embed.FileProgram.Stdio.{
  Mode, write, update, append, read, Stream, put_bytes, fgetc, line_of, scanf_line, bytes_on,
}
use advanced_practical_embed.FileProgram.{
  Machine, malloc, Message, banner, prompt, character, open_failed, open_failed_append,
  open_failed_reading, end_of_file, array_failed, Program, print, print_if, no_array, print_text,
  open_file, close_file, flush_file, create_file, append_line, print_line, print_read, read_back,
}
use advanced_practical_embed.FileProgram.Strings.{length-line_of}
use advanced_practical_embed.FileProgram.Kept.{
  Exists, close_file-Exists, flush_file-Exists, disk-print_if,
}

-- What stands before the third `fopen`, and the stream that it gives.
abbrev pub reopened : Machine → Program → Program
reopened m p =
    (open_file update (m.opens 1) open_failed
      (open_file write (m.opens 0) open_failed (print banner p)).1).1

abbrev pub fresh_stream : Bool → Stream
fresh_stream appends = record { offset = 0; appends = appends; waiting = []; at_end = false }

abbrev pub created : Machine → Program → Program
created m p =
    close_file (m.flushes 0) (put_bytes (b'v' ∷ []) (fresh_stream false))
      (record (reopened m p) { disk = some []; left_open = suc (reopened m p).left_open })

pub create_file_ends :
    (m : Machine) (p : Program) → m.opens 2 ≡ true → create_file m p ≡ ok (created m p)
unfolding create_file open_file
create_file_ends m p e = rw e

pub create_file_needs : (m : Machine) (p q : Program) → create_file m p ≡ ok q → m.opens 2 ≡ true
unfolding create_file open_file
create_file_needs m p q h = elim (Bool-cases (m.opens 2)) [
  | inl e ↦ e
  | inr e ↦ let bad : fault ≡ ok q = rw e at h in absurd (cc)
]

pub created-Exists : (m : Machine) (p : Program) → Exists (created m p)
created-Exists m p = close_file-Exists _ _ _ ([], refl)

-- What stands before the line is appended.
abbrev pub asked : Machine → Program → Program
asked m p = print prompt (print_if (no_array (malloc m 20)) array_failed p)

abbrev pub opened : Program → Program
opened p = record p { left_open = suc p.left_open }

abbrev pub appended : Machine → List ℕ → Program → Program
appended m line p =
    let (flushed, stored) =
      flush_file (m.flushes 1) (put_bytes line (fresh_stream true)) (asked m (opened p)) in
    close_file (m.flushes 2) flushed stored

pub open_append :
    (p : Program)
    → Exists p
    → open_file append true open_failed_append p ≡ (some (fresh_stream true), opened p)
unfolding open_file
open_append p (bytes, e) = ground arith

pub append_line_ends :
    (m : Machine) (p : Program) (block line : List ℕ)
    → Exists p
    → m.opens 3 ≡ true
    → scanf_line m.typed (malloc m 20) ≡ ok (some block)
    → c_string block ≡ ok line
    → append_line m p ≡ ok (block, appended m line p)
unfolding append_line
append_line_ends m p block line there e scanned found =
    rw (e, open_append p there, scanned, found) refl

ok_fst {ℓ κ} :
    {A : Type ℓ} {B : Type κ} {a b : A} {x y : B}
    → ◌≡◌ {A = Run (A × B)} (ok (a, x)) (ok (b, y))
    → a ≡ b
ok_fst e = cc

or_fault-some {ℓ} : {A : Type ℓ} (o : Option A) {a : A} → or_fault o ≡ ok a → o ≡ some a
or_fault-some none h = cc
or_fault-some (some b) h = cc

open_file_needs :
    (mode : Mode) (allowed : Bool) (message : Message) (p : Program) {file : Stream}
    → or_fault (open_file mode allowed message p).0 ≡ ok file
    → allowed ≡ true
unfolding open_file
open_file_needs mode true message p h = refl
open_file_needs mode false message p h = cc

pub append_line_needs :
    (m : Machine) (p q : Program) (block : List ℕ)
    → append_line m p ≡ ok (block, q)
    → (m.opens 3 ≡ true)
      × (scanf_line m.typed (malloc m 20) ≡ ok (some block))
      × (line : List ℕ) × (c_string block ≡ ok line)
unfolding append_line
append_line_needs m p q block h =
    let (pointer, scanned, h1) = >>=-eq-ok (scanf_line m.typed (malloc m 20)) _ h in
    let (filled, there, h2) = >>=-eq-ok (or_fault pointer) _ h1 in
    let (file, open4, h3) =
      >>=-eq-ok (or_fault (open_file append (m.opens 3) open_failed_append p).0) _ h2 in
    let (line, found, h4) = >>=-eq-ok (c_string filled) _ h3 in
    let same : filled ≡ block = ok_fst h4 in
    (
      open_file_needs append (m.opens 3) open_failed_append p open4,
      scanned ∙ ap ok (or_fault-some pointer there ∙ ap some same),
      line,
      ap c_string (sym same) ∙ found,
    )

print_read_ends :
    (shown block : List ℕ) (p : Program)
    → length shown < length block
    → (q : Program) × (print_read shown block p ≡ ok q)
unfolding print_read
print_read_ends [] block p short = (p, refl)
print_read_ends (byte ∷ bytes) block p short =
    let (rest, stored, size) = put_string_fits (byte ∷ bytes) block short in
    let (again, found) =
      c_string-nul ((byte ∷ bytes) ++ 0 ∷ rest) (HasNul-append (byte ∷ bytes) rest) in
    (print_text again p, rw (stored, found) refl)

print_line_ends :
    (block line : List ℕ) (file : Stream) (p : Program)
    → c_string block ≡ ok line
    → (q : Program) × (print_line block file p ≡ ok q)
unfolding print_line
print_line_ends block line file p found =
    let rest = drop file.offset (bytes_on p.disk) in
    let (short, nul) = c_string-bounds block line found in
    let (q, e) =
      print_read_ends (line_of (length line) rest) block p
        (omega (arith, length-line_of (length line) rest)) in
    (q, rw found e)

pub open_read :
    (p : Program)
    → Exists p
    → open_file read true open_failed_reading p ≡ (some (fresh_stream false), opened p)
unfolding open_file
open_read p (bytes, e) = ground arith

pub read_back_ends :
    (m : Machine) (p : Program) (block line : List ℕ)
    → Exists p
    → m.opens 4 ≡ true
    → c_string block ≡ ok line
    → (q : Program) × (read_back m block p ≡ ok q)
unfolding read_back
read_back_ends m p block line there e found =
    let (c, behind) = fgetc (fresh_stream false) p.disk in
    let (q, printed) =
      print_line_ends block line behind
        (print (if behind.at_end then end_of_file else character c) (opened p)) found in
    (close_file (m.flushes 3) behind q, rw (e, open_read p there, printed) refl)

pub read_back_needs :
    (m : Machine) (p q : Program) (block : List ℕ) → read_back m block p ≡ ok q → m.opens 4 ≡ true
unfolding read_back
read_back_needs m p q block h =
    let (file, open5, rest) =
      >>=-eq-ok (or_fault (open_file read (m.opens 4) open_failed_reading p).0) _ h in
    open_file_needs read (m.opens 4) open_failed_reading p open5

pub appended-Exists :
    (m : Machine) (line : List ℕ) (p : Program) → Exists p → Exists (appended m line p)
appended-Exists m line p (bytes, e) = close_file-Exists _ _ _ (
    flush_file-Exists _ _ (asked m (opened p))
      (bytes, disk-print_if (no_array (malloc m 20)) array_failed (opened p) ∙ e))
