-- ===== src/FileProgram/Strings.antt =====
-- Lines that are typed and strings in a block of memory.
use advanced_practical_embed.Base.{
  ℕ, zero, suc, ◌≤◌, ◌<◌, ◌≡◌, ◌≢◌, ◌⊎◌, inl, inr, refl, ap, ◌∙◌, arith, Option, none, some, List,
  [], ◌∷◌, ◌++◌, length, dec_lt,
}
use advanced_practical_embed.Run.{fault, ok}
use advanced_practical_embed.CStrings.{
  c_string-append, HasNoNul, HasNul, HasNul-append, c_string, c_string-bounds, put_string_fits,
  put_string_over,
}
use advanced_practical_embed.FileProgram.Stdio.{up_to_byte, line_of, store_line}

-- A text without a newline and without a NUL.
abbrev pub IsLine : List ℕ → Type 0
IsLine [] = Unit
IsLine (byte ∷ bytes) = (byte ≢ 0) × (byte ≢ 10) × IsLine bytes

pub up_to_byte-line : (line rest : List ℕ) → IsLine line → up_to_byte 10 (line ++ 10 ∷ rest) ≡ line
unfolding up_to_byte
up_to_byte-line [] rest h = refl
up_to_byte-line (byte ∷ line) rest h = ground (arith, up_to_byte-line line rest)

pub line_of-line : (line : List ℕ) → IsLine line → line_of (length line) line ≡ line
unfolding line_of
line_of-line [] h = refl
line_of-line (byte ∷ line) h = ground (arith, line_of-line line)

pub length-line_of : (room : ℕ) (bytes : List ℕ) → length (line_of room bytes) ≤ room
unfolding line_of
length-line_of zero bytes = omega arith
length-line_of (suc room) [] = omega arith
length-line_of (suc room) (byte ∷ bytes) = ground (arith, length-line_of room bytes)

IsLine-HasNoNul : (line : List ℕ) → IsLine line → HasNoNul line
IsLine-HasNoNul [] h = tt
IsLine-HasNoNul (byte ∷ line) (some_byte, inside, h) = (some_byte, IsLine-HasNoNul line h)

pub c_string-line : (line rest : List ℕ) → IsLine line → c_string (line ++ 0 ∷ rest) ≡ ok line
c_string-line line rest h = c_string-append line rest (IsLine-HasNoNul line h)

-- The line that is typed fits into the block with its NUL, or it is empty and the block holds a string.
abbrev pub Fits : List ℕ → List ℕ → Type 0
Fits line block = ((line ≡ []) × HasNul block) ⊎ ((1 ≤ length line) × (length line < length block))

pub store_line-Fits :
    (line block : List ℕ)
    → Fits line block
    → (filled : List ℕ) × (store_line line (some block) ≡ ok (some filled)) × HasNul filled
unfolding store_line
store_line-Fits [] block (inl (e, nul)) = (block, refl, nul)
store_line-Fits [] block (inr (some_bytes, short)) = absurd (omega arith)
store_line-Fits (byte ∷ line) block (inl (e, nul)) = absurd (cc e)
store_line-Fits (byte ∷ line) block (inr (some_bytes, short)) =
    let (rest, e, size) = put_string_fits (byte ∷ line) block short in
    ((byte ∷ line) ++ 0 ∷ rest, rw e, HasNul-append (byte ∷ line) rest)

-- A line that could be stored, and read again, fits.
pub store_line-needs :
    (line : List ℕ) (pointer : Option (List ℕ)) (filled text : List ℕ)
    → store_line line pointer ≡ ok (some filled)
    → c_string filled ≡ ok text
    → (block : List ℕ) × (pointer ≡ some block) × Fits line block
unfolding store_line
store_line-needs [] none filled text h k = cc
store_line-needs [] (some block) filled text h k =
    (block, refl, inl (refl, (c_string-bounds block text (ap c_string (cc) ∙ k)).1))
store_line-needs (byte ∷ line) none filled text h k = cc
store_line-needs (byte ∷ line) (some block) filled text h k =
    elim (dec_lt (length (byte ∷ line)) (length block)) [
      | yes short ↦ (block, refl, inr (omega arith, short))
      | no long ↦ absurd (
          let e = put_string_over (byte ∷ line) block (omega arith) in
          let bad : fault ≡ ok (some filled) = rw e at h in cc)
    ]
