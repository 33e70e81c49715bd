-- ===== src/CStrings.antt =====
-- C strings in blocks of memory: what `strlen` and `printf` see of a block up to its NUL, and what
-- `strcpy`, `scanf` and `fgets` write with one. An access behind the end of the block is a fault.
use advanced_practical_embed.Base.{
  ℕ, ◌≤◌, ◌<◌, ◌≡◌, ◌≢◌, ◌⊎◌, inl, inr, refl, ap, arith, List, [], ◌∷◌, ◌++◌, ◌==◌, drop, length,
  if◌then◌else◌, Bool-cases, length-drop, length-append,
}
use advanced_practical_embed.Run.{Run, fault, ok, ◌>>=◌, >>=-eq-ok}

-- A block of memory. A string is written with its NUL at the start of the block.
unfoldable pub put_string : List ℕ → List ℕ → Run (List ℕ)
put_string text block = elim (drop (length text) block) [
  | [] ↦ fault
  | _ ∷ rest ↦ ok (text ++ 0 ∷ rest)
]

-- The string at the start of a block; without a NUL, a read goes past the block.
unfoldable pub c_string : List ℕ → Run (List ℕ)
c_string [] = fault
c_string (byte ∷ block) =
    let rest = c_string block in if byte == 0 then ok [] else rest >>= λ text. ok (byte ∷ text)

-- `strcpy(dst, src)`
unfoldable pub strcpy : List ℕ → List ℕ → Run (List ℕ)
unfolding c_string put_string
strcpy dst src = c_string src >>= λ text. put_string text dst

abbrev pub HasNul : List ℕ → Type 0
HasNul [] = ⊥
HasNul (byte ∷ bytes) = (byte ≡ 0) ⊎ HasNul bytes

-- A string that has its NUL somewhere can be read.
pub c_string-nul : (block : List ℕ) → HasNul block → (text : List ℕ) × (c_string block ≡ ok text)
unfolding c_string
c_string-nul [] h = absurd h
c_string-nul (byte ∷ block) h = elim (Bool-cases (byte == 0)) [
  | inl stop ↦ ([], rw stop)
  | inr more ↦ elim h [
    | inl e ↦ absurd (ground arith)
    | inr later ↦ let (text, e) = c_string-nul block later in (byte ∷ text, rw (more, e))
  ]
]

pub HasNul-append : (text rest : List ℕ) → HasNul (text ++ 0 ∷ rest)
HasNul-append [] rest = inl refl
HasNul-append (byte ∷ text) rest = inr (HasNul-append text rest)

ok_lem : {a b : List ℕ} → ok a ≡ ok b → a ≡ b
ok_lem e = cc

-- Where a string could be read, it is shorter than its block, and its NUL is there.
pub c_string-bounds :
    (block text : List ℕ) → c_string block ≡ ok text → (length text < length block) × HasNul block
unfolding c_string
c_string-bounds [] text h = cc
c_string-bounds (byte ∷ block) text h = elim (Bool-cases (byte == 0)) [
  | inl stop ↦
      let e : ok [] ≡ ok text = rw stop at h in (rw (← ok_lem e) (omega arith), inl (ground arith))
  | inr more ↦
      let e : (c_string block >>= λ less. ok (byte ∷ less)) ≡ ok text = rw more at h in
      let (less, found, same) = >>=-eq-ok (c_string block) (λ less. ok (byte ∷ less)) e in
      let (short, nul) = c_string-bounds block less found in
      (rw (← ok_lem same) (omega arith), inr nul)
]

pub List-cases : (xs : List ℕ) → (xs ≡ []) ⊎ ((x : ℕ) × (rest : List ℕ) × (xs ≡ x ∷ rest))
List-cases [] = inl refl
List-cases (x ∷ rest) = inr (x, rest, refl)

pub put_string_fits :
    (text block : List ℕ)
    → length text < length block
    → (rest : List ℕ) × (put_string text block ≡ ok (text ++ 0 ∷ rest))
      × (length (text ++ 0 ∷ rest) ≡ length block)
unfolding put_string
put_string_fits text block h = elim (List-cases (drop (length text) block)) [
  | inl e ↦ absurd (omega (arith, length-drop (length text) block, ap length e))
  | inr (x, rest, e) ↦ (
    rest,
    rw (e, put_string),
    omega (arith, length-append text (0 ∷ rest), length-drop (length text) block, ap length e),
  )
]

pub put_string_over :
    (text block : List ℕ) → length block ≤ length text → put_string text block ≡ fault
unfolding put_string
put_string_over text block h = elim (List-cases (drop (length text) block)) [
  | inl e ↦ rw (e, put_string)
  | inr (x, rest, e) ↦ absurd (omega (arith, length-drop (length text) block, ap length e))
]

-- A text without a NUL.
abbrev pub HasNoNul : List ℕ → Type 0
HasNoNul [] = Unit
HasNoNul (byte ∷ bytes) = (byte ≢ 0) × HasNoNul bytes

pub c_string-HasNoNul : (block text : List ℕ) → c_string block ≡ ok text → HasNoNul text
unfolding c_string
c_string-HasNoNul [] text h = cc
c_string-HasNoNul (byte ∷ block) text h = elim (Bool-cases (byte == 0)) [
  | inl stop ↦ let e : ok [] ≡ ok text = rw stop at h in rw (← ok_lem e) tt
  | inr more ↦
      let e : (c_string block >>= λ less. ok (byte ∷ less)) ≡ ok text = rw more at h in
      let (less, found, same) = >>=-eq-ok (c_string block) (λ less. ok (byte ∷ less)) e in
      rw (← ok_lem same) (λ z. ground arith, c_string-HasNoNul block less found)
]

pub c_string-append : (text rest : List ℕ) → HasNoNul text → c_string (text ++ 0 ∷ rest) ≡ ok text
unfolding c_string
c_string-append [] rest h = refl
c_string-append (byte ∷ text) rest h = ground (arith, c_string-append text rest)

-- A copy into a block that has as many bytes as the source's holds the same string.
pub strcpy_lem :
    (dst src text : List ℕ)
    → c_string src ≡ ok text
    → length src ≡ length dst
    → (copy : List ℕ) × (strcpy dst src ≡ ok copy)
      × (c_string copy ≡ ok text)
      × (length copy ≡ length dst)
unfolding strcpy
strcpy_lem dst src text found same =
    let (short, nul) = c_string-bounds src text found in
    let (rest, stored, size) = put_string_fits text dst (rw (← same) short) in
    (
      text ++ 0 ∷ rest,
      rw (found, stored) refl,
      c_string-append text rest (c_string-HasNoNul src text found),
      size,
    )
