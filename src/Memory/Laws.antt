-- ===== src/Memory/Laws.antt =====
-- What `memcpy` leaves at each address, also where the two ranges overlap.
use native.Mathlib.Nat.{mod-eq_of_lt, mod-eq-sub-mod}
use advanced_practical_embed.Base.{
  ℕ, zero, suc, ◌+◌, ◌-◌, ◌%◌, ◌≤◌, ◌<◌, ◌≡◌, ◌⊎◌, sym, ap, ◌∙◌, inl, inr, arith, ◌==◌, ltb, leb,
  ◌&&◌, if◌then◌else◌, Bool-cases, dec_lt, le→leb, lt→leb, lt→ltb, le→ltb,
}
use advanced_practical_embed.Memory.{Bytes, put, copy_loop, memcpy}

-- Where entry `k` of the destination comes from: the same place of the source, unless the destination
-- begins behind the start of the source; then the bytes before it repeat.
abbrev pub origin : ℕ → ℕ → ℕ → ℕ
origin src dst k = if leb dst src then src + k else src + k % (dst - src)

-- Memory after `n` entries, told by where each byte comes from.
abbrev pub copied : ℕ → ℕ → Bytes → ℕ → Bytes
copied src dst mem n a =
    if leb dst a && ltb a (dst + n) then mem (origin src dst (a - dst)) else mem a

pub origin_apart :
    (src dst n k : ℕ) → (src + n ≤ dst) ⊎ (dst + n ≤ src) → k < n → origin src dst k ≡ src + k
origin_apart src dst n k apart h = elim (dec_lt src dst) [
  | yes before ↦ rw (lt→leb dst src before, mod-eq_of_lt {n = k} {m = dst - src} (omega arith))
  | no behind ↦ rw (le→leb dst src (omega arith))
]

module _ (src dst : ℕ) (mem : Bytes) where
  pub copied_inside : (n k : ℕ) → k < n → copied src dst mem n (dst + k) ≡ mem (origin src dst k)
  copied_inside n k h =
      let e : dst + k - dst ≡ k = omega arith in
      rw (le→leb dst (dst + k) (omega arith), lt→ltb (dst + k) (dst + n) (omega arith), e)

  pub copied_outside : (n a : ℕ) → (a < dst) ⊎ (dst + n ≤ a) → copied src dst mem n a ≡ mem a
  copied_outside n a h = elim h [
    | inl below ↦ rw (lt→leb dst a below)
    | inr above ↦ rw (le→ltb a (dst + n) above, le→leb dst a (omega arith))
  ]

  read_source : (i : ℕ) → copied src dst mem i (src + i) ≡ mem (origin src dst i)
  read_source i = elim (dec_lt src dst) [
    | no behind ↦ rw (
      le→ltb (src + i) (dst + i) (omega arith),
      le→leb dst src (omega arith),
      le→leb dst (src + i) (omega arith),
    )
    | yes before ↦ elim (dec_lt i (dst - src)) [
      | yes first ↦
          rw (lt→leb dst (src + i) (omega arith), lt→leb dst src (omega arith), mod-eq_of_lt first)
      | no later ↦
          let k = i - (dst - src) in
          let e : src + i ≡ dst + k = omega arith in
          let turn = mod-eq-sub-mod {n = i} {m = dst - src} (omega arith) in
          ap (copied src dst mem i) e
          ∙ copied_inside i k (omega arith)
          ∙ rw (lt→leb dst src (omega arith), turn)
    ]
  ]

  put_next :
      (i : ℕ) (now : Bytes)
      → ((a : ℕ) → now a ≡ copied src dst mem i a)
      → (a : ℕ) → put now (dst + i) (now (src + i)) a ≡ copied src dst mem (suc i) a
  unfolding put
  put_next i now h a = elim (Bool-cases (a == dst + i)) [
    | inl at ↦
        let e : a ≡ dst + i = ground arith in
        rw (at, h (src + i), read_source i, e) (sym (copied_inside (suc i) i (omega arith)))
    | inr off ↦ rw (off, h a) (ground arith)
  ]

  copy_loop_lem :
      (left i : ℕ) (now : Bytes)
      → ((a : ℕ) → now a ≡ copied src dst mem i a)
      → (a : ℕ) → copy_loop left i src dst now a ≡ copied src dst mem (i + left) a
  unfolding copy_loop
  copy_loop_lem zero i now h a = let e : i + 0 ≡ i = omega arith in rw e (h a)
  copy_loop_lem (suc left) i now h a =
      let e : i + suc left ≡ suc i + left = omega arith in
      rw e (copy_loop_lem left (suc i) (put now (dst + i) (now (src + i))) (put_next i now h) a)

  -- For any two ranges, `memcpy` leaves at each address what `copied` says: outside of the destination
  -- the byte that was there; in the destination the byte of the source, unless the destination begins
  -- within the source, where the first bytes repeat.
  pub memcpy-eq-copied : (length a : ℕ) → memcpy src dst length mem a ≡ copied src dst mem length a
  unfolding memcpy
  memcpy-eq-copied length a =
      copy_loop_lem length 0 mem (λ a. ground arith) a
      ∙ ap (λ n. copied src dst mem n a) (omega arith)
