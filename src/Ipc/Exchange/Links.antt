-- ===== src/Ipc/Exchange/Links.antt =====
-- One direction of the exchange: a channel, how often its sender has written, how many packets its
-- reader has taken out.
use advanced_practical_embed.Base.{
  ℕ, zero, suc, ◌≤◌, ◌<◌, ◌≡◌, refl, sym, ap, ◌∙◌, ◌⊎◌, inl, inr, true, List, [], ◌∷◌, ◌++◌, some,
  arith, dec_lt, length, length-append, length-drop, get_elem?, drop,
}
use advanced_practical_embed.Ipc.Packets.{Packet}
use advanced_practical_embed.Ipc.Transport.{Transport, done, blocked}

-- All that `n` writes hand over.
unfoldable pub stream : (ℕ → List Packet) → ℕ → List Packet
stream payload zero = []
stream payload (suc n) = stream payload n ++ payload n

-- The writes hand over the packets `t 0` to `t 9` in this order, with at least one packet each, and
-- what ten of them hand over fits the channel.
pub record Delivers (capacity : ℕ) (payload : ℕ → List Packet) (t : ℕ → Packet) : Type 0 where
  pub in_order :
      (n r : ℕ)
      → r < 10
      → r < length (stream payload n)
      → get_elem? (stream payload n) r ≡ some (t r)
  pub enough : (n : ℕ) → n ≤ length (stream payload n)
  pub room : (n : ℕ) → n ≤ 10 → length (stream payload n) ≤ capacity

pub record Link (T : Transport) (payload : ℕ → List Packet) (c : T.Chan) (s r : ℕ) : Type 0 where
  pub is_open : T.is_open c ≡ true
  pub left : T.contents c ≡ drop r (stream payload s)
  pub behind : r ≤ length (stream payload s)

drop-append {ℓ} :
    {A : Type ℓ} (n : ℕ) (xs ys : List A) → n ≤ length xs → drop n (xs ++ ys) ≡ drop n xs ++ ys
drop-append zero xs ys h = refl
drop-append (suc n) [] ys h = absurd (omega arith)
drop-append (suc n) (x ∷ xs) ys h = drop-append n xs ys (omega arith)

drop-all {ℓ} : {A : Type ℓ} (n : ℕ) (xs : List A) → length xs ≤ n → drop n xs ≡ []
drop-all zero [] h = refl
drop-all zero (x ∷ xs) h = absurd (omega arith)
drop-all (suc n) [] h = refl
drop-all (suc n) (x ∷ xs) h = drop-all n xs (omega arith)

drop-get_elem? {ℓ} :
    {A : Type ℓ} (n : ℕ) (xs : List A) (x : A)
    → get_elem? xs n ≡ some x
    → drop n xs ≡ x ∷ drop (suc n) xs
drop-get_elem? n [] x h = cc
drop-get_elem? zero (y ∷ xs) x h = cc
drop-get_elem? (suc n) (y ∷ xs) x h = drop-get_elem? n xs x h

module _ (T : Transport) (payload : ℕ → List Packet) (t : ℕ → Packet)
    (ways : Delivers T.capacity payload t) where
  -- A write does not wait.
  pub Link-send :
      (c : T.Chan) (s r : ℕ)
      → Link T payload c s r
      → s < 10
      → (c' : T.Chan) × (T.send c (payload s) ≡ done c') × Link T payload c' (suc s) r
  unfolding stream
  Link-send c s r l small =
      let size = length-drop r (stream payload s) in
      let total = length-append (stream payload s) (payload s) in
      let room = ways.room (suc s) (omega arith) in
      let held = ap length l.left in
      let (c', sent, holds, opened) = T.send_room c (payload s) l.is_open (omega arith) in
      (
        c',
        sent,
        record {
          is_open = opened;
          left = holds ∙ rw (l.left) (sym (drop-append r (stream payload s) (payload s) l.behind));
          behind = omega (arith, l.behind);
        },
      )

  -- A read waits for a packet, or takes the next one of the sequence.
  pub Link-receive :
      (c : T.Chan) (s r : ℕ)
      → Link T payload c s r
      → r < 10
      → ((T.receive c ≡ blocked) × (length (stream payload s) ≤ r))
        ⊎ ((c' : T.Chan) × (T.receive c ≡ done (t r, c')) × Link T payload c' s (suc r))
  Link-receive c s r l small = elim (dec_lt r (length (stream payload s))) [
    | no empty ↦ inl (
      T.receive_empty c l.is_open (l.left ∙ drop-all r (stream payload s) (omega arith)),
      omega arith,
    )
    | yes more ↦
        let next = drop-get_elem? r (stream payload s) (t r) (ways.in_order s r small more) in
        let (c', got, holds, opened) =
          T.receive_first c (t r) (drop (suc r) (stream payload s)) l.is_open (l.left ∙ next) in
        inr (c', got, record { is_open = opened; left = holds; behind = more })
  ]
