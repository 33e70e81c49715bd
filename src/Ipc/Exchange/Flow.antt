-- ===== src/Ipc/Exchange/Flow.antt =====
-- How many packets are on their way in a channel, as long as it is open, whatever signals arrive.
use advanced_practical_embed.Base.{
  ℕ, suc, ◌+◌, ◌≤◌, ◌<◌, ◌≡◌, refl, ap, ◌⊎◌, inl, inr, true, false, List, [], ◌∷◌, arith, length,
  length-append, Bool-cases,
}
use advanced_practical_embed.Ipc.Packets.{Packet}
use advanced_practical_embed.Ipc.Transport.{Transport, done, blocked, failed}
use advanced_practical_embed.Ipc.Exchange.Links.{Delivers, stream}

-- After `s` writes and at most `r` reads.
pub record Flow (T : Transport) (payload : ℕ → List Packet) (c : T.Chan) (s r : ℕ) : Type 0 where
  pub taken : ℕ
  pub at_most : taken ≤ r
  pub counted : length (T.contents c) + taken ≡ length (stream payload s)

abbrev pub OpenFlow : (T : Transport) → (ℕ → List Packet) → T.Chan → ℕ → ℕ → Type 0
OpenFlow T payload c s r = T.is_open c ≡ true → Flow T payload c s r

Packets-cases :
    (xs : List Packet) → (xs ≡ []) ⊎ ((x : Packet) × (rest : List Packet) × (xs ≡ x ∷ rest))
Packets-cases [] = inl refl
Packets-cases (x ∷ rest) = inr (x, rest, refl)

module _ (T : Transport) (payload : ℕ → List Packet) where
  pub OpenFlow-closed : (c : T.Chan) (s r : ℕ) → T.is_open c ≡ false → OpenFlow T payload c s r
  OpenFlow-closed c s r e o = cc

  pub OpenFlow-later :
      (c : T.Chan) (s r r' : ℕ) → r ≤ r' → OpenFlow T payload c s r → OpenFlow T payload c s r'
  OpenFlow-later c s r r' h f o =
      let g = f o in
      record { taken = g.taken; at_most = omega (arith, g.at_most); counted = g.counted }

  -- A read waits at an open and empty channel, takes a packet, or fails at a closed one.
  pub OpenFlow-receive :
      (c : T.Chan) (s r : ℕ)
      → OpenFlow T payload c s r
      → ((T.receive c ≡ blocked) × (T.is_open c ≡ true) × (length (T.contents c) ≡ 0))
        ⊎ (((p : Packet) × (c' : T.Chan) × (T.receive c ≡ done (p, c'))
              × (T.is_open c ≡ true)
              × OpenFlow T payload c' s (suc r))
            ⊎ (T.receive c ≡ failed))
  OpenFlow-receive c s r f = elim (Bool-cases (T.is_open c)) [
    | inr shut ↦ inr (inr (T.closed_fails c shut))
    | inl o ↦ elim (Packets-cases (T.contents c)) [
      | inl e ↦ inl (T.receive_empty c o e, o, ap length e)
      | inr (p, rest, e) ↦
          let (c', got, left, _) = T.receive_first c p rest o e in
          let g = f o in
          let sizes = ap length e in
          let sizes' = ap length left in
          inr (
            inl (
              p,
              c',
              got,
              o,
              λ _. record {
                taken = suc g.taken;
                at_most = omega (arith, g.at_most);
                counted = omega (arith, g.counted, sizes, sizes');
              },
            ))
    ]
  ]

  module _ (t : ℕ → Packet) (ways : Delivers T.capacity payload t) where
    -- A write hands over its packets, or fails at a closed channel; it does not wait.
    pub OpenFlow-send :
        (c : T.Chan) (s r : ℕ)
        → OpenFlow T payload c s r
        → s < 10
        → ((c' : T.Chan) × (T.send c (payload s) ≡ done c') × OpenFlow T payload c' (suc s) r)
          ⊎ ((T.send c (payload s) ≡ failed) × OpenFlow T payload c (suc s) r)
    unfolding stream
    OpenFlow-send c s r f small = elim (Bool-cases (T.is_open c)) [
      | inr shut ↦ inr (T.closed_send c (payload s) shut, OpenFlow-closed c (suc s) r shut)
      | inl o ↦
          let g = f o in
          let room = ways.room (suc s) (omega arith) in
          let total = length-append (stream payload s) (payload s) in
          let (c', sent, holds, _) = T.send_room c (payload s) o (omega (arith, g.counted)) in
          let sizes = ap length holds in
          let sum = length-append (T.contents c) (payload s) in
          inl (
            c',
            sent,
            λ _. record {
              taken = g.taken;
              at_most = g.at_most;
              counted = omega (arith, g.counted, sizes, sum, total);
            },
          )
    ]

    -- An open and empty channel: its reader has made as many reads as there were writes.
    pub OpenFlow-empty :
        (c : T.Chan) (s r : ℕ)
        → OpenFlow T payload c s r
        → T.is_open c ≡ true
        → length (T.contents c) ≡ 0
        → s ≤ r
    OpenFlow-empty c s r f o e =
        let g = f o in omega (arith, g.counted, g.at_most, ways.enough s, e)
