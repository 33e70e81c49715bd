-- ===== src/Ipc/Exchange/Single.antt =====
-- Protocols whose writes hand over one record each.
use advanced_practical_embed.Base.{
  Bool, ℕ, zero, suc, ◌+◌, ◌≤◌, ◌<◌, ◌≡◌, refl, ap, ◌∙◌, false, List, [], ◌∷◌, some, arith, length,
  length-append, take, get_elem?, get_elem?-append, ℕ_discrete, sym, inl, inr,
}
use advanced_practical_embed.Ipc.Packets.{Packet, one, two, heard}
use advanced_practical_embed.Ipc.Messages.{first, nth, t2, single, thread2_messages}
use advanced_practical_embed.Ipc.Transport.{Transport}
use advanced_practical_embed.Ipc.Exchange.{Protocol, System, start, Reach, report, sending, Pc}
use advanced_practical_embed.Ipc.Exchange.Links.{Delivers, stream}
use advanced_practical_embed.Ipc.Exchange.Stages.{Range1, heard1, heard2, sent1, read2}
use advanced_practical_embed.Ipc.Exchange.Ends.{Reach-Kept}
use advanced_practical_embed.Ipc.Exchange.Measure.{Turns, Turns-bounded}
use advanced_practical_embed.Ipc.Exchange.Results.{get_elem?-prefix, Reach-InOrder}

-- What differs between message queues and sockets, thread 1's array among it.
abbrev pub single_protocol :
    List Packet → (ℕ → Packet) → (ℕ → Packet) → Bool → Bool → Bool → Bool → Protocol
single_protocol a1 beyond1 beyond2 kill_closes main_closes accepts assigns = record {
  payload1 = single (nth a1 beyond1);
  payload2 = single (t2 beyond2);
  kill_closes = kill_closes;
  main_closes = main_closes;
  accepts = accepts;
  assigns = assigns;
}

module _ (t : ℕ → Packet) where
  pub length-stream : (n : ℕ) → length (stream (single t) n) ≡ n
  unfolding stream single
  length-stream zero = refl
  length-stream (suc n) =
      omega (arith, length-append (stream (single t) n) (t n ∷ []), length-stream n)

  single_in_order :
      (n r : ℕ) → r < length (stream (single t) n) → get_elem? (stream (single t) n) r ≡ some (t r)
  unfolding stream single
  single_in_order zero r h = absurd (omega arith)
  single_in_order (suc n) r h = elim (ℕ_discrete r n) [
    | yes last ↦ rw last (get_elem?-append (stream (single t) n) (t n) [] n (sym (length-stream n)))
    | no early ↦
        let room : r < length (stream (single t) n) =
          omega (arith, length-append (stream (single t) n) (t n ∷ []), length-stream n) in
        get_elem?-prefix (stream (single t) n) (t n ∷ []) r room ∙ single_in_order n r room
  ]

  pub single-Delivers : (capacity : ℕ) → 10 ≤ capacity → Delivers capacity (single t) t
  single-Delivers capacity large = record {
    in_order = λ n r _ h. single_in_order n r h;
    enough = λ n. omega (arith, length-stream n);
    room = λ n small. omega (arith, length-stream n);
  }

length-first : (t : ℕ → Packet) (n : ℕ) → length (first t n) ≡ n
unfolding first
length-first t zero = refl
length-first t (suc n) = omega (arith, length-append (first t n) (t n ∷ []), length-first t n)

heard1-place : (pc : Pc) (i : ℕ) → Range1 pc i → (heard1 pc i ≤ i) × (sent1 pc i ≤ heard1 pc i + 1)
heard1-place report zero r = absurd (omega (arith, r.0))
heard1-place report (suc i) r = (omega arith, omega arith)
heard1-place _ i r = (omega arith, omega arith)

heard2-place : (pc : Pc) (i : ℕ) → (i ≤ heard2 pc i) × (heard2 pc i ≤ read2 pc i)
heard2-place sending i = (omega arith, omega arith)
heard2-place _ i = (omega arith, omega arith)

module _ (T : Transport) (large : 10 ≤ T.capacity) (a1 : List Packet) (ten : length a1 ≡ 10)
    (beyond1 beyond2 : ℕ → Packet) (kill_closes main_closes accepts assigns : Bool) where
  -- Over a channel with room for ten records, where each write hands over one record, as with the
  -- message queues and the sockets, in any interleaving and before any signal, the log of thread 1
  -- holds a beginning of thread 2's messages, in order, and that of thread 2 a beginning of the ten messages
  -- of thread 1's array, which differs between the two programs, whatever lies behind the arrays.
  pub single_logged :
      (junk1 junk2 : Packet) (s : System T)
      → Reach T
          (single_protocol a1 beyond1 beyond2 kill_closes main_closes accepts assigns)
          junk1
          junk2
          s
      → s.flag ≡ false
      → (n1 : ℕ) × (n2 : ℕ) × (heard one s.log ≡ take n1 thread2_messages)
        × (heard two s.log ≡ take n2 a1)
  unfolding t2
  single_logged junk1 junk2 s r quiet =
      Reach-InOrder T (single_protocol a1 beyond1 beyond2 kill_closes main_closes accepts assigns)
        a1 ten beyond1 beyond2 (single-Delivers (nth a1 beyond1) T.capacity large)
        (single-Delivers (t2 beyond2) T.capacity large) r quiet

  -- Over a channel with room for ten records, where each write hands over one record, as with the
  -- message queues and the sockets, and as long as no signal arrives, the threads and `main` make at
  -- most 94 steps, whichever of them moves when.
  pub single_bounded :
      {n : ℕ} (junk1 junk2 : Packet) (s : System T)
      → Turns T
          (single_protocol a1 beyond1 beyond2 kill_closes main_closes accepts assigns)
          n
          (start T
            (single_protocol a1 beyond1 beyond2 kill_closes main_closes accepts assigns)
            junk1
            junk2)
          s
      → n ≤ 94
  unfolding t2
  single_bounded junk1 junk2 s r =
      Turns-bounded T (single_protocol a1 beyond1 beyond2 kill_closes main_closes accepts assigns)
        (nth a1 beyond1) (t2 beyond2) (single-Delivers (nth a1 beyond1) T.capacity large)
        (single-Delivers (t2 beyond2) T.capacity large) junk1 junk2 r

  -- Over a channel with room for ten records, where each write hands over one record, as with the
  -- message queues and the sockets, and before any signal, the threads stay in lockstep: thread 1 has
  -- not logged more acknowledgements than thread 2 has logged messages, and thread 2 is ahead by at
  -- most one message.
  pub single_lockstep :
      (junk1 junk2 : Packet) (s : System T)
      → Reach T
          (single_protocol a1 beyond1 beyond2 kill_closes main_closes accepts assigns)
          junk1
          junk2
          s
      → s.flag ≡ false
      → (length (heard one s.log) ≤ length (heard two s.log))
        × (length (heard two s.log) ≤ length (heard one s.log) + 1)
  unfolding t2
  single_lockstep junk1 junk2 s r quiet =
      let ways1 = single-Delivers (nth a1 beyond1) T.capacity large in
      let ways2 = single-Delivers (t2 beyond2) T.capacity large in
      elim (Reach-Kept T
        (single_protocol a1 beyond1 beyond2 kill_closes main_closes accepts assigns)
        (nth a1 beyond1) (t2 beyond2) ways1 ways2 r quiet) [
          | inl g ↦
              let l1 = ap length g.logged.logged1 ∙ length-first (t2 beyond2) _ in
              let l2 = ap length g.logged.logged2 ∙ length-first (nth a1 beyond1) _ in
              let sizes1 = length-stream (nth a1 beyond1) (sent1 s.th1.pc s.th1.i) in
              let sizes2 = length-stream (t2 beyond2) s.th2.i in
              let behind1 = g.there.behind in
              let behind2 = g.back.behind in
              let place1 = heard1-place s.th1.pc s.th1.i g.range1 in
              let place2 = heard2-place s.th2.pc s.th2.i in (omega arith, omega arith)
          | inr c ↦
              let l1 = ap length c.all_logged.logged1 ∙ length-first (t2 beyond2) 10 in
              let l2 = ap length c.all_logged.logged2 ∙ length-first (nth a1 beyond1) 10 in
              (omega arith, omega arith)
        ]
