-- ===== src/Ipc/Fifo.antt =====
-- A channel that behaves as the manual says, and the threads run over it by evaluation.
use advanced_practical_embed.Base.{
  ℕ, zero, suc, ◌+◌, ◌≤◌, ◌≡◌, refl, Bool, true, false, List, [], ◌∷◌, ◌++◌, length, leb, le→leb,
  if◌then◌else◌, inl, inr, Option-cases,
}
use advanced_practical_embed.Ipc.Packets.{Packet, on}
use advanced_practical_embed.Ipc.Transport.{Transport, Reply, done, blocked, failed}
use advanced_practical_embed.Ipc.Exchange.{
  Protocol, System, start, Reach, begin, next, turn, Mover, move, main_moves, thread1_moves,
  thread2_moves,
}
use advanced_practical_embed.Ipc.Exchange.Measure.{Turns, stay, onward}

pub record Pipe : Type 0 where
  pub items : List Packet
  pub open_end : Bool

unfoldable pub put : Pipe → List Packet → Reply Pipe
put c ps =
    if c.open_end
    then if leb (length c.items + length ps) 100
      then done (record c { items = c.items ++ ps })
      else blocked
    else failed

unfoldable pub take_from : Bool → List Packet → Reply (Packet × Pipe)
take_from false ps = failed
take_from true [] = blocked
take_from true (p ∷ ps) = done (p, record { items = ps; open_end = true })

pub put_room :
    (c : Pipe) (ps : List Packet)
    → c.open_end ≡ true
    → length c.items + length ps ≤ 100
    → (c' : Pipe) × (put c ps ≡ done c') × (c'.items ≡ c.items ++ ps) × (c'.open_end ≡ true)
unfolding put
put_room c ps o r = (_, simp (o, le→leb (length c.items + length ps) 100 r), refl, o)

pub take_first :
    (c : Pipe) (p : Packet) (ps : List Packet)
    → c.open_end ≡ true
    → c.items ≡ p ∷ ps
    → (c' : Pipe) × (take_from c.open_end c.items ≡ done (p, c'))
      × (c'.items ≡ ps)
      × (c'.open_end ≡ true)
unfolding take_from
take_first c p ps o i = (record { items = ps; open_end = true }, simp (o, i), refl, refl)

pub take_empty :
    (c : Pipe) → c.open_end ≡ true → c.items ≡ [] → take_from c.open_end c.items ≡ blocked
unfolding take_from
take_empty c o i = simp (o, i)

pub take_closed : (c : Pipe) → c.open_end ≡ false → take_from c.open_end c.items ≡ failed
unfolding take_from
take_closed c o = simp o

pub put_closed : (c : Pipe) (ps : List Packet) → c.open_end ≡ false → put c ps ≡ failed
unfolding put
put_closed c ps o = simp o

abbrev pub fifo : Transport
fifo = record {
  Chan = Pipe;
  fresh = record { items = []; open_end = true };
  send = put;
  receive = λ c. take_from c.open_end c.items;
  close = λ c. record c { open_end = false };
  contents = λ c. c.items;
  is_open = λ c. c.open_end;
  capacity = 100;
  fresh_empty = (refl, refl);
  send_room = put_room;
  receive_first = take_first;
  receive_empty = take_empty;
  close_closed = λ c. refl;
  closed_send = put_closed;
  closed_fails = take_closed;
}

-- A packet that nobody has sent.
abbrev pub junk : Packet
junk = record { messages = []; command = on; string_len = 0 }

module _ (P : Protocol) where
  pub record Course : Type 0 where
    pub steps : ℕ
    pub last : System fifo
    pub turns : Turns fifo P steps (start fifo P junk junk) last
    pub reach : Reach fifo P junk junk last

  after : Mover → Course → Course
  after m c = elim (Option-cases (move fifo P m c.last)) [
    | inl _ ↦ c
    | inr (t, e) ↦ record {
      steps = suc c.steps;
      last = t;
      turns = onward m c.turns e;
      reach = next c.reach (turn m e);
    }
  ]

  rounds : ℕ → Course → Course
  rounds zero c = c
  rounds (suc n) c = rounds n (after main_moves (after thread2_moves (after thread1_moves c)))

  unfoldable pub course : ℕ → Course
  unfolding after rounds Option-cases
  course n =
      rounds n (record { steps = 0; last = start fifo P junk junk; turns = stay; reach = begin })
