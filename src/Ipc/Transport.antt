-- ===== src/Ipc/Transport.antt =====
-- The operating system's channel between two threads, a pipe or a message queue, as its manual
-- describes it: packets come out in the order in which they went in, a write waits for room, a read
-- waits for a packet, and both fail once the descriptor is closed.
use advanced_practical_embed.Base.{ℕ, ◌+◌, ◌≤◌, ◌≡◌, Bool, true, false, List, [], ◌∷◌, ◌++◌, length}
use advanced_practical_embed.Ipc.Packets.{Packet}

pub data Reply (A : Type 0) : Type 0 where
  done : A → Reply A
  blocked failed : Reply A

pub record Transport : Type 1 where
  pub Chan : Type 0
  pub fresh : Chan
  pub send : Chan → List Packet → Reply Chan
  pub receive : Chan → Reply (Packet × Chan)
  pub close : Chan → Chan
  -- what the manual promises
  pub contents : Chan → List Packet
  pub is_open : Chan → Bool
  pub capacity : ℕ
  pub fresh_empty : (contents fresh ≡ []) × (is_open fresh ≡ true)
  pub send_room :
      (c : Chan) (ps : List Packet)
      → is_open c ≡ true
      → length (contents c) + length ps ≤ capacity
      → (c' : Chan) × (send c ps ≡ done c') × (contents c' ≡ contents c ++ ps) × (is_open c' ≡ true)
  pub receive_first :
      (c : Chan) (p : Packet) (ps : List Packet)
      → is_open c ≡ true
      → contents c ≡ p ∷ ps
      → (c' : Chan) × (receive c ≡ done (p, c')) × (contents c' ≡ ps) × (is_open c' ≡ true)
  pub receive_empty : (c : Chan) → is_open c ≡ true → contents c ≡ [] → receive c ≡ blocked
  pub close_closed : (c : Chan) → is_open (close c) ≡ false
  pub closed_send : (c : Chan) (ps : List Packet) → is_open c ≡ false → send c ps ≡ failed
  pub closed_fails : (c : Chan) → is_open c ≡ false → receive c ≡ failed
