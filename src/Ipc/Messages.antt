-- ===== src/Ipc/Messages.antt =====
-- The arrays `t1` and `t2` of the thread handlers, and the memory behind them. The arrays of pipes.c,
-- queues.c and shared_memory.c are the same; sockets.c has another `t1`.
use advanced_practical_embed.Base.{ℕ, zero, suc, List, [], ◌∷◌, ◌++◌}
use advanced_practical_embed.Ipc.Packets.{
  on, off, toggle, fault, warning, critical, safe, blink, damaged, out_of_range, Packet, packet,
  LedCmd,
}

unfoldable pub thread1_messages : List Packet
thread1_messages =
    packet "Thread1: Initialising communication" on
    ∷ packet "Thread1: Opening gateway" off
    ∷ packet "Thread1: Checking system status" toggle
    ∷ packet "Thread1: Adding parity bits" fault
    ∷ packet "Thread1: Sending data" warning
    ∷ packet "Thread1: Extracting data" critical
    ∷ packet "Thread1: Extracting parity" safe
    ∷ packet "Thread1: Waiting for Acknowledgement" blink
    ∷ packet "Thread1: Closing the gateway" damaged
    ∷ packet "Thread1: Closing the connection" out_of_range
    ∷ []

-- sockets.c's `t1`: the commands of entries 6 and 7 are assigned twice, those of 8 and 9 never, so these
-- hold what lay on the stack.
unfoldable pub sockets_messages : LedCmd → LedCmd → List Packet
sockets_messages unset8 unset9 =
    packet "Thread1: Initialising communication" on
    ∷ packet "Thread1: Opening gateway" off
    ∷ packet "Thread1: Checking system status" toggle
    ∷ packet "Thread1: Adding parity bits" fault
    ∷ packet "Thread1: Sending data" warning
    ∷ packet "Thread1: Extracting data" critical
    ∷ packet "Thread1: Extracting parity" damaged
    ∷ packet "Thread1: Waiting for Acknowledgement" out_of_range
    ∷ packet "Thread1: Closing the gateway" unset8
    ∷ packet "Thread1: Closing the connection" unset9
    ∷ []

unfoldable pub thread2_messages : List Packet
thread2_messages =
    packet "Thread2: Communication initialised" on
    ∷ packet "Thread2: Gateway opened" off
    ∷ packet "Thread2: Status positive" toggle
    ∷ packet "Thread2: Parity bits added successfull" fault
    ∷ packet "Thread2: Data sent" warning
    ∷ packet "Thread2: Data extracted" critical
    ∷ packet "Thread2: Parity extracted" safe
    ∷ packet "Thread2: Acknowledgement sent" blink
    ∷ packet "Thread2: Gateway closed" damaged
    ∷ packet "Thread2: Connection closed" out_of_range
    ∷ []

-- Entry `i` of an array; behind its end lies the memory `beyond`.
unfoldable pub nth : List Packet → (ℕ → Packet) → ℕ → Packet
nth [] beyond i = beyond i
nth (p ∷ ps) beyond zero = p
nth (p ∷ ps) beyond (suc i) = nth ps beyond i

-- `n` records from `&t[i]` on.
unfoldable pub records : (ℕ → Packet) → ℕ → ℕ → List Packet
records t i zero = []
records t i (suc n) = t i ∷ records t (suc i) n

-- The first `n` packets of a sequence.
unfoldable pub first : (ℕ → Packet) → ℕ → List Packet
first t zero = []
first t (suc n) = first t n ++ t n ∷ []

-- `t1[i]` and `t2[i]`, or what lies there on the stack
unfoldable pub t1 : (ℕ → Packet) → ℕ → Packet
unfolding nth thread1_messages
t1 beyond = nth thread1_messages beyond

unfoldable pub t2 : (ℕ → Packet) → ℕ → Packet
unfolding nth thread2_messages
t2 beyond = nth thread2_messages beyond

-- A write of one record from `&t[i]`.
unfoldable pub single : (ℕ → Packet) → ℕ → List Packet
single t i = t i ∷ []
