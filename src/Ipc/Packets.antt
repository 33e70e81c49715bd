-- ===== src/Ipc/Packets.antt =====
-- Packets, LED commands and the lines of the log.
use Prim.Native.Char.{code}
use Prim.Native.String.{String}
use advanced_practical_embed.Base.{
  ℕ, List, [], ◌∷◌, ◌++◌, length, ◌≡◌, ap, sym, ◌∙◌, append-nil, append_assoc,
}

-- `led_cmd_t`; `unnamed` is a value of that `int` without a name, which unset memory may hold.
pub data LedCmd : Type 0 where
  on off toggle fault warning critical safe blink damaged out_of_range : LedCmd
  unnamed : ℕ → LedCmd

-- `thread1_cmd_t` and `thread2_cmd_t`: `messages` is the string that the 40 bytes hold, without its
-- closing zero.
pub record Packet : Type 0 where
  pub messages : List ℕ
  pub command : LedCmd
  pub string_len : ℕ

pub data Thread : Type 0 where
  one two : Thread

-- The lines of the log file, without timestamps and thread numbers.
pub data Entry : Type 0 where
  main_entering main_exiting : Entry
  entering exiting killed : Thread → Entry
  received : Thread → Packet → Entry

abbrev pub spoken : Thread → Entry → List Packet
spoken one (received one p) = p ∷ []
spoken two (received two p) = p ∷ []
spoken _ _ = []

-- The packets that a thread has logged, in order.
unfoldable pub heard : Thread → List Entry → List Packet
heard t [] = []
heard t (e ∷ es) = spoken t e ++ heard t es

pub heard-snoc :
    (t : Thread) (es : List Entry) (e : Entry) → heard t (es ++ e ∷ []) ≡ heard t es ++ spoken t e
unfolding heard
heard-snoc t [] e = append-nil (spoken t e)
heard-snoc t (e' ∷ es) e =
    ap (◌++◌ (spoken t e')) (heard-snoc t es e)
    ∙ sym (append_assoc (spoken t e') (heard t es) (spoken t e))

-- the bytes of a string literal
abbrev pub bytes : String → List ℕ
bytes String.[] = []
bytes (String.◌∷◌ c s) = code c ∷ bytes s

-- `strcpy(t[i].messages, text); t[i].command = c; t[i].string_len = strlen(t[i].messages);`
abbrev pub packet : String → LedCmd → Packet
packet text c = record { messages = bytes text; command = c; string_len = length (bytes text) }
