-- ===== src/Ipc/Exchange/Stages.antt =====
-- How far each thread has got, read off its position, and what a state looks like while no signal
-- has arrived.
use advanced_practical_embed.Base.{
  ℕ, zero, suc, ◌≤◌, ◌<◌, ◌≡◌, Bool, true, false, if◌then◌else◌, List, [], ◌∷◌, ◌++◌, ◌≢◌,
  append-nil, ◌∙◌,
}
use advanced_practical_embed.Ipc.Packets.{
  Packet, one, two, Entry, received, spoken, heard, heard-snoc,
}
use advanced_practical_embed.Ipc.Messages.{first}
use advanced_practical_embed.Ipc.Transport.{Transport}
use advanced_practical_embed.Ipc.Exchange.Links.{Link}
use advanced_practical_embed.Ipc.Exchange.{
  Pc, unborn, entry, head, sending, receiving, report, finished, MainPc, boot, create1, create2,
  join1, join2, leave, ended, Protocol, System,
}

-- Thread 1 counts up when it reads; thread 2 when it has written.
abbrev pub sent1 : Pc → ℕ → ℕ
sent1 receiving i = suc i
sent1 _ i = i

abbrev pub read2 : Pc → ℕ → ℕ
read2 report i = suc i
read2 sending i = suc i
read2 _ i = i

abbrev pub previous : ℕ → ℕ
previous zero = zero
previous (suc n) = n

abbrev pub heard1 : Pc → ℕ → ℕ
heard1 report i = previous i
heard1 _ i = i

abbrev pub heard2 : Pc → ℕ → ℕ
heard2 sending i = suc i
heard2 _ i = i

-- The values of `i` at each position.
abbrev pub Range1 : Pc → ℕ → Type 0
Range1 unborn i = i ≡ 0
Range1 entry i = i ≡ 0
Range1 head i = i ≤ 10
Range1 sending i = i < 10
Range1 receiving i = i < 10
Range1 report i = (0 < i) × (i ≤ 10)
Range1 finished i = i ≡ 10

abbrev pub Range2 : Pc → ℕ → Type 0
Range2 unborn i = i ≡ 0
Range2 entry i = i ≡ 0
Range2 head i = i ≤ 10
Range2 sending i = i < 10
Range2 receiving i = i < 10
Range2 report i = i < 10
Range2 finished i = i ≡ 10

-- What has been read and not yet logged.
abbrev pub Buffered1 : (ℕ → Packet) → Pc → ℕ → Packet → Type 0
Buffered1 t report i b = b ≡ t (previous i)
Buffered1 t _ i b = Unit

abbrev pub Buffered2 : (ℕ → Packet) → Pc → ℕ → Packet → Type 0
Buffered2 t report i b = b ≡ t i
Buffered2 t _ i b = Unit

abbrev pub IsBorn : Pc → Type 0
IsBorn unborn = ⊥
IsBorn _ = Unit

abbrev pub IsFinished : Pc → Type 0
IsFinished finished = Unit
IsFinished _ = ⊥

abbrev pub IsUnborn : Pc → Type 0
IsUnborn unborn = Unit
IsUnborn _ = ⊥

-- How `main` and the threads go together.
abbrev pub Staged : MainPc → Pc → Pc → Type 0
Staged boot a b = IsUnborn a × IsUnborn b
Staged create1 a b = IsUnborn a × IsUnborn b
Staged create2 a b = IsBorn a × IsUnborn b
Staged join1 a b = IsBorn a × IsBorn b
Staged join2 a b = IsFinished a × IsBorn b
Staged leave a b = IsFinished a × IsFinished b
Staged ended a b = IsFinished a × IsFinished b

-- Thread 1 has logged the first `h1` packets of `t2`, and thread 2 the first `h2` of `t1`.
pub record Logged (t1 t2 : ℕ → Packet) (log : List Entry) (h1 h2 : ℕ) : Type 0 where
  pub logged1 : heard one log ≡ first t2 h1
  pub logged2 : heard two log ≡ first t1 h2

-- Whether thread 2 has used a stream after it had closed it.
abbrev pub misuses : Protocol → Pc → Bool
misuses P finished = if P.assigns then false else true
misuses P _ = false

-- The state as long as no signal has arrived and `main` has not ended.
pub record IsGood (T : Transport) (P : Protocol) (t1 t2 : ℕ → Packet) (s : System T) : Type 0 where
  pub quiet : s.flag ≡ false
  pub running : s.main ≢ ended
  pub staged : Staged s.main s.th1.pc s.th2.pc
  pub range1 : Range1 s.th1.pc s.th1.i
  pub range2 : Range2 s.th2.pc s.th2.i
  pub there : Link T P.payload1 s.chan1 (sent1 s.th1.pc s.th1.i) (read2 s.th2.pc s.th2.i)
  pub back : Link T P.payload2 s.chan2 s.th2.i s.th1.i
  pub buffered1 : Buffered1 t2 s.th1.pc s.th1.i s.th1.receive_buff
  pub buffered2 : Buffered2 t1 s.th2.pc s.th2.i s.th2.receive_buff
  pub stream : s.misused ≡ misuses P s.th2.pc
  pub logged : Logged t1 t2 s.log (heard1 s.th1.pc s.th1.i) (heard2 s.th2.pc s.th2.i)

-- The state when `main` has ended.
pub record IsComplete (T : Transport) (P : Protocol) (t1 t2 : ℕ → Packet) (s : System T)
    : Type 0 where
  pub ended_main : s.main ≡ ended
  pub both_finished : IsFinished s.th1.pc × IsFinished s.th2.pc
  pub used : s.misused ≡ misuses P finished
  pub all_logged : Logged t1 t2 s.log 10 10

abbrev pub IsAlive : Pc → Type 0
IsAlive unborn = ⊥
IsAlive finished = ⊥
IsAlive _ = Unit

pub not-Alive-Finished : (a : Pc) → IsAlive a → IsFinished a → ⊥
not-Alive-Finished finished h k = h
not-Alive-Finished unborn h k = h
not-Alive-Finished entry h k = k
not-Alive-Finished head h k = k
not-Alive-Finished sending h k = k
not-Alive-Finished receiving h k = k
not-Alive-Finished report h k = k

not-Alive-Unborn : (a : Pc) → IsAlive a → IsUnborn a → ⊥
not-Alive-Unborn unborn h k = h
not-Alive-Unborn finished h k = k
not-Alive-Unborn entry h k = k
not-Alive-Unborn head h k = k
not-Alive-Unborn sending h k = k
not-Alive-Unborn receiving h k = k
not-Alive-Unborn report h k = k

pub Staged-one : (m : MainPc) (a a' b : Pc) → IsAlive a → IsBorn a' → Staged m a b → Staged m a' b
Staged-one boot a a' b h k s = absurd (not-Alive-Unborn a h s.0)
Staged-one create1 a a' b h k s = absurd (not-Alive-Unborn a h s.0)
Staged-one create2 a a' b h k s = (k, s.1)
Staged-one join1 a a' b h k s = (k, s.1)
Staged-one join2 a a' b h k s = absurd (not-Alive-Finished a h s.0)
Staged-one leave a a' b h k s = absurd (not-Alive-Finished a h s.0)
Staged-one ended a a' b h k s = absurd (not-Alive-Finished a h s.0)

pub Staged-two : (m : MainPc) (a b b' : Pc) → IsAlive b → IsBorn b' → Staged m a b → Staged m a b'
Staged-two boot a b b' h k s = absurd (not-Alive-Unborn b h s.1)
Staged-two create1 a b b' h k s = absurd (not-Alive-Unborn b h s.1)
Staged-two create2 a b b' h k s = absurd (not-Alive-Unborn b h s.1)
Staged-two join1 a b b' h k s = (s.0, k)
Staged-two join2 a b b' h k s = (s.0, k)
Staged-two leave a b b' h k s = absurd (not-Alive-Finished b h s.1)
Staged-two ended a b b' h k s = absurd (not-Alive-Finished b h s.1)

-- A line that neither thread counts, and a line that one of them does.
pub Logged-other :
    {t1 t2 : ℕ → Packet} {log : List Entry} {h1 h2 : ℕ} (e : Entry)
    → spoken one e ≡ []
    → spoken two e ≡ []
    → Logged t1 t2 log h1 h2
    → Logged t1 t2 (log ++ e ∷ []) h1 h2
Logged-other {log} e q1 q2 g = record {
  logged1 = heard-snoc one log e ∙ rw (q1, append-nil) g.logged1;
  logged2 = heard-snoc two log e ∙ rw (q2, append-nil) g.logged2;
}

pub Logged-one :
    {t1 t2 : ℕ → Packet} {log : List Entry} (h1 h2 : ℕ) (p : Packet)
    → p ≡ t2 h1
    → Logged t1 t2 log h1 h2
    → Logged t1 t2 (log ++ received one p ∷ []) (suc h1) h2
unfolding first
Logged-one {log} h1 h2 p e g = record {
  logged1 = heard-snoc one log (received one p) ∙ rw (g.logged1, e);
  logged2 = heard-snoc two log (received one p) ∙ append-nil (heard two log) ∙ g.logged2;
}

pub Logged-two :
    {t1 t2 : ℕ → Packet} {log : List Entry} (h1 h2 : ℕ) (p : Packet)
    → p ≡ t1 h2
    → Logged t1 t2 log h1 h2
    → Logged t1 t2 (log ++ received two p ∷ []) h1 (suc h2)
unfolding first
Logged-two {log} h1 h2 p e g = record {
  logged1 = heard-snoc one log (received two p) ∙ append-nil (heard one log) ∙ g.logged1;
  logged2 = heard-snoc two log (received two p) ∙ rw (g.logged2, e);
}
