-- ===== src/Shared/Kept.antt =====
-- What holds of the shared memory and both handlers in every state: how far the two have come, and
-- where the contents of the records and of the log come from.
use advanced_practical_embed.Base.{
  After, ℕ, suc, ◌+◌, ◌≤◌, ◌≡◌, refl, ◌∙◌, Bool, true, false, Option, none, some, List, [], ◌∷◌,
  ◌++◌, arith, length, append-nil,
}
use advanced_practical_embed.Ipc.Packets.{
  Packet, Thread, one, two, Entry, heard, heard-snoc, spoken,
}
use advanced_practical_embed.Shared.{
  Block, Place, unborn, copying, setting_command, setting_len, waiting, taking_len, taking_command,
  taking_text, flagging, finished, MainPlace, boot, create1, create2, Memory,
}
use advanced_practical_embed.Shared.Bytes.{Contents}

abbrev pub as_number : Bool → ℕ
as_number true = 1
as_number false = 0

-- 1 while an answer is announced that thread 1 has not counted yet.
abbrev pub pending : Place → Bool → ℕ
pending taking_len send = 1
pending taking_command send = 1
pending taking_text send = 1
pending flagging send = 1
pending _ send = as_number send

abbrev pub logged : Place → ℕ
logged flagging = 1
logged _ = 0

-- How large the index of a handler can be.
abbrev pub bound : Place → ℕ
bound (copying k) = 9
bound setting_command = 9
bound setting_len = 9
bound waiting = 9
bound taking_len = 9
bound taking_command = 9
bound taking_text = 9
bound flagging = 9
bound _ = 10

-- How many answers thread 2 has begun to write, and how many of their commands and lengths it has set.
abbrev pub begun : Place → ℕ → ℕ
begun (copying k) i = suc i
begun setting_command i = suc i
begun setting_len i = suc i
begun flagging i = suc i
begun _ i = i

abbrev pub commands : Place → ℕ → ℕ
commands setting_len i = suc i
commands flagging i = suc i
commands _ i = i

abbrev pub lens : Place → ℕ → ℕ
lens flagging i = suc i
lens _ i = i

-- `main` has created the thread.
abbrev pub IsBorn : Thread → MainPlace → Type 0
IsBorn t boot = ⊥
IsBorn t create1 = ⊥
IsBorn one create2 = Unit
IsBorn two create2 = ⊥
IsBorn t _ = Unit

abbrev pub IsUnborn : Thread → MainPlace → Type 0
IsUnborn t boot = Unit
IsUnborn t create1 = Unit
IsUnborn one create2 = ⊥
IsUnborn two create2 = Unit
IsUnborn t _ = ⊥

-- As long as `main` has not created it, and no longer, a thread is unborn; and thread 2 has no wait.
abbrev pub Staged : Thread → Place → MainPlace → Type 0
Staged t unborn m = IsUnborn t m
Staged two waiting m = ⊥
Staged t _ m = IsBorn t m

pub record Counts (send : Bool) (seen : List Packet) (m : MainPlace) (p1 : Place) (i1 : ℕ)
    (p2 : Place) (i2 : ℕ) : Type 0 where
  pub counted : length seen ≡ i1 + logged p1
  pub announced : i1 + pending p1 send ≤ i2
  pub bounded1 : i1 ≤ bound p1
  pub bounded2 : i2 ≤ bound p2
  pub staged1 : Staged one p1 m
  pub staged2 : Staged two p2 m

module _ (t1 t2 : ℕ → Packet) (old1 old2 : Block) where
  pub record KeptAt (send : Bool) (seen1 seen2 : List Packet) (ptr ptr1 : Block) (m : MainPlace)
      (p1 : Place) (i1 : ℕ) (line1 : Packet) (p2 : Place) (i2 : ℕ) (line2 : Packet) : Type 0 where
    pub counts : Counts send seen1 m p1 i1 p2 i2
    pub answers : Contents t2 old2 (begun p2 i2) ⊥ (commands p2 i2) (lens p2 i2) ptr1 p1 line1 seen1
    pub records : Contents t1 old1 10 (Unit {0}) 0 0 ptr p2 line2 seen2

  abbrev pub Kept : Memory → Type 0
  Kept s =
      KeptAt s.send (heard one s.log) (heard two s.log) s.ptr s.ptr1 s.main s.place1 s.i1 s.line1
        s.place2 s.i2 s.line2

pub silent :
    (t : Thread) (es : List Entry) (e : Entry)
    → spoken t e ≡ []
    → heard t (es ++ e ∷ []) ≡ heard t es
silent t es e h = heard-snoc t es e ∙ rw h (append-nil (heard t es))

pub pending-small : (p : Place) → pending p true ≤ 1
pending-small taking_len = omega arith
pending-small taking_command = omega arith
pending-small taking_text = omega arith
pending-small flagging = omega arith
pending-small unborn = omega arith
pending-small _ = omega arith

pub logged-small : (p : Place) (send : Bool) → logged p ≤ pending p send
logged-small flagging send = omega arith
logged-small unborn send = omega arith
logged-small _ send = omega arith

pub begun-small : (p : Place) (i : ℕ) → i ≤ bound p → begun p i ≤ 10
begun-small (copying k) i h = omega arith
begun-small setting_command i h = omega arith
begun-small setting_len i h = omega arith
begun-small flagging i h = omega arith
begun-small unborn i h = omega arith
begun-small _ i h = omega arith

pub commands-large : (p : Place) (i : ℕ) → i ≤ commands p i
commands-large setting_len i = omega arith
commands-large flagging i = omega arith
commands-large unborn i = omega arith
commands-large _ i = omega arith

pub lens-large : (p : Place) (i : ℕ) → i ≤ lens p i
lens-large flagging i = omega arith
lens-large unborn i = omega arith
lens-large _ i = omega arith

pub bound-small : (p : Place) → bound p ≤ 10
bound-small (copying k) = omega arith
bound-small unborn = omega arith
bound-small _ = omega arith

pub Staged-later :
    (t : Thread) (p : Place) (m m' : MainPlace)
    → (IsBorn t m → IsBorn t m')
    → (IsUnborn t m → IsUnborn t m')
    → Staged t p m
    → Staged t p m'
Staged-later one unborn m m' born unborn_yet h = unborn_yet h
Staged-later one _ m m' born unborn_yet h = born h
Staged-later two unborn m m' born unborn_yet h = unborn_yet h
Staged-later two waiting m m' born unborn_yet h = absurd h
Staged-later two _ m m' born unborn_yet h = born h

pub Staged-unborn :
    (t : Thread) (p : Place) (m : MainPlace) → (IsBorn t m → ⊥) → Staged t p m → p ≡ unborn
Staged-unborn one unborn m no_one h = refl
Staged-unborn one _ m no_one h = absurd (no_one h)
Staged-unborn two unborn m no_one h = refl
Staged-unborn two waiting m no_one h = absurd h
Staged-unborn two _ m no_one h = absurd (no_one h)

pub joined :
    (Q : Memory → Type 0) (p : Place) (s : Memory)
    → Q s
    → After Q (elim p as (λ _. Option Memory) [ finished ↦ some s | _ ↦ none ])
joined Q finished s q = q
joined Q unborn s q = tt
joined Q _ s q = tt

module _ (send : Bool) (seen : List Packet) (m : MainPlace) (i1 i2 : ℕ) where
  pub move1 :
      (p q p2 : Place)
      → logged q ≡ logged p
      → pending q send ≤ pending p send
      → i1 ≤ bound q
      → (Staged one p m → Staged one q m)
      → Counts send seen m p i1 p2 i2
      → Counts send seen m q i1 p2 i2
  move1 p q p2 same less small born k = record {
    counted = omega (arith, k.counted, same);
    announced = omega (arith, k.announced, less);
    bounded1 = small;
    bounded2 = k.bounded2;
    staged1 = born k.staged1;
    staged2 = k.staged2;
  }

  pub move2 :
      (p1 p q : Place)
      → i2 ≤ bound q
      → (Staged two p m → Staged two q m)
      → Counts send seen m p1 i1 p i2
      → Counts send seen m p1 i1 q i2
  move2 p1 p q small born k = record {
    counted = k.counted;
    announced = k.announced;
    bounded1 = k.bounded1;
    bounded2 = small;
    staged1 = k.staged1;
    staged2 = born k.staged2;
  }
