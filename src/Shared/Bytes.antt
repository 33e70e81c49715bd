-- ===== src/Shared/Bytes.antt =====
-- Where the bytes and the fields of a record in shared memory come from, and those of a log line that
-- `fprintf` reads from it while the other thread may be writing.
use advanced_practical_embed.Base.{
  ℕ, suc, ◌+◌, ◌≤◌, ◌<◌, ◌≡◌, refl, sym, ap, List, [], ◌∷◌, ◌++◌, arith, length, ◌⊎◌, inl, inr,
  ◌==◌, Bool-cases, if◌then◌else◌,
}
use mathlib.Core.Path.{subst}
use advanced_practical_embed.Ipc.Packets.{Packet}
use advanced_practical_embed.Shared.{
  Block, byte_at, put_byte, Place, unborn, taking_command, taking_text,
}

-- `v` is one of the first `n` values of `f`; or else `v` is the old value, and `E` holds.
abbrev pub Found : {A : Type 0} → (ℕ → A) → ℕ → A → Type 0
Found f n v = (j : ℕ) × (j < n) × (v ≡ f j)

abbrev pub Told : Type 0 → {A : Type 0} → (ℕ → A) → A → ℕ → A → Type 0
Told E f old n v = Found f n v ⊎ (E × (v ≡ old))

pub Told-more :
    {E F A : Type 0} (f : ℕ → A) (old : A) (n m : ℕ) (v : A)
    → n ≤ m
    → (E → F)
    → Told E f old n v
    → Told F f old m v
Told-more f old n m v h g (inl (j, below, e)) = inl (j, omega arith, e)
Told-more f old n m v h g (inr (x, e)) = inr (g x, e)

module _ (t : ℕ → Packet) (o : Block) (n : ℕ) where
  -- the byte at `k` of one of the first `n` packets, or the old one
  abbrev pub ToldByte : ℕ → ℕ → Type 0
  ToldByte k c = Told (Unit {0}) (λ j. byte_at (t j).messages k) (o.messages k) n c

  abbrev pub ToldCommand : Type 0 → Packet → Type 0
  ToldCommand E p = Told E (λ j. (t j).command) o.command n p.command

  abbrev pub ToldLen : Type 0 → Packet → Type 0
  ToldLen E p = Told E (λ j. (t j).string_len) o.string_len n p.string_len

  -- The text's bytes stand from offset `k` on.
  abbrev pub Traced : ℕ → List ℕ → Type 0
  Traced k [] = Unit
  Traced k (c ∷ cs) = ToldByte k c × Traced (suc k) cs

  -- Each byte and each field of a logged record by itself; with `E`, a field may also be old.
  pub record Shown (E : Type 0) (p : Packet) : Type 0 where
    pub text : Traced 0 p.messages
    pub command : ToldCommand E p
    pub len : ToldLen E p

  abbrev pub AllShown : Type 0 → List Packet → Type 0
  AllShown E [] = Unit
  AllShown E (p ∷ ps) = Shown E p × AllShown E ps

  -- What holds of the line that is being read.
  abbrev pub IsLine : Type 0 → Place → Packet → Type 0
  IsLine E taking_command p = (p.messages ≡ []) × ToldLen E p
  IsLine E taking_text p = Shown E p
  IsLine E _ p = Unit

  -- What the shared record holds after at least `mc` commands and `ml` lengths have been set.
  pub record Holds (mc ml : ℕ) (b : Block) : Type 0 where
    pub bytes : (k : ℕ) → ToldByte k (b.messages k)
    pub command : Told (mc ≡ 0) (λ j. (t j).command) o.command n b.command
    pub len : Told (ml ≡ 0) (λ j. (t j).string_len) o.string_len n b.string_len

  pub record Contents (E : Type 0) (mc ml : ℕ) (b : Block) (p : Place) (line : Packet)
      (seen : List Packet) : Type 0 where
    pub holds : Holds mc ml b
    pub reading : IsLine E p line
    pub shown : AllShown E seen

  pub AllShown-snoc :
      (E : Type 0) (ps : List Packet) (p : Packet)
      → AllShown E ps
      → Shown E p
      → AllShown E (ps ++ p ∷ [])
  AllShown-snoc E [] p a h = (h, tt)
  AllShown-snoc E (q ∷ ps) p (first, rest) h = (first, AllShown-snoc E ps p rest h)

  pub Traced-snoc :
      (k : ℕ) (cs : List ℕ) (c : ℕ)
      → Traced k cs
      → ToldByte (k + length cs) c
      → Traced k (cs ++ c ∷ [])
  Traced-snoc k [] c a h = (subst (λ m. ToldByte m c) (omega arith) h, tt)
  Traced-snoc k (d ∷ cs) c (first, rest) h =
      (first, Traced-snoc (suc k) cs c rest (subst (λ m. ToldByte m c) (omega arith) h))

  pub ToldByte-put :
      (bytes : ℕ → ℕ) (k a i : ℕ)
      → i < n
      → ToldByte a (bytes a)
      → ToldByte a (put_byte bytes k (byte_at (t i).messages k) a)
  unfolding put_byte
  ToldByte-put bytes k a i below h = elim (Bool-cases (a == k)) [
    | inl e ↦
        let same : a ≡ k = ground arith in
        inl (i, below, rw (e, if◌then◌else◌) (ap (byte_at (t i).messages) (sym same)))
    | inr e ↦ rw (e, if◌then◌else◌) h
  ]

  -- The steps of a log line, as the other thread left the record.
  module _ (E : Type 0) (mc ml : ℕ) (b : Block) (h : Holds mc ml b) (line : Packet) where
    pub read_len_lem : (ml ≡ 0 → E) → ToldLen E (record line { string_len = b.string_len })
    read_len_lem old =
        Told-more (λ j. (t j).string_len) o.string_len n n b.string_len (omega arith) old h.len

    pub read_command_lem :
        (mc ≡ 0 → E)
        → line.messages ≡ []
        → ToldLen E line
        → Shown E (record line { command = b.command })
    read_command_lem old fresh len = record {
      text = subst (Traced 0) (sym fresh) tt;
      command = Told-more (λ j. (t j).command) o.command n n b.command (omega arith) old h.command;
      len = len;
    }

    pub read_byte_lem :
        Shown E line
        → Shown E
            (record line { messages = line.messages ++ b.messages (length line.messages) ∷ [] })
    read_byte_lem s = record {
      text = Traced-snoc 0 line.messages (b.messages (length line.messages)) s.text (
          subst (λ m. ToldByte m (b.messages (length line.messages))) (omega arith)
            (h.bytes (length line.messages)));
      command = s.command;
      len = s.len;
    }

  module _ (mc ml : ℕ) (b : Block) (h : Holds mc ml b) (i : ℕ) (below : i < n) where
    pub Holds-byte :
        (k : ℕ)
        → Holds mc ml (record b { messages = put_byte b.messages k (byte_at (t i).messages k) })
    Holds-byte k = record {
      bytes = λ a. ToldByte-put b.messages k a i below (h.bytes a);
      command = h.command;
      len = h.len;
    }

    pub Holds-command : (mc' : ℕ) → Holds mc' ml (record b { command = (t i).command })
    Holds-command mc' = record { bytes = h.bytes; command = inl (i, below, refl); len = h.len }

    pub Holds-len : (ml' : ℕ) → Holds mc ml' (record b { string_len = (t i).string_len })
    Holds-len ml' = record { bytes = h.bytes; command = h.command; len = inl (i, below, refl) }

module _ (t : ℕ → Packet) (o : Block) (n m : ℕ) (h : n ≤ m) where
  Traced-more : (k : ℕ) (cs : List ℕ) → Traced t o n k cs → Traced t o m k cs
  Traced-more k [] a = tt
  Traced-more k (c ∷ cs) (first, rest) = (
    Told-more (λ j. byte_at (t j).messages k) (o.messages k) n m c h (λ e. e) first,
    Traced-more (suc k) cs rest,
  )

  Shown-more : (E : Type 0) (p : Packet) → Shown t o n E p → Shown t o m E p
  Shown-more E p s = record {
    text = Traced-more 0 p.messages s.text;
    command = Told-more (λ j. (t j).command) o.command n m p.command h (λ (e : E). e) s.command;
    len = Told-more (λ j. (t j).string_len) o.string_len n m p.string_len h (λ (e : E). e) s.len;
  }

  AllShown-more : (E : Type 0) (ps : List Packet) → AllShown t o n E ps → AllShown t o m E ps
  AllShown-more E [] a = tt
  AllShown-more E (p ∷ ps) (first, rest) = (Shown-more E p first, AllShown-more E ps rest)

  IsLine-more : (E : Type 0) (q : Place) (p : Packet) → IsLine t o n E q p → IsLine t o m E q p
  IsLine-more E taking_command p (empty, a) =
      (empty, Told-more (λ j. (t j).string_len) o.string_len n m p.string_len h (λ (e : E). e) a)
  IsLine-more E taking_text p a = Shown-more E p a
  IsLine-more E unborn p a = tt
  IsLine-more E _ p a = tt

  Holds-more : (mc ml : ℕ) (b : Block) → Holds t o n mc ml b → Holds t o m mc ml b
  Holds-more mc ml b a = record {
    bytes = λ k.
        Told-more (λ j. byte_at (t j).messages k) (o.messages k) n m (b.messages k) h
          (λ (e : Unit {0}). e) (a.bytes k);
    command =
        Told-more (λ j. (t j).command) o.command n m b.command h (λ (e : mc ≡ 0). e) a.command;
    len =
        Told-more (λ j. (t j).string_len) o.string_len n m b.string_len h (λ (e : ml ≡ 0). e) a.len;
  }

  -- The other thread has begun to write more records.
  pub Contents-more :
      (E : Type 0) (mc ml : ℕ) (b : Block) (q : Place) (line : Packet) (seen : List Packet)
      → Contents t o n E mc ml b q line seen
      → Contents t o m E mc ml b q line seen
  Contents-more E mc ml b q line seen c = record {
    holds = Holds-more mc ml b c.holds;
    reading = IsLine-more E q line c.reading;
    shown = AllShown-more E seen c.shown;
  }
