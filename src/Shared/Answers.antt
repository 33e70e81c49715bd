-- ===== src/Shared/Answers.antt =====
-- What the two threads can log of each other's records, in any interleaving, with or without a signal.
use mathlib.Core.Path.{subst}
use advanced_practical_embed.Base.{After, ℕ, ◌≤◌, ◌≡◌, refl, ap, arith, length, inr}
use advanced_practical_embed.Ipc.Packets.{Packet, main_entering, main_exiting, one, two, heard}
use advanced_practical_embed.Ipc.Messages.{t1, t2}
use advanced_practical_embed.Shared.{
  Block, unborn, entry, MainPlace, boot, create1, create2, join1, join2, leave, ended, Memory,
  main_step, Step, by_main, by_thread1, by_thread2, sigint, Reach, begin, next,
}
use advanced_practical_embed.Shared.Bytes.{AllShown, Contents}
use advanced_practical_embed.Shared.Kept.{
  logged, pending, bound, begun, commands, lens, IsBorn, IsUnborn, KeptAt, Kept, silent,
  begun-small, logged-small, Staged-later, Staged-unborn, joined,
}
use advanced_practical_embed.Shared.Asking.{asked, answered, thread1-Kept}
use advanced_practical_embed.Shared.Answering.{thread2-Kept}

module _ (beyond1 beyond2 : ℕ → Packet) (old1 old2 : Block) where
  abbrev ask : ℕ → Packet
  ask = asked beyond1 beyond2 old1 old2

  abbrev answer : ℕ → Packet
  answer = answered beyond1 beyond2 old1 old2

  abbrev At : MainPlace → Memory → Type 0
  At m s =
      KeptAt ask answer old1 old2 s.send (heard one s.log) (heard two s.log) s.ptr s.ptr1 m s.place1
        s.i1 s.line1 s.place2 s.i2 s.line2

  advance :
      (s : Memory) (m m' : MainPlace)
      → (IsBorn one m → IsBorn one m')
      → (IsBorn two m → IsBorn two m')
      → (IsUnborn one m → IsUnborn one m')
      → (IsUnborn two m → IsUnborn two m')
      → At m s
      → At m' s
  advance s m m' born1 born2 unborn1 unborn2 k = record {
    counts = record {
      counted = k.counts.counted;
      announced = k.counts.announced;
      bounded1 = k.counts.bounded1;
      bounded2 = k.counts.bounded2;
      staged1 = Staged-later one s.place1 m m' born1 unborn1 k.counts.staged1;
      staged2 = Staged-later two s.place2 m m' born2 unborn2 k.counts.staged2;
    };
    answers = k.answers;
    records = k.records;
  }

  -- `pthread_create` of either thread
  born1-Kept :
      (s : Memory) → At create1 s → s.place1 ≡ unborn → At create2 (record s { place1 = entry })
  born1-Kept s k e = record {
    counts = record {
      counted = omega (arith, k.counts.counted, ap logged e);
      announced = omega (arith, k.counts.announced, ap (λ p. pending p s.send) e);
      bounded1 = omega (arith, k.counts.bounded1, ap bound e);
      bounded2 = k.counts.bounded2;
      staged1 = tt;
      staged2 = Staged-later two s.place2 create1 create2 (λ b. b) (λ b. b) k.counts.staged2;
    };
    answers = record { holds = k.answers.holds; reading = tt; shown = k.answers.shown };
    records = k.records;
  }

  born2-Kept :
      (s : Memory) → At create2 s → s.place2 ≡ unborn → At join1 (record s { place2 = entry })
  born2-Kept s k e = record {
    counts = record {
      counted = k.counts.counted;
      announced = k.counts.announced;
      bounded1 = k.counts.bounded1;
      bounded2 = omega (arith, k.counts.bounded2, ap bound e);
      staged1 = Staged-later one s.place1 create2 join1 (λ b. b) (λ b. b) k.counts.staged1;
      staged2 = tt;
    };
    answers =
        subst
          (λ p.
            Contents answer old2 (begun p s.i2) ⊥ (commands p s.i2) (lens p s.i2) s.ptr1 s.place1
              s.line1 (heard one s.log))
          e k.answers;
    records = record { holds = k.records.holds; reading = tt; shown = k.records.shown };
  }

  main-Kept :
      (m : MainPlace) (s : Memory)
      → At m s
      → After (Kept ask answer old1 old2) (main_step beyond1 beyond2 m s)
  unfolding main_step
  main-Kept boot s k =
      rw (silent one s.log main_entering refl, silent two s.log main_entering refl)
        (advance s boot create1 (λ b. b) (λ b. b) (λ b. b) (λ b. b) k)
  main-Kept create1 s k =
      born1-Kept s k (Staged-unborn one s.place1 create1 (λ b. b) k.counts.staged1)
  main-Kept create2 s k =
      born2-Kept s k (Staged-unborn two s.place2 create2 (λ b. b) k.counts.staged2)
  main-Kept join1 s k =
      joined (Kept ask answer old1 old2) s.place1 (record s { main = join2 })
        (advance s join1 join2 (λ b. b) (λ b. b) (λ b. b) (λ b. b) k)
  main-Kept join2 s k =
      joined (Kept ask answer old1 old2) s.place2 (record s { main = leave })
        (advance s join2 leave (λ b. b) (λ b. b) (λ b. b) (λ b. b) k)
  main-Kept leave s k =
      rw (silent one s.log main_exiting refl, silent two s.log main_exiting refl)
        (advance s leave ended (λ b. b) (λ b. b) (λ b. b) (λ b. b) k)
  main-Kept ended s k = tt

  Step-Kept :
      (s : Memory) {u : Memory}
      → Kept ask answer old1 old2 s
      → Step beyond1 beyond2 s u
      → Kept ask answer old1 old2 u
  Step-Kept s k (by_main e) = subst (After (Kept ask answer old1 old2)) e (main-Kept s.main s k)
  Step-Kept s k (by_thread1 e) =
      subst (After (Kept ask answer old1 old2)) e
        (thread1-Kept beyond1 beyond2 old1 old2 s.place1 s k)
  Step-Kept s k (by_thread2 e) =
      subst (After (Kept ask answer old1 old2)) e
        (thread2-Kept beyond1 beyond2 old1 old2 s.place2 s k)
  Step-Kept s k sigint = k

  pub Reach-Kept : {s : Memory} → Reach beyond1 beyond2 old1 old2 s → Kept ask answer old1 old2 s
  unfolding heard
  Reach-Kept begin = record {
    counts = record {
      counted = refl;
      announced = omega arith;
      bounded1 = omega arith;
      bounded2 = omega arith;
      staged1 = tt;
      staged2 = tt;
    };
    answers = record {
      holds = record {
        bytes = λ k. inr (tt, refl);
        command = inr (refl, refl);
        len = inr (refl, refl);
      };
      reading = tt;
      shown = tt;
    };
    records = record {
      holds = record {
        bytes = λ k. inr (tt, refl);
        command = inr (refl, refl);
        len = inr (refl, refl);
      };
      reading = tt;
      shown = tt;
    };
  }
  Reach-Kept (next {s} r step) = Step-Kept s (Reach-Kept r) step

  -- In any interleaving, with or without a signal: of every record that thread 1 logs, the command is
  -- that of one of thread 2's first ten answers that it has begun to write, so is the length, and so is
  -- each byte of the text at its place, unless it is the byte that the shared memory held there at the
  -- start; but the parts may be from different answers. Of every record that thread 2 logs, each part
  -- is from one of thread 1's ten records or was there at the start. Thread 1 logs at most as many
  -- records as thread 2 has announced.
  pub shared_answers :
      (s : Memory)
      → Reach beyond1 beyond2 old1 old2 s
      → AllShown (t2 beyond2) old2 (begun s.place2 s.i2) ⊥ (heard one s.log)
        × (begun s.place2 s.i2 ≤ 10)
        × AllShown (t1 beyond1) old1 10 (Unit {0}) (heard two s.log)
        × (length (heard one s.log) ≤ s.i2)
  shared_answers s r =
      let k = Reach-Kept r in
      (
        k.answers.shown,
        begun-small s.place2 s.i2 k.counts.bounded2,
        k.records.shown,
        omega (arith, k.counts.counted, k.counts.announced, logged-small s.place1 s.send),
      )
