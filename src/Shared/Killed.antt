-- ===== src/Shared/Killed.antt =====
-- What follows SIGINT, also where thread 1 waits for an announcement that has been lost.
use advanced_practical_embed.Base.{ℕ, ◌≡◌, refl, ◌⊎◌, inl, inr, true, none, arith}
use advanced_practical_embed.Ipc.Packets.{Packet, one, two}
use advanced_practical_embed.Shared.{
  Block, Place, unborn, waiting, finished, MainPlace, boot, ended, Memory, thread1_step,
  thread2_step, main_step, Reach,
}
use advanced_practical_embed.Shared.Kept.{Staged}
use advanced_practical_embed.Shared.Answers.{Reach-Kept}

module _ (beyond1 beyond2 : ℕ → Packet) where
  stuck1 :
      (p : Place) (s : Memory)
      → s.flag ≡ true
      → thread1_step beyond1 beyond2 p s ≡ none
      → (p ≡ unborn) ⊎ (p ≡ finished)
  unfolding thread1_step
  stuck1 unborn s f h = inl refl
  stuck1 finished s f h = inr refl
  stuck1 _ s f h = ground arith

  stuck2 :
      (p : Place) (m : MainPlace) (s : Memory)
      → Staged two p m
      → thread2_step beyond1 beyond2 p s ≡ none
      → (p ≡ unborn) ⊎ (p ≡ finished)
  unfolding thread2_step
  stuck2 unborn m s b h = inl refl
  stuck2 finished m s b h = inr refl
  stuck2 waiting m s b h = absurd b
  stuck2 _ m s b h = ground arith

  stuck_main :
      (m : MainPlace) (s : Memory)
      → (s.place1 ≡ unborn) ⊎ (s.place1 ≡ finished)
      → (s.place2 ≡ unborn) ⊎ (s.place2 ≡ finished)
      → Staged one s.place1 m
      → Staged two s.place2 m
      → main_step beyond1 beyond2 m s ≡ none
      → m ≡ ended
  unfolding main_step
  stuck_main boot s h1 h2 a b e = cc
  stuck_main ended s h1 h2 a b e = refl
  stuck_main _ s h1 h2 a b e = ground arith

  -- After SIGINT, where neither `main` nor a thread could take a step, `main` has ended: also where
  -- thread 1 was waiting for an announcement that does not come.
  pub killed_ends :
      (old1 old2 : Block) (s : Memory)
      → Reach beyond1 beyond2 old1 old2 s
      → s.flag ≡ true
      → main_step beyond1 beyond2 s.main s ≡ none
      → thread1_step beyond1 beyond2 s.place1 s ≡ none
      → thread2_step beyond1 beyond2 s.place2 s ≡ none
      → s.main ≡ ended
  killed_ends old1 old2 s r f m h1 h2 =
      let k = Reach-Kept beyond1 beyond2 old1 old2 r in
      stuck_main s.main s (stuck1 s.place1 s f h1) (stuck2 s.place2 s.main s k.counts.staged2 h2)
        k.counts.staged1 k.counts.staged2 m
