-- ===== src/Bbg/Threads/Ends.antt =====
-- The program ends after USR2, and not without it.
use mathlib.Core.Path.{subst}
use advanced_practical_embed.Base.{ℕ, ◌≡◌, refl, ◌≢◌, ◌⊎◌, inl, inr, true, false, List, none, arith}
use advanced_practical_embed.Bbg.Threads.{
  Place1, Place2, MainPlace, boot, ended, State, child1_step, child2_step, main_step, Reach,
}
use advanced_practical_embed.Bbg.Threads.Order.{Staged1, Staged2, Told, Reach-InOrder}

Staged2-ended : (p : Place2) → Staged2 p ended → p ≡ Place2.finished
Staged2-ended Place2.finished h = refl
Staged2-ended Place2.unborn h = absurd h
Staged2-ended _ h = absurd h

module _ (text : List ℕ) (stat : ℕ → List ℕ) where
  stuck1 :
      (p : Place1) (s : State)
      → child1_step text stat p s ≡ none
      → (p ≡ Place1.unborn) ⊎ (p ≡ Place1.finished)
  unfolding child1_step
  stuck1 Place1.unborn s h = inl refl
  stuck1 Place1.finished s h = inr refl
  stuck1 _ s h = ground arith

  stuck2 :
      (p : Place2) (s : State)
      → Told p true s.flag2
      → child2_step text stat p s ≡ none
      → (p ≡ Place2.unborn) ⊎ (p ≡ Place2.finished)
  unfolding child2_step
  stuck2 Place2.unborn s t h = inl refl
  stuck2 Place2.finished s t h = inr refl
  stuck2 _ s t h = ground arith

  stuck_main :
      (m : MainPlace) (s : State)
      → (s.place1 ≡ Place1.unborn) ⊎ (s.place1 ≡ Place1.finished)
      → (s.place2 ≡ Place2.unborn) ⊎ (s.place2 ≡ Place2.finished)
      → Staged1 s.place1 m
      → Staged2 s.place2 m
      → main_step text stat m s ≡ none
      → m ≡ ended
  unfolding main_step
  stuck_main boot s h1 h2 a b e = cc
  stuck_main ended s h1 h2 a b e = refl
  stuck_main _ s h1 h2 a b e = ground arith

  -- Unless USR2 has come, `main` never ends, whatever else happens.
  pub usr2_needed : (s : State) → Reach text stat false s → s.main ≢ ended
  usr2_needed s r e =
      let o = Reach-InOrder text stat r in
      let left = Staged2-ended s.place2 (subst (Staged2 s.place2) e o.staged2) in
      let told : false ≡ true = subst (λ p. Told p false s.flag2) left o.heard in cc

  -- After USR2, where neither `main` nor a thread could take a step, `main` has ended.
  pub usr2_ends :
      (s : State)
      → Reach text stat true s
      → main_step text stat s.main s ≡ none
      → child1_step text stat s.place1 s ≡ none
      → child2_step text stat s.place2 s ≡ none
      → s.main ≡ ended
  usr2_ends s r m h1 h2 =
      let o = Reach-InOrder text stat r in
      stuck_main s.main s (stuck1 s.place1 s h1) (stuck2 s.place2 s o.heard h2) o.staged1 o.staged2
        m
