-- ===== src/Bbg/Threads/Order.antt =====
-- What is created and joined when, and what has become of the signal USR2.
use mathlib.Core.Path.{subst}
use advanced_practical_embed.Base.{
  After, After-if, After-option, ℕ, ◌≡◌, refl, sym, ◌∙◌, Bool, true, List, Option, none, some, ltb,
  get_elem?,
}
use advanced_practical_embed.Bbg.Letters.{count_char}
use advanced_practical_embed.Bbg.Cpu.{sample}
use advanced_practical_embed.Bbg.Threads.{
  Place1, Place2, MainPlace, boot, create1, create2, join1, join2, leave, ended, counting, printing,
  closing, looping, clearing, sampling, resetting, State, child1_step, child2_step, main_step,
  Reach, begin, by_main, by_child1, by_child2, usr1, usr2,
}

abbrev pub Before1 : MainPlace → Type 0
Before1 boot = Unit
Before1 create1 = Unit
Before1 _ = ⊥

abbrev pub During1 : MainPlace → Type 0
During1 create2 = Unit
During1 join1 = Unit
During1 _ = ⊥

abbrev pub Behind1 : MainPlace → Type 0
Behind1 boot = ⊥
Behind1 create1 = ⊥
Behind1 _ = Unit

abbrev pub Staged1 : Place1 → MainPlace → Type 0
Staged1 Place1.unborn m = Before1 m
Staged1 Place1.finished m = Behind1 m
Staged1 _ m = During1 m

abbrev pub Before2 : MainPlace → Type 0
Before2 create2 = Unit
Before2 m = Before1 m

abbrev pub During2 : MainPlace → Type 0
During2 join1 = Unit
During2 join2 = Unit
During2 _ = ⊥

abbrev pub Behind2 : MainPlace → Type 0
Behind2 boot = ⊥
Behind2 create1 = ⊥
Behind2 create2 = ⊥
Behind2 _ = Unit

abbrev pub Staged2 : Place2 → MainPlace → Type 0
Staged2 Place2.unborn m = Before2 m
Staged2 Place2.finished m = Behind2 m
Staged2 _ m = During2 m

-- Until the second thread leaves, `flag2` says whether USR2 has come; it leaves only after that.
abbrev pub Told : Place2 → Bool → Bool → Type 0
Told clearing told flag2 = (told ≡ true) × (flag2 ≡ true)
Told Place2.finished told flag2 = told ≡ true
Told _ told flag2 = flag2 ≡ told

pub record Ordered (told : Bool) (m : MainPlace) (p1 : Place1) (p2 : Place2) (flag2 : Bool)
    : Type 0 where
  pub staged1 : Staged1 p1 m
  pub staged2 : Staged2 p2 m
  pub heard : Told p2 told flag2

abbrev pub InOrder : Bool → State → Type 0
InOrder told s = Ordered told s.main s.place1 s.place2 s.flag2

During1-Behind1 : (m : MainPlace) → During1 m → Behind1 m
During1-Behind1 boot h = h
During1-Behind1 create1 h = h
During1-Behind1 _ h = tt

During2-Behind2 : (m : MainPlace) → During2 m → Behind2 m
During2-Behind2 boot h = h
During2-Behind2 create1 h = h
During2-Behind2 create2 h = h
During2-Behind2 _ h = tt

Staged2-later :
    (p : Place2) (m m' : MainPlace)
    → (Before2 m → Before2 m')
    → (During2 m → During2 m')
    → (Behind2 m → Behind2 m')
    → Staged2 p m
    → Staged2 p m'
Staged2-later Place2.unborn m m' f g h o = f o
Staged2-later Place2.finished m m' f g h o = h o
Staged2-later _ m m' f g h o = g o

Staged1-later :
    (p : Place1) (m m' : MainPlace)
    → (Before1 m → Before1 m')
    → (During1 m → During1 m')
    → (Behind1 m → Behind1 m')
    → Staged1 p m
    → Staged1 p m'
Staged1-later Place1.unborn m m' f g h o = f o
Staged1-later Place1.finished m m' f g h o = h o
Staged1-later _ m m' f g h o = g o

pub Staged1-unborn : (p : Place1) → Staged1 p create1 → p ≡ Place1.unborn
Staged1-unborn Place1.unborn h = refl
Staged1-unborn Place1.finished h = absurd h
Staged1-unborn _ h = absurd h

Staged2-unborn : (p : Place2) → Staged2 p create2 → p ≡ Place2.unborn
Staged2-unborn Place2.unborn h = refl
Staged2-unborn Place2.finished h = absurd h
Staged2-unborn _ h = absurd h

pub joined1 :
    (Q : State → Type 0) (p : Place1) (t : State)
    → (p ≡ Place1.finished → Q t)
    → After Q (elim p as (λ _. Option State) [ Place1.finished ↦ some t | _ ↦ none ])
joined1 Q Place1.finished t h = h refl
joined1 Q Place1.unborn t h = tt
joined1 Q _ t h = tt

pub joined2 :
    (Q : State → Type 0) (p : Place2) (t : State)
    → (p ≡ Place2.finished → Q t)
    → After Q (elim p as (λ _. Option State) [ Place2.finished ↦ some t | _ ↦ none ])
joined2 Q Place2.finished t h = h refl
joined2 Q Place2.unborn t h = tt
joined2 Q _ t h = tt

Told-later : (p : Place2) (told flag2 : Bool) → Told p told flag2 → Told p true true
Told-later clearing told flag2 h = (refl, refl)
Told-later Place2.finished told flag2 h = refl
Told-later Place2.unborn told flag2 h = refl
Told-later _ told flag2 h = refl

module _ (text : List ℕ) (stat : ℕ → List ℕ) (told : Bool) where
  stopped :
      (s : State)
      → During1 s.main
      → InOrder told s
      → Ordered told s.main Place1.finished s.place2 s.flag2
  stopped s now o = record {
    staged1 = During1-Behind1 s.main now;
    staged2 = o.staged2;
    heard = o.heard;
  }

  child1-InOrder :
      (p : Place1) (s : State)
      → s.place1 ≡ p
      → InOrder told s
      → After (InOrder told) (child1_step text stat p s)
  unfolding child1_step
  child1-InOrder Place1.unborn s at o = tt
  child1-InOrder Place1.finished s at o = tt
  child1-InOrder Place1.entry s at o = record {
    staged1 = subst (λ q. Staged1 q s.main) at o.staged1;
    staged2 = o.staged2;
    heard = o.heard;
  }
  child1-InOrder counting s at o =
      let now : During1 s.main = subst (λ q. Staged1 q s.main) at o.staged1 in
      After-option (InOrder told) (get_elem? text s.i) _ _
        (λ e. record { staged1 = now; staged2 = o.staged2; heard = o.heard })
        (λ c e.
          After-if (InOrder told) s.flag2 _ _ (λ e. stopped s now o)
            (λ e. After-option (InOrder told) (count_char c s.counts) _ _ (λ e. o) (λ b e. o)))
  child1-InOrder printing s at o =
      let now : During1 s.main = subst (λ q. Staged1 q s.main) at o.staged1 in
      After-if (InOrder told) (ltb s.i 26) _ _
        (λ e.
          After-if (InOrder told) s.flag2 _ _ (λ e. stopped s now o)
            (λ e. After-option (InOrder told) (get_elem? s.counts s.i) _ _ (λ e. o) (λ b e. o)))
        (λ e. record { staged1 = now; staged2 = o.staged2; heard = o.heard })
  child1-InOrder closing s at o = stopped s (subst (λ q. Staged1 q s.main) at o.staged1) o

  child2-InOrder :
      (p : Place2) (s : State)
      → s.place2 ≡ p
      → InOrder told s
      → After (InOrder told) (child2_step text stat p s)
  unfolding child2_step
  child2-InOrder p s at o =
      go p o.staged1 (subst (λ q. Staged2 q s.main) at o.staged2)
        (subst (λ q. Told q told s.flag2) at o.heard)
    where
      go :
          (p : Place2)
          → Staged1 s.place1 s.main
          → Staged2 p s.main
          → Told p told s.flag2
          → After (InOrder told) (child2_step text stat p s)
      go Place2.unborn a b h = tt
      go Place2.finished a b h = tt
      go Place2.entry a b h = record { staged1 = a; staged2 = b; heard = h }
      go looping a b h =
          After-if (InOrder told) s.flag2 _ _
            (λ e. record { staged1 = a; staged2 = b; heard = (sym h ∙ e, e) })
            (λ e.
              After-if (InOrder told) s.flag _ _
                (λ e. record { staged1 = a; staged2 = b; heard = h }) (λ e. tt))
      go clearing a b h = record { staged1 = a; staged2 = During2-Behind2 s.main b; heard = h.0 }
      go sampling a b h =
          After-option (InOrder told) (sample (stat s.samples)) _ _ (λ e. o)
            (λ (usage, time) e. record { staged1 = a; staged2 = b; heard = h })
      go resetting a b h = record { staged1 = a; staged2 = b; heard = h }

  main-InOrder :
      (m : MainPlace) (s : State)
      → Ordered told m s.place1 s.place2 s.flag2
      → After (InOrder told) (main_step text stat m s)
  unfolding main_step
  main-InOrder boot s o = record {
    staged1 = Staged1-later s.place1 boot create1 (λ h. h) (λ h. h) (λ h. h) o.staged1;
    staged2 = Staged2-later s.place2 boot create1 (λ h. h) (λ h. h) (λ h. h) o.staged2;
    heard = o.heard;
  }
  main-InOrder create1 s o = record {
    staged1 = tt;
    staged2 = Staged2-later s.place2 create1 create2 (λ h. h) (λ h. h) (λ h. h) o.staged2;
    heard = o.heard;
  }
  main-InOrder create2 s o = record {
    staged1 = Staged1-later s.place1 create2 join1 (λ h. h) (λ h. h) (λ h. h) o.staged1;
    staged2 = tt;
    heard = subst (λ p. Told p told s.flag2) (Staged2-unborn s.place2 o.staged2) o.heard;
  }
  main-InOrder join1 s o =
      joined1 (InOrder told) s.place1 (record s { main = join2 })
        (λ e. record {
          staged1 = subst (λ p. Staged1 p join2) (sym e) tt;
          staged2 = Staged2-later s.place2 join1 join2 (λ h. h) (λ h. h) (λ h. h) o.staged2;
          heard = o.heard;
        })
  main-InOrder join2 s o =
      joined2 (InOrder told) s.place2 (record s { main = leave })
        (λ e. record {
          staged1 = Staged1-later s.place1 join2 leave (λ h. h) (λ h. h) (λ h. h) o.staged1;
          staged2 = subst (λ p. Staged2 p leave) (sym e) tt;
          heard = o.heard;
        })
  main-InOrder leave s o = record {
    staged1 = Staged1-later s.place1 leave ended (λ h. h) (λ h. h) (λ h. h) o.staged1;
    staged2 = Staged2-later s.place2 leave ended (λ h. h) (λ h. h) (λ h. h) o.staged2;
    heard = o.heard;
  }
  main-InOrder ended s o = tt

module _ (text : List ℕ) (stat : ℕ → List ℕ) where
  pub Reach-InOrder : {told : Bool} {s : State} → Reach text stat told s → InOrder told s
  Reach-InOrder begin = record { staged1 = tt; staged2 = tt; heard = refl }
  Reach-InOrder (by_main {told} {s} r ok e) =
      subst (After (InOrder told)) e (main-InOrder text stat told s.main s (Reach-InOrder r))
  Reach-InOrder (by_child1 {told} {s} r ok e) =
      subst (After (InOrder told)) e
        (child1-InOrder text stat told s.place1 s refl (Reach-InOrder r))
  Reach-InOrder (by_child2 {told} {s} r ok e) =
      subst (After (InOrder told)) e
        (child2-InOrder text stat told s.place2 s refl (Reach-InOrder r))
  Reach-InOrder (usr1 r h) = Reach-InOrder r
  Reach-InOrder (usr2 {told} {s} r h) =
      let o = Reach-InOrder r in
      record {
        staged1 = o.staged1;
        staged2 = o.staged2;
        heard = Told-later s.place2 told s.flag2 o.heard;
      }
