-- ===== src/Ipc/Exchange/Keeps/Main.antt =====
-- The steps of `main`.
use mathlib.Core.Path.{subst₂}
use advanced_practical_embed.Base.{After, ℕ, refl, ◌⊎◌, inl, inr, Bool, List, [], ◌∷◌, ◌++◌}
use advanced_practical_embed.Ipc.Packets.{Packet, Entry, main_entering, main_exiting}
use advanced_practical_embed.Ipc.Transport.{Transport}
use advanced_practical_embed.Ipc.Exchange.{
  Pc, unborn, finished, MainPc, boot, create1, create2, join1, join2, leave, ended, Protocol,
  System, main_at,
}
use advanced_practical_embed.Ipc.Exchange.Links.{Delivers}
use advanced_practical_embed.Ipc.Exchange.Stages.{IsGood, IsComplete, Logged, Logged-other}
use advanced_practical_embed.Ipc.Exchange.Keeps.Parts.{state}

module _ (T : Transport) (P : Protocol) (t1 t2 : ℕ → Packet)
    (ways1 : Delivers T.capacity P.payload1 t1) (ways2 : Delivers T.capacity P.payload2 t2) where
  module _ (flag misused : Bool) (log : List Entry) (c1 c2 : T.Chan) (i1 : ℕ) (b1 : Packet) (i2 : ℕ)
      (b2 : Packet) where
    abbrev Kept : System T → Type 0
    Kept s = IsGood T P t1 t2 s ⊎ IsComplete T P t1 t2 s

    pub main-Good :
        (main : MainPc) (pc1 pc2 : Pc)
        → IsGood T P t1 t2 (state T flag misused log c1 c2 main pc1 i1 b1 pc2 i2 b2)
        → After Kept (main_at T P main (state T flag misused log c1 c2 main pc1 i1 b1 pc2 i2 b2))
    unfolding main_at
    main-Good boot pc1 pc2 g = inl (record {
      quiet = g.quiet;
      running = λ e. cc;
      staged = g.staged;
      range1 = g.range1;
      range2 = g.range2;
      there = g.there;
      back = g.back;
      buffered1 = g.buffered1;
      buffered2 = g.buffered2;
      stream = g.stream;
      logged = Logged-other main_entering refl refl g.logged;
    })
    main-Good create1 unborn pc2 g = inl (record {
      quiet = g.quiet;
      running = λ e. cc;
      staged = (tt, g.staged.1);
      range1 = g.range1;
      range2 = g.range2;
      there = g.there;
      back = g.back;
      buffered1 = tt;
      buffered2 = g.buffered2;
      stream = g.stream;
      logged = g.logged;
    })
    main-Good create1 _ pc2 g = absurd g.staged.0
    main-Good create2 pc1 unborn g = inl (record {
      quiet = g.quiet;
      running = λ e. cc;
      staged = (g.staged.0, tt);
      range1 = g.range1;
      range2 = g.range2;
      there = g.there;
      back = g.back;
      buffered1 = g.buffered1;
      buffered2 = tt;
      stream = g.stream;
      logged = g.logged;
    })
    main-Good create2 pc1 _ g = absurd g.staged.1
    main-Good join1 finished pc2 g = inl (record {
      quiet = g.quiet;
      running = λ e. cc;
      staged = (tt, g.staged.1);
      range1 = g.range1;
      range2 = g.range2;
      there = g.there;
      back = g.back;
      buffered1 = tt;
      buffered2 = g.buffered2;
      stream = g.stream;
      logged = g.logged;
    })
    main-Good join1 _ pc2 g = tt
    main-Good join2 pc1 finished g = inl (record {
      quiet = g.quiet;
      running = λ e. cc;
      staged = (g.staged.0, tt);
      range1 = g.range1;
      range2 = g.range2;
      there = g.there;
      back = g.back;
      buffered1 = g.buffered1;
      buffered2 = tt;
      stream = g.stream;
      logged = g.logged;
    })
    main-Good join2 pc1 _ g = tt
    main-Good leave finished finished g = inr (record {
      ended_main = refl;
      both_finished = (tt, tt);
      used = g.stream;
      all_logged =
          subst₂ (Logged t1 t2 (log ++ main_exiting ∷ [])) g.range1 g.range2
            (Logged-other main_exiting refl refl g.logged);
    })
    main-Good leave finished _ g = absurd g.staged.1
    main-Good leave _ pc2 g = absurd g.staged.0
    main-Good ended pc1 pc2 g = tt
