-- ===== src/Shared/Inside/Reached.antt =====
-- The offsets in every reachable state.
use mathlib.Core.Path.{subst}
use advanced_practical_embed.Base.{After, ℕ, ◌≡◌, refl}
use advanced_practical_embed.Ipc.Packets.{Packet, main_entering, main_exiting, one, two, heard}
use advanced_practical_embed.Shared.{
  Block, MainPlace, boot, create1, create2, join1, join2, leave, ended, Memory, main_step, Step,
  by_main, by_thread1, by_thread2, sigint, Reach, begin, next,
}
use advanced_practical_embed.Shared.Kept.{silent, joined}
use advanced_practical_embed.Shared.Answers.{Reach-Kept}
use advanced_practical_embed.Shared.Inside.{IsInside, AllShort, Within}
use advanced_practical_embed.Shared.Inside.Moves.{thread1-Within, thread2-Within}

module _ (beyond1 beyond2 : ℕ → Packet) where
  main-Within :
      (m : MainPlace) (s : Memory) → Within s → After Within (main_step beyond1 beyond2 m s)
  unfolding main_step
  main-Within boot s w =
      rw (silent one s.log main_entering refl, silent two s.log main_entering refl) w
  main-Within create1 s w = record {
    inside1 = tt;
    inside2 = w.inside2;
    short1 = w.short1;
    short2 = w.short2;
  }
  main-Within create2 s w = record {
    inside1 = w.inside1;
    inside2 = tt;
    short1 = w.short1;
    short2 = w.short2;
  }
  main-Within join1 s w = joined Within s.place1 (record s { main = join2 }) w
  main-Within join2 s w = joined Within s.place2 (record s { main = leave }) w
  main-Within leave s w =
      rw (silent one s.log main_exiting refl, silent two s.log main_exiting refl) w
  main-Within ended s w = tt

  Reach-Within :
      (old1 old2 : Block) {s : Memory}
      → old1.messages 39 ≡ 0
      → old2.messages 39 ≡ 0
      → Reach beyond1 beyond2 old1 old2 s
      → Within s
  unfolding heard
  Reach-Within old1 old2 zero1 zero2 begin = record {
    inside1 = tt;
    inside2 = tt;
    short1 = tt;
    short2 = tt;
  }
  Reach-Within old1 old2 zero1 zero2 (next {s} r step) =
      kept s (Reach-Within old1 old2 zero1 zero2 r) r step
    where
      kept :
          (s : Memory) {u : Memory}
          → Within s
          → Reach beyond1 beyond2 old1 old2 s
          → Step beyond1 beyond2 s u
          → Within u
      kept s w r (by_main e) = subst (After Within) e (main-Within s.main s w)
      kept s w r (by_thread1 e) =
          let k = Reach-Kept beyond1 beyond2 old1 old2 r in
          subst (After Within) e
            (thread1-Within beyond1 beyond2 old1 old2 s.place1 s k zero2 k.counts.bounded2 w)
      kept s w r (by_thread2 e) =
          let k = Reach-Kept beyond1 beyond2 old1 old2 r in
          subst (After Within) e (thread2-Within beyond1 beyond2 old1 old2 s.place2 s k zero1 w)
      kept s w r sigint = w

  -- Where the last byte of both `messages` arrays in shared memory is 0 at the start, as it is in
  -- memory that has just been made, then in any interleaving, with or without a signal, no handler
  -- writes or reads behind one of these arrays, half written strings included: the offset of the next
  -- byte is always below 40, and so is the length of every text that is logged.
  pub shared_offsets :
      (old1 old2 : Block) (s : Memory)
      → old1.messages 39 ≡ 0
      → old2.messages 39 ≡ 0
      → Reach beyond1 beyond2 old1 old2 s
      → IsInside s.place1 s.line1
        × IsInside s.place2 s.line2
        × AllShort (heard one s.log)
        × AllShort (heard two s.log)
  shared_offsets old1 old2 s zero1 zero2 r =
      let w = Reach-Within old1 old2 zero1 zero2 r in (w.inside1, w.inside2, w.short1, w.short2)
