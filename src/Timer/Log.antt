-- ===== src/Timer/Log.antt =====
-- The log of timer_lkm.c, its counter, and the module before it is loaded.
use advanced_practical_embed.Base.{
  ℕ, suc, ◌+◌, ◌<◌, ◌≡◌, refl, ap, ◌∙◌, arith, List, [], ◌∷◌, ◌++◌, none, false, append-nil,
}
use advanced_practical_embed.Timer.Kernel.{u32, Timers}
use advanced_practical_embed.Timer.{
  Message, called, my_name_is, initialisation, initialised, exiting, absent, idle, State, calls,
}

pub calls-append : (log more : List Message) → calls (log ++ more) ≡ calls log ++ calls more
calls-append [] more = refl
calls-append (called n ∷ log) more = ap (◌∷◌ n) (calls-append log more)
calls-append (my_name_is n ∷ log) more = calls-append log more
calls-append (initialisation ∷ log) more = calls-append log more
calls-append (initialised ∷ log) more = calls-append log more
calls-append (exiting ∷ log) more = calls-append log more

pub calls_silent :
    (log more : List Message) {ns : List ℕ}
    → calls more ≡ []
    → calls log ≡ ns
    → calls (log ++ more) ≡ ns
calls_silent log more silent e = calls-append log more ∙ rw (silent, e) (append-nil _)

-- The module before it is loaded.
pub record IsFresh (K : Timers) (s : State K.Base) : Type 0 where
  pub not_loaded : s.phase ≡ absent
  pub not_called : calls s.log ≡ []
  pub zero_count : s.timer_count ≡ 0
  pub not_running : s.callback ≡ idle
  pub not_pending : K.pending s.base ≡ none
  pub not_crashed : s.crashed ≡ false
  pub in_range : s.jiffies < 4294967296

pub count_lem : (count made : ℕ) → count ≡ u32 made → u32 (count + 1) ≡ u32 (suc made)
count_lem count made e = omega arith
