-- ===== src/Timer/Kernel.antt =====
-- What timer_lkm.c uses of the kernel's timers: the base on which they are queued, as its manual
-- describes it for the one timer of the module, and the comparison of two readings of `jiffies`. Both
-- are 32-bit words.
use advanced_practical_embed.Base.{
  ℕ, ◌+◌, ◌%◌, ◌≤◌, ◌<◌, ◌≡◌, Bool, true, false, Option, none, some,
}

-- `unsigned long` on the ARM that the module is built for
abbrev pub u32 : ℕ → ℕ
u32 n = n % 4294967296

-- half of the range of `unsigned long`
abbrev pub half : ℕ
half = 2147483648

pub record Timers : Type 1 where
  pub Base : Type 0
  pub init_timer : Base → Base
  pub add_timer : ℕ → Base → Base
  pub mod_timer : ℕ → Base → Base
  pub del_timer : Base → Base
  -- the kernel takes a timer off the base before it calls the timer's function
  pub detach : Base → Base
  -- `time_after_eq(jiffies, expires)`
  pub is_due : ℕ → ℕ → Bool
  -- what the manual promises: `pending` is when the queued timer expires
  pub pending : Base → Option ℕ
  pub pending-init_timer : (b : Base) → pending b ≡ none → pending (init_timer b) ≡ none
  pub pending-add_timer :
      (expires : ℕ) (b : Base) → pending b ≡ none → pending (add_timer expires b) ≡ some expires
  pub pending-mod_timer : (expires : ℕ) (b : Base) → pending (mod_timer expires b) ≡ some expires
  pub pending-del_timer : (b : Base) → pending (del_timer b) ≡ none
  pub pending-detach : (b : Base) → pending (detach b) ≡ none
  -- the comparison is right across a wrap of `jiffies`, if the two are less than half the range apart
  pub is_due_early :
      (now ahead : ℕ) → 1 ≤ ahead → ahead < half → is_due (u32 now) (u32 (now + ahead)) ≡ false
  pub is_due_late :
      (expires late : ℕ) → late < half → is_due (u32 (expires + late)) (u32 expires) ≡ true
