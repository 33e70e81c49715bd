-- ===== src/Run.antt =====
-- How a piece of C ends: with a value, with an access outside an array (after which C promises
-- nothing), or, in the model only, because the rounds granted to a loop ran out.
use advanced_practical_embed.Base.{Option, none, some, ◌≡◌, refl}

pub data Run {ℓ} (A : Type ℓ) : Type ℓ where
  fault out_of_fuel : Run A
  ok : A → Run A

abbrev pub or_fault {ℓ} : {A : Type ℓ} → Option A → Run A
or_fault none = fault
or_fault (some a) = ok a

module _ {ℓ κ} {A : Type ℓ} {B : Type κ} where
  infixl 5 ◌>>=◌
  abbrev pub ◌>>=◌ : Run A → (A → Run B) → Run B
  out_of_fuel >>= next = out_of_fuel
  fault >>= next = fault
  ok value >>= next = next value

-- What a run that ends well has gone through.
pub >>=-eq-ok {ℓ κ} :
    {A : Type ℓ} {B : Type κ} (run : Run A) (next : A → Run B) {last : B}
    → (run >>= next) ≡ ok last
    → (value : A) × (run ≡ ok value) × (next value ≡ ok last)
>>=-eq-ok out_of_fuel next h = cc
>>=-eq-ok fault next h = cc
>>=-eq-ok (ok value) next h = (value, refl, h)
