-- ===== src/Common/Results.antt =====
-- A computation that may throw.
use mathlib.Core.Path.{◌≡◌, refl}

pub data Result {ε α} (E : Type ε) (A : Type α) : Type (ε ⊔ α) where
  err : (thrown : E) → Result E A
  ok : (value : A) → Result E A

module _ {ε α β} {E : Type ε} {A : Type α} {B : Type β} where
  infixl 5 ◌>>=◌
  abbrev pub ◌>>=◌ : Result E A → (A → Result E B) → Result E B
  err thrown >>= next = err thrown
  ok value >>= next = next value

  -- What a chain that does not throw has run.
  pub >>=-eq-ok :
      (first : Result E A) (next : A → Result E B) {out : B}
      → (first >>= next) ≡ ok out
      → (value : A) × (first ≡ ok value) × (next value ≡ ok out)
  >>=-eq-ok (err thrown) next run = cc
  >>=-eq-ok (ok value) next run = (value, refl, run)
