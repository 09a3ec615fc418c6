-- ===== src/Reliability/Release/Calm.antt =====
-- When findings neither block a release nor leave a gap
-- (packages/core/src/release/agent-release-gate.js).
use mathlib.Core.Logic.{◌↔◌}
use ruleoak.Common.{
  Bool, true, false, not, ◌&&◌, ◌≡◌, refl, sym, ◌∙◌, List, [], ◌∷◌, ◌++◌, any, all, arith,
  and-eq-true,
}
use ruleoak.Reliability.Release.{
  Finding, blocking, gap, warning, is_blocking, is_gap, is_warning, found_if,
}

-- Findings of which none blocks and none is a gap.
unfoldable pub calm : List Finding → Bool
calm findings = all is_warning findings

calm-append : (xs ys : List Finding) → calm (xs ++ ys) ≡ (calm xs && calm ys)
unfolding calm all
calm-append [] ys = refl
calm-append (blocking why ∷ xs) ys = refl
calm-append (gap why ∷ xs) ys = refl
calm-append (warning why ∷ xs) ys = calm-append xs ys

pub calm_none : (xs : List Finding) → (not (any is_blocking xs) && not (any is_gap xs)) ≡ calm xs
unfolding calm all any
calm_none [] = refl
calm_none (blocking why ∷ xs) = refl
calm_none (gap why ∷ xs) = ground arith
calm_none (warning why ∷ xs) = calm_none xs

-- A list is calm exactly when its parts are.
pub both :
    {P Q : Type 0} (xs ys : List Finding)
    → ((calm xs ≡ true) ↔ P)
    → ((calm ys ≡ true) ↔ Q)
    → (calm (xs ++ ys) ≡ true) ↔ (P × Q)
both xs ys p q = (
  λ h. let (k, l) = and-eq-true _ _ (sym (calm-append xs ys) ∙ h) in (p.0 k, q.0 l),
  λ h. calm-append xs ys ∙ rw (p.1 h.0, q.1 h.1) refl,
)

-- A requirement that is wanted and not met is found.
pub wanted :
    (a b : Bool) (f : Finding)
    → is_warning f ≡ false
    → (calm (found_if (a && not b) f) ≡ true) ↔ (a ≡ true → b ≡ true)
unfolding calm all
wanted a b f h = ground arith

pub avoided :
    (a b : Bool) (f : Finding)
    → is_warning f ≡ false
    → (calm (found_if (a && b) f) ≡ true) ↔ (a ≡ true → b ≡ false)
unfolding calm all
avoided a b f h = ground arith

pub unwanted :
    (b : Bool) (f : Finding) → is_warning f ≡ false → (calm (found_if b f) ≡ true) ↔ (b ≡ false)
unfolding calm all
unwanted b f h = ground arith
