-- ===== src/Common/Texts.antt =====
-- JavaScript strings: lists of UTF-16 code units, compared unit by unit.
use Prim.Native.Nat.{ℕ, zero, suc, ◌-◌}
use Prim.Native.Char.{code}
use Prim.Native.String.{String}
use mathlib.Core.Path.{◌≡◌, refl}
use mathlib.Core.Logic.{◌↔◌}
use mathlib.Core.Bool.{Bool, true, false, ◌&&◌, ◌||◌}
use mathlib.Core.List.{List, [], ◌∷◌, ◌++◌}
use native.Mathlib.Omega.{arith}
use ruleoak.Common.Tests.{◌==◌, ==_iff, and-eq-true}
use ruleoak.Common.Lists.{length, is_empty}

abbrev pub Text : Type 0
Text = List ℕ

-- A literal of the source. All of them are ASCII, where a code point is a code unit.
abbrev pub text : String → Text
text String.[] = []
text (String.◌∷◌ c s) = code c ∷ text s

unfoldable pub same : Text → Text → Bool
same [] [] = true
same (a ∷ s) (b ∷ t) = a == b && same s t
same _ _ = false

same→eq : (s t : Text) → same s t ≡ true → s ≡ t
unfolding same
same→eq [] [] h = refl
same→eq [] (b ∷ t) h = cc
same→eq (a ∷ s) [] h = cc
same→eq (a ∷ s) (b ∷ t) h =
    let p = and-eq-true (a == b) (same s t) h in
    let e : a ≡ b = (==_iff a b).0 p.0 in cc (same→eq s t p.1)

pub same_refl : (s : Text) → same s s ≡ true
unfolding same
same_refl [] = refl
same_refl (a ∷ s) = ground (arith, same_refl s)

pub same_iff : (s t : Text) → (same s t ≡ true) ↔ (s ≡ t)
same_iff s t = (same→eq s t, λ e. rw e (same_refl t))

-- s.startsWith(prefix)
unfoldable pub starts_with : Text → Text → Bool
starts_with [] s = true
starts_with (a ∷ p) [] = false
starts_with (a ∷ p) (b ∷ s) = a == b && starts_with p s

-- s.endsWith(suffix)
unfoldable pub ends_with : Text → Text → Bool
ends_with suffix [] = is_empty suffix
ends_with suffix (c ∷ s) = same suffix (c ∷ s) || ends_with suffix s

abbrev pub take : ℕ → Text → Text
take zero s = []
take (suc n) [] = []
take (suc n) (c ∷ s) = c ∷ take n s

-- s.slice(0, -n)
unfoldable pub drop_last : ℕ → Text → Text
drop_last n s = take (length s - n) s

pub starts_with-append : (p s : Text) → starts_with p (p ++ s) ≡ true
unfolding starts_with
starts_with-append [] s = refl
starts_with-append (a ∷ p) s = ground (arith, starts_with-append p s)

pub starts_with→append : (p s : Text) → starts_with p s ≡ true → (r : Text) × (s ≡ p ++ r)
unfolding starts_with
starts_with→append [] s h = (s, refl)
starts_with→append (a ∷ p) [] h = cc
starts_with→append (a ∷ p) (b ∷ s) h =
    let q = and-eq-true (a == b) (starts_with p s) h in
    let e : a ≡ b = (==_iff a b).0 q.0 in let ih = starts_with→append p s q.1 in (ih.0, cc (ih.1))
