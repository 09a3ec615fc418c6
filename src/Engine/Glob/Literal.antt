-- ===== src/Engine/Glob/Literal.antt =====
-- Patterns with a fixed start: the text in front of the first wildcard.
use ruleoak.Common.{false, List, [], ◌∷◌, ◌++◌, ◌≡◌, refl, arith, map, any}
use ruleoak.Common.Texts.{Text}
use ruleoak.Engine.Glob.{Token, lit, has_wild, glob}
use ruleoak.Engine.Glob.Matching.{Matches, word}

-- In front of a pattern, plain characters stand for themselves.
pub glob-plain : (p q : Text) → has_wild p ≡ false → glob (p ++ q) ≡ map lit p ++ glob q
unfolding glob has_wild any
glob-plain [] q h = refl
glob-plain (c ∷ []) [] h = ground arith
glob-plain (c ∷ []) (d ∷ q) h = ground arith
glob-plain (c ∷ d ∷ p) q h = ground (arith, glob-plain (d ∷ p) q)

-- Plain characters match exactly themselves.
pub Matches-plain :
    (p : Text) (ts : List Token) (s : Text)
    → Matches (map lit p ++ ts) s
    → (r : Text) × (s ≡ p ++ r) × Matches ts r
Matches-plain [] ts s m = (s, refl, m)
Matches-plain (c ∷ p) ts s (word u v w m e) =
    let r = Matches-plain p ts v m in (r.0, cc (e, w, r.1), r.2)

pub plain-Matches :
    (p : Text) (ts : List Token) (r : Text) → Matches ts r → Matches (map lit p ++ ts) (p ++ r)
plain-Matches [] ts r m = m
plain-Matches (c ∷ p) ts r m = word (c ∷ []) (p ++ r) refl (plain-Matches p ts r m) refl
