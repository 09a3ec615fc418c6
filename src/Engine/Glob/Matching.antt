-- ===== src/Engine/Glob/Matching.antt =====
-- The language of a compiled pattern: globToRegExp of packages/core/src/engine/evaluator.js.
use ruleoak.Common.{
  ℕ, Bool, true, ◌&&◌, List, [], ◌∷◌, ◌++◌, ◌≡◌, refl, ◌↔◌, ap, ◌==◌, ==_iff, arith, and-eq-true,
  or-eq-true, inl, inr,
}
use ruleoak.Common.Texts.{Text}
use ruleoak.Engine.Glob.{
  Token, lit, one, segment, rest, dot_ok, segment_ok, many, step, accepts, glob, glob_test,
}

-- Every code unit of the text passes the test.
abbrev pub Each : (ℕ → Bool) → Text → Type 0
Each ok [] = Unit
Each ok (c ∷ s) = (ok c ≡ true) × Each ok s

-- The words of each token.
abbrev pub Word : Token → Text → Type 0
Word (lit a) u = u ≡ a ∷ []
Word one u = (c : ℕ) × (u ≡ c ∷ []) × (dot_ok c ≡ true)
Word segment u = Each segment_ok u
Word rest u = Each dot_ok u

-- A text is accepted if it is cut into one word for each token, in order.
pub data Matches : List Token → Text → Type 0 where
  done : Matches [] []
  word :
      {t : Token} {ts : List Token} {s : Text} (u v : Text)
      → Word t u
      → Matches ts v
      → s ≡ u ++ v
      → Matches (t ∷ ts) s

module _ (ok : ℕ → Bool) (k : Text → Bool) where
  many_sound :
      (s : Text)
      → many ok k s ≡ true
      → (u : Text) × (v : Text) × Each ok u × (k v ≡ true) × (s ≡ u ++ v)
  unfolding many
  many_sound [] h = ([], [], tt, h, refl)
  many_sound (c ∷ s) h = elim (or-eq-true (k (c ∷ s)) (ok c && many ok k s) h) [
    | inl now ↦ ([], c ∷ s, tt, now, refl)
    | inr later ↦
        let p = and-eq-true (ok c) (many ok k s) later in
        let r = many_sound s p.1 in (c ∷ r.0, r.1, (p.0, r.2), r.3, ap (λ t. c ∷ t) r.4)
  ]

  many_complete : (u v : Text) → Each ok u → k v ≡ true → many ok k (u ++ v) ≡ true
  unfolding many
  many_complete [] [] e h = h
  many_complete [] (c ∷ v) e h = ground arith
  many_complete (c ∷ u) v e h = ground (arith, many_complete u v e.1 h)

many-Matches :
    (t : Token) (ts : List Token) (ok : ℕ → Bool)
    → ((u : Text) → Each ok u → Word t u)
    → ((s : Text) → accepts ts s ≡ true → Matches ts s)
    → (s : Text) → many ok (accepts ts) s ≡ true
    → Matches (t ∷ ts) s
many-Matches t ts ok is_word ih s h =
    let r = many_sound ok (accepts ts) s h in word r.0 r.1 (is_word r.0 r.2) (ih r.1 r.3) r.4

step_sound :
    (t : Token) (ts : List Token)
    → ((s : Text) → accepts ts s ≡ true → Matches ts s)
    → (s : Text) → step t (accepts ts) s ≡ true
    → Matches (t ∷ ts) s
unfolding step
step_sound (lit a) ts ih [] h = cc
step_sound (lit a) ts ih (c ∷ s) h =
    let p = and-eq-true (a == c) (accepts ts s) h in
    let e : a ≡ c = (==_iff a c).0 p.0 in word (a ∷ []) s refl (ih s p.1) (cc)
step_sound one ts ih [] h = cc
step_sound one ts ih (c ∷ s) h =
    let p = and-eq-true (dot_ok c) (accepts ts s) h in
    word (c ∷ []) s (c, refl, p.0) (ih s p.1) refl
step_sound segment ts ih s h = many-Matches segment ts segment_ok (λ u e. e) ih s h
step_sound rest ts ih s h = many-Matches rest ts dot_ok (λ u e. e) ih s h

accepts_sound : (ts : List Token) (s : Text) → accepts ts s ≡ true → Matches ts s
unfolding accepts
accepts_sound [] [] h = done
accepts_sound [] (c ∷ s) h = cc
accepts_sound (t ∷ ts) s h = step_sound t ts (accepts_sound ts) s h

step_complete :
    (t : Token) (k : Text → Bool) (u v : Text) → Word t u → k v ≡ true → step t k (u ++ v) ≡ true
unfolding step
step_complete (lit a) k u v w h = rw w (ground arith)
step_complete one k u v (c, e, ok) h = rw e (ground arith)
step_complete segment k u v w h = many_complete segment_ok k u v w h
step_complete rest k u v w h = many_complete dot_ok k u v w h

accepts_complete : {ts : List Token} {s : Text} → Matches ts s → accepts ts s ≡ true
unfolding accepts
accepts_complete done = refl
accepts_complete (word {t} {ts} u v w m e) =
    rw e (step_complete t (accepts ts) u v w (accepts_complete m))

-- `test` on the compiled pattern decides the language of its tokens.
pub glob_test-Matches : (p s : Text) → (glob_test p s ≡ true) ↔ Matches (glob p) s
unfolding glob_test
glob_test-Matches p s = (accepts_sound (glob p) s, accepts_complete)
