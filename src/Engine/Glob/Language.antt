-- ===== src/Engine/Glob/Language.antt =====
-- What a glob pattern means, said of its own characters: globToRegExp of
-- packages/core/src/engine/evaluator.js.
use ruleoak.Common.{
  ℕ, Bool, true, false, List, [], ◌∷◌, ◌++◌, ◌≡◌, ◌≢◌, refl, ◌↔◌, ap, subst, sym, ◌==◌, ==_iff,
  arith, Bool-cases, inl, inr,
}
use ruleoak.Common.Texts.{Text}
use ruleoak.Engine.Glob.{
  Token, lit, one, segment, rest, is_star, is_wild, dot_ok, segment_ok, glob, glob_test, token,
}
use ruleoak.Engine.Glob.Matching.{Each, Matches, done, word, glob_test-Matches}
use ruleoak.Engine.Glob.Literal.{glob-plain}

-- No line terminator.
abbrev pub OnLine : ℕ → Type 0
OnLine c = (c ≢ 10) × (c ≢ 13) × (c ≢ 0x2028) × (c ≢ 0x2029)

abbrev pub InSegment : ℕ → Type 0
InSegment c = c ≢ b'/'

abbrev pub Every : (ℕ → Type 0) → Text → Type 0
Every P [] = Unit
Every P (c ∷ s) = P c × Every P s

abbrev pub opens_with_star : Text → Bool
opens_with_star [] = false
opens_with_star (c ∷ p) = is_star c

-- The texts a pattern is meant to match.
pub data Fits : Text → Text → Type 0 where
  nothing : Fits [] []
  -- `**` stands for any text on one line.
  two_stars :
      {p s : Text} (u v : Text) → Every OnLine u → Fits p v → s ≡ u ++ v → Fits (b'*' ∷ b'*' ∷ p) s
  -- A single `*` stands for any text without a slash.
  one_star :
      {p s : Text} (u v : Text)
      → opens_with_star p ≡ false
      → Every InSegment u
      → Fits p v
      → s ≡ u ++ v
      → Fits (b'*' ∷ p) s
  question : {p s : Text} (c : ℕ) → OnLine c → Fits p s → Fits (b'?' ∷ p) (c ∷ s)
  plain : {p s : Text} (c : ℕ) → c ≢ b'*' → c ≢ b'?' → Fits p s → Fits (c ∷ p) (c ∷ s)

dot_ok_iff : (c : ℕ) → (dot_ok c ≡ true) ↔ OnLine c
dot_ok_iff c = (
  (λ h. ((λ e. ground arith), (λ e. ground arith), (λ e. ground arith), (λ e. ground arith))),
  λ h. ground arith,
)

segment_ok_iff : (c : ℕ) → (segment_ok c ≡ true) ↔ InSegment c
segment_ok_iff c = (λ h e. ground arith, λ h. ground arith)

Each-iff :
    (ok : ℕ → Bool) (P : ℕ → Type 0)
    → ((c : ℕ) → (ok c ≡ true) ↔ P c)
    → (u : Text) → Each ok u ↔ Every P u
Each-iff ok P h [] = (λ e. e, λ e. e)
Each-iff ok P h (c ∷ u) =
    let r = Each-iff ok P h u in (λ e. ((h c).0 e.0, r.0 e.1), λ e. ((h c).1 e.0, r.1 e.1))

glob-two : (p : Text) → glob (b'*' ∷ b'*' ∷ p) ≡ rest ∷ glob p
unfolding glob
glob-two p = refl

glob-star : (p : Text) → opens_with_star p ≡ false → glob (b'*' ∷ p) ≡ segment ∷ glob p
unfolding glob
glob-star [] h = refl
glob-star (c ∷ p) h = rw h refl

glob-question : (p : Text) → glob (b'?' ∷ p) ≡ one ∷ glob p
unfolding glob token
glob-question [] = refl
glob-question (c ∷ p) = refl

glob-lit : (c : ℕ) (p : Text) → c ≢ b'*' → c ≢ b'?' → glob (c ∷ p) ≡ lit c ∷ glob p
unfolding ruleoak.Engine.Glob.has_wild ruleoak.Common.any
glob-lit c p h k = glob-plain (c ∷ []) p (ground arith)

-- One token read back as the characters that stand for it.
module _ (p : Text) (ih : (v : Text) → Matches (glob p) v → Fits p v) where
  fit-rest : (s : Text) → Matches (rest ∷ glob p) s → Fits (b'*' ∷ b'*' ∷ p) s
  fit-rest s (word u v w m e) = two_stars u v ((Each-iff dot_ok OnLine dot_ok_iff u).0 w) (ih v m) e

  fit-segment :
      opens_with_star p ≡ false → (s : Text) → Matches (segment ∷ glob p) s → Fits (b'*' ∷ p) s
  fit-segment h s (word u v w m e) =
      one_star u v h ((Each-iff segment_ok InSegment segment_ok_iff u).0 w) (ih v m) e

  fit-one : (s : Text) → Matches (one ∷ glob p) s → Fits (b'?' ∷ p) s
  fit-one s (word u v (c, e, ok) m q) =
      subst (Fits (b'?' ∷ p)) (cc (e, q)) (question c ((dot_ok_iff c).0 ok) (ih v m))

  fit-lit : (c : ℕ) → c ≢ b'*' → c ≢ b'?' → (s : Text) → Matches (lit c ∷ glob p) s → Fits (c ∷ p) s
  fit-lit c h k s (word u v w m q) = subst (Fits (c ∷ p)) (cc (w, q)) (plain c h k (ih v m))

  -- A character that is no star.
  fit-char : (c : ℕ) → is_star c ≡ false → (s : Text) → Matches (glob (c ∷ p)) s → Fits (c ∷ p) s
  fit-char c h s m = elim (Bool-cases (c == b'?')) [
    | inl t ↦
        let e : c ≡ b'?' = (==_iff c b'?').0 t in
        subst (λ x. Fits (x ∷ p) s) (sym e)
          (fit-one s (
            subst (λ ts. Matches ts s) (glob-question p)
              (subst (λ x. Matches (glob (x ∷ p)) s) e m)))
    | inr f ↦
        let k : c ≢ b'*' = λ e. ground arith in
        let n : c ≢ b'?' = λ e. ground arith in
        fit-lit c k n s (subst (λ ts. Matches ts s) (glob-lit c p k n) m)
  ]

glob_sound : (p s : Text) → Matches (glob p) s → Fits p s
unfolding glob
glob_sound [] s done = nothing
glob_sound (c ∷ []) s m = elim (Bool-cases (is_star c)) [
  | inl t ↦
      let e : c ≡ b'*' = (==_iff c b'*').0 t in
      subst (λ x. Fits (x ∷ []) s) (sym e)
        (fit-segment [] (glob_sound []) refl s (subst (λ x. Matches (glob (x ∷ [])) s) e m))
  | inr f ↦ fit-char [] (glob_sound []) c f s m
]
glob_sound (c ∷ d ∷ p) s m = elim (Bool-cases (is_star c)) [
  | inl t ↦
      let e : c ≡ b'*' = (==_iff c b'*').0 t in
      let n = subst (λ x. Matches (glob (x ∷ d ∷ p)) s) e m in
      subst (λ x. Fits (x ∷ d ∷ p) s) (sym e)
        (elim (Bool-cases (is_star d)) [
          | inl u ↦
              let k : d ≡ b'*' = (==_iff d b'*').0 u in
              subst (λ x. Fits (b'*' ∷ x ∷ p) s) (sym k)
                (fit-rest p (glob_sound p) s (subst (λ x. Matches (glob (b'*' ∷ x ∷ p)) s) k n))
          | inr f ↦
              fit-segment (d ∷ p) (glob_sound (d ∷ p)) f s
                (subst (λ ts. Matches ts s) (glob-star (d ∷ p) f) n)
        ])
  | inr f ↦ fit-char (d ∷ p) (glob_sound (d ∷ p)) c f s m
]

glob_complete : {p s : Text} → Fits p s → Matches (glob p) s
unfolding glob
glob_complete nothing = done
glob_complete (two_stars {p} u v w m e) =
    rw (glob-two p) (word u v ((Each-iff dot_ok OnLine dot_ok_iff u).1 w) (glob_complete m) e)
glob_complete (one_star {p} u v h w m e) =
    rw (glob-star p h)
      (word u v ((Each-iff segment_ok InSegment segment_ok_iff u).1 w) (glob_complete m) e)
glob_complete (question {p} {s} c h m) =
    rw (glob-question p) (word (c ∷ []) s (c, refl, (dot_ok_iff c).1 h) (glob_complete m) refl)
glob_complete (plain {p} {s} c h k m) =
    rw (glob-lit c p h k) (word (c ∷ []) s refl (glob_complete m) refl)

-- A text passes the test of the compiled pattern exactly when it fits the pattern read character
-- by character: `**` is any text on one line, a single `*` any text without a slash, `?` one
-- character that is no line terminator, and every other character itself.
pub glob_test_iff : (p s : Text) → (glob_test p s ≡ true) ↔ Fits p s
glob_test_iff p s = (
  λ h. glob_sound p s ((glob_test-Matches p s).0 h),
  λ m. (glob_test-Matches p s).1 (glob_complete m),
)
