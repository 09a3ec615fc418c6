-- ===== src/Engine/Pattern/Laws.antt =====
-- bestMatch of packages/core/src/engine/evaluator.js.
use ruleoak.Common.{
  ℕ, ◌≤◌, true, false, ◌≡◌, ◌≢◌, ◌⊎◌, ◌∙◌, sym, ap, refl, Option, none, some, List, [], ◌∷◌, arith,
  ltb, In, head, tail, Bool-cases, inl, inr,
}
use ruleoak.Common.Texts.{Text}
use ruleoak.Engine.Pattern.{
  Best, scored, pattern_specificity, matches_pattern, better, best_from, best_match,
}

-- A match of the list, at least as specific as every other.
pub record IsBest (key : Text) (patterns : List Text) (b : Best) : Type 0 where
  pub listed : In b.pattern patterns
  pub matched : matches_pattern b.pattern key ≡ true
  pub is_scored : b ≡ scored b.pattern
  pub greatest :
      (p : Text)
      → In p patterns
      → matches_pattern p key ≡ true
      → pattern_specificity p ≤ b.specificity

-- What a round leaves: the old value or the pattern of the round, and no smaller score.
record Round (key p : Text) (best : Option Best) (c : Best) : Type 0 where
  left : better key p best ≡ some c
  from : (best ≡ some c) ⊎ (c ≡ scored p)
  above : pattern_specificity p ≤ c.specificity
  grows : (d : Best) → best ≡ some d → d.specificity ≤ c.specificity

round :
    (key p : Text) (best : Option Best)
    → matches_pattern p key ≡ true
    → (c : Best) × Round key p best c
unfolding better
round key p none t =
    (scored p, record { left = rw t; from = inr refl; above = omega arith; grows = λ d e. cc })
round key p (some b) t = elim (Bool-cases (ltb b.specificity (pattern_specificity p))) [
  | inl lt ↦ (
    scored p,
    record {
      left = ground arith;
      from = inr refl;
      above = omega arith;
      grows = λ d e. ground arith;
    },
  )
  | inr ge ↦ (
    b,
    record {
      left = ground arith;
      from = inl refl;
      above = ground arith;
      grows = λ d e. ground arith;
    },
  )
]

better_skip :
    (key p : Text) (best : Option Best) → matches_pattern p key ≡ false → better key p best ≡ best
unfolding better
better_skip key p best f = rw f

-- A bound on the scores of the matching patterns of a list.
abbrev Above : Text → List Text → ℕ → Type 0
Above key ps n = (p : Text) → In p ps → matches_pattern p key ≡ true → pattern_specificity p ≤ n

Above-cons :
    (key p : Text) (ps : List Text) (n : ℕ)
    → (matches_pattern p key ≡ true → pattern_specificity p ≤ n)
    → Above key ps n
    → Above key (p ∷ ps) n
Above-cons key p ps n h k q (head e) m = rw e (h (rw e at m))
Above-cons key p ps n h k q (tail i) m = k q i m

-- What the loop leaves, from any value that it starts with.
record Loop (key : Text) (best : Option Best) (ps : List Text) (b : Best) : Type 0 where
  from :
      (best ≡ some b)
      ⊎ (In b.pattern ps × (matches_pattern b.pattern key ≡ true) × (b ≡ scored b.pattern))
  above : Above key ps b.specificity
  grows : (d : Best) → best ≡ some d → d.specificity ≤ b.specificity

loop_lem :
    (key : Text) (best : Option Best) (ps : List Text) (b : Best)
    → best_from key best ps ≡ some b
    → Loop key best ps b
unfolding best_from
loop_lem key best [] b e = record {
  from = inl e;
  above = λ p i h. elim i [ ];
  grows = λ d f. ground arith;
}
loop_lem key best (p ∷ ps) b e = elim (Bool-cases (matches_pattern p key)) [
  | inl t ↦ taken (round key p best t) t (loop_lem key (better key p best) ps b e)
  | inr f ↦ skipped f (loop_lem key (better key p best) ps b e)
]
  where
    taken :
        (c : Best) × Round key p best c
        → matches_pattern p key ≡ true
        → Loop key (better key p best) ps b
        → Loop key best (p ∷ ps) b
    taken (c, r) t l = record {
      from = elim l.from [
        | inl q ↦
            let same_best : some c ≡ some b = sym r.left ∙ q in
            let e' : b ≡ c = cc in
            elim r.from [
              | inl old ↦ inl (rw e' old)
              | inr new ↦
                  let n : b ≡ scored p = cc in inr (head (ap (λ x. x.pattern) n), rw n t, rw n refl)
            ]
        | inr (i, m, z) ↦ inr (tail i, m, z)
      ];
      above =
          Above-cons key p ps b.specificity (λ _. omega (arith, r.above, l.grows c r.left)) l.above;
      grows = λ d q. omega (arith, r.grows d q, l.grows c r.left);
    }

    skipped :
        matches_pattern p key ≡ false → Loop key (better key p best) ps b → Loop key best (p ∷ ps) b
    skipped f l = record {
      from = elim l.from [
        | inl q ↦ inl (rw (better_skip key p best f) at q)
        | inr (i, m, z) ↦ inr (tail i, m, z)
      ];
      above = Above-cons key p ps b.specificity (λ t. cc) l.above;
      grows = λ d q. l.grows d (rw (better_skip key p best f) q);
    }

-- bestMatch returns a listed pattern that matches and is at least as specific as every other one.
pub best_match-IsBest :
    (patterns : List Text) (key : Text) (b : Best)
    → best_match patterns key ≡ some b
    → IsBest key patterns b
unfolding best_match
best_match-IsBest patterns key b e = best (loop_lem key none patterns b e)
  where
    best : Loop key none patterns b → IsBest key patterns b
    best l = elim l.from [
      | inl q ↦ absurd (cc)
      | inr (i, m, z) ↦ record { listed = i; matched = m; is_scored = z; greatest = l.above }
    ]

kept : (key : Text) (b : Best) (ps : List Text) → best_from key (some b) ps ≢ none
unfolding best_from better
kept key b [] e = cc
kept key b (p ∷ ps) e = elim (Bool-cases (matches_pattern p key)) [
  | inl t ↦ elim (Bool-cases (ltb b.specificity (pattern_specificity p))) [
    | inl lt ↦ kept key (scored p) ps (rw (t, lt) at e)
    | inr ge ↦ kept key b ps (rw (t, ge) at e)
  ]
  | inr f ↦ kept key b ps (rw f at e)
]

-- It returns null only where no pattern matches.
pub best_match-none :
    (patterns : List Text) (key : Text)
    → best_match patterns key ≡ none
    → (p : Text) → In p patterns
    → matches_pattern p key ≡ false
unfolding best_match best_from better
best_match-none [] key e p i = elim i [ ]
best_match-none (q ∷ ps) key e p i = elim (Bool-cases (matches_pattern q key)) [
  | inl t ↦ absurd (kept key (scored q) ps (rw t at e))
  | inr f ↦ at_or_after f (best_match-none ps key (rw f at e)) i
]
  where
    at_or_after :
        matches_pattern q key ≡ false
        → ((p : Text) → In p ps → matches_pattern p key ≡ false)
        → In p (q ∷ ps)
        → matches_pattern p key ≡ false
    at_or_after f ih (head z) = rw z f
    at_or_after f ih (tail j) = ih p j
