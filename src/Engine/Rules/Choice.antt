-- ===== src/Engine/Rules/Choice.antt =====
-- The matches of structured rules and the choice among them, in
-- packages/core/src/engine/evaluator.js.
use Prim.Native.Nat.{compare, Ordering}
use ruleoak.Common.{
  ℕ, ◌≤◌, true, false, ◌≡◌, refl, sym, subst, inl, inr, some, List, [], ◌∷◌, arith, In, head, tail,
  Bool-cases, is_empty,
}
use ruleoak.Common.Int.{ℤ, pos, negsuc, compare_ℤ}
use ruleoak.Common.Sort.{is_gt, then_by, sort-first, first-In, sort-In, sort-Least}
use ruleoak.Common.Texts.{Text}
use ruleoak.Engine.Policy.{Rule, Action}
use ruleoak.Engine.Rules.{
  Match, rule_applies, match_of, structured_rule_match, structured_matches, tie_break,
  compare_matches, choose_structured_match,
}

-- Every match comes from a listed rule that applies.
pub structured_matches_sound :
    (rules : List Rule) (a : Action) {m : Match}
    → In m (structured_matches rules a)
    → (r : Rule) × In r rules × (rule_applies r a ≡ true) × (m ≡ match_of r a)
unfolding structured_matches structured_rule_match
structured_matches_sound [] a i = elim i [ ]
structured_matches_sound (r ∷ rs) a {m} i = elim (Bool-cases (rule_applies r a)) [
  | inl t ↦ taken t (structured_matches_sound rs a) (rw t at i)
  | inr f ↦ later (structured_matches_sound rs a (rw f at i))
]
  where
    later :
        (s : Rule) × In s rs × (rule_applies s a ≡ true) × (m ≡ match_of s a)
        → (s : Rule) × In s (r ∷ rs) × (rule_applies s a ≡ true) × (m ≡ match_of s a)
    later (s, j, h, e) = (s, tail j, h, e)

    taken :
        rule_applies r a ≡ true
        → (In m (structured_matches rs a)
            → (s : Rule) × In s rs × (rule_applies s a ≡ true) × (m ≡ match_of s a))
        → In m (match_of r a ∷ structured_matches rs a)
        → (s : Rule) × In s (r ∷ rs) × (rule_applies s a ≡ true) × (m ≡ match_of s a)
    taken t ih (head e) = (r, head refl, t, e)
    taken t ih (tail j) = later (ih j)

-- Every listed rule that applies has its match.
pub structured_matches_complete :
    (rules : List Rule) (a : Action) {r : Rule}
    → In r rules
    → rule_applies r a ≡ true
    → In (match_of r a) (structured_matches rules a)
unfolding structured_matches structured_rule_match
structured_matches_complete [] a i h = elim i [ ]
structured_matches_complete (s ∷ rs) a {r} (head e) h =
    rw e (let t : rule_applies s a ≡ true = rw e at h in rw t (head refl))
structured_matches_complete (s ∷ rs) a (tail i) h = elim (Bool-cases (rule_applies s a)) [
  | inl t ↦ rw t (tail (structured_matches_complete rs a i h))
  | inr f ↦ rw f (structured_matches_complete rs a i h)
]

-- a ≤ b on priorities.
abbrev pub ◌≤ℤ◌ : ℤ → ℤ → Type 0
◌≤ℤ◌ (pos a) (pos b) = a ≤ b
◌≤ℤ◌ (pos a) (negsuc b) = ⊥
◌≤ℤ◌ (negsuc a) (pos b) = Unit
◌≤ℤ◌ (negsuc a) (negsuc b) = b ≤ a

infix 50 ◌≤ℤ◌
-- `a` goes before `b`: a higher priority, then a higher specificity, then a stricter effect.
pub record Outranks (a b : Match) : Type 0 where
  pub priority : b.priority ≤ℤ a.priority
  pub specificity : a.priority ≡ b.priority → b.specificity ≤ a.specificity
  pub effect :
      a.priority ≡ b.priority
      → a.specificity ≡ b.specificity
      → tie_break b.effect ≤ tie_break a.effect

≤ℤ_refl : (a : ℤ) → a ≤ℤ a
≤ℤ_refl (pos a) = omega arith
≤ℤ_refl (negsuc a) = omega arith

≤ℤ_trans : (a b c : ℤ) → a ≤ℤ b → b ≤ℤ c → a ≤ℤ c
≤ℤ_trans (pos a) (pos b) (pos c) p q = omega arith
≤ℤ_trans (pos a) (pos b) (negsuc c) p q = absurd q
≤ℤ_trans (pos a) (negsuc b) c p q = absurd p
≤ℤ_trans (negsuc a) (pos b) (pos c) p q = tt
≤ℤ_trans (negsuc a) (pos b) (negsuc c) p q = absurd q
≤ℤ_trans (negsuc a) (negsuc b) (pos c) p q = tt
≤ℤ_trans (negsuc a) (negsuc b) (negsuc c) p q = omega arith

≤ℤ_antisym : (a b : ℤ) → a ≤ℤ b → b ≤ℤ a → a ≡ b
≤ℤ_antisym (pos a) (pos b) p q = let e : a ≡ b = omega arith in cc
≤ℤ_antisym (pos a) (negsuc b) p q = absurd p
≤ℤ_antisym (negsuc a) (pos b) p q = absurd q
≤ℤ_antisym (negsuc a) (negsuc b) p q = let e : a ≡ b = omega arith in cc

Outranks-refl : (a : Match) → Outranks a a
Outranks-refl a = record {
  priority = ≤ℤ_refl a.priority;
  specificity = λ e. omega arith;
  effect = λ e f. omega arith;
}

Outranks-trans : (a b c : Match) → Outranks a b → Outranks b c → Outranks a c
Outranks-trans a b c p q = record {
  priority = ≤ℤ_trans c.priority b.priority a.priority q.priority p.priority;
  specificity = λ e.
      let ab = squeeze e in
      let bc : b.priority ≡ c.priority = cc in omega (arith, p.specificity ab, q.specificity bc);
  effect = λ e f.
      let ab = squeeze e in
      let bc : b.priority ≡ c.priority = cc in
      let fb : a.specificity ≡ b.specificity = omega (arith, p.specificity ab, q.specificity bc) in
      let fc : b.specificity ≡ c.specificity = omega (arith, p.specificity ab, q.specificity bc) in
      omega (arith, p.effect ab fb, q.effect bc fc);
}
  where
    squeeze : a.priority ≡ c.priority → a.priority ≡ b.priority
    squeeze e =
        ≤ℤ_antisym a.priority b.priority (subst (λ x. x ≤ℤ b.priority) (sym e) q.priority)
          p.priority

-- The comparator's three keys, and what a negative or zero, or a positive, result says of them.
abbrev ranking : (pa pb : ℤ) (sa sb ta tb : ℕ) → Ordering → Ordering
ranking pa pb sa sb ta tb o =
    then_by (compare_ℤ pb pa) (then_by (compare sb sa) (then_by (compare tb ta) o))

abbrev Ranks : (pa pb : ℤ) (sa sb ta tb : ℕ) → Type 0
Ranks pa pb sa sb ta tb = (pb ≤ℤ pa) × (pa ≡ pb → sb ≤ sa) × (pa ≡ pb → sa ≡ sb → tb ≤ ta)

Ranks-before :
    (pa pb : ℤ) (sa sb ta tb : ℕ) (o : Ordering)
    → is_gt (ranking pa pb sa sb ta tb o) ≡ false
    → Ranks pa pb sa sb ta tb
Ranks-before (pos a) (pos b) sa sb ta tb o h =
    (ground arith, λ e. ground arith, λ e f. ground arith)
Ranks-before (pos a) (negsuc b) sa sb ta tb o h = (tt, λ e. cc, λ e. cc)
Ranks-before (negsuc a) (pos b) sa sb ta tb o h = cc
Ranks-before (negsuc a) (negsuc b) sa sb ta tb o h =
    (ground arith, λ e. ground arith, λ e f. ground arith)

Ranks-after :
    (pa pb : ℤ) (sa sb ta tb : ℕ) (o : Ordering)
    → is_gt (ranking pa pb sa sb ta tb o) ≡ true
    → Ranks pb pa sb sa tb ta
Ranks-after (pos a) (pos b) sa sb ta tb o h = (ground arith, λ e. ground arith, λ e f. ground arith)
Ranks-after (pos a) (negsuc b) sa sb ta tb o h = cc
Ranks-after (negsuc a) (pos b) sa sb ta tb o h = (tt, λ e. cc, λ e. cc)
Ranks-after (negsuc a) (negsuc b) sa sb ta tb o h =
    (ground arith, λ e. ground arith, λ e f. ground arith)

module _ (locale_compare : Text → Text → Ordering) where
  before : (a b : Match) → is_gt (compare_matches locale_compare a b) ≡ false → Outranks a b
  unfolding compare_matches
  before a b h =
      let r =
        Ranks-before a.priority b.priority a.specificity b.specificity (tie_break a.effect)
          (tie_break b.effect) (locale_compare a.rule.id b.rule.id) h in
      record { priority = r.0; specificity = r.1; effect = r.2 }

  after : (a b : Match) → is_gt (compare_matches locale_compare a b) ≡ true → Outranks b a
  unfolding compare_matches
  after a b h =
      let r =
        Ranks-after a.priority b.priority a.specificity b.specificity (tie_break a.effect)
          (tie_break b.effect) (locale_compare a.rule.id b.rule.id) h in
      record { priority = r.0; specificity = r.1; effect = r.2 }

  -- The chosen match is one of the matches and outranks all of them, whatever the last tie-break.
  pub choose-Outranks :
      (matches : List Match) (m : Match)
      → choose_structured_match locale_compare matches ≡ some m
      → In m matches × ((other : Match) → In other matches → Outranks m other)
  unfolding choose_structured_match
  choose-Outranks matches m e = (
    sort-In (compare_matches locale_compare) matches (first-In _ e),
    λ other i.
        sort-Least (compare_matches locale_compare) Outranks Outranks-refl Outranks-trans before
          after matches m e other i,
  )

  -- A list of matches that is not empty has a chosen one.
  pub choose_total :
      (matches : List Match)
      → is_empty matches ≡ false
      → (m : Match) × (choose_structured_match locale_compare matches ≡ some m)
  unfolding choose_structured_match
  choose_total matches h = sort-first (compare_matches locale_compare) matches h
