-- ===== src/Engine/Evaluate/Sources.antt =====
-- The sources of an allow in evaluatePolicy (packages/core/src/engine/evaluator.js).
use Prim.Native.Nat.{Ordering}
use ruleoak.Common.{
  ◌<◌, true, false, ◌≡◌, ◌≢◌, refl, sym, ap, ◌∙◌, inl, inr, Option, none, some, arith, In, ltb,
  ltb→lt, Bool-cases,
}
use ruleoak.Common.Texts.{Text}
use ruleoak.Engine.Pattern.{Best, best_match, matches_pattern, pattern_specificity}
use ruleoak.Engine.Pattern.Laws.{best_match-IsBest, best_match-none}
use ruleoak.Engine.Policy.{Decision, normalize_decision, ExactRule, Rule, Policy, Action, all_rules}
use ruleoak.Engine.Rules.{
  Match, action_key, exact_action_rules_for, rule_applies, choose_structured_match,
}
use ruleoak.Engine.Rules.Choice.{structured_matches_sound, choose-Outranks}
use ruleoak.Engine.Evaluate.{
  Verdict, exact_decision, structured_decision, listed_decision, default_decision, or_else,
  map_verdict, legacy_decision, decide, exact_with,
}
use ruleoak.Engine.Evaluate.Precedence.{
  DenySource, deny_wins, exact_rules, matches, exact_stage, denies_stage, blocked_stage,
  exact_stage-action, denies_stage-action, blocked_stage-action, effect-match_of, map_verdict-some,
  exact_found, exact_missed, or_else-cases,
}

-- The reasons to allow that a policy can hold for an action.
pub data AllowSource (a : Action) (p : Policy) : Type 0 where
  exact :
      (r : ExactRule)
      → In r (exact_action_rules_for p.exact_action_rules a)
      → normalize_decision r.effect ≡ Decision.allow
      → AllowSource a p
  structured :
      (r : Rule)
      → In r (all_rules p.rules)
      → rule_applies r a ≡ true
      → normalize_decision r.effect ≡ Decision.allow
      → AllowSource a p
  -- A listed pattern, more specific than every pattern that asks for approval.
  listed :
      (q : Text)
      → In q p.allowed_actions
      → matches_pattern q (action_key a) ≡ true
      → ((r : Text)
          → In r p.approval_required
          → matches_pattern r (action_key a) ≡ true
          → pattern_specificity r < pattern_specificity q)
      → AllowSource a p
  by_default :
      ((q : Text) → In q p.allowed_actions → matches_pattern q (action_key a) ≡ false)
      → ((q : Text) → In q p.approval_required → matches_pattern q (action_key a) ≡ false)
      → (default_decision p).action ≡ Decision.allow
      → AllowSource a p

-- A stage whose verdicts have another action did not decide.
or_else-skips :
    (o : Option Verdict) (rest : Verdict) (d e : Decision)
    → ((v : Verdict) → o ≡ some v → v.action ≡ d)
    → d ≢ e
    → (or_else o rest).action ≡ e
    → (o ≡ none) × (rest.action ≡ e)
or_else-skips none rest d e h n k = (refl, k)
or_else-skips (some v) rest d e h n k = absurd (n (sym (h v refl) ∙ k))

module _ (a : Action) (p : Policy) where
  legacy_source :
      (legacy_decision
          (best_match p.allowed_actions (action_key a))
          (best_match p.approval_required (action_key a))
          p).action
        ≡ Decision.allow
      → AllowSource a p
  unfolding legacy_decision listed_decision
  legacy_source h =
      split (best_match p.allowed_actions (action_key a))
        (best_match p.approval_required (action_key a)) refl refl h
    where
      split :
          (x y : Option Best)
          → best_match p.allowed_actions (action_key a) ≡ x
          → best_match p.approval_required (action_key a) ≡ y
          → (legacy_decision x y p).action ≡ Decision.allow
          → AllowSource a p
      split none none ex ey h =
          by_default (best_match-none p.allowed_actions (action_key a) ex)
            (best_match-none p.approval_required (action_key a) ey) h
      split none (some y) ex ey h = cc
      split (some x) none ex ey h =
          let bx = best_match-IsBest p.allowed_actions (action_key a) x ex in
          listed x.pattern bx.listed bx.matched
            λ r i m. let f = best_match-none p.approval_required (action_key a) ey r i in cc
      split (some x) (some y) ex ey h = elim (Bool-cases (ltb y.specificity x.specificity)) [
        | inl lt ↦
            let bx = best_match-IsBest p.allowed_actions (action_key a) x ex in
            let by = best_match-IsBest p.approval_required (action_key a) y ey in
            let e : x.specificity ≡ pattern_specificity x.pattern =
              ap (λ (b : Best). b.specificity) bx.is_scored in
            listed x.pattern bx.listed bx.matched
              λ r i m. omega (arith, ltb→lt _ _ lt, by.greatest r i m, e)
        | inr ge ↦ let c = rw ge at h in cc
      ]

module _ (locale_compare : Text → Text → Ordering) (a : Action) (p : Policy) where
  structured_source :
      (v : Verdict)
      → map_verdict structured_decision
          (choose_structured_match locale_compare (matches locale_compare a p))
        ≡ some v
      → v.action ≡ Decision.allow
      → AllowSource a p
  unfolding structured_decision
  structured_source v e h =
      let m = map_verdict-some structured_decision _ e in
      let c = choose-Outranks locale_compare _ m.0 m.1 in
      let s = structured_matches_sound (all_rules p.rules) a c.0 in
      let effect : (structured_decision m.0).action ≡ Decision.allow = rw (← m.2) h in
      structured s.0 s.1 s.2 (
        sym (effect-match_of locale_compare a p s.0)
        ∙ ap (λ (n : Match). n.effect) (sym s.3)
        ∙ effect)

  exact_source :
      (v : Verdict) → exact_stage locale_compare a p Decision.allow ≡ some v → AllowSource a p
  exact_source v e =
      let m = map_verdict-some exact_decision _ e in
      let f = exact_found Decision.allow _ m.1 in exact m.0 f.0 f.1

  abbrev structured_stage : Option Verdict
  structured_stage =
      map_verdict structured_decision
        (choose_structured_match locale_compare (matches locale_compare a p))

  abbrev legacy_stage : Verdict
  legacy_stage =
      legacy_decision (best_match p.allowed_actions (action_key a))
        (best_match p.approval_required (action_key a)) p

  -- What is left after the stages that deny or ask.
  abbrev after_asking : Verdict
  after_asking =
      or_else (exact_stage locale_compare a p Decision.allow)
        (or_else structured_stage legacy_stage)

  passed :
      (decide locale_compare a p).action ≡ Decision.allow
      → (exact_with Decision.needs_approval (exact_rules locale_compare a p) ≡ none)
        × (after_asking.action ≡ Decision.allow)
  unfolding decide
  passed h =
      let s1 =
        or_else-skips (exact_stage locale_compare a p Decision.deny) _ Decision.deny Decision.allow
          (exact_stage-action locale_compare a p Decision.deny) (λ e. cc) h in
      let s2 =
        or_else-skips (denies_stage locale_compare a p) _ Decision.deny Decision.allow
          (denies_stage-action locale_compare a p) (λ e. cc) s1.1 in
      let s3 =
        or_else-skips (blocked_stage locale_compare a p) _ Decision.deny Decision.allow
          (blocked_stage-action locale_compare a p) (λ e. cc) s2.1 in
      let s4 =
        or_else-skips (exact_stage locale_compare a p Decision.needs_approval) after_asking
          Decision.needs_approval Decision.allow
          (exact_stage-action locale_compare a p Decision.needs_approval) (λ e. cc) s3.1 in
      (unmapped _ s4.0, s4.1)
    where
      unmapped : (o : Option ExactRule) → map_verdict exact_decision o ≡ none → o ≡ none
      unmapped none e = refl
      unmapped (some r) e = cc

  after_structured :
      (or_else structured_stage legacy_stage).action ≡ Decision.allow → AllowSource a p
  after_structured h = elim (or_else-cases structured_stage legacy_stage) [
    | inl (v, e, q) ↦ structured_source v e (ap (λ (w : Verdict). w.action) (sym q) ∙ h)
    | inr (n, q) ↦ legacy_source a p (ap (λ (w : Verdict). w.action) (sym q) ∙ h)
  ]

  after_exact : after_asking.action ≡ Decision.allow → AllowSource a p
  after_exact h =
      elim (or_else-cases (exact_stage locale_compare a p Decision.allow)
        (or_else structured_stage legacy_stage)) [
          | inl (v, e, q) ↦ exact_source v e
          | inr (n, q) ↦ after_structured (ap (λ (w : Verdict). w.action) (sym q) ∙ h)
        ]

  -- Where the decision is allow, nothing denies the action, no exact rule asks for approval, and
  -- something allows it: an exact rule, a structured rule that applies, a listed pattern that is
  -- more specific than every approval pattern, or the default with no listed pattern.
  pub allow_has_source :
      (decide locale_compare a p).action ≡ Decision.allow
      → (¬ (DenySource a p))
        × ((r : ExactRule)
            → In r (exact_action_rules_for p.exact_action_rules a)
            → normalize_decision r.effect ≢ Decision.needs_approval)
        × AllowSource a p
  allow_has_source h = (
    λ s. let d = deny_wins locale_compare a p s in cc,
    λ r i e. exact_missed Decision.needs_approval _ i e (passed h).0,
    after_exact (passed h).1,
  )
