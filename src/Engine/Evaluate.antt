-- ===== src/Engine/Evaluate.antt =====
-- evaluatePolicy of packages/core/src/engine/evaluator.js. The reason and the trace, which only
-- describe the decision, are left out of the result.
pub mod Precedence
pub mod Sources
use Prim.Native.Nat.{Ordering}
use ruleoak.Common.{
  ℕ, Bool, true, false, not, Option, none, some, List, [], ◌∷◌, ◌++◌, ltb, if◌then◌else◌, find,
  select, is_empty,
}
use ruleoak.Common.Int.{ℤ, pos, negsuc}
use ruleoak.Common.Texts.{Text, text}
use ruleoak.Engine.Pattern.{Best, best_match}
use ruleoak.Engine.Policy.{
  Effect, Decision, normalize_decision, ExactRule, Policy, Action, is_present, valid_action,
  valid_policy, all_rules,
}
use ruleoak.Engine.Rules.{
  Match, action_key, exact_action_rules_for, structured_matches, choose_structured_match, or_text,
  or_empty,
}

pub record Verdict : Type 0 where
  pub action : Decision
  pub matched_pattern : Option Text
  pub matched_rule : Text
  pub matched_rules : List Text
  pub specificity : Option ℤ
  pub allow_critical : Bool

-- RuleOakPolicyValidationError, or the decision.
pub data Evaluation : Type 0 where
  invalid_policy : Evaluation
  decided : Verdict → Evaluation

abbrev pub is_decision : Decision → Decision → Bool
is_decision Decision.allow Decision.allow = true
is_decision Decision.deny Decision.deny = true
is_decision Decision.needs_approval Decision.needs_approval = true
is_decision Decision.dry_run_only Decision.dry_run_only = true
is_decision _ _ = false

-- rule.id || rule.decision_key
abbrev rule_name : ExactRule → Text
rule_name r = or_empty (or_text r.id (some r.decision_key))

unfoldable pub exact_decision : ExactRule → Verdict
exact_decision r = record {
  action = normalize_decision r.effect;
  matched_pattern = some r.decision_key;
  matched_rule = text "exactActionRules:" ++ rule_name r;
  matched_rules = rule_name r ∷ [];
  specificity = some (pos 100);
  allow_critical = r.allow_critical;
}

unfoldable pub structured_decision : Match → Verdict
structured_decision m = record {
  action = m.effect;
  matched_pattern = some m.action_pattern;
  matched_rule = text "rules:" ++ m.rule.id;
  matched_rules = m.rule.id ∷ [];
  specificity = some (pos m.specificity);
  allow_critical = m.rule.allow_critical;
}

-- The verdict of a match in one of the three pattern lists.
unfoldable pub listed_decision : Decision → Best → Verdict
listed_decision d b = record {
  action = d;
  matched_pattern = some b.pattern;
  matched_rule = b.pattern;
  matched_rules = b.pattern ∷ [];
  specificity = some (pos b.specificity);
  allow_critical = false;
}

unfoldable pub default_decision : Policy → Verdict
default_decision p = record {
  action = elim p.default_action [ none ↦ Decision.needs_approval | some e ↦ normalize_decision e ];
  matched_pattern = none;
  matched_rule = text "defaultAction";
  matched_rules = [];
  specificity = some (negsuc 0);
  allow_critical = false;
}

unfoldable pub invalid_action_decision : Verdict
invalid_action_decision = record {
  action = Decision.deny;
  matched_pattern = none;
  matched_rule = text "validation";
  matched_rules = [];
  specificity = none;
  allow_critical = false;
}

-- An early return: the verdict of this stage, or what the rest of the function returns.
abbrev pub or_else : Option Verdict → Verdict → Verdict
or_else (some v) rest = v
or_else none rest = rest

abbrev pub map_verdict {ℓ} : {A : Type ℓ} → (A → Verdict) → Option A → Option Verdict
map_verdict f none = none
map_verdict f (some a) = some (f a)

-- exactMatches.find(rule => normalizeDecisionAction(rule.effect) === decision)
unfoldable pub exact_with : Decision → List ExactRule → Option ExactRule
exact_with d rules = find (λ r. is_decision (normalize_decision r.effect) d) rules

-- structuredMatches.filter(match => match.effect === DECISION.DENY)
unfoldable pub structured_denies : List Match → List Match
structured_denies matches = select (λ m. is_decision m.effect Decision.deny) matches

-- The last stage: the legacy lists that allow and that ask, and the default action.
unfoldable pub legacy_decision : Option Best → Option Best → Policy → Verdict
legacy_decision (some allowed) (some approval) p =
    if ltb approval.specificity allowed.specificity
    then listed_decision Decision.allow allowed
    else listed_decision Decision.needs_approval approval
legacy_decision (some allowed) none p = listed_decision Decision.allow allowed
legacy_decision none (some approval) p = listed_decision Decision.needs_approval approval
legacy_decision none none p = default_decision p

module _ (locale_compare : Text → Text → Ordering) where
  -- The stages of evaluatePolicy after validation, in order.
  unfoldable pub decide : Action → Policy → Verdict
  decide a p =
      let key = action_key a in
      let exact = exact_action_rules_for p.exact_action_rules a in
      let structured = structured_matches (all_rules p.rules) a in
      or_else (map_verdict exact_decision (exact_with Decision.deny exact)) (
        or_else
          (map_verdict structured_decision
            (choose_structured_match locale_compare (structured_denies structured)))
          (or_else (map_verdict (listed_decision Decision.deny) (best_match p.blocked_actions key))
            (or_else (map_verdict exact_decision (exact_with Decision.needs_approval exact)) (
              or_else (map_verdict exact_decision (exact_with Decision.allow exact)) (
                or_else
                  (map_verdict structured_decision
                    (choose_structured_match locale_compare structured))
                  (legacy_decision (best_match p.allowed_actions key)
                    (best_match p.approval_required key) p))))))

  unfoldable pub evaluate_policy : Action → Policy → Evaluation
  evaluate_policy a p =
      if not (valid_action a)
      then decided invalid_action_decision
      else if not (valid_policy p)
      then invalid_policy
      else decided (decide a p)
