-- ===== src/Tests/Calls.antt =====
-- Examples of tool calls.
use ruleoak.Common.{
  Bool, true, false, ◌≡◌, ◌↔◌, ◌⊎◌, refl, inl, inr, Option, none, some, List, [], ◌∷◌, is_empty,
}
use ruleoak.Common.Texts.{Text, text}
use ruleoak.Engine.Policy.{Decision, Policy, Action, critical}
use ruleoak.Engine.Evaluate.{Verdict, decided, decide, evaluate_policy}
use ruleoak.Permission.Call.{Actor, Tool, Target, Call}
use ruleoak.Permission.Classifier.{classify_risk, facts_of}
use ruleoak.Permission.Classifier.Critical.{critical_cause, classify_risk-eq-critical_iff}
use ruleoak.Permission.Gateway.{
  Ruling, SessionCache, refused, guard_ruling, evaluate_permission_request, authority_grant,
  after_policy, action_of,
}
use ruleoak.Permission.Gateway.Guards.{Allowed, engine_deny_final, allow_requires}
use ruleoak.Permission.Gateway.Denials.{Guarded, Denied, deny_iff}
use ruleoak.Tests.Fixtures.{no_order}
use ruleoak.Tests.Rules.{open_policy, mixed}

abbrev read_call : Call
read_call = record {
  actor = record { type = text "agent"; name = text "a"; session_id = text "s"; id = none };
  tool = record { name = text "file.read"; category = text "file"; operation = text "read" };
  target = record {
    resource = text "README.md";
    scope = text "project";
    sensitivity = text "public";
  };
  detected_secrets = false;
  detected_prompt_injection = false;
  intent_id = none;
  task_id = none;
}

abbrev pub fingerprint : Call → Text
fingerprint call = text "sha256:0"

abbrev pub no_sessions : SessionCache
no_sessions key = none

classify_risk-eq-critical_iff_example :
    ((classify_risk read_call).risk ≡ critical) ↔ (critical_cause (facts_of read_call) ≡ true)
classify_risk-eq-critical_iff_example = classify_risk-eq-critical_iff read_call

abbrev verdict : Policy → Verdict
verdict p = decide no_order (action_of fingerprint read_call none) p

abbrev ruling : Policy → Ruling
ruling p = after_policy (classify_risk read_call) none (verdict p)

engine_deny_final_example : (ruling mixed).verdict.action ≡ Decision.deny
unfolding ruleoak.Permission.Gateway.evaluate_permission_request ruleoak.Permission.Gateway.rule_on
    classify_risk facts_of evaluate_policy ruleoak.Engine.Policy.valid_action action_of
    ruleoak.Engine.Policy.valid_policy ruleoak.Common.all decide ruleoak.Engine.Evaluate.exact_with
    ruleoak.Common.find ruleoak.Engine.Rules.exact_action_rules_for ruleoak.Common.select
    ruleoak.Engine.Rules.choose_structured_match ruleoak.Common.Sort.sort
    ruleoak.Engine.Evaluate.structured_denies ruleoak.Common.any ruleoak.Common.Sort.insert
    ruleoak.Common.Texts.drop_last ruleoak.Common.Texts.ends_with ruleoak.Common.Texts.same
    ruleoak.Common.Texts.starts_with ruleoak.Engine.Evaluate.default_decision
    ruleoak.Engine.Evaluate.exact_decision ruleoak.Engine.Evaluate.invalid_action_decision
    ruleoak.Engine.Evaluate.legacy_decision ruleoak.Engine.Evaluate.listed_decision
    ruleoak.Engine.Evaluate.structured_decision ruleoak.Engine.Glob.accepts ruleoak.Engine.Glob.glob
    ruleoak.Engine.Glob.glob_test ruleoak.Engine.Glob.has_star ruleoak.Engine.Glob.has_wild
    ruleoak.Engine.Glob.many ruleoak.Engine.Glob.step ruleoak.Engine.Pattern.best_from
    ruleoak.Engine.Pattern.best_match ruleoak.Engine.Pattern.better
    ruleoak.Engine.Pattern.matches_pattern ruleoak.Engine.Pattern.matches_resource_pattern
    ruleoak.Engine.Pattern.pattern_specificity ruleoak.Engine.Policy.normalize_decision
    ruleoak.Engine.Policy.risk_rank ruleoak.Engine.Policy.valid_exact_rule
    ruleoak.Engine.Policy.valid_rule ruleoak.Engine.Rules.action_key
    ruleoak.Engine.Rules.compare_matches ruleoak.Engine.Rules.conditions_hold
    ruleoak.Engine.Rules.is_enabled ruleoak.Engine.Rules.match_of ruleoak.Engine.Rules.matches_any
    ruleoak.Engine.Rules.matches_any_overlap ruleoak.Engine.Rules.risk_in_range
    ruleoak.Engine.Rules.rule_applies ruleoak.Engine.Rules.structured_matches
    ruleoak.Engine.Rules.structured_rule_match ruleoak.Engine.Rules.tie_break
    ruleoak.Permission.Call.contains ruleoak.Permission.Call.split_category
    ruleoak.Permission.Call.split_operation ruleoak.Permission.Call.to_lower_case
    ruleoak.Permission.Classifier.assess ruleoak.Permission.Classifier.assess_command
    ruleoak.Permission.Classifier.assess_communication
    ruleoak.Permission.Classifier.assess_direction ruleoak.Permission.Classifier.assess_file
    ruleoak.Permission.Classifier.assess_injection ruleoak.Permission.Classifier.assess_payment
    ruleoak.Permission.Classifier.assess_secrets ruleoak.Permission.Classifier.assess_sensitivity
    ruleoak.Permission.Classifier.assess_unknown ruleoak.Permission.Classifier.classify_data_flow
    ruleoak.Permission.Classifier.classify_side_effect ruleoak.Permission.Classifier.max_risk
    ruleoak.Permission.Classifier.raise ruleoak.Permission.Gateway.adjust after_policy
    ruleoak.Permission.Gateway.apply_session_decision guard_ruling
    ruleoak.Permission.Gateway.is_explicit_allow
engine_deny_final_example =
    engine_deny_final no_order fingerprint read_call mixed none none no_sessions (ruling mixed) refl
      (verdict mixed) refl refl

denied :
    evaluate_permission_request no_order fingerprint read_call mixed none none no_sessions
    ≡ some (ruling mixed)
unfolding evaluate_permission_request ruleoak.Permission.Gateway.rule_on classify_risk facts_of
    evaluate_policy ruleoak.Engine.Policy.valid_action action_of ruleoak.Engine.Policy.valid_policy
    ruleoak.Common.all ruleoak.Engine.Policy.valid_rule ruleoak.Engine.Policy.valid_exact_rule
denied = refl

answered :
    evaluate_permission_request no_order fingerprint read_call open_policy none none no_sessions
    ≡ some (ruling open_policy)
unfolding evaluate_permission_request ruleoak.Permission.Gateway.rule_on classify_risk facts_of
    evaluate_policy ruleoak.Engine.Policy.valid_action action_of ruleoak.Engine.Policy.valid_policy
    ruleoak.Common.all
answered = refl

granted : (ruling open_policy).verdict.action ≡ Decision.allow
unfolding after_policy classify_risk ruleoak.Permission.Classifier.assess
    ruleoak.Permission.Classifier.assess_unknown ruleoak.Permission.Classifier.assess_direction
    facts_of ruleoak.Permission.Classifier.classify_data_flow ruleoak.Common.Texts.same
    ruleoak.Common.any ruleoak.Permission.Call.contains ruleoak.Permission.Call.to_lower_case
    ruleoak.Common.Texts.starts_with ruleoak.Permission.Classifier.assess_injection
    ruleoak.Permission.Classifier.assess_secrets ruleoak.Permission.Classifier.assess_sensitivity
    ruleoak.Permission.Classifier.assess_payment ruleoak.Permission.Classifier.assess_command
    ruleoak.Engine.Policy.risk_rank ruleoak.Permission.Call.split_category
    ruleoak.Permission.Call.split_operation ruleoak.Permission.Classifier.assess_communication
    ruleoak.Permission.Classifier.assess_file ruleoak.Permission.Classifier.classify_side_effect
    ruleoak.Permission.Classifier.max_risk ruleoak.Permission.Classifier.raise
    ruleoak.Permission.Gateway.adjust ruleoak.Permission.Gateway.apply_session_decision guard_ruling
    ruleoak.Permission.Gateway.is_explicit_allow decide ruleoak.Engine.Evaluate.exact_with
    ruleoak.Common.find ruleoak.Engine.Rules.exact_action_rules_for action_of ruleoak.Common.select
    ruleoak.Engine.Rules.choose_structured_match ruleoak.Common.Sort.sort
    ruleoak.Engine.Evaluate.structured_denies ruleoak.Engine.Rules.structured_matches
    ruleoak.Engine.Pattern.best_match ruleoak.Engine.Evaluate.legacy_decision
    ruleoak.Engine.Pattern.matches_pattern ruleoak.Common.Texts.ends_with
    ruleoak.Engine.Glob.has_wild ruleoak.Engine.Rules.action_key ruleoak.Engine.Glob.has_star
    ruleoak.Common.Sort.insert ruleoak.Common.Texts.drop_last
    ruleoak.Engine.Evaluate.default_decision ruleoak.Engine.Evaluate.exact_decision
    ruleoak.Engine.Evaluate.listed_decision ruleoak.Engine.Evaluate.structured_decision
    ruleoak.Engine.Glob.accepts ruleoak.Engine.Glob.glob ruleoak.Engine.Glob.glob_test
    ruleoak.Engine.Glob.many ruleoak.Engine.Glob.step ruleoak.Engine.Pattern.best_from
    ruleoak.Engine.Pattern.better ruleoak.Engine.Pattern.matches_resource_pattern
    ruleoak.Engine.Pattern.pattern_specificity ruleoak.Engine.Policy.normalize_decision
    ruleoak.Engine.Rules.compare_matches ruleoak.Engine.Rules.conditions_hold
    ruleoak.Engine.Rules.is_enabled ruleoak.Engine.Rules.match_of ruleoak.Engine.Rules.matches_any
    ruleoak.Engine.Rules.matches_any_overlap ruleoak.Engine.Rules.risk_in_range
    ruleoak.Engine.Rules.rule_applies ruleoak.Engine.Rules.structured_rule_match
    ruleoak.Engine.Rules.tie_break
granted = refl

allow_requires_example :
    (refused none ≡ false)
    × ((classify_risk read_call).secret_exfiltration_risk ≡ false)
    × ((classify_risk read_call).prompt_injection_side_effect_risk ≡ false)
    × ((v : Verdict) × (evaluate_policy no_order (action_of fingerprint read_call none) open_policy
          ≡ decided v)
        × Allowed (classify_risk read_call) none v)
allow_requires_example =
    allow_requires no_order fingerprint read_call open_policy none none no_sessions
      (ruling open_policy) answered granted

deny_iff_example : ((ruling mixed).verdict.action ≡ Decision.deny) ↔ (
    Guarded (classify_risk read_call) none
    ⊎ ((v : Verdict) × (evaluate_policy no_order (action_of fingerprint read_call none) mixed
          ≡ decided v)
        × Denied (classify_risk read_call) none v))
deny_iff_example =
    deny_iff no_order fingerprint read_call mixed none none no_sessions (ruling mixed) denied
