-- ===== src/Tests/Gate.antt =====
-- Examples of chunks that pass the gates.
use ruleoak.Common.{
  Bool, true, false, ◌≡◌, ◌≢◌, refl, inl, suc, Option, none, some, List, [], ◌∷◌, ◌++◌, length,
  head, tail,
}
use ruleoak.Common.Texts.{Text, text}
use ruleoak.Gate.Json.{Json, object, string, no_fields, field, is_tool_call}
use ruleoak.Gate.Action.{Script}
use ruleoak.Gate.Fragments.{extract_from, extract_json_fragments}
use ruleoak.Gate.Fragments.Lossless.{raw_text, extract-lossless}
use ruleoak.Gate.Inbound.{Answers, forward, evaluate_item, run}
use ruleoak.Gate.Inbound.Cleared.{guards_withhold}
use ruleoak.Gate.Inbound.Forwarded.{Passes, run-Passes}
use ruleoak.Gate.Outbound
use ruleoak.Gate.Outbound.Transparent.{written, joined, outbound-transparent}
use ruleoak.Tests.Fixtures.{no_order}
use ruleoak.Tests.Rules.{open_policy}
use ruleoak.Tests.Calls.{fingerprint, no_sessions}

-- Every argument holds a credential.
abbrev script : Script
script = record {
  string_of = λ value. text "value";
  stringify = λ value. text "{}";
  is_zero = λ literal. false;
  secrets = λ a target. true;
  injection = λ a id sensitivity. false;
}

abbrev parse : Text → Option Json
parse raw = some (object no_fields)

abbrev silent : Json → Answers
silent value = record {
  sessions = no_sessions;
  approval = none;
  consumption = none;
  pre_forward = none;
}

abbrev mail : Json
mail = object (
    field (text "jsonrpc") (string (text "2.0")) (
      field (text "method") (string (text "tools/call")) (
        field (text "params") (object (field (text "name") (string (text "email.send")) no_fields))
          no_fields)))

run-Passes_example :
    Passes no_order fingerprint script parse open_policy
      (λ i j k. silent)
      (text "x{" ∷ text "}" ∷ [])
      (text "{}\n")
unfolding run ruleoak.Gate.Inbound.finish ruleoak.Gate.Inbound.write
    ruleoak.Gate.Inbound.looks_like_json ruleoak.Gate.Inbound.handle_fragments
    extract_json_fragments ruleoak.Gate.Inbound.handle_fragment extract_from ruleoak.Common.any
    ruleoak.Gate.Inbound.handle_json ruleoak.Gate.Fragments.find_next_json_start
    ruleoak.Gate.Inbound.evaluate_items evaluate_item ruleoak.Gate.Fragments.split_last_line
    ruleoak.Gate.Fragments.find_json_end ruleoak.Gate.Json.is_route_probe
    ruleoak.Gate.Inbound.rule_on_tool_call is_tool_call ruleoak.Gate.Fragments.step
    ruleoak.Gate.Inbound.resolve ruleoak.Gate.Inbound.settle
    ruleoak.Permission.Normalizer.normalize_tool_call ruleoak.Gate.Action.action_from_tool_call
    ruleoak.Permission.Gateway.evaluate_permission_request ruleoak.Gate.Json.lookup
    ruleoak.Common.Texts.same ruleoak.Permission.Normalizer.call_of_envelope
    ruleoak.Gate.Action.operation_of_name ruleoak.Gate.Action.arguments_of
    ruleoak.Gate.Action.category_of_name ruleoak.Gate.Action.tool_name
    ruleoak.Permission.Gateway.rule_on ruleoak.Permission.Classifier.classify_risk
    ruleoak.Permission.Gateway.action_of ruleoak.Engine.Evaluate.evaluate_policy
    ruleoak.Gate.Json.is_notification ruleoak.Gate.Action.begins_with
    ruleoak.Gate.Action.normalized_name ruleoak.Gate.Action.last_segment
    ruleoak.Gate.Action.has_word ruleoak.Permission.Gateway.after_policy
    ruleoak.Permission.Gateway.guard_ruling ruleoak.Permission.Classifier.facts_of
    ruleoak.Permission.Classifier.assess ruleoak.Engine.Evaluate.decide
    ruleoak.Engine.Evaluate.invalid_action_decision ruleoak.Engine.Policy.valid_action
    ruleoak.Engine.Policy.valid_policy ruleoak.Common.Texts.starts_with
    ruleoak.Gate.Action.split_camel ruleoak.Gate.Action.join_words
    ruleoak.Permission.Call.to_lower_case ruleoak.Gate.Action.first_segment
    ruleoak.Permission.Call.contains ruleoak.Permission.Gateway.apply_session_decision
    ruleoak.Permission.Gateway.adjust ruleoak.Permission.Call.split_category
    ruleoak.Permission.Classifier.classify_data_flow
    ruleoak.Permission.Classifier.classify_side_effect ruleoak.Permission.Call.split_operation
    ruleoak.Permission.Classifier.assess_injection ruleoak.Permission.Classifier.assess_direction
    ruleoak.Permission.Classifier.assess_unknown ruleoak.Permission.Classifier.assess_file
    ruleoak.Permission.Classifier.assess_secrets ruleoak.Permission.Classifier.assess_communication
    ruleoak.Permission.Classifier.assess_payment ruleoak.Permission.Classifier.assess_sensitivity
    ruleoak.Permission.Classifier.assess_command ruleoak.Engine.Evaluate.structured_denies
    ruleoak.Engine.Rules.exact_action_rules_for ruleoak.Engine.Evaluate.listed_decision
    ruleoak.Engine.Pattern.best_match ruleoak.Engine.Evaluate.exact_with
    ruleoak.Engine.Rules.action_key ruleoak.Engine.Evaluate.structured_decision
    ruleoak.Engine.Rules.structured_matches ruleoak.Engine.Evaluate.exact_decision
    ruleoak.Engine.Rules.choose_structured_match ruleoak.Engine.Evaluate.legacy_decision
    ruleoak.Common.all ruleoak.Engine.Policy.valid_rule ruleoak.Engine.Policy.valid_exact_rule
    ruleoak.Permission.Gateway.is_explicit_allow ruleoak.Permission.Classifier.raise
    ruleoak.Common.select ruleoak.Engine.Rules.is_enabled ruleoak.Engine.Pattern.best_from
    ruleoak.Engine.Pattern.better ruleoak.Engine.Policy.normalize_decision ruleoak.Common.find
    ruleoak.Engine.Rules.structured_rule_match ruleoak.Common.Sort.sort
    ruleoak.Engine.Rules.compare_matches ruleoak.Engine.Evaluate.default_decision
    ruleoak.Permission.Classifier.max_risk ruleoak.Engine.Pattern.matches_pattern
    ruleoak.Engine.Rules.match_of ruleoak.Engine.Rules.rule_applies ruleoak.Common.Sort.insert
    ruleoak.Engine.Rules.tie_break ruleoak.Engine.Pattern.pattern_specificity
    ruleoak.Engine.Glob.has_wild ruleoak.Common.Texts.drop_last ruleoak.Engine.Glob.glob_test
    ruleoak.Engine.Pattern.matches_resource_pattern ruleoak.Engine.Rules.conditions_hold
    ruleoak.Engine.Rules.risk_in_range ruleoak.Common.Texts.ends_with ruleoak.Engine.Glob.has_star
    ruleoak.Engine.Glob.glob ruleoak.Engine.Glob.accepts ruleoak.Engine.Rules.matches_any_overlap
    ruleoak.Engine.Rules.matches_any ruleoak.Engine.Policy.risk_rank ruleoak.Engine.Glob.step
    ruleoak.Engine.Glob.many
run-Passes_example =
    run-Passes no_order fingerprint script parse open_policy (λ i j k. silent)
      (text "x{" ∷ text "}" ∷ []) (text "{}\n") (tail (head refl))

guards_withhold_example :
    evaluate_item no_order fingerprint script parse open_policy silent mail ≢ forward
unfolding is_tool_call ruleoak.Permission.Classifier.classify_risk
    ruleoak.Permission.Normalizer.call_of_envelope ruleoak.Gate.Action.action_from_tool_call
    ruleoak.Permission.Classifier.facts_of ruleoak.Permission.Classifier.assess
    ruleoak.Gate.Action.operation_of_name ruleoak.Gate.Action.arguments_of
    ruleoak.Gate.Action.category_of_name ruleoak.Gate.Action.tool_name ruleoak.Gate.Json.lookup
    ruleoak.Common.Texts.same ruleoak.Permission.Call.split_category
    ruleoak.Permission.Classifier.classify_data_flow
    ruleoak.Permission.Classifier.classify_side_effect ruleoak.Permission.Call.split_operation
    ruleoak.Permission.Classifier.assess_injection ruleoak.Permission.Classifier.assess_direction
    ruleoak.Permission.Classifier.assess_unknown ruleoak.Permission.Classifier.assess_file
    ruleoak.Permission.Classifier.assess_secrets ruleoak.Permission.Classifier.assess_communication
    ruleoak.Permission.Classifier.assess_payment ruleoak.Permission.Classifier.assess_sensitivity
    ruleoak.Permission.Classifier.assess_command ruleoak.Gate.Action.begins_with
    ruleoak.Gate.Action.normalized_name ruleoak.Gate.Action.last_segment
    ruleoak.Gate.Action.has_word ruleoak.Permission.Call.to_lower_case
    ruleoak.Permission.Classifier.raise ruleoak.Common.Texts.starts_with
    ruleoak.Gate.Action.split_camel ruleoak.Gate.Action.join_words ruleoak.Common.any
    ruleoak.Gate.Action.first_segment ruleoak.Permission.Call.contains
    ruleoak.Permission.Classifier.max_risk
guards_withhold_example =
    guards_withhold no_order fingerprint script parse open_policy silent mail refl (inl refl)

extract-lossless_example :
    (extract_from parse (suc (length (text "x{}[1"))) (text "x{}[1")
      ≡ some (extract_json_fragments parse (text "x{}[1")))
    × (raw_text (extract_json_fragments parse (text "x{}[1")).fragments
          ++ (extract_json_fragments parse (text "x{}[1")).remaining
        ≡ text "x{}[1")
extract-lossless_example = extract-lossless parse (text "x{}[1")

outbound-transparent_example :
    written (Outbound.run parse [] (text "a{" ∷ text "}b" ∷ [])) ≡ text "a{}b"
unfolding joined
outbound-transparent_example = outbound-transparent parse (text "a{" ∷ text "}b" ∷ [])
