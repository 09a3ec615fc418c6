-- ===== src/Tests/Rules.antt =====
-- Examples of policies and actions.
use ruleoak.Common.{
  ℕ, Bool, true, false, ◌≡◌, ◌≢◌, refl, Option, none, some, List, [], ◌∷◌, In, head, tail,
}
use ruleoak.Common.Texts.{Text, text}
use ruleoak.Engine.Policy.{
  Decision, Effect, normalize_decision, Rule, ExactRule, Policy, Metadata, Action, Conditions,
}
use ruleoak.Engine.Rules.{
  Match, match_of, rule_applies, structured_matches, choose_structured_match,
  exact_action_rules_for,
}
use ruleoak.Engine.Rules.Choice.{Outranks, choose-Outranks}
use ruleoak.Engine.Evaluate.{decide}
use ruleoak.Engine.Evaluate.Precedence.{DenySource, blocked, deny_wins}
use ruleoak.Engine.Evaluate.Sources.{AllowSource, allow_has_source}
use ruleoak.Tests.Fixtures.{no_order}

abbrev pub no_metadata : Metadata
no_metadata = record {
  approval_key = none;
  decision_key = none;
  category = none;
  operation = none;
  sensitivity = none;
  data_flow = none;
  side_effect = none;
  actor_type = none;
  actor = none;
  session_id = none;
  scope = none;
  agent_id = none;
  principal_ids = none;
  authority_grant_id = none;
  intent_id = none;
  task_id = none;
  risk = none;
}

abbrev pub read_file : Action
read_file = record {
  type = some (text "file.read");
  action = none;
  target = none;
  metadata = no_metadata;
}

abbrev pub mixed : Policy
mixed = record {
  policy_version = some 1;
  default_action = none;
  allowed_actions = text "file.read" ∷ [];
  approval_required = text "file.*" ∷ [];
  blocked_actions = text "*" ∷ [];
  exact_action_rules = [];
  rules = none;
}

deny_wins_example : (decide no_order read_file mixed).action ≡ Decision.deny
unfolding ruleoak.Engine.Pattern.matches_pattern ruleoak.Common.Texts.same
deny_wins_example = deny_wins no_order read_file mixed (blocked (text "*") (head refl) refl)

abbrev pub open_policy : Policy
open_policy = record mixed { blocked_actions = [] }

allow_has_source_example :
    (¬ (DenySource read_file open_policy))
    × ((r : ExactRule)
        → In r (exact_action_rules_for [] read_file)
        → normalize_decision r.effect ≢ Decision.needs_approval)
    × AllowSource read_file open_policy
unfolding decide ruleoak.Engine.Evaluate.exact_with ruleoak.Common.find exact_action_rules_for
    choose_structured_match ruleoak.Common.Sort.sort ruleoak.Engine.Evaluate.structured_denies
    ruleoak.Common.select structured_matches ruleoak.Engine.Pattern.best_match
    ruleoak.Engine.Evaluate.legacy_decision ruleoak.Engine.Pattern.matches_pattern
    ruleoak.Common.Texts.same ruleoak.Common.Texts.ends_with ruleoak.Engine.Glob.has_wild
    ruleoak.Common.any ruleoak.Engine.Rules.action_key ruleoak.Common.Sort.insert
    ruleoak.Common.Texts.drop_last ruleoak.Common.Texts.starts_with
    ruleoak.Engine.Evaluate.default_decision ruleoak.Engine.Evaluate.exact_decision
    ruleoak.Engine.Evaluate.listed_decision ruleoak.Engine.Evaluate.structured_decision
    ruleoak.Engine.Glob.accepts ruleoak.Engine.Glob.glob ruleoak.Engine.Glob.glob_test
    ruleoak.Engine.Glob.has_star ruleoak.Engine.Glob.many ruleoak.Engine.Glob.step
    ruleoak.Engine.Pattern.best_from ruleoak.Engine.Pattern.better
    ruleoak.Engine.Pattern.matches_resource_pattern ruleoak.Engine.Pattern.pattern_specificity
    normalize_decision ruleoak.Engine.Policy.risk_rank ruleoak.Engine.Rules.compare_matches
    ruleoak.Engine.Rules.conditions_hold ruleoak.Engine.Rules.is_enabled match_of
    ruleoak.Engine.Rules.matches_any ruleoak.Engine.Rules.matches_any_overlap
    ruleoak.Engine.Rules.risk_in_range rule_applies ruleoak.Engine.Rules.structured_rule_match
    ruleoak.Engine.Rules.tie_break
allow_has_source_example = allow_has_source no_order read_file open_policy refl

abbrev no_conditions : Conditions
no_conditions = record {
  categories = [];
  operations = [];
  sensitivities = [];
  data_flows = [];
  side_effects = [];
  actor_types = [];
  scopes = [];
  actor_names = [];
  session_ids = [];
  agent_ids = [];
  principal_ids = [];
  grant_ids = [];
  intent_ids = [];
  task_ids = [];
  others = 0;
}

abbrev rule : Effect → Rule
rule effect = record {
  id = text "r1";
  effect = effect;
  actions = text "file.*" ∷ [];
  resources = [];
  priority = none;
  disabled = false;
  status = none;
  allow_critical = false;
  risk_at_least = none;
  risk_at_most = none;
  conditions = no_conditions;
}

abbrev allowing : Match
allowing = match_of (rule Effect.allow) read_file

abbrev denying : Match
denying = match_of (rule Effect.deny) read_file

choose-Outranks_example :
    In denying (allowing ∷ denying ∷ [])
    × ((other : Match) → In other (allowing ∷ denying ∷ []) → Outranks denying other)
unfolding choose_structured_match ruleoak.Common.Sort.sort ruleoak.Common.Sort.insert
    ruleoak.Engine.Rules.compare_matches match_of ruleoak.Common.select
    ruleoak.Engine.Pattern.matches_pattern ruleoak.Common.Texts.same ruleoak.Common.Texts.ends_with
    ruleoak.Engine.Glob.has_star ruleoak.Common.any ruleoak.Common.Texts.drop_last
    ruleoak.Common.Texts.starts_with ruleoak.Engine.Rules.action_key
    ruleoak.Engine.Pattern.pattern_specificity ruleoak.Engine.Pattern.matches_resource_pattern
    ruleoak.Engine.Rules.tie_break ruleoak.Engine.Glob.accepts ruleoak.Engine.Glob.glob
    ruleoak.Engine.Glob.glob_test ruleoak.Engine.Glob.has_wild ruleoak.Engine.Glob.many
    ruleoak.Engine.Glob.step normalize_decision
choose-Outranks_example = choose-Outranks no_order (allowing ∷ denying ∷ []) denying refl
