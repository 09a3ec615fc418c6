-- ===== src/Engine/Rules.antt =====
-- Matching a structured rule and choosing among the matches: exactActionRulesFor, matchesAny,
-- structuredRuleMatch and chooseStructuredMatch of packages/core/src/engine/evaluator.js.
-- localeCompare, which orders two rule ids in the end, is a parameter of the choice.
pub mod Choice
use Prim.Native.Nat.{compare, Ordering}
use ruleoak.Common.{
  ℕ, ◌+◌, Bool, true, false, not, ◌&&◌, ◌||◌, Option, none, some, List, [], ◌∷◌, map, ltb,
  if◌then◌else◌, is_empty, all, any, select, length,
}
use ruleoak.Common.Int.{ℤ, pos, compare_ℤ}
use ruleoak.Common.Sort.{sort, first, then_by}
use ruleoak.Common.Texts.{Text, same}
use ruleoak.Engine.Pattern.{
  everything, pattern_specificity, matches_pattern, matches_resource_pattern,
}
use ruleoak.Engine.Policy.{
  Decision, normalize_decision, Risk, safe, risk_rank, Status, enabled, disabled, Conditions, Rule,
  ExactRule, Metadata, Action, is_present, member,
}

-- `value || ''` and `first || second`, where an empty string is false.
abbrev pub or_empty : Option Text → Text
or_empty none = []
or_empty (some s) = s

abbrev pub or_text : Option Text → Option Text → Option Text
or_text a b = if is_present a then a else b

unfoldable pub action_key : Action → Text
action_key a = elim a.type [ some t ↦ t | none ↦ or_empty a.action ]

abbrev is_disabled : Option Status → Bool
is_disabled (some disabled) = true
is_disabled _ = false

unfoldable pub is_enabled : Bool → Option Status → Bool
is_enabled disabled_flag status = not disabled_flag && not (is_disabled status)

unfoldable pub exact_action_rules_for : List ExactRule → Action → List ExactRule
exact_action_rules_for rules action =
    let key = or_text action.metadata.approval_key action.metadata.decision_key in
    if is_present key
    then select (λ r. is_enabled r.disabled r.status && same r.decision_key (or_empty key)) rules
    else []

-- values.includes(candidate), where an absent list matches everything
unfoldable pub matches_any : List Text → Option Text → Bool
matches_any [] candidate = true
matches_any (v ∷ vs) none = false
matches_any (v ∷ vs) (some c) = member (v ∷ vs) c

unfoldable pub matches_any_overlap : List Text → Option (List Text) → Bool
matches_any_overlap [] candidates = true
matches_any_overlap (v ∷ vs) none = false
matches_any_overlap (v ∷ vs) (some cs) = any (member cs) (v ∷ vs)

unfoldable pub conditions_hold : Conditions → Metadata → Bool
conditions_hold c m =
    matches_any c.categories m.category
    && matches_any c.operations m.operation
    && matches_any c.sensitivities m.sensitivity
    && matches_any c.data_flows m.data_flow
    && matches_any c.side_effects m.side_effect
    && matches_any c.actor_types m.actor_type
    && matches_any c.actor_names m.actor
    && matches_any c.session_ids m.session_id
    && matches_any c.scopes m.scope
    && matches_any c.agent_ids m.agent_id
    && matches_any_overlap c.principal_ids m.principal_ids
    && matches_any c.grant_ids m.authority_grant_id
    && matches_any c.intent_ids m.intent_id
    && matches_any c.task_ids m.task_id

abbrev pub or_safe : Option Risk → Risk
or_safe none = safe
or_safe (some r) = r

abbrev below : Risk → Option Risk → Bool
below risk none = false
below risk (some least) = ltb (risk_rank risk) (risk_rank least)

abbrev beyond : Risk → Option Risk → Bool
beyond risk none = false
beyond risk (some most) = ltb (risk_rank most) (risk_rank risk)

unfoldable pub risk_in_range : Rule → Metadata → Bool
unfolding risk_rank
risk_in_range r m =
    not (below (or_safe m.risk) r.risk_at_least) && not (beyond (or_safe m.risk) r.risk_at_most)

-- The number of conditions that a rule states.
condition_count : Conditions → ℕ
condition_count c =
    c.others
    + length (
        select (λ values. not (is_empty values))
          (c.categories ∷ c.operations ∷ c.sensitivities ∷ c.data_flows ∷ c.side_effects
            ∷ c.actor_types ∷ c.actor_names ∷ c.session_ids ∷ c.scopes ∷ c.agent_ids
            ∷ c.principal_ids ∷ c.grant_ids ∷ c.intent_ids ∷ c.task_ids ∷ []))

-- Math.max(...patterns.map(patternSpecificity))
max_specificity : List Text → ℕ
max_specificity [] = 0
max_specificity (p ∷ ps) =
    let most = max_specificity ps in
    if ltb most (pattern_specificity p) then pattern_specificity p else most

abbrev by_specificity : Text → Text → Ordering
by_specificity a b = compare (pattern_specificity b) (pattern_specificity a)

-- patterns.sort(...)[0]
abbrev most_specific : List Text → Text
most_specific ps = or_empty (first (sort by_specificity ps))

abbrev pub or_everything : List Text → List Text
or_everything [] = everything ∷ []
or_everything ps = ps

pub record Match : Type 0 where
  pub rule : Rule
  pub effect : Decision
  pub priority : ℤ
  pub specificity : ℕ
  pub action_pattern : Text
  pub resource_pattern : Text

abbrev pub or_zero : Option ℤ → ℤ
or_zero none = pos 0
or_zero (some p) = p

-- The tests of structuredRuleMatch, in the source's order.
unfoldable pub rule_applies : Rule → Action → Bool
rule_applies r a =
    is_enabled r.disabled r.status
    && any (λ p. matches_pattern p (action_key a)) (or_everything r.actions)
    && any (λ p. matches_resource_pattern p (or_empty a.target)) (or_everything r.resources)
    && conditions_hold r.conditions a.metadata
    && risk_in_range r a.metadata

-- The match record that structuredRuleMatch returns for a rule that applies.
unfoldable pub match_of : Rule → Action → Match
unfolding condition_count max_specificity
match_of r a =
    let action_matches = select (λ p. matches_pattern p (action_key a)) (or_everything r.actions) in
    let resource_matches =
      select (λ p. matches_resource_pattern p (or_empty a.target)) (or_everything r.resources) in
    record {
      rule = r;
      effect = normalize_decision r.effect;
      priority = or_zero r.priority;
      specificity =
          max_specificity action_matches
          + max_specificity resource_matches
          + condition_count r.conditions;
      action_pattern = most_specific action_matches;
      resource_pattern = most_specific resource_matches;
    }

unfoldable pub structured_rule_match : Rule → Action → Option Match
structured_rule_match r a = if rule_applies r a then some (match_of r a) else none

-- One round of filter(Boolean).
abbrev pub keep_some : Option Match → List Match → List Match
keep_some none later = later
keep_some (some m) later = m ∷ later

-- rules.map(structuredRuleMatch).filter(Boolean)
unfoldable pub structured_matches : List Rule → Action → List Match
structured_matches [] a = []
structured_matches (r ∷ rs) a = keep_some (structured_rule_match r a) (structured_matches rs a)

-- EFFECT_TIE_BREAK
unfoldable pub tie_break : Decision → ℕ
tie_break Decision.deny = 4
tie_break Decision.needs_approval = 3
tie_break Decision.dry_run_only = 2
tie_break Decision.allow = 1

module _ (locale_compare : Text → Text → Ordering) where
  unfoldable pub compare_matches : Match → Match → Ordering
  compare_matches a b = then_by (compare_ℤ b.priority a.priority) (
      then_by (compare b.specificity a.specificity) (
        then_by (compare (tie_break b.effect) (tie_break a.effect))
          (locale_compare a.rule.id b.rule.id)))

  unfoldable pub choose_structured_match : List Match → Option Match
  choose_structured_match matches = first (sort compare_matches matches)
