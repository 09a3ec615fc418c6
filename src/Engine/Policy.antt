-- ===== src/Engine/Policy.antt =====
-- The data of a policy and of an action envelope, and their validation (validatePolicy,
-- validateActionEnvelope, normalizeDecisionAction in packages/protocol/src/index.js). What a
-- static type already guarantees (a field is a string, an array, a boolean) is not tested again;
-- an absent array is the empty one, since validation refuses empty arrays in a rule.
use ruleoak.Common.{
  ℕ, Bool, true, false, not, ◌&&◌, ◌||◌, Option, none, some, List, [], ◌∷◌, is_empty, all, any,
  ◌==◌,
}
use ruleoak.Common.Int.{ℤ}
use ruleoak.Common.Texts.{Text, text, same}

-- DECISIONS, as a policy writes them.
pub data Effect : Type 0 where
  allow deny block needs_approval dry_run_only : Effect

-- CANONICAL_DECISIONS
pub data Decision : Type 0 where
  allow deny needs_approval dry_run_only : Decision

-- normalizeDecisionAction
unfoldable pub normalize_decision : Effect → Decision
normalize_decision Effect.allow = Decision.allow
normalize_decision Effect.deny = Decision.deny
normalize_decision Effect.block = Decision.deny
normalize_decision Effect.needs_approval = Decision.needs_approval
normalize_decision Effect.dry_run_only = Decision.dry_run_only

-- RISK_LEVELS, with RISK_RANK
pub data Risk : Type 0 where
  safe low medium high critical : Risk

unfoldable pub risk_rank : Risk → ℕ
risk_rank safe = 0
risk_rank low = 1
risk_rank medium = 2
risk_rank high = 3
risk_rank critical = 4

pub data Status : Type 0 where
  enabled disabled : Status

pub record Conditions : Type 0 where
  pub categories : List Text
  pub operations : List Text
  pub sensitivities : List Text
  pub data_flows : List Text
  pub side_effects : List Text
  pub actor_types : List Text
  pub actor_names : List Text
  pub session_ids : List Text
  pub scopes : List Text
  pub agent_ids : List Text
  pub principal_ids : List Text
  pub grant_ids : List Text
  pub intent_ids : List Text
  pub task_ids : List Text
  -- The number of arrays that are not empty under other keys, which only the specificity counts.
  pub others : ℕ

pub record Rule : Type 0 where
  pub id : Text
  pub effect : Effect
  pub actions : List Text
  pub resources : List Text
  pub priority : Option ℤ
  pub disabled : Bool
  pub status : Option Status
  pub allow_critical : Bool
  pub risk_at_least : Option Risk
  pub risk_at_most : Option Risk
  pub conditions : Conditions

pub record ExactRule : Type 0 where
  pub id : Option Text
  pub decision_key : Text
  pub effect : Effect
  pub disabled : Bool
  pub status : Option Status
  pub allow_critical : Bool

pub record Policy : Type 0 where
  pub policy_version : Option ℕ
  pub default_action : Option Effect
  pub allowed_actions : List Text
  pub approval_required : List Text
  pub blocked_actions : List Text
  pub exact_action_rules : List ExactRule
  -- `none` where the policy has no `rules` array.
  pub rules : Option (List Rule)

pub record Metadata : Type 0 where
  pub approval_key : Option Text
  pub decision_key : Option Text
  pub category : Option Text
  pub operation : Option Text
  pub sensitivity : Option Text
  pub data_flow : Option Text
  pub side_effect : Option Text
  pub actor_type : Option Text
  pub actor : Option Text
  pub session_id : Option Text
  pub scope : Option Text
  pub agent_id : Option Text
  pub principal_ids : Option (List Text)
  pub authority_grant_id : Option Text
  pub intent_id : Option Text
  pub task_id : Option Text
  pub risk : Option Risk

pub record Action : Type 0 where
  pub type : Option Text
  pub action : Option Text
  pub target : Option Text
  pub metadata : Metadata

-- A string that is there and not empty.
abbrev pub is_present : Option Text → Bool
is_present none = false
is_present (some s) = not (is_empty s)

unfoldable pub valid_action : Action → Bool
valid_action a = is_present a.type || is_present a.action

abbrev pub non_empty : Text → Bool
non_empty s = not (is_empty s)

abbrev pub member : List Text → Text → Bool
member values candidate = any (λ v. same v candidate) values

abbrev tool_categories : List Text
tool_categories =
    text "file"
    ∷ text "filesystem"
    ∷ text "shell"
    ∷ text "email"
    ∷ text "web"
    ∷ text "memory"
    ∷ text "payment"
    ∷ text "calendar"
    ∷ text "custom"
    ∷ []

abbrev tool_operations : List Text
tool_operations =
    text "read"
    ∷ text "write"
    ∷ text "delete"
    ∷ text "send"
    ∷ text "execute"
    ∷ text "search"
    ∷ text "create"
    ∷ text "update"
    ∷ text "run"
    ∷ []

abbrev sensitivity_levels : List Text
sensitivity_levels =
    text "public" ∷ text "internal" ∷ text "private" ∷ text "secret" ∷ text "unknown" ∷ []

abbrev all_data_flows : List Text
all_data_flows = text "local" ∷ text "external" ∷ text "unknown" ∷ []

abbrev all_side_effects : List Text
all_side_effects = text "read_only" ∷ text "mutating" ∷ text "destructive" ∷ text "unknown" ∷ []

abbrev all_actor_types : List Text
all_actor_types = text "agent" ∷ text "user" ∷ text "script" ∷ text "service" ∷ []

-- An enumerated condition: non-empty strings, each of them allowed.
abbrev enumerated : List Text → List Text → Bool
enumerated allowed values = all non_empty values && all (member allowed) values

valid_conditions : Conditions → Bool
valid_conditions c =
    enumerated tool_categories c.categories
    && enumerated tool_operations c.operations
    && enumerated sensitivity_levels c.sensitivities
    && enumerated all_data_flows c.data_flows
    && enumerated all_side_effects c.side_effects
    && enumerated all_actor_types c.actor_types
    && all non_empty c.scopes
    && all non_empty c.actor_names
    && all non_empty c.session_ids
    && all non_empty c.agent_ids
    && all non_empty c.principal_ids
    && all non_empty c.grant_ids
    && all non_empty c.intent_ids
    && all non_empty c.task_ids

-- validateStructuredRules, for one rule
unfoldable pub valid_rule : Rule → Bool
unfolding valid_conditions
valid_rule r =
    non_empty r.id
    && all non_empty r.actions
    && all non_empty r.resources
    && valid_conditions r.conditions

abbrev exact_effect : Effect → Bool
exact_effect Effect.dry_run_only = false
exact_effect _ = true

-- validateExactActionRules, for one rule
unfoldable pub valid_exact_rule : ExactRule → Bool
valid_exact_rule r = non_empty r.decision_key && exact_effect r.effect

abbrev pub known_version : Option ℕ → Bool
known_version none = true
known_version (some v) = v == 1 || v == 2

abbrev pub all_rules : Option (List Rule) → List Rule
all_rules none = []
all_rules (some rs) = rs

unfoldable pub valid_policy : Policy → Bool
unfolding valid_rule valid_exact_rule
valid_policy p =
    known_version p.policy_version
    && all non_empty p.allowed_actions
    && all non_empty p.approval_required
    && all non_empty p.blocked_actions
    && all valid_exact_rule p.exact_action_rules
    && all valid_rule (all_rules p.rules)
