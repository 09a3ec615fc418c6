-- ===== src/Engine/Migration.antt =====
-- Migration of a policy to version 2: packages/core/src/migration/policy.js. The text of a number is
-- a parameter. Descriptions of rules and the record of the migration are left out.
pub mod Origins
pub mod Strictness
pub mod Decisions
use ruleoak.Common.{
  ℕ, zero, suc, ◌+◌, Bool, true, false, not, ◌&&◌, ◌||◌, Option, none, some, List, [], ◌∷◌, ◌++◌,
  ◌==◌, leb, if◌then◌else◌, is_empty, length, select,
}
use ruleoak.Common.Int.{pos}
use ruleoak.Common.Results.{Result, ok, err}
use ruleoak.Common.Texts.{Text, text, take}
use ruleoak.Permission.Call.{or_default, to_lower_case}
use ruleoak.Engine.Policy.{
  Effect, Decision, normalize_decision, Rule, Conditions, Policy, member, valid_policy,
}

abbrev pub is_slug_unit : ℕ → Bool
is_slug_unit c = (leb b'a' c && leb c b'z') || (leb b'0' c && leb c b'9')

-- replace(/[^a-z0-9]+/g, '-'); the flag says whether the unit before was replaced.
unfoldable pub dashed : Bool → Text → Text
dashed in_run [] = []
dashed in_run (c ∷ s) =
    let kept = dashed false s in
    let dropped = dashed true s in
    if is_slug_unit c then c ∷ kept else if in_run then dropped else b'-' ∷ dropped

-- replace(/^-|-$/g, '')
abbrev pub without_first_dash : Text → Text
without_first_dash [] = []
without_first_dash (c ∷ s) = if c == b'-' then s else c ∷ s

unfoldable pub without_last_dash : Text → Text
without_last_dash [] = []
without_last_dash (c ∷ s) =
    let rest = without_last_dash s in if is_empty s && (c == b'-') then [] else c ∷ rest

unfoldable pub slug : Text → Text
slug value =
    or_default
      (take 64 (
        without_last_dash
          (without_first_dash (dashed false (to_lower_case (or_default value (text "rule")))))))
      (text "rule")

-- detectPolicyVersion
abbrev pub is_two : Option ℕ → Bool
is_two none = false
is_two (some v) = v == 2

unfoldable pub detect_policy_version : Policy → ℕ
detect_policy_version p = elim p.rules [
  | some rules ↦ 2
  | none ↦ if is_two p.policy_version then 2 else 1
]

-- array
unfoldable pub filled : List Text → List Text
filled values = select (λ v. not (is_empty v)) values

abbrev pub no_conditions : Conditions
no_conditions = record {
  categories = [];
  operations = [];
  sensitivities = [];
  data_flows = [];
  side_effects = [];
  actor_types = [];
  actor_names = [];
  session_ids = [];
  scopes = [];
  agent_ids = [];
  principal_ids = [];
  grant_ids = [];
  intent_ids = [];
  task_ids = [];
  others = 0;
}

abbrev pub migrated_rule : Text → Effect → ℕ → Text → Rule
migrated_rule id effect priority pattern = record {
  id = id;
  effect = effect;
  actions = pattern ∷ [];
  resources = [];
  priority = some (pos priority);
  disabled = false;
  status = none;
  allow_critical = false;
  risk_at_least = none;
  risk_at_most = none;
  conditions = no_conditions;
}

pub data Warning : Type 0 where
  wildcard_migrated default_allow_preserved : Warning

pub record Migration : Type 0 where
  pub changed : Bool
  pub from_version : ℕ
  pub policy : Policy
  pub warnings : List Warning
  pub rules_created : ℕ
  pub deny_rules : ℕ
  pub approval_rules : ℕ
  pub allow_rules : ℕ

pub data MigrationError : Type 0 where
  cannot_migrate_invalid migrated_is_invalid : MigrationError

abbrev pub or_approval : Option Effect → Effect
or_approval none = Effect.needs_approval
or_approval (some e) = e

-- A canonical decision, as a policy writes it.
abbrev pub as_effect : Decision → Effect
as_effect Decision.allow = Effect.allow
as_effect Decision.deny = Effect.deny
as_effect Decision.needs_approval = Effect.needs_approval
as_effect Decision.dry_run_only = Effect.dry_run_only

unfoldable pub migrated_default : Policy → Effect
migrated_default p = as_effect (normalize_decision (or_approval p.default_action))

abbrev pub is_allow : Effect → Bool
is_allow Effect.allow = true
is_allow _ = false

abbrev pub warn_if : Bool → Warning → List Warning
warn_if true w = w ∷ []
warn_if false w = []

module _ (show : ℕ → Text) (prefix : Text) where
  -- One of the three loops, from an index on.
  unfoldable pub rules_from : Text → Effect → ℕ → ℕ → List Text → List Rule
  rules_from word effect priority index [] = []
  rules_from word effect priority index (q ∷ qs) =
      migrated_rule (prefix ++ word ++ show (index + 1) ++ text "-" ++ slug q) effect priority q
      ∷ rules_from word effect priority (index + 1) qs

  abbrev pub denying : Policy → List Rule
  denying p = rules_from (text "-deny-") Effect.deny 300 0 (filled p.blocked_actions)

  abbrev pub approving : Policy → List Rule
  approving p =
      rules_from (text "-approve-") Effect.needs_approval 200 0 (filled p.approval_required)

  abbrev pub allowing : Policy → List Rule
  allowing p = rules_from (text "-allow-") Effect.allow 100 0 (filled p.allowed_actions)

  unfoldable pub migrated_rules : Policy → List Rule
  migrated_rules p = denying p ++ (approving p ++ allowing p)

  unfoldable pub migrated_policy : Policy → Policy
  migrated_policy p = record {
    policy_version = some 2;
    default_action = some (migrated_default p);
    allowed_actions = [];
    approval_required = [];
    blocked_actions = [];
    exact_action_rules = p.exact_action_rules;
    rules = some (migrated_rules p);
  }

  unfoldable pub migration_of : Policy → Migration
  migration_of p = record {
    changed = true;
    from_version = 1;
    policy = migrated_policy p;
    warnings =
        warn_if
          (member
            (filled p.blocked_actions ++ filled p.approval_required ++ filled p.allowed_actions)
            (text "*"))
          wildcard_migrated
        ++ warn_if (is_allow (migrated_default p)) default_allow_preserved;
    rules_created = length (migrated_rules p);
    deny_rules = length (filled p.blocked_actions);
    approval_rules = length (filled p.approval_required);
    allow_rules = length (filled p.allowed_actions);
  }

  abbrev pub unchanged : Policy → Migration
  unchanged p = record {
    changed = false;
    from_version = 2;
    policy = p;
    warnings = [];
    rules_created = 0;
    deny_rules = 0;
    approval_rules = 0;
    allow_rules = 0;
  }

  -- migratePolicyToV2
  unfoldable pub migrate_policy_to_v2 : Policy → Result MigrationError Migration
  migrate_policy_to_v2 p =
      if not (valid_policy p)
      then err cannot_migrate_invalid
      else if detect_policy_version p == 2
      then ok (unchanged p)
      else if not (valid_policy (migrated_policy p))
      then err migrated_is_invalid
      else ok (migration_of p)
