-- ===== src/Permission/Gateway.antt =====
-- applySessionDecision (packages/core/src/permission/approval.js) and evaluatePermissionRequest
-- (packages/core/src/permission/gateway.js). The fingerprint of a call, a SHA-256 of its canonical
-- form, is a parameter; the authority check enters as its result; the receipt, which is built from
-- the decision and does not change it, is left out.
pub mod Guards
pub mod Denials
use Prim.Native.Nat.{Ordering}
use ruleoak.Common.{
  Bool, true, false, not, ◌&&◌, ◌||◌, Option, none, some, List, [], ◌∷◌, if◌then◌else◌,
}
use ruleoak.Common.Texts.{Text, text, starts_with}
use ruleoak.Engine.Policy.{Decision, Risk, low, medium, high, critical, Policy, Metadata, Action}
use ruleoak.Engine.Evaluate.{
  Verdict, Evaluation, invalid_policy, decided, is_decision, evaluate_policy,
}
use ruleoak.Permission.Call.{Call, or_default}
use ruleoak.Permission.Classifier.{
  DataFlow, SideEffect, is_read_only, Classification, classify_risk,
}

pub data Source : Type 0 where
  authority_grant risk_guard policy : Source

-- A decision of the gateway: a verdict and the part of the gateway that made it.
pub record Ruling : Type 0 where
  pub verdict : Verdict
  pub source : Source

-- A verdict of the gateway's own, by one of its guards.
unfoldable pub guard_ruling : Decision → Text → Source → Ruling
guard_ruling d rule source = record {
  verdict = record {
    action = d;
    matched_pattern = none;
    matched_rule = rule;
    matched_rules = rule ∷ [];
    specificity = none;
    allow_critical = false;
  };
  source = source;
}

unfoldable pub is_explicit_allow : Verdict → Bool
is_explicit_allow v =
    is_decision v.action Decision.allow
    && (starts_with (text "exactActionRules:") v.matched_rule
        || starts_with (text "rules:") v.matched_rule)

abbrev pub is_critical : Risk → Bool
is_critical critical = true
is_critical _ = false

abbrev pub is_raised : Risk → Bool
is_raised medium = true
is_raised high = true
is_raised _ = false

-- The `decision` of a session cache entry.
pub data SessionDecision : Type 0 where
  allow_session deny_session other : SessionDecision

abbrev pub SessionCache : Type 0
SessionCache = Text → Option SessionDecision

abbrev pub with_cached : Option SessionDecision → Ruling → Ruling
with_cached (some allow_session) r = record r {
  verdict = record r.verdict {
    action = Decision.allow;
    matched_rule = text "approval-cache:allow_session";
  };
}
with_cached (some deny_session) r = record r {
  verdict = record r.verdict {
    action = Decision.deny;
    matched_rule = text "approval-cache:deny_session";
  };
}
with_cached _ r = r

-- applySessionDecision, with the entry that the cache has for the call's fingerprint.
unfoldable pub apply_session_decision : Ruling → Option SessionDecision → Ruling
apply_session_decision r cached =
    if is_decision r.verdict.action Decision.needs_approval then with_cached cached r else r

-- The adjustments of a policy verdict, up to the session cache.
unfoldable pub adjust : Classification → Verdict → Ruling
unfolding guard_ruling
adjust c v =
    let unchanged : Ruling = record { verdict = v; source = policy } in
    if c.detected_prompt_injection
      && is_read_only c.side_effect
      && not (is_decision v.action Decision.deny)
    then guard_ruling Decision.needs_approval (text "prompt-injection-read-guard") risk_guard
    else if is_critical c.risk
    then (if not (is_explicit_allow v && v.allow_critical)
          && not (is_decision v.action Decision.deny)
        then guard_ruling Decision.deny (text "critical-risk-default") risk_guard
        else unchanged)
    else if is_decision v.action Decision.allow && is_raised c.risk && not (is_explicit_allow v)
    then guard_ruling Decision.needs_approval (text "risk-upgrade") risk_guard
    else unchanged

unfoldable pub after_policy : Classification → Option SessionDecision → Verdict → Ruling
after_policy c cached v =
    if is_critical c.risk then adjust c v else apply_session_decision (adjust c v) cached

-- What authorizeWithAuthorityGrant or authorizeWithAuthorityEnvelope answered, if either was asked.
abbrev pub refused : Option Bool → Bool
refused (some false) = true
refused _ = false

-- The decision on a classified call; `none` where the policy is invalid and the engine throws.
unfoldable pub rule_on :
    Classification → Option Bool → Option SessionDecision → Evaluation → Option Ruling
unfolding guard_ruling
rule_on c authority cached evaluation =
    if refused authority
    then some (guard_ruling Decision.deny (text "authority-grant") authority_grant)
    else if c.secret_exfiltration_risk
    then some (guard_ruling Decision.deny (text "secret-exfiltration-guard") risk_guard)
    else if c.prompt_injection_side_effect_risk
    then some (guard_ruling Decision.deny (text "prompt-injection-side-effect-guard") risk_guard)
    else elim evaluation [ invalid_policy ↦ none | decided v ↦ some (after_policy c cached v) ]

abbrev flow_name : DataFlow → Text
flow_name DataFlow.local = text "local"
flow_name DataFlow.external = text "external"
flow_name DataFlow.unknown = text "unknown"

abbrev effect_name : SideEffect → Text
effect_name SideEffect.read_only = text "read_only"
effect_name SideEffect.mutating = text "mutating"
effect_name SideEffect.destructive = text "destructive"
effect_name SideEffect.unknown = text "unknown"

abbrev agent_of : Call → Text
agent_of call = elim call.actor.id [
  | some id ↦ or_default id call.actor.name
  | none ↦ call.actor.name
]

-- The grant's part of the action's metadata.
pub record GrantInfo : Type 0 where
  pub grant_id : Text
  pub principal_ids : List Text
  pub intent_id : Option Text
  pub task_id : Option Text

abbrev grant_id_of : Option GrantInfo → Option Text
grant_id_of none = none
grant_id_of (some g) = some g.grant_id

abbrev principals_of : Option GrantInfo → List Text
principals_of none = []
principals_of (some g) = g.principal_ids

abbrev or_call : Option Text → Option Text → Option Text
or_call none b = b
or_call (some a) b = some a

abbrev intent_of : Option GrantInfo → Option Text → Option Text
intent_of none b = b
intent_of (some g) b = or_call g.intent_id b

abbrev task_of : Option GrantInfo → Option Text → Option Text
task_of none b = b
task_of (some g) b = or_call g.task_id b

-- The action and the metadata that the engine sees.
unfoldable pub action_of : (fingerprint : Call → Text) → Call → Option GrantInfo → Action
action_of fingerprint call grant =
    let c = classify_risk call in
    record {
      type = some call.tool.name;
      action = none;
      target = some call.target.resource;
      metadata = record {
        approval_key = some (fingerprint call);
        decision_key = none;
        category = some call.tool.category;
        operation = some call.tool.operation;
        sensitivity = some call.target.sensitivity;
        data_flow = some (flow_name c.data_flow);
        side_effect = some (effect_name c.side_effect);
        actor_type = some call.actor.type;
        actor = some call.actor.name;
        session_id = some call.actor.session_id;
        scope = some call.target.scope;
        agent_id = some (agent_of call);
        principal_ids = some (principals_of grant);
        authority_grant_id = grant_id_of grant;
        intent_id = intent_of grant call.intent_id;
        task_id = task_of grant call.task_id;
        risk = some c.risk;
      };
    }

module _ (locale_compare : Text → Text → Ordering) (fingerprint : Call → Text) where
  unfoldable pub evaluate_permission_request :
      Call → Policy → Option GrantInfo → Option Bool → SessionCache → Option Ruling
  evaluate_permission_request call p grant authority sessions =
      rule_on (classify_risk call) authority (sessions (fingerprint call))
        (evaluate_policy locale_compare (action_of fingerprint call grant) p)
