-- ===== src/Permission/Classifier.antt =====
-- classifyDataFlow, classifySideEffect, maxRisk and classifyRisk of
-- packages/core/src/permission/classifier.js.
pub mod Critical
use ruleoak.Common.{
  ℕ, Bool, true, false, not, ◌&&◌, ◌||◌, List, [], ◌∷◌, ◌++◌, ltb, if◌then◌else◌, is_empty,
}
use ruleoak.Common.Texts.{Text, text, same}
use ruleoak.Engine.Policy.{Risk, safe, low, medium, high, critical, risk_rank}
use ruleoak.Permission.Call.{
  Call, or_default, one_of, split_category, split_operation, to_lower_case, contains_any,
}

-- DATA_FLOWS and SIDE_EFFECTS
pub data DataFlow : Type 0 where
  local external unknown : DataFlow

pub data SideEffect : Type 0 where
  read_only mutating destructive unknown : SideEffect

abbrev is_external : DataFlow → Bool
is_external DataFlow.external = true
is_external _ = false

abbrev is_unknown_flow : DataFlow → Bool
is_unknown_flow DataFlow.unknown = true
is_unknown_flow _ = false

abbrev pub is_read_only : SideEffect → Bool
is_read_only SideEffect.read_only = true
is_read_only _ = false

abbrev external_words : List Text
external_words =
    text "external"
    ∷ text "remote"
    ∷ text "network"
    ∷ text "internet"
    ∷ text "cloud"
    ∷ text "thirdparty"
    ∷ text "third-party"
    ∷ text "third_party"
    ∷ text "third party"
    ∷ []

abbrev local_words : List Text
local_words = text "local" ∷ text "workspace" ∷ text "device" ∷ text "host" ∷ text "process" ∷ []

abbrev external_categories : List Text
external_categories = text "email" ∷ text "web" ∷ text "payment" ∷ text "calendar" ∷ []

abbrev local_categories : List Text
local_categories = text "file" ∷ text "filesystem" ∷ text "shell" ∷ text "memory" ∷ []

unfoldable pub classify_data_flow : Call → DataFlow
classify_data_flow call =
    let category = or_default call.tool.category (text "custom") in
    let operation = or_default call.tool.operation (text "execute") in
    let scope = to_lower_case call.target.scope in
    if same operation (text "send")
      || one_of external_categories category
      || contains_any external_words scope
    then DataFlow.external
    else if one_of local_categories category || contains_any local_words scope
    then DataFlow.local
    else DataFlow.unknown

unfoldable pub classify_side_effect : Call → SideEffect
classify_side_effect call =
    let operation = or_default call.tool.operation (text "execute") in
    if one_of (text "read" ∷ text "search" ∷ text "list" ∷ text "get" ∷ []) operation
    then SideEffect.read_only
    else if one_of (text "delete" ∷ text "remove" ∷ text "destroy" ∷ []) operation
    then SideEffect.destructive
    else if one_of
        (text "write"
          ∷ text "update"
          ∷ text "create"
          ∷ text "send"
          ∷ text "execute"
          ∷ text "run"
          ∷ [])
        operation
    then SideEffect.mutating
    else SideEffect.unknown

-- RISK_RANK[level] > RISK_RANK[best] ? level : best
abbrev pub higher : Risk → Risk → Risk
higher best level = if ltb (risk_rank best) (risk_rank level) then level else best

max_from : Risk → List Risk → Risk
max_from best [] = best
max_from best (level ∷ levels) = max_from (higher best level) levels

unfoldable pub max_risk : List Risk → Risk
unfolding max_from
max_risk levels = max_from safe levels

pub data Reason : Type 0 where
  public_read guarded_read file_modification destructive_file : Reason
  external_communication command_execution payment_effect private_resource : Reason
  secret_crossing secret_local credential_leaving credential_local : Reason
  injection_with_effect injection_read_only unknown_direction unknown_action : Reason

-- The variables `risk` and `reasons` of classifyRisk.
pub record Assessment : Type 0 where
  pub risk : Risk
  pub reasons : List Reason

-- risk = maxRisk(risk, level); reasons.push(reason)
unfoldable pub raise : Risk → Reason → Assessment → Assessment
raise level reason a = record {
  risk = max_risk (a.risk ∷ level ∷ []);
  reasons = a.reasons ++ reason ∷ [];
}

abbrev pub raise_if : Bool → Risk → Reason → Assessment → Assessment
raise_if test level reason a = if test then raise level reason a else a

-- The strings that classifyRisk reads, with their defaults.
pub record Facts : Type 0 where
  pub category : Text
  pub operation : Text
  pub sensitivity : Text
  pub data_flow : DataFlow
  pub side_effect : SideEffect
  pub secrets : Bool
  pub injection : Bool

unfoldable pub facts_of : Call → Facts
facts_of call = record {
  category = or_default call.tool.category (split_category call.tool.name);
  operation = or_default call.tool.operation (split_operation call.tool.name);
  sensitivity = or_default call.target.sensitivity (text "unknown");
  data_flow = classify_data_flow call;
  side_effect = classify_side_effect call;
  secrets = call.detected_secrets;
  injection = call.detected_prompt_injection;
}

abbrev pub is_file : Facts → Bool
is_file f = same f.category (text "file") || same f.category (text "filesystem")

abbrev pub is_guarded : Facts → Bool
is_guarded f = same f.sensitivity (text "private") || same f.sensitivity (text "secret")

abbrev is_public : Facts → Bool
is_public f = same f.sensitivity (text "public")

abbrev pub is_external_flow : Facts → Bool
is_external_flow f = is_external f.data_flow

unfoldable pub assess_file : Facts → Assessment → Assessment
assess_file f a =
    if is_file f
    then (if same f.operation (text "read")
        then raise (if is_public f then safe else if is_guarded f then medium else low)
            (if is_public f then public_read else guarded_read) a
        else if one_of (text "write" ∷ text "update" ∷ text "create" ∷ []) f.operation
        then raise medium file_modification a
        else if same f.operation (text "delete")
        then raise (if is_guarded f then critical else high) destructive_file a
        else a)
    else a

unfoldable pub assess_communication : Facts → Assessment → Assessment
assess_communication f a =
    raise_if (same f.category (text "email") || same f.operation (text "send")) high
      external_communication a

unfoldable pub assess_command : Facts → Assessment → Assessment
assess_command f a =
    raise_if
      (same f.category (text "shell")
        || same f.operation (text "execute")
        || same f.operation (text "run"))
      high command_execution a

unfoldable pub assess_payment : Facts → Assessment → Assessment
assess_payment f a = raise_if (same f.category (text "payment")) critical payment_effect a

unfoldable pub assess_sensitivity : Facts → Assessment → Assessment
assess_sensitivity f a =
    raise_if (same f.sensitivity (text "secret")) (if is_external_flow f then critical else high)
      (if is_external_flow f then secret_crossing else secret_local)
      (raise_if (same f.sensitivity (text "private")) medium private_resource a)

abbrev pub secret_exfiltration : Facts → Bool
secret_exfiltration f = f.secrets && is_external_flow f

abbrev pub injection_side_effect : Facts → Bool
injection_side_effect f = f.injection && (not (is_read_only f.side_effect) || is_external_flow f)

unfoldable pub assess_secrets : Facts → Assessment → Assessment
assess_secrets f a =
    raise_if f.secrets (if secret_exfiltration f then critical else high)
      (if secret_exfiltration f then credential_leaving else credential_local) a

unfoldable pub assess_injection : Facts → Assessment → Assessment
assess_injection f a =
    raise_if f.injection (if injection_side_effect f then critical else high)
      (if injection_side_effect f then injection_with_effect else injection_read_only) a

unfoldable pub assess_direction : Facts → Assessment → Assessment
assess_direction f a =
    raise_if (is_unknown_flow f.data_flow && not (is_read_only f.side_effect)) medium
      unknown_direction a

unfoldable pub assess_unknown : Assessment → Assessment
assess_unknown a = raise_if (is_empty a.reasons) medium unknown_action a

abbrev pub nothing_yet : Assessment
nothing_yet = record { risk = safe; reasons = [] }

-- The rounds of classifyRisk, in order.
unfoldable pub assess : Facts → Assessment
assess f = assess_unknown (
    assess_direction f (
      assess_injection f (
        assess_secrets f (
          assess_sensitivity f (
            assess_payment f
              (assess_command f (assess_communication f (assess_file f nothing_yet))))))))

pub record Classification : Type 0 where
  pub risk : Risk
  pub reasons : List Reason
  pub detected_secrets : Bool
  pub detected_prompt_injection : Bool
  pub secret_exfiltration_risk : Bool
  pub prompt_injection_side_effect_risk : Bool
  pub data_flow : DataFlow
  pub side_effect : SideEffect

unfoldable pub classify_risk : Call → Classification
classify_risk call =
    let f = facts_of call in
    let a = assess f in
    record {
      risk = a.risk;
      reasons = a.reasons;
      detected_secrets = f.secrets;
      detected_prompt_injection = f.injection;
      secret_exfiltration_risk = secret_exfiltration f;
      prompt_injection_side_effect_risk = injection_side_effect f;
      data_flow = f.data_flow;
      side_effect = f.side_effect;
    }
