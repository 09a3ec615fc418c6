-- ===== src/Evidence/Event.antt =====
-- Evidence events and the decision receipts in them: validateDecisionReceipt and
-- validateEvidenceEvent of packages/protocol/src/index.js. What a static type guarantees is not
-- tested again. A text that is empty stands for one that is absent.
use ruleoak.Common.{
  ℕ, Bool, true, false, not, ◌&&◌, Option, none, some, [], ◌∷◌, all, is_empty, ltb,
}
use ruleoak.Common.Texts.{Text}
use ruleoak.Engine.Policy.{Effect, Risk, Action, valid_action}
use ruleoak.Execution.Receipt.{EffectReceipt}

pub data Version : Type 0 where
  v1_0 v1_1 v1_2 unsupported : Version

pub record DecisionReceipt : Type 0 where
  pub version : Version
  pub decision_id : Text
  pub evaluated_at : Text
  pub expires_at : Text
  pub action_digest : Text
  pub policy_digest : Text
  pub decision : Option Effect
  pub risk : Option Risk
  pub nonce : Text
  pub issuer : Text
  pub audience : Text
  pub not_before : Text
  pub one_time : Bool
  pub approval_id : Text
  pub approval_result_id : Text
  pub approval_request_decision_id : Text
  pub approval_provider_id : Text

abbrev pub present : Text → Bool
present s = not (is_empty s)

abbrev pub is_there {ℓ} : {A : Type ℓ} → Option A → Bool
is_there none = false
is_there (some a) = true

-- The fields that every version requires.
abbrev pub has_common : DecisionReceipt → Bool
has_common r =
    all present
      (r.decision_id ∷ r.evaluated_at ∷ r.expires_at ∷ r.action_digest ∷ r.policy_digest ∷ [])
    && is_there r.decision
    && is_there r.risk

abbrev pub has_binding : DecisionReceipt → Bool
has_binding r = all present (r.nonce ∷ r.issuer ∷ r.audience ∷ r.not_before ∷ []) && r.one_time

abbrev pub has_approval : DecisionReceipt → Bool
has_approval r = all present (
    r.approval_id ∷ r.approval_result_id ∷ r.approval_request_decision_id ∷ r.approval_provider_id
    ∷ [])

abbrev pub has_versioned : Version → DecisionReceipt → Bool
has_versioned v1_0 r = true
has_versioned v1_1 r = has_binding r
has_versioned v1_2 r = has_binding r && has_approval r
has_versioned unsupported r = false

-- validateDecisionReceipt
unfoldable pub valid_decision_receipt : DecisionReceipt → Bool
valid_decision_receipt r = has_common r && has_versioned r.version r

-- A decision as it is recorded.
pub record Recorded : Type 0 where
  pub action : Effect
  pub receipt : Option DecisionReceipt

-- An event without its hash.
pub record Content : Type 0 where
  pub event_id : Text
  pub index : ℕ
  pub timestamp : Text
  pub action : Action
  pub decision : Recorded
  pub previous_hash : Text
  pub decision_id : Text
  pub action_digest : Text
  pub policy_digest : Text
  pub event_type : Text
  pub effect_receipt : Option EffectReceipt
  pub ledger_payload : Option Text

pub record Event : Type 0 where
  pub content : Content
  pub hash : Text

abbrev pub valid_if {ℓ} : {A : Type ℓ} → (A → Bool) → Option A → Bool
valid_if valid none = true
valid_if valid (some a) = valid a

-- validateEvidenceEvent, with the validator of effect receipts.
unfoldable pub valid_evidence_event : (EffectReceipt → Bool) → Content → Bool
valid_evidence_event valid_receipt c =
    ltb 0 c.index
    && valid_action c.action
    && valid_if valid_decision_receipt c.decision.receipt
    && valid_if valid_receipt c.effect_receipt
