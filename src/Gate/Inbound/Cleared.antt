-- ===== src/Gate/Inbound/Cleared.antt =====
-- When an item may pass the gate: #evaluateJsonRpcItem of packages/cli/src/stream-gate.js.
use Prim.Native.Nat.{Ordering}
use ruleoak.Common.{
  Bool, true, false, ◌≡◌, ◌≢◌, refl, ◌⊎◌, inl, inr, Option, none, some, arith, Bool-cases,
}
use ruleoak.Common.Texts.{Text}
use ruleoak.Engine.Policy.{Decision, Policy}
use ruleoak.Permission.Call.{Call}
use ruleoak.Permission.Normalizer.{call_of_envelope, normalize_tool_call}
use ruleoak.Permission.Classifier.{classify_risk}
use ruleoak.Permission.Gateway.{Ruling}
use ruleoak.Permission.Gateway.Guards.{rule_on-deny, guards_deny}
use ruleoak.Gate.Json.{Json, is_route_probe, is_tool_call}
use ruleoak.Gate.Action.{Script, has_text_resource, action_from_tool_call}
use ruleoak.Gate.Inbound.{
  ApprovalDecision, allowing, Answers, forward, resolve, objects, settle, settle_ruling, no_options,
  rule_on_tool_call, evaluate_item,
}

-- What a ruling and the answers need for a tool call to pass.
pub record Cleared (a : Answers) (r : Ruling) : Type 0 where
  pub ruled :
      (r.verdict.action ≡ Decision.allow)
      ⊎ ((r.verdict.action ≡ Decision.needs_approval) × (a.approval ≡ some allowing))
  pub receipt : a.consumption ≢ some false
  pub effect : a.pre_forward ≢ some false

resolve-allow :
    (o : Option ApprovalDecision) (d : Decision)
    → resolve o d ≡ Decision.allow
    → (d ≡ Decision.allow) ⊎ ((d ≡ Decision.needs_approval) × (o ≡ some allowing))
unfolding resolve
resolve-allow o d h = ground arith

objects-false : (o : Option Bool) → objects o ≡ false → o ≢ some false
objects-false o h e = ground arith

settle-forward :
    (value : Json) (a : Answers) (d : Decision)
    → settle value a d ≡ forward
    → (d ≡ Decision.allow) × (objects a.consumption ≡ false) × (objects a.pre_forward ≡ false)
unfolding settle
settle-forward value a Decision.allow h = ground arith
settle-forward value a Decision.deny h = absurd (cc h)
settle-forward value a _ h = absurd (cc h)

ruling-forward :
    (value : Json) (a : Answers) (o : Option Ruling)
    → settle_ruling value a o ≡ forward
    → (r : Ruling) × (o ≡ some r) × Cleared a r
ruling-forward value a none h = absurd (cc h)
ruling-forward value a (some r) h =
    let s = settle-forward value a _ h in
    (
      r,
      refl,
      record {
        ruled = resolve-allow a.approval _ s.0;
        receipt = objects-false _ s.1;
        effect = objects-false _ s.2;
      },
    )

module _ (locale_compare : Text → Text → Ordering) (fingerprint : Call → Text) (js : Script)
    (parse : Text → Option Json) (policy : Policy) (answers : Json → Answers) where
  abbrev pub ruling : Json → Option Ruling
  ruling = rule_on_tool_call locale_compare fingerprint js parse policy answers

  -- An item is no probe, and is no tool call or one that is cleared.
  abbrev pub MayPass : Json → Type 0
  MayPass value =
      (is_route_probe value ≡ false)
      × ((is_tool_call value ≡ false)
          ⊎ ((r : Ruling) × (ruling value ≡ some r) × Cleared (answers value) r))

  pub item-MayPass :
      (value : Json)
      → evaluate_item locale_compare fingerprint js parse policy answers value ≡ forward
      → MayPass value
  unfolding evaluate_item
  item-MayPass value h = elim (Bool-cases (is_route_probe value)) [
    | inl t ↦ absurd (cc (rw t at h))
    | inr f ↦ elim (Bool-cases (is_tool_call value)) [
      | inr n ↦ (f, inl n)
      | inl t ↦ (f, inr (ruling-forward value (answers value) _ (rw (f, t) at h)))
    ]
  ]

  abbrev pub call_of : Json → Call
  call_of value = call_of_envelope (action_from_tool_call js value) no_options

  ruling-deny :
      (value : Json) (r : Ruling)
      → ruling value ≡ some r
      → ((classify_risk (call_of value)).secret_exfiltration_risk ≡ true)
        ⊎ ((classify_risk (call_of value)).prompt_injection_side_effect_risk ≡ true)
      → r.verdict.action ≡ Decision.deny
  unfolding rule_on_tool_call normalize_tool_call action_from_tool_call
  ruling-deny value r e cause = elim (Bool-cases (has_text_resource js value)) [
    | inl t ↦
        guards_deny locale_compare fingerprint (call_of value) policy none none
          (answers value).sessions r (rw t at e) (inr cause)
    | inr f ↦ rule_on-deny (classify_risk (call_of value)) none _ _ r (inr cause) (rw f at e)
  ]

  -- A tool call by which a credential may leave, or an injected instruction has a side effect or an
  -- external flow, is not forwarded, whatever the policy, the approval handler and the session say.
  pub guards_withhold :
      (value : Json)
      → is_tool_call value ≡ true
      → ((classify_risk (call_of value)).secret_exfiltration_risk ≡ true)
        ⊎ ((classify_risk (call_of value)).prompt_injection_side_effect_risk ≡ true)
      → evaluate_item locale_compare fingerprint js parse policy answers value ≢ forward
  guards_withhold value t cause h = elim ((item-MayPass value h).1) [
    | inl n ↦ absurd (cc (t, n))
    | inr (r, e, c) ↦
        let d = ruling-deny value r e cause in
        elim (c.ruled) [ inl q ↦ absurd (cc (d, q)) | inr q ↦ absurd (cc (d, q.0)) ]
  ]
