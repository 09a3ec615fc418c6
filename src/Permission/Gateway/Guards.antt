-- ===== src/Permission/Gateway/Guards.antt =====
-- The guards of evaluatePermissionRequest (packages/core/src/permission/gateway.js).
use Prim.Native.Nat.{Ordering}
use ruleoak.Common.{
  Bool, true, false, ◌≡◌, ◌≢◌, refl, sym, ap, ◌∙◌, ◌⊎◌, inl, inr, Option, none, some, arith,
  Bool-cases,
}
use ruleoak.Common.Texts.{Text}
use ruleoak.Engine.Policy.{Decision, Risk, safe, low, medium, high, critical, Policy}
use ruleoak.Engine.Evaluate.{
  Verdict, Evaluation, invalid_policy, decided, is_decision, evaluate_policy,
}
use ruleoak.Permission.Call.{Call}
use ruleoak.Permission.Classifier.{Classification, classify_risk}
use ruleoak.Permission.Gateway.{
  Ruling, is_explicit_allow, is_critical, is_raised, SessionDecision, allow_session, SessionCache,
  apply_session_decision, adjust, after_policy, refused, rule_on, GrantInfo, action_of,
  evaluate_permission_request,
}

-- The decision is deny if the authority check refused, or if a secret may leave, or if an injected
-- instruction has a side effect.
pub rule_on-deny :
    (c : Classification) (authority : Option Bool) (cached : Option SessionDecision)
    (e : Evaluation) (r : Ruling)
    → (refused authority ≡ true)
      ⊎ (c.secret_exfiltration_risk ≡ true)
      ⊎ (c.prompt_injection_side_effect_risk ≡ true)
    → rule_on c authority cached e ≡ some r
    → r.verdict.action ≡ Decision.deny
unfolding rule_on
rule_on-deny c authority cached e r cause h = ground arith

is_decision_iff : (d e : Decision) → is_decision d e ≡ true → d ≡ e
is_decision_iff Decision.allow Decision.allow h = refl
is_decision_iff Decision.deny Decision.deny h = refl
is_decision_iff Decision.needs_approval Decision.needs_approval h = refl
is_decision_iff Decision.dry_run_only Decision.dry_run_only h = refl
is_decision_iff Decision.allow Decision.deny h = cc
is_decision_iff _ _ h = cc

-- What a policy verdict needs to stand as an allow.
abbrev pub Stands : Classification → Verdict → Type 0
Stands c v =
    (v.action ≡ Decision.allow)
    × (is_critical c.risk ≡ true → (is_explicit_allow v ≡ true) × (v.allow_critical ≡ true))
    × (is_raised c.risk ≡ true → is_explicit_allow v ≡ true)

critical_not_raised : (r : Risk) → is_critical r ≡ true → is_raised r ≡ true → ⊥
critical_not_raised safe h k = cc
critical_not_raised low h k = cc
critical_not_raised medium h k = cc
critical_not_raised high h k = cc
critical_not_raised critical h k = cc

adjust-allow :
    (c : Classification) (v : Verdict) → (adjust c v).verdict.action ≡ Decision.allow → Stands c v
unfolding adjust
adjust-allow c v h =
    (ground arith, λ k. ground arith, λ k. ground (arith, critical_not_raised c.risk))

adjust-deny :
    (c : Classification) (v : Verdict)
    → v.action ≡ Decision.deny
    → (adjust c v).verdict.action ≡ Decision.deny
unfolding adjust
adjust-deny c v h = ground arith

-- The session cache changes a decision only from needs_approval.
session-allow :
    (r : Ruling) (cached : Option SessionDecision)
    → (apply_session_decision r cached).verdict.action ≡ Decision.allow
    → (r.verdict.action ≡ Decision.allow)
      ⊎ ((r.verdict.action ≡ Decision.needs_approval) × (cached ≡ some allow_session))
unfolding apply_session_decision
session-allow r none h = ground arith
session-allow r (some c) h = ground arith

session-deny :
    (r : Ruling) (cached : Option SessionDecision)
    → r.verdict.action ≡ Decision.deny
    → (apply_session_decision r cached).verdict.action ≡ Decision.deny
unfolding apply_session_decision
session-deny r cached h = ground arith

-- An allow after the policy: the policy's verdict stands, or a session approval answers a question
-- that the policy's verdict did not answer with deny.
abbrev pub Allowed : Classification → Option SessionDecision → Verdict → Type 0
Allowed c cached v =
    Stands c v
    ⊎ ((cached ≡ some allow_session) × (is_critical c.risk ≡ false) × (v.action ≢ Decision.deny))

after_policy-allow :
    (c : Classification) (cached : Option SessionDecision) (v : Verdict)
    → (after_policy c cached v).verdict.action ≡ Decision.allow
    → Allowed c cached v
unfolding after_policy
after_policy-allow c cached v h = elim (Bool-cases (is_critical c.risk)) [
  | inl t ↦ inl (adjust-allow c v (rw t at h))
  | inr f ↦ elim (session-allow (adjust c v) cached (rw f at h)) [
    | inl k ↦ inl (adjust-allow c v k)
    | inr (k, e) ↦ inr (e, f, λ d. let q = adjust-deny c v d in cc)
  ]
]

pub after_policy-deny :
    (c : Classification) (cached : Option SessionDecision) (v : Verdict)
    → v.action ≡ Decision.deny
    → (after_policy c cached v).verdict.action ≡ Decision.deny
unfolding after_policy
after_policy-deny c cached v h = elim (Bool-cases (is_critical c.risk)) [
  | inl t ↦ rw t (adjust-deny c v h)
  | inr f ↦ rw f (session-deny (adjust c v) cached (adjust-deny c v h))
]

-- Past the guards the engine's verdict is adjusted.
pub rule_on-free :
    (c : Classification) (authority : Option Bool) (cached : Option SessionDecision)
    (e : Evaluation) (r : Ruling)
    → refused authority ≡ false
    → c.secret_exfiltration_risk ≡ false
    → c.prompt_injection_side_effect_risk ≡ false
    → rule_on c authority cached e ≡ some r
    → (v : Verdict) × (e ≡ decided v) × (r ≡ after_policy c cached v)
unfolding rule_on
rule_on-free c authority cached invalid_policy r a s i h =
    let q = rw (a, s, i) at h in absurd (cc q)
rule_on-free c authority cached (decided v) r a s i h = let q = rw (a, s, i) at h in (v, refl, cc q)

rule_on-engine_deny :
    (c : Classification) (authority : Option Bool) (cached : Option SessionDecision) (v : Verdict)
    (r : Ruling)
    → v.action ≡ Decision.deny
    → rule_on c authority cached (decided v) ≡ some r
    → r.verdict.action ≡ Decision.deny
unfolding rule_on
rule_on-engine_deny c authority cached v r d h = ground (arith, after_policy-deny c cached v d)

-- An allow passes the three guards and then rests on the verdict of the engine.
rule_on-allow :
    (c : Classification) (authority : Option Bool) (cached : Option SessionDecision)
    (e : Evaluation) (r : Ruling)
    → rule_on c authority cached e ≡ some r
    → r.verdict.action ≡ Decision.allow
    → (refused authority ≡ false)
      × (c.secret_exfiltration_risk ≡ false)
      × (c.prompt_injection_side_effect_risk ≡ false)
      × ((v : Verdict) × (e ≡ decided v) × Allowed c cached v)
rule_on-allow c authority cached e r h k =
    let ga = not_true (λ t. clash (rule_on-deny c authority cached e r (inl t) h)) in
    let gs = not_true (λ t. clash (rule_on-deny c authority cached e r (inr (inl t)) h)) in
    let gi = not_true (λ t. clash (rule_on-deny c authority cached e r (inr (inr t)) h)) in
    let f = rule_on-free c authority cached e r ga gs gi h in
    (
      ga,
      gs,
      gi,
      (
        f.0,
        f.1,
        after_policy-allow c cached f.0 (ap (λ (x : Ruling). x.verdict.action) (sym f.2) ∙ k),
      ),
    )
  where
    clash : r.verdict.action ≡ Decision.deny → ⊥
    clash d = absurd (cc (d, k))

    not_true : {b : Bool} → (b ≡ true → ⊥) → b ≡ false
    not_true {b = true} n = absurd (n refl)
    not_true {b = false} n = refl

module _ (locale_compare : Text → Text → Ordering) (fingerprint : Call → Text) (call : Call)
    (p : Policy) (grant : Option GrantInfo) (authority : Option Bool) (sessions : SessionCache)
    (r : Ruling)
    (answer : evaluate_permission_request locale_compare fingerprint call p grant authority sessions
      ≡ some r) where
  abbrev verdict_of : Evaluation
  verdict_of = evaluate_policy locale_compare (action_of fingerprint call grant) p

  -- A refused authority, a secret that may leave, or an injected instruction with a side effect is
  -- denied, whatever the policy and the session cache say.
  pub guards_deny :
      (refused authority ≡ true)
        ⊎ ((classify_risk call).secret_exfiltration_risk ≡ true)
        ⊎ ((classify_risk call).prompt_injection_side_effect_risk ≡ true)
      → r.verdict.action ≡ Decision.deny
  unfolding evaluate_permission_request
  guards_deny cause = rule_on-deny (classify_risk call) authority _ _ r cause answer

  -- A deny of the policy engine is final.
  pub engine_deny_final :
      (v : Verdict)
      → verdict_of ≡ decided v
      → v.action ≡ Decision.deny
      → r.verdict.action ≡ Decision.deny
  unfolding evaluate_permission_request
  engine_deny_final v e h =
      rule_on-engine_deny (classify_risk call) authority (sessions (fingerprint call)) v r h
        (rw e at answer)

  -- An allow has passed the guards, and either the engine allows the action, explicitly where the
  -- risk is medium or high and with allowCritical where it is critical, or the session has approved
  -- a call that is not critical and that the engine does not deny.
  pub allow_requires :
      r.verdict.action ≡ Decision.allow
      → (refused authority ≡ false)
        × ((classify_risk call).secret_exfiltration_risk ≡ false)
        × ((classify_risk call).prompt_injection_side_effect_risk ≡ false)
        × ((v : Verdict) × (verdict_of ≡ decided v)
            × Allowed (classify_risk call) (sessions (fingerprint call)) v)
  unfolding evaluate_permission_request
  allow_requires k = rule_on-allow (classify_risk call) authority _ _ r answer k
