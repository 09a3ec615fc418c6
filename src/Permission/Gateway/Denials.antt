-- ===== src/Permission/Gateway/Denials.antt =====
-- What denies a call: evaluatePermissionRequest of packages/core/src/permission/gateway.js.
use Prim.Native.Nat.{Ordering}
use ruleoak.Common.{
  Bool, true, false, ◌&&◌, ◌≡◌, ◌≢◌, refl, sym, ap, ◌∙◌, subst, ◌⊎◌, inl, inr, Option, none, some,
  arith, Bool-cases, ◌↔◌,
}
use ruleoak.Common.Texts.{Text}
use ruleoak.Engine.Policy.{Decision, Policy}
use ruleoak.Engine.Evaluate.{Verdict, Evaluation, decided, evaluate_policy}
use ruleoak.Permission.Call.{Call}
use ruleoak.Permission.Classifier.{is_read_only, Classification, classify_risk}
use ruleoak.Permission.Gateway.{
  Ruling, is_explicit_allow, is_critical, is_raised, SessionDecision, deny_session, SessionCache,
  apply_session_decision, adjust, after_policy, refused, rule_on, GrantInfo, action_of,
  evaluate_permission_request,
}
use ruleoak.Permission.Gateway.Guards.{rule_on-deny, rule_on-free}

-- Injected instructions in a flow that only reads.
abbrev pub is_probed : Classification → Bool
is_probed c = c.detected_prompt_injection && is_read_only c.side_effect

-- A critical call that no explicit rule with allowCritical allows, and that is not asked about.
abbrev pub Unvouched : Classification → Verdict → Type 0
Unvouched c v =
    (is_critical c.risk ≡ true)
    × (is_probed c ≡ false)
    × ((is_explicit_allow v && v.allow_critical) ≡ false)

-- The verdict of the policy comes to ask for approval.
abbrev pub Asks : Classification → Verdict → Type 0
Asks c v =
    (v.action ≡ Decision.needs_approval)
    ⊎ ((is_probed c ≡ true) × (v.action ≢ Decision.deny))
    ⊎ ((v.action ≡ Decision.allow) × (is_raised c.risk ≡ true) × (is_explicit_allow v ≡ false))

abbrev pub Denied : Classification → Option SessionDecision → Verdict → Type 0
Denied c cached v =
    (v.action ≡ Decision.deny)
    ⊎ Unvouched c v
    ⊎ ((is_critical c.risk ≡ false) × Asks c v × (cached ≡ some deny_session))

adjust-deny_iff :
    (c : Classification) (v : Verdict)
    → ((adjust c v).verdict.action ≡ Decision.deny) ↔ ((v.action ≡ Decision.deny) ⊎ Unvouched c v)
unfolding adjust
adjust-deny_iff c v = (λ h. ground arith, λ h. ground arith)

adjust-Asks_iff :
    (c : Classification) (v : Verdict)
    → is_critical c.risk ≡ false
    → ((adjust c v).verdict.action ≡ Decision.needs_approval) ↔ Asks c v
unfolding adjust
adjust-Asks_iff c v n = (λ h. ground arith, λ h. ground arith)

session-deny_iff :
    (r : Ruling) (cached : Option SessionDecision)
    → ((apply_session_decision r cached).verdict.action ≡ Decision.deny) ↔ (
        (r.verdict.action ≡ Decision.deny)
        ⊎ ((r.verdict.action ≡ Decision.needs_approval) × (cached ≡ some deny_session)))
unfolding apply_session_decision
session-deny_iff r none = (λ h. ground arith, λ h. ground arith)
session-deny_iff r (some c) = (λ h. ground arith, λ h. ground arith)

-- Equal rulings have equal decisions.
iff_along :
    {Q : Type 0} {a b : Ruling}
    → a ≡ b
    → (b.verdict.action ≡ Decision.deny) ↔ Q
    → (a.verdict.action ≡ Decision.deny) ↔ Q
iff_along {Q} e q = subst (λ (x : Ruling). (x.verdict.action ≡ Decision.deny) ↔ Q) (sym e) q

critical-deny_iff :
    (c : Classification) (cached : Option SessionDecision) (v : Verdict)
    → is_critical c.risk ≡ true
    → ((adjust c v).verdict.action ≡ Decision.deny) ↔ Denied c cached v
critical-deny_iff c cached v t =
    let a = adjust-deny_iff c v in
    (
      λ h. elim (a.0 h) [ inl d ↦ inl d | inr u ↦ inr (inl u) ],
      λ h. elim h [
        | inl d ↦ a.1 (inl d)
        | inr (inl u) ↦ a.1 (inr u)
        | inr (inr (n, _, _)) ↦ absurd (cc (t, n))
      ],
    )

other-deny_iff :
    (c : Classification) (cached : Option SessionDecision) (v : Verdict)
    → is_critical c.risk ≡ false
    → ((apply_session_decision (adjust c v) cached).verdict.action ≡ Decision.deny)
      ↔ Denied c cached v
other-deny_iff c cached v f =
    let a = adjust-deny_iff c v in
    let q = adjust-Asks_iff c v f in
    let s = session-deny_iff (adjust c v) cached in
    (
      λ h. elim (s.0 h) [
        | inl d ↦ elim (a.0 d) [ inl e ↦ inl e | inr u ↦ inr (inl u) ]
        | inr (n, e) ↦ inr (inr (f, q.0 n, e))
      ],
      λ h. elim h [
        | inl d ↦ s.1 (inl (a.1 (inl d)))
        | inr (inl u) ↦ s.1 (inl (a.1 (inr u)))
        | inr (inr (n, k, e)) ↦ s.1 (inr (q.1 k, e))
      ],
    )

after_policy-deny_iff :
    (c : Classification) (cached : Option SessionDecision) (v : Verdict)
    → ((after_policy c cached v).verdict.action ≡ Decision.deny) ↔ Denied c cached v
unfolding after_policy
after_policy-deny_iff c cached v = elim (Bool-cases (is_critical c.risk)) [
  | inl t ↦
      iff_along {a = after_policy c cached v} {b = adjust c v} (rw t refl)
        (critical-deny_iff c cached v t)
  | inr f ↦
      iff_along {a = after_policy c cached v} {b = apply_session_decision (adjust c v) cached}
        (rw f refl) (other-deny_iff c cached v f)
]

abbrev pub Guarded : Classification → Option Bool → Type 0
Guarded c authority =
    (refused authority ≡ true)
    ⊎ (c.secret_exfiltration_risk ≡ true)
    ⊎ (c.prompt_injection_side_effect_risk ≡ true)

guard_cases :
    (c : Classification) (authority : Option Bool)
    → Guarded c authority
      ⊎ ((refused authority ≡ false)
          × (c.secret_exfiltration_risk ≡ false)
          × (c.prompt_injection_side_effect_risk ≡ false))
guard_cases c authority = elim (Bool-cases (refused authority)) [
  | inl t ↦ inl (inl t)
  | inr f ↦ elim (Bool-cases c.secret_exfiltration_risk) [
    | inl t ↦ inl (inr (inl t))
    | inr g ↦ elim (Bool-cases c.prompt_injection_side_effect_risk) [
      | inl t ↦ inl (inr (inr t))
      | inr k ↦ inr (f, g, k)
    ]
  ]
]

rule_on-deny_iff :
    (c : Classification) (authority : Option Bool) (cached : Option SessionDecision)
    (e : Evaluation) (r : Ruling)
    → rule_on c authority cached e ≡ some r
    → (r.verdict.action ≡ Decision.deny)
      ↔ (Guarded c authority ⊎ ((v : Verdict) × (e ≡ decided v) × Denied c cached v))
rule_on-deny_iff c authority cached e r h = elim (guard_cases c authority) [
  | inl g ↦ (λ d. inl g, λ x. rule_on-deny c authority cached e r g h)
  | inr (a, s, i) ↦
      let f = rule_on-free c authority cached e r a s i h in
      let p = after_policy-deny_iff c cached f.0 in
      let same_action = ap (λ (x : Ruling). x.verdict.action) f.2 in
      (
        λ d. inr (f.0, f.1, p.0 (sym same_action ∙ d)),
        λ x. elim x [
          | inl g ↦ rule_on-deny c authority cached e r g h
          | inr (v, k, d) ↦
              let q : v ≡ f.0 = cc (k, f.1) in same_action ∙ p.1 (subst (Denied c cached) q d)
        ],
      )
]

-- A call is denied exactly when the authority check refused it, a secret may leave, an injected
-- instruction has a side effect, or the engine's verdict is deny, or lacks the explicit rule with
-- allowCritical that a critical call needs where it is not asked about, or comes to ask for an
-- approval that the session has denied to a call that is not critical.
pub deny_iff :
    (locale_compare : Text → Text → Ordering) (fingerprint : Call → Text) (call : Call) (p : Policy)
    (grant : Option GrantInfo) (authority : Option Bool) (sessions : SessionCache) (r : Ruling)
    → evaluate_permission_request locale_compare fingerprint call p grant authority sessions
      ≡ some r
    → (r.verdict.action ≡ Decision.deny) ↔ (
        Guarded (classify_risk call) authority
        ⊎ ((v : Verdict) × (evaluate_policy locale_compare (action_of fingerprint call grant) p
              ≡ decided v)
            × Denied (classify_risk call) (sessions (fingerprint call)) v))
unfolding evaluate_permission_request
deny_iff locale_compare fingerprint call p grant authority sessions r h =
    rule_on-deny_iff (classify_risk call) authority _ _ r h
