-- ===== src/Permission/Classifier/Critical.antt =====
-- The critical calls and the reasons: classifyRisk of packages/core/src/permission/classifier.js.
use ruleoak.Common.{
  Bool, true, false, ◌&&◌, ◌||◌, ◌≡◌, ◌↔◌, ◌∙◌, sym, subst, refl, In, head, tail, any-In, inl, inr,
  List, [], ◌∷◌, ◌++◌, if◌then◌else◌, is_empty, arith, Bool-cases,
}
use ruleoak.Common.Texts.{Text, text, same, same_iff}
use ruleoak.Engine.Policy.{Risk, safe, low, medium, high, critical, risk_rank}
use ruleoak.Permission.Call.{Call, one_of}
use ruleoak.Permission.Classifier.{
  public_read, guarded_read, file_modification, destructive_file, private_resource, secret_crossing,
  secret_local, unknown_action, max_risk, Reason, Assessment, raise, raise_if, Facts, facts_of,
  is_file, is_guarded, is_external_flow, assess_file, assess_communication, assess_command,
  assess_payment, assess_sensitivity, secret_exfiltration, injection_side_effect, assess_secrets,
  assess_injection, assess_direction, assess_unknown, nothing_yet, assess, classify_risk,
}

abbrev is_critical : Risk → Bool
is_critical critical = true
is_critical _ = false

is_critical-raise :
    (level : Risk) (reason : Reason) (a : Assessment)
    → is_critical (raise level reason a).risk ≡ (is_critical a.risk || is_critical level)
unfolding raise max_risk risk_rank
is_critical-raise safe reason a = ground arith
is_critical-raise low reason a = ground arith
is_critical-raise medium reason a = ground arith
is_critical-raise high reason a = ground arith
is_critical-raise critical reason a = ground arith

critical-raise_if :
    (t : Bool) (level : Risk) (reason : Reason) (a : Assessment)
    → is_critical (raise_if t level reason a).risk
      ≡ (is_critical a.risk || (t && is_critical level))
critical-raise_if true level reason a = is_critical-raise level reason a
critical-raise_if false level reason a = ground arith

abbrev writes : List Text
writes = text "write" ∷ text "update" ∷ text "create" ∷ []

-- An operation that is tested for something else is no deletion.
not_delete_read : (op : Text) → same op (text "read") ≡ true → same op (text "delete") ≡ false
unfolding same
not_delete_read op h =
    subst (λ t. same t (text "delete") ≡ false) (sym ((same_iff op (text "read")).0 h)) refl

not_delete_write : (op : Text) → one_of writes op ≡ true → same op (text "delete") ≡ false
unfolding same
not_delete_write op h =
    let m = any-In (λ v. same v op) writes h in listed m.0 m.1 ((same_iff m.0 op).0 m.2)
  where
    listed : (w : Text) → In w writes → w ≡ op → same op (text "delete") ≡ false
    listed w (head e) q = subst (λ t. same t (text "delete") ≡ false) (sym e ∙ q) refl
    listed w (tail (head e)) q = subst (λ t. same t (text "delete") ≡ false) (sym e ∙ q) refl
    listed w (tail (tail (head e))) q = subst (λ t. same t (text "delete") ≡ false) (sym e ∙ q) refl
    listed w (tail (tail (tail i))) q = elim i [ ]

-- The operations of the three branches on files, on any tests of the sensitivity.
file_branch :
    (op : Text) (r w d g p : Bool)
    → (r ≡ true → d ≡ false)
    → (w ≡ true → d ≡ false)
    → is_critical
        (if r
          then raise
              (if p then safe else if g then medium else low)
              (if p then public_read else guarded_read)
              nothing_yet
          else if w
          then raise medium file_modification nothing_yet
          else if d
          then raise (if g then critical else high) destructive_file nothing_yet
          else nothing_yet).risk
      ≡ (d && g)
unfolding raise max_risk risk_rank
file_branch op true w d true true h k = rw (h refl)
file_branch op true w d true false h k = rw (h refl)
file_branch op true w d false true h k = rw (h refl)
file_branch op true w d false false h k = rw (h refl)
file_branch op false true d g p h k = rw (k refl)
file_branch op false false true true p h k = refl
file_branch op false false true false p h k = refl
file_branch op false false false g p h k = refl

critical-assess_file :
    (f : Facts)
    → is_critical (assess_file f nothing_yet).risk
      ≡ (is_file f && same f.operation (text "delete") && is_guarded f)
unfolding assess_file
critical-assess_file f = elim (Bool-cases (is_file f)) [
  | inl t ↦ rw t (
      file_branch f.operation (same f.operation (text "read")) (one_of writes f.operation)
        (same f.operation (text "delete")) (is_guarded f) (same f.sensitivity (text "public"))
        (not_delete_read f.operation) (not_delete_write f.operation))
  | inr n ↦ rw n
]

-- The five causes of a critical risk.
abbrev pub critical_cause : Facts → Bool
critical_cause f =
    (is_file f && same f.operation (text "delete") && is_guarded f)
    || same f.category (text "payment")
    || (same f.sensitivity (text "secret") && is_external_flow f)
    || secret_exfiltration f
    || injection_side_effect f

or_skip : (a b c : Bool) → b ≡ false → (a || (c && b)) ≡ a
or_skip a b c h = ground arith

critical-raise_mild :
    (t : Bool) (level : Risk) (reason : Reason) (a : Assessment)
    → is_critical level ≡ false
    → is_critical (raise_if t level reason a).risk ≡ is_critical a.risk
critical-raise_mild t level reason a h =
    critical-raise_if t level reason a ∙ or_skip (is_critical a.risk) (is_critical level) t h

critical-choice : (t : Bool) → is_critical (if t then critical else high) ≡ t
critical-choice true = refl
critical-choice false = refl

module _ (f : Facts) (a : Assessment) where
  critical-communication : is_critical (assess_communication f a).risk ≡ is_critical a.risk
  unfolding assess_communication
  critical-communication = critical-raise_mild _ high _ a refl

  critical-command : is_critical (assess_command f a).risk ≡ is_critical a.risk
  unfolding assess_command
  critical-command = critical-raise_mild _ high _ a refl

  critical-direction : is_critical (assess_direction f a).risk ≡ is_critical a.risk
  unfolding assess_direction
  critical-direction = critical-raise_mild _ medium _ a refl

  critical-unknown : is_critical (assess_unknown a).risk ≡ is_critical a.risk
  unfolding assess_unknown
  critical-unknown = critical-raise_mild _ medium _ a refl

  critical-payment :
      is_critical (assess_payment f a).risk
      ≡ (is_critical a.risk || same f.category (text "payment"))
  unfolding assess_payment
  critical-payment = critical-raise_if _ critical _ a ∙ ground arith

  critical-sensitivity :
      is_critical (assess_sensitivity f a).risk
      ≡ (is_critical a.risk || (same f.sensitivity (text "secret") && is_external_flow f))
  unfolding assess_sensitivity
  critical-sensitivity =
      critical-raise_if (same f.sensitivity (text "secret"))
        (if is_external_flow f then critical else high)
        (if is_external_flow f then secret_crossing else secret_local)
        (raise_if (same f.sensitivity (text "private")) medium private_resource a)
      ∙ rw (
        critical-raise_mild (same f.sensitivity (text "private")) medium private_resource a refl,
        critical-choice (is_external_flow f),
      )

  critical-secrets :
      is_critical (assess_secrets f a).risk ≡ (is_critical a.risk || secret_exfiltration f)
  unfolding assess_secrets
  critical-secrets =
      critical-raise_if _ _ _ a ∙ rw (critical-choice (secret_exfiltration f)) (ground arith)

  critical-injection :
      is_critical (assess_injection f a).risk ≡ (is_critical a.risk || injection_side_effect f)
  unfolding assess_injection
  critical-injection =
      critical-raise_if _ _ _ a ∙ rw (critical-choice (injection_side_effect f)) (ground arith)

critical-assess : (f : Facts) → is_critical (assess f).risk ≡ critical_cause f
unfolding assess
critical-assess f =
    simp
      (
        critical-unknown, critical-direction, critical-injection, critical-secrets,
        critical-sensitivity, critical-payment, critical-command, critical-communication,
        critical-assess_file,
      )
      (ground arith)

is_critical_iff : (r : Risk) → (is_critical r ≡ true) ↔ (r ≡ critical)
is_critical_iff safe = ground arith
is_critical_iff _ = ground arith

-- A call is critical exactly if it deletes a private or secret file, is a payment, sends a secret
-- resource out, may leak a credential, or carries an injected instruction with a side effect or an
-- external flow.
pub classify_risk-eq-critical_iff :
    (call : Call) → ((classify_risk call).risk ≡ critical) ↔ (critical_cause (facts_of call) ≡ true)
unfolding classify_risk
classify_risk-eq-critical_iff call =
    let e = critical-assess (facts_of call) in
    let i = is_critical_iff (assess (facts_of call)).risk in (λ h. sym e ∙ i.1 h, λ h. i.0 (e ∙ h))

is_empty-concat : (rs : List Reason) (r : Reason) → is_empty (rs ++ r ∷ []) ≡ false
is_empty-concat [] r = refl
is_empty-concat (x ∷ rs) r = refl

assess_unknown-reasons : (a : Assessment) → is_empty (assess_unknown a).reasons ≡ false
unfolding assess_unknown raise
assess_unknown-reasons a = elim (Bool-cases (is_empty a.reasons)) [
  | inl t ↦ rw t (is_empty-concat a.reasons unknown_action)
  | inr f ↦ rw f f
]

-- Every classification gives a reason.
pub classify_risk-reasons : (call : Call) → is_empty (classify_risk call).reasons ≡ false
unfolding classify_risk assess
classify_risk-reasons call = assess_unknown-reasons _
