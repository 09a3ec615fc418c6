-- ===== src/Execution/Verification/Retry.antt =====
-- When a retry is safe: decideEffectRetry, buildEffectVerificationRecord and the verifiers of
-- packages/core/src/execution/effect-verification.js together.
use ruleoak.Common.{
  Bool, true, false, ◌≡◌, ◌∙◌, ◌↔◌, refl, ap, Option, none, some, List, [], ◌∷◌, arith, is_empty,
  Bool-cases, inl, inr,
}
use ruleoak.Common.Results.{Result, ok, >>=-eq-ok}
use ruleoak.Common.Texts.{Text}
use ruleoak.Execution.Lease.{Lease}
use ruleoak.Execution.Receipt.{
  Status, failure, Quality, complete_for_adapter, EffectReceipt, SignError, ReceiptError,
  verify_effect_receipt,
}
use ruleoak.Execution.Verification.{
  safe_to_retry_with_new_authority, Observation, failed, VerificationRecord, BindOptions,
  BindingError, verification_binding_errors, decide_under, decide_bound, complete_decision,
  decide_on_receipt, decide_on_observation, decide_effect_retry, RetryDecision, bind_verification,
  bound_under, differs, digest_of, or_invalid, has_action, refuse, receipt_options,
  build_effect_verification_record,
}

-- What warrants a retry: a confirmed failure without an effect that its verifier calls safe, or,
-- without a verification, a complete failure under a contract that it means no effect.
abbrev pub Warrant : EffectReceipt → Option VerificationRecord → Bool → Type 0
Warrant r none no_effect =
    (r.status ≡ failure) × (r.observation_quality ≡ complete_for_adapter) × (no_effect ≡ true)
Warrant r (some v) no_effect = v.observation ≡ failed true

abbrev IsSafe : RetryDecision → Type 0
IsSafe d = d.disposition ≡ safe_to_retry_with_new_authority

complete-Warrant :
    (s : Status) (q : Quality) (no_effect : Bool)
    → IsSafe (complete_decision s q no_effect)
      ↔ ((s ≡ failure) × (q ≡ complete_for_adapter) × (no_effect ≡ true))
complete-Warrant s q no_effect = ground arith

observation-Warrant : (o : Observation) → IsSafe (decide_on_observation o) ↔ (o ≡ failed true)
unfolding decide_on_observation
observation-Warrant o = ground arith

receipt-Warrant :
    (r : EffectReceipt) (no_effect : Bool)
    → IsSafe (decide_on_receipt r no_effect) ↔ Warrant r none no_effect
unfolding decide_on_receipt
receipt-Warrant r no_effect = ground arith

bound-Warrant :
    (r : EffectReceipt) (v : Option VerificationRecord) (no_effect : Bool)
    → IsSafe (decide_bound r v no_effect) ↔ Warrant r v no_effect
bound-Warrant r none no_effect = receipt-Warrant r no_effect
bound-Warrant r (some v) no_effect = observation-Warrant v.observation

-- A retry is called safe exactly if no binding error is found and the verification or, where there
-- is none, the receipt warrants it.
pub decide-safe_iff :
    (r : EffectReceipt) (v : Option VerificationRecord) (l : Option Lease) (no_effect : Bool)
    → ((decide_effect_retry r v l no_effect).disposition ≡ safe_to_retry_with_new_authority)
      ↔ ((verification_binding_errors r v l ≡ []) × Warrant r v no_effect)
unfolding decide_effect_retry
decide-safe_iff r v l no_effect = by_errors (verification_binding_errors r v l)
  where
    by_errors :
        (errors : List BindingError)
        → IsSafe (decide_under errors r v no_effect) ↔ ((errors ≡ []) × Warrant r v no_effect)
    by_errors (e ∷ es) = ((λ h. cc h), (λ h. cc (h.0)))
    by_errors [] = let w = bound-Warrant r v no_effect in ((λ h. (refl, w.0 h)), (λ h. w.1 h.1))

-- A refusal warrants nothing.
refuse-Warrant : (r : EffectReceipt) (b : BindOptions) → (refuse r b).observation ≡ failed true → ⊥
unfolding bind_verification
refuse-Warrant r b h = cc h

with_lease :
    (o : Option Lease)
    → has_action o ≡ true
    → (l : Lease) × (o ≡ some l) × (is_empty l.action_digest ≡ false)
with_lease none h = cc
with_lease (some l) h = (l, refl, ground arith)

module _ (mac : Text → EffectReceipt → Text) (valid_receipt : EffectReceipt → Bool) where
  accepted :
      (r : EffectReceipt) (o : Option Observation) (b : BindOptions) (errors : List ReceiptError)
      (l : Lease)
      → b.lease ≡ some l
      → (bound_under mac valid_receipt r o b errors).observation ≡ failed true
      → (errors ≡ []) × (or_invalid o ≡ failed true)
  unfolding bind_verification
  accepted r o b (e ∷ es) l here h = absurd (cc h)
  accepted r o b [] l here h = elim (Bool-cases (differs b.action_digest (digest_of b.lease []))) [
    | inl t ↦ absurd (cc (rw t at h))
    | inr f ↦ (refl, rw f at h)
  ]

  -- A record that buildEffectVerificationRecord returns and that warrants a retry was made with a
  -- lease under which the receipt verifies without an error, from a verification that is itself a
  -- confirmed failure without effect that its verifier calls safe.
  pub built-Warrant :
      (r : EffectReceipt) (o : Option Observation) (b : BindOptions) (v : VerificationRecord)
      (no_effect : Bool)
      → build_effect_verification_record mac valid_receipt r o b ≡ ok v
      → Warrant r (some v) no_effect
      → (l : Lease) × (b.lease ≡ some l)
        × (is_empty l.action_digest ≡ false)
        × (verify_effect_receipt mac valid_receipt r (receipt_options b) ≡ ok [])
        × (or_invalid o ≡ failed true)
  unfolding build_effect_verification_record
  built-Warrant r o b v no_effect run w = elim (Bool-cases (has_action b.lease)) [
    | inr f ↦ absurd (refuse-Warrant r b (is_run (rw f at run)))
    | inl t ↦
        let chain =
          >>=-eq-ok (verify_effect_receipt mac valid_receipt r (receipt_options b)) _
            (rw t at run) in
        let l = with_lease b.lease t in
        let ends = accepted r o b chain.0 l.0 l.1 (is_run chain.2) in
        (l.0, l.1, l.2, chain.1 ∙ ap ok ends.0, ends.1)
  ]
    where
      is_run :
          {u : VerificationRecord}
          → ◌≡◌ {A = Result SignError VerificationRecord} (ok u) (ok v)
          → u.observation ≡ failed true
      is_run {u} e = let q : u ≡ v = cc e in cc (q, w)
