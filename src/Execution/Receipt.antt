-- ===== src/Execution/Receipt.antt =====
-- Effect receipts: signEffectReceipt and verifyEffectReceipt of
-- packages/core/src/execution/effect-receipt.js. The validator of the protocol and the keyed hash
-- are parameters. A time is the number that getTime returns, and `none` where that is NaN; a date
-- that is absent is 0.
use ruleoak.Common.{
  ℕ, Bool, true, false, not, Option, none, some, List, [], ◌∷◌, ◌++◌, ltb, if◌then◌else◌, is_empty,
  map,
}
use ruleoak.Common.Results.{Result, ok, err, ◌>>=◌}
use ruleoak.Common.Texts.{Text, same}
use ruleoak.Authority.Obligations.{Obligation, Context, post, unsatisfied}
use ruleoak.Execution.Lease.{Lease}

pub data Status : Type 0 where
  success failure partial unknown_status : Status

pub data Quality : Type 0 where
  requested_only process_return_observed local_state_observed remote_response_observed : Quality
  complete_for_adapter partial_observation ambiguous : Quality
  -- Those of version 1.0.
  complete_for_adapter_v1 inferred unavailable : Quality

pub record EffectReceipt : Type 0 where
  pub effect_id : Text
  pub lease_id : Text
  pub decision_id : Text
  pub adapter : Text
  pub started_at : Option ℕ
  pub completed_at : Option ℕ
  pub status : Status
  pub observation_quality : Quality
  pub signature : Option Text

pub data ReceiptError : Type 0 where
  malformed lease_mismatch decision_mismatch ends_before_start : ReceiptError
  secret_required signature_required signature_mismatch : ReceiptError
  obligation_error : Obligation → ReceiptError

pub data SignError : Type 0 where
  secret_is_empty invalid_receipt : SignError

pub record ReceiptOptions : Type 0 where
  pub lease : Option Lease
  pub require_signature : Bool
  pub secret : Text
  pub obligation_context : Context

unfoldable pub unsigned_receipt : EffectReceipt → EffectReceipt
unsigned_receipt r = record r { signature = none }

abbrev pub report_if : Bool → ReceiptError → List ReceiptError
report_if true e = e ∷ []
report_if false e = []

abbrev pub precedes : Option ℕ → Option ℕ → Bool
precedes (some a) (some b) = ltb a b
precedes _ _ = false

abbrev pub binding_errors : EffectReceipt → Option Lease → List ReceiptError
binding_errors r none = []
binding_errors r (some l) =
    report_if (not (same r.lease_id l.lease_id)) lease_mismatch
    ++ report_if (not (same r.decision_id l.decision_id)) decision_mismatch

-- The receipt itself stands in the context in which the obligations are evaluated.
abbrev pub post_errors : Context → Option Lease → List ReceiptError
post_errors c none = []
post_errors c (some l) =
    map obligation_error (unsatisfied (record c { effect_receipt = true }) post l.obligations)

module _ (mac : Text → EffectReceipt → Text) (valid_receipt : EffectReceipt → Bool) where
  unfoldable pub sign_effect_receipt : EffectReceipt → Text → Result SignError EffectReceipt
  sign_effect_receipt r secret =
      if is_empty secret
      then err secret_is_empty
      else if not (valid_receipt (unsigned_receipt r))
      then err invalid_receipt
      else ok (record r { signature = some (mac secret (unsigned_receipt r)) })

  abbrev pub same_signature : Text → Option Text → List ReceiptError
  same_signature s none = signature_mismatch ∷ []
  same_signature s (some expected) = report_if (not (same s expected)) signature_mismatch

  unfoldable pub signed_errors :
      EffectReceipt → Text → Option Text → Result SignError (List ReceiptError)
  signed_errors r secret none = ok (signature_required ∷ [])
  signed_errors r secret (some []) = ok (signature_required ∷ [])
  signed_errors r secret (some (c ∷ s)) = do
    expected ← sign_effect_receipt r secret
    ok (same_signature (c ∷ s) expected.signature)

  unfoldable pub signature_errors :
      EffectReceipt → ReceiptOptions → Result SignError (List ReceiptError)
  signature_errors r o =
      if is_empty o.secret
      then ok (report_if o.require_signature secret_required)
      else signed_errors r o.secret r.signature

  -- verifyEffectReceipt: the errors, or what it throws.
  unfoldable pub verify_effect_receipt :
      EffectReceipt → ReceiptOptions → Result SignError (List ReceiptError)
  verify_effect_receipt r o = do
    signature ← signature_errors r o
    ok (
        report_if (not (valid_receipt r)) malformed
        ++ binding_errors r o.lease
        ++ report_if (precedes r.completed_at r.started_at) ends_before_start
        ++ signature
        ++ post_errors o.obligation_context o.lease)
