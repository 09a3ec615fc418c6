-- ===== src/Execution/Verification.antt =====
-- Verification of an effect and the decision on a retry: buildEffectVerificationRecord and
-- decideEffectRetry of packages/core/src/execution/effect-verification.js. Of the evidence the two
-- fields are kept that decide a retry; reasons, times and digests of records are left out. A text
-- that is empty stands for one that is absent, which the source's `||` treats alike.
pub mod Paths
pub mod Filesystem
pub mod Observers
pub mod Unchanged
pub mod Retry
use ruleoak.Common.{
  Bool, true, false, not, ◌&&◌, ◌||◌, Option, none, some, List, [], ◌∷◌, ◌++◌, if◌then◌else◌,
  is_empty,
}
use ruleoak.Common.Results.{Result, ok, err, ◌>>=◌}
use ruleoak.Common.Texts.{Text, same}
use ruleoak.Authority.Obligations.{Context}
use ruleoak.Permission.Call.{or_default}
use ruleoak.Execution.Lease.{Lease}
use ruleoak.Execution.Receipt.{
  Status, success, failure, partial, unknown_status, Quality, requested_only, complete_for_adapter,
  partial_observation, ambiguous, EffectReceipt, SignError, ReceiptError, ReceiptOptions,
  verify_effect_receipt,
}

pub data State : Type 0 where
  confirmed_success confirmed_failure partial_or_ambiguous unknown invalid : State

pub data Disposition : Type 0 where
  do_not_retry safe_to_retry_with_new_authority verify_before_retry manual_review : Disposition

-- What a verifier returns. `retry_safe` says whether the field is true.
pub record Observation : Type 0 where
  pub state : State
  pub effect_applied : Option Bool
  pub retry_safe : Bool

abbrev pub observed : State → Option Bool → Bool → Observation
observed s applied safe = record { state = s; effect_applied = applied; retry_safe = safe }

-- The observations that the verifiers share.
abbrev pub succeeded : Observation
succeeded = observed confirmed_success (some true) false

abbrev pub failed : Bool → Observation
failed safe = observed confirmed_failure (some false) safe

abbrev pub uncertain : Observation
uncertain = observed partial_or_ambiguous none false

abbrev pub unobserved : State → Observation
unobserved s = observed s none false

pub record VerificationRecord : Type 0 where
  pub effect_id : Text
  pub lease_id : Text
  pub decision_id : Text
  pub action_digest : Text
  pub observation : Observation

pub record BindOptions : Type 0 where
  pub lease : Option Lease
  pub action_digest : Text

-- lease?.action_digest || options.actionDigest || null
abbrev pub digest_of : Option Lease → Text → Text
digest_of none given = given
digest_of (some l) given = or_default l.action_digest given

abbrev pub or_invalid : Option Observation → Observation
or_invalid none = unobserved invalid
or_invalid (some o) = o

unfoldable pub bind_verification :
    EffectReceipt → Option Observation → BindOptions → VerificationRecord
bind_verification r o b = record {
  effect_id = r.effect_id;
  lease_id = r.lease_id;
  decision_id = r.decision_id;
  action_digest = digest_of b.lease b.action_digest;
  observation = or_invalid o;
}

abbrev pub refuse : EffectReceipt → BindOptions → VerificationRecord
refuse r b = bind_verification r (some (unobserved invalid)) b

abbrev pub has_action : Option Lease → Bool
has_action none = false
has_action (some l) = not (is_empty l.lease_id) && not (is_empty l.action_digest)

abbrev pub differs : Text → Text → Bool
differs given actual = not (is_empty given) && not (same given actual)

-- The context where the caller gives none.
abbrev no_context : Context
no_context = record {
  approved = false;
  recorder_available = false;
  target_verified = false;
  now = none;
  effect_receipt = false;
}

abbrev pub receipt_options : BindOptions → ReceiptOptions
receipt_options b = record {
  lease = b.lease;
  require_signature = false;
  secret = [];
  obligation_context = no_context;
}

module _ (mac : Text → EffectReceipt → Text) (valid_receipt : EffectReceipt → Bool) where
  abbrev pub bound_under :
      EffectReceipt → Option Observation → BindOptions → List ReceiptError → VerificationRecord
  bound_under r o b (e ∷ es) = refuse r b
  bound_under r o b [] =
      if differs b.action_digest (digest_of b.lease []) then refuse r b else bind_verification r o b

  unfoldable pub build_effect_verification_record :
      EffectReceipt → Option Observation → BindOptions → Result SignError VerificationRecord
  build_effect_verification_record r o b = if not (has_action b.lease) then ok (refuse r b) else do
    errors ← verify_effect_receipt mac valid_receipt r (receipt_options b)
    ok (bound_under r o b errors)

pub data BindingError : Type 0 where
  effect_differs lease_differs decision_differs action_missing : BindingError
  retry_lease_differs retry_decision_differs action_differs : BindingError

abbrev pub report_if : Bool → BindingError → List BindingError
report_if true e = e ∷ []
report_if false e = []

abbrev pub lease_errors : EffectReceipt → VerificationRecord → Option Lease → List BindingError
lease_errors r v none = []
lease_errors r v (some l) =
    report_if (not (same l.lease_id r.lease_id)) retry_lease_differs
    ++ report_if (not (same l.decision_id r.decision_id)) retry_decision_differs
    ++ report_if (not (same l.action_digest v.action_digest)) action_differs

unfoldable pub verification_binding_errors :
    EffectReceipt → Option VerificationRecord → Option Lease → List BindingError
verification_binding_errors r none l = []
verification_binding_errors r (some v) l =
    report_if (not (same v.effect_id r.effect_id)) effect_differs
    ++ report_if (not (same v.lease_id r.lease_id)) lease_differs
    ++ report_if (not (same v.decision_id r.decision_id)) decision_differs
    ++ report_if (is_empty v.action_digest) action_missing
    ++ lease_errors r v l

pub record RetryDecision : Type 0 where
  pub disposition : Disposition
  pub requires_new_authority : Bool

abbrev pub dispose : Disposition → Bool → RetryDecision
dispose d new = record { disposition = d; requires_new_authority = new }

abbrev pub is_incomplete : Quality → Status → Bool
is_incomplete ambiguous s = true
is_incomplete partial_observation s = true
is_incomplete requested_only s = true
is_incomplete q partial = true
is_incomplete q unknown_status = true
is_incomplete q s = false

abbrev pub complete_decision : Status → Quality → Bool → RetryDecision
complete_decision success complete_for_adapter no_effect = dispose do_not_retry false
complete_decision failure complete_for_adapter true = dispose safe_to_retry_with_new_authority true
complete_decision s q no_effect = dispose verify_before_retry true

-- The rest of decideEffectRetry where there is no verification.
unfoldable pub decide_on_receipt : EffectReceipt → Bool → RetryDecision
decide_on_receipt r no_effect =
    if is_incomplete r.observation_quality r.status
    then dispose verify_before_retry true
    else complete_decision r.status r.observation_quality no_effect

unfoldable pub decide_on_observation : Observation → RetryDecision
decide_on_observation o = elim o.state [
  | invalid ↦ dispose manual_review true
  | confirmed_success ↦ dispose do_not_retry false
  | confirmed_failure ↦ elim o.effect_applied [
    | some false ↦
        if o.retry_safe
        then dispose safe_to_retry_with_new_authority true
        else dispose verify_before_retry true
    | _ ↦ dispose verify_before_retry true
  ]
  | partial_or_ambiguous ↦ dispose verify_before_retry true
  | unknown ↦ dispose verify_before_retry true
]

abbrev pub decide_bound : EffectReceipt → Option VerificationRecord → Bool → RetryDecision
decide_bound r none no_effect = decide_on_receipt r no_effect
decide_bound r (some v) no_effect = decide_on_observation v.observation

abbrev pub decide_under :
    List BindingError → EffectReceipt → Option VerificationRecord → Bool → RetryDecision
decide_under (e ∷ es) r v no_effect = dispose manual_review true
decide_under [] r v no_effect = decide_bound r v no_effect

-- decideEffectRetry: `no_effect` is options.completeFailureMeansNoEffect.
unfoldable pub decide_effect_retry :
    EffectReceipt → Option VerificationRecord → Option Lease → Bool → RetryDecision
decide_effect_retry r v l no_effect = decide_under (verification_binding_errors r v l) r v no_effect
