-- ===== src/Execution/Lease.antt =====
-- One-use execution leases: signExecutionLease, verifyExecutionLease and consumeExecutionLease of
-- packages/core/src/execution/lease.js. The digests of a call and a policy, the name of a marker
-- and the keyed hash are parameters or inputs; the answer of the revocation registry is an input.
-- The marker directory is the list of the names of its files.
pub mod Once
use ruleoak.Common.{
  ℕ, Bool, true, false, not, ◌&&◌, ◌||◌, Option, none, some, List, [], ◌∷◌, ◌++◌, ltb, leb,
  if◌then◌else◌, any, is_empty,
}
use ruleoak.Common.Results.{Result, ok, err, ◌>>=◌}
use ruleoak.Common.Texts.{Text, same}
use ruleoak.Authority.Budget.{Field, Budget, Number, UsageError, usage_errors}
use ruleoak.Authority.Obligations.{Obligation, Context, pre, unsatisfied}

pub record Lease : Type 0 where
  pub lease_id : Text
  pub decision_id : Text
  pub principal_id : Text
  pub authority_envelope_id : Option Text
  pub action_digest : Text
  pub policy_digest : Text
  pub not_before : ℕ
  pub expires_at : ℕ
  pub budget : Budget
  pub obligations : List Obligation
  pub nonce : Text
  pub signature : Option Text

-- What a use of a lease supplies. A digest of the call is there where a call is; an identifier that
-- is expected is there where it is not empty; `consumed_at` falls back to `now`.
pub record Use : Type 0 where
  pub now : Option ℕ
  pub action_digest : Option Text
  pub policy_digest : Option Text
  pub principal_id : Option Text
  pub authority_envelope_id : Option Text
  pub is_revoked : Bool
  pub usage : Field → Option Number
  pub obligation_context : Context
  pub require_signature : Bool
  pub secret : Option Text
  pub has_store : Bool
  pub consumed_at : Option ℕ

pub data LeaseError : Type 0 where
  malformed invalid_time not_active expired action_mismatch policy_mismatch : LeaseError
  principal_mismatch envelope_mismatch revoked : LeaseError
  budget_error : UsageError → LeaseError
  obligation_error : Obligation → LeaseError
  secret_required signature_required signature_mismatch : LeaseError

pub data SignError : Type 0 where
  secret_is_empty invalid_lease : SignError

abbrev pub report_if : Bool → LeaseError → List LeaseError → List LeaseError
report_if true e later = e ∷ later
report_if false e later = later

abbrev pub report_all {ℓ} :
    {A : Type ℓ} → (A → LeaseError) → List A → List LeaseError → List LeaseError
report_all f [] later = later
report_all f (x ∷ xs) later = f x ∷ report_all f xs later

abbrev pub is_time : Option ℕ → Bool
is_time none = false
is_time (some t) = true

abbrev pub is_early : ℕ → Option ℕ → Bool
is_early start none = false
is_early start (some now) = ltb now start

abbrev pub is_late : ℕ → Option ℕ → Bool
is_late end none = false
is_late end (some now) = leb end now

abbrev pub mismatch : Option Text → Text → Bool
mismatch none actual = false
mismatch (some expected) actual = not (same actual expected)

abbrev pub optional_mismatch : Option Text → Option Text → Bool
optional_mismatch none actual = false
optional_mismatch (some expected) none = true
optional_mismatch (some expected) (some actual) = not (same actual expected)

-- unsigned
unfoldable pub unsigned_lease : Lease → Lease
unsigned_lease l = record l { signature = none }

pub data Consumption : Type 0 where
  consumed replayed no_store bad_time : Consumption
  unverified : List LeaseError → Consumption

-- durableExclusiveCreateSync: the file is created unless it is there.
unfoldable pub create_marker : List Text → Text → Consumption × List Text
create_marker markers name =
    if any (same name) markers then (replayed, markers) else (consumed, name ∷ markers)

module _ (mac : Text → Lease → Text) (valid_lease : Lease → Bool) (marker_name : Lease → Text) where
  unfoldable pub sign_execution_lease : Lease → Text → Result SignError Text
  sign_execution_lease l secret =
      if is_empty secret
      then err secret_is_empty
      else if not (valid_lease (unsigned_lease l))
      then err invalid_lease
      else ok (mac secret (unsigned_lease l))

  unfoldable pub signed_errors : Lease → Text → Option Text → Result SignError (List LeaseError)
  signed_errors l secret none = ok (signature_required ∷ [])
  signed_errors l secret (some []) = ok (signature_required ∷ [])
  signed_errors l secret (some s) = do
    expected ← sign_execution_lease l secret
    ok (report_if (not (same s expected)) signature_mismatch [])

  -- The last two tests of verifyExecutionLease.
  unfoldable pub late_errors : Lease → Bool → Option Text → Result SignError (List LeaseError)
  late_errors l require none = ok (report_if require secret_required [])
  late_errors l require (some []) = ok (report_if require secret_required [])
  late_errors l require (some secret) = signed_errors l secret l.signature

  unfoldable pub early_errors : Lease → Use → List LeaseError
  early_errors l u = report_if (not (valid_lease l)) malformed (
      report_if (not (is_time u.now)) invalid_time (
        report_if (is_early l.not_before u.now) not_active (
          report_if (is_late l.expires_at u.now) expired (
            report_if (mismatch u.action_digest l.action_digest) action_mismatch (
              report_if (mismatch u.policy_digest l.policy_digest) policy_mismatch (
                report_if (mismatch u.principal_id l.principal_id) principal_mismatch (
                  report_if (optional_mismatch u.authority_envelope_id l.authority_envelope_id)
                    envelope_mismatch
                    (report_if u.is_revoked revoked (
                      report_all budget_error (usage_errors l.budget u.usage) (
                        report_all obligation_error
                          (unsatisfied u.obligation_context pre l.obligations) []))))))))))

  -- verifyExecutionLease: the errors, or what it throws.
  unfoldable pub verify_execution_lease : Lease → Use → Result SignError (List LeaseError)
  verify_execution_lease l u = do
    late ← late_errors l u.require_signature u.secret
    ok (early_errors l u ++ late)

  -- The part of consumeUnlocked after verification: `seen` are the markers when existsSync looks
  -- for the file, `markers` those when it is created.
  unfoldable pub settle :
      List Text → List Text → Lease → Use → List LeaseError → Consumption × List Text
  settle seen markers l u (e ∷ es) = (unverified (e ∷ es), markers)
  settle seen markers l u [] =
      if not u.has_store
      then (no_store, markers)
      else if any (same (marker_name l)) seen
      then (replayed, markers)
      else if not (is_time u.consumed_at)
      then (bad_time, markers)
      else create_marker markers (marker_name l)

  unfoldable pub consume_execution_lease :
      List Text → List Text → Lease → Use → Result SignError (Consumption × List Text)
  consume_execution_lease seen markers l u = do
    errors ← verify_execution_lease l u
    ok (settle seen markers l u errors)
