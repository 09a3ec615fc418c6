-- ===== src/Authority/Grant/Verification.antt =====
-- Verification and use of a grant: verifyAuthorityGrant and authorizeWithAuthorityGrant of
-- packages/core/src/authority/grant.js. The keyed hash, the structural validation and the answer of
-- the revocation registry are parameters; the canonical action and resource of a call are inputs.
pub mod Authorizing
use ruleoak.Common.{
  ℕ, ◌+◌, Bool, true, false, not, ◌&&◌, ◌||◌, Option, none, some, List, [], ◌∷◌, ◌++◌, ltb, leb,
  ◌==◌, if◌then◌else◌, any, all, find, is_empty, length,
}
use ruleoak.Common.Results.{Result, ok, err, ◌>>=◌}
use ruleoak.Common.Texts.{Text, same}
use ruleoak.Authority.Grant.{Capability, Grant, matched_capability}

pub data VerifyError : Type 0 where
  malformed invalid_time not_active expired subject_mismatch session_mismatch : VerifyError
  revoked secret_required signature_required signature_mismatch : VerifyError

pub record VerifyOptions : Type 0 where
  pub now : Option ℕ
  pub expected_subject_id : Option Text
  pub expected_session_id : Option Text
  pub require_signature : Bool
  pub secret : Option Text

-- A text option that is given and not empty.
abbrev pub differs : Option Text → Text → Bool
differs none actual = false
differs (some []) actual = false
differs (some expected) actual = not (same actual expected)

abbrev pub session_differs : Option Text → Option Text → Bool
session_differs expected none = false
session_differs expected (some []) = false
session_differs expected (some actual) = differs expected actual

abbrev pub report_if : Bool → VerifyError → List VerifyError → List VerifyError
report_if true e later = e ∷ later
report_if false e later = later

abbrev pub given : Option Text → Bool
given none = false
given (some s) = not (is_empty s)

abbrev pub starts_after : ℕ → Option ℕ → Bool
starts_after not_before none = false
starts_after not_before (some now) = ltb now not_before

abbrev pub ended_by : ℕ → Option ℕ → Bool
ended_by expires_at none = false
ended_by expires_at (some now) = leb expires_at now

abbrev pub is_date : Option ℕ → Bool
is_date none = false
is_date (some t) = true

-- unsignedGrant
unfoldable pub unsigned_grant : Grant → Grant
unsigned_grant g = record g { signature = none }

unfoldable pub without_secret : Grant → VerifyOptions → List VerifyError
without_secret grant o =
    report_if o.require_signature secret_required
      (report_if (o.require_signature && not (given grant.signature)) signature_required [])

-- What signAuthorityGrant throws.
pub data SignError : Type 0 where
  secret_is_empty invalid_grant : SignError

pub data Authorization : Type 0 where
  permitted : Capability → Authorization
  not_permitted : Authorization
  unverified : List VerifyError → Authorization

abbrev pub answer : List VerifyError → Option Capability → Authorization
answer (e ∷ es) c = unverified (e ∷ es)
answer [] none = not_permitted
answer [] (some c) = permitted c

module _ (mac : Text → Grant → Text) (valid_grant : Grant → Bool) where
  -- The signature of signAuthorityGrant.
  unfoldable pub sign : Grant → Text → Result SignError Text
  sign grant secret =
      if is_empty secret
      then err secret_is_empty
      else if not (valid_grant (unsigned_grant grant))
      then err invalid_grant
      else ok (mac secret (unsigned_grant grant))

  -- The check of the signature against a secret that is given; it throws where signing does.
  unfoldable pub check_signature : Grant → Text → Option Text → Result SignError (List VerifyError)
  check_signature grant secret none = ok (signature_required ∷ [])
  check_signature grant secret (some []) = ok (signature_required ∷ [])
  check_signature grant secret (some s) = do
    expected ← sign grant secret
    ok (report_if (not (same s expected)) signature_mismatch [])

  unfoldable pub signature_errors :
      Grant → VerifyOptions → Option Text → Result SignError (List VerifyError)
  signature_errors grant o none = ok (without_secret grant o)
  signature_errors grant o (some []) = ok (without_secret grant o)
  signature_errors grant o (some secret) = check_signature grant secret grant.signature

  -- The errors of verifyAuthorityGrant before the signature; `is_revoked` is the registry's
  -- answer, false without one.
  unfoldable pub state_errors : Grant → VerifyOptions → Bool → List VerifyError
  state_errors grant o is_revoked = report_if (not (valid_grant grant)) malformed (
      report_if (not (is_date o.now)) invalid_time (
        report_if (starts_after grant.not_before o.now) not_active (
          report_if (ended_by grant.expires_at o.now) expired (
            report_if (differs o.expected_subject_id grant.subject.id) subject_mismatch (
              report_if (session_differs o.expected_session_id grant.session_id) session_mismatch
                (report_if is_revoked revoked []))))))

  -- verifyAuthorityGrant: the errors, or what it throws.
  unfoldable pub verify_errors : Grant → VerifyOptions → Bool → Result SignError (List VerifyError)
  verify_errors grant o is_revoked = do
    late ← signature_errors grant o o.secret
    ok (state_errors grant o is_revoked ++ late)

  -- authorizeWithAuthorityGrant for a canonical action and resource.
  unfoldable pub authorize :
      Grant → VerifyOptions → Bool → Text → Text → Result SignError Authorization
  authorize grant o is_revoked action resource = do
    errors ← verify_errors grant o is_revoked
    ok (answer errors (matched_capability grant action resource))
