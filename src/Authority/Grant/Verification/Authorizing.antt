-- ===== src/Authority/Grant/Verification/Authorizing.antt =====
-- The permissions of authorizeWithAuthorityGrant (packages/core/src/authority/grant.js).
use ruleoak.Common.{
  ℕ, ◌≤◌, ◌<◌, Bool, true, false, not, ◌≡◌, ◌∙◌, refl, ap, Option, none, some, List, [], ◌∷◌, ◌++◌,
  arith, In, find-In,
}
use ruleoak.Common.Results.{ok, >>=-eq-ok}
use ruleoak.Common.Texts.{Text, same, same_iff}
use ruleoak.Authority.Grant.{Capability, Grant, capability_permits, matched_capability}
use ruleoak.Authority.Grant.Verification.{
  VerifyError, VerifyOptions, report_if, is_date, starts_after, ended_by, differs, session_differs,
  not_active, expired, subject_mismatch, session_mismatch, signature_mismatch, unsigned_grant, sign,
  check_signature, signature_errors, state_errors, verify_errors, permitted, answer, authorize,
}

report_if-nil :
    (t : Bool) (e : VerifyError) (later : List VerifyError)
    → report_if t e later ≡ []
    → (t ≡ false) × (later ≡ [])
report_if-nil true e later h = absurd (cc h)
report_if-nil false e later h = (refl, h)

append-nil-nil : (a b : List VerifyError) → a ++ b ≡ [] → (a ≡ []) × (b ≡ [])
append-nil-nil [] b h = (refl, h)
append-nil-nil (x ∷ a) b h = absurd (cc h)

not-false : (b : Bool) → not b ≡ false → b ≡ true
not-false true e = refl
not-false false e = absurd (cc e)

-- The time of the check is inside the window of the grant.
pub record IsActive (grant : Grant) (now : ℕ) : Type 0 where
  pub started : grant.not_before ≤ now
  pub not_ended : now < grant.expires_at

active :
    (grant : Grant) (now : Option ℕ)
    → is_date now ≡ true
    → starts_after grant.not_before now ≡ false
    → ended_by grant.expires_at now ≡ false
    → (t : ℕ) × (now ≡ some t) × IsActive grant t
active grant none d s e = absurd (cc d)
active grant (some t) d s e = (t, refl, record { started = ground arith; not_ended = ground arith })

answer-permitted :
    (errors : List VerifyError) (found : Option Capability) (c : Capability)
    → answer errors found ≡ permitted c
    → (errors ≡ []) × (found ≡ some c)
answer-permitted (e ∷ es) found c h = absurd (cc h)
answer-permitted [] none c h = absurd (cc h)
answer-permitted [] (some d) c h = (refl, cc h)

module _ (mac : Text → Grant → Text) (valid_grant : Grant → Bool) where
  signed :
      (grant : Grant) (secret : Text) (s : Option Text)
      → check_signature mac valid_grant grant secret s ≡ ok []
      → s ≡ some (mac secret (unsigned_grant grant))
  unfolding check_signature sign
  signed grant secret none h = absurd (cc h)
  signed grant secret (some []) h = absurd (cc h)
  signed grant secret (some (x ∷ s)) h =
      let r = >>=-eq-ok (sign mac valid_grant grant secret) _ h in
      let e : report_if (not (same (x ∷ s) r.0)) signature_mismatch [] ≡ [] = cc r.2 in
      ap some ((same_iff (x ∷ s) r.0).0 (not-false _ (report_if-nil _ _ _ e).0))
      ∙ ap some (signature r.0 r.1)
    where
      signature :
          (t : Text)
          → sign mac valid_grant grant secret ≡ ok t
          → t ≡ mac secret (unsigned_grant grant)
      signature t e = ground arith

  -- What verifyAuthorityGrant has established where it reports no error.
  pub record IsVerified (grant : Grant) (o : VerifyOptions) (is_revoked : Bool) : Type 0 where
    pub well_formed : valid_grant grant ≡ true
    pub active : (now : ℕ) × (o.now ≡ some now) × IsActive grant now
    pub subject : differs o.expected_subject_id grant.subject.id ≡ false
    pub session : session_differs o.expected_session_id grant.session_id ≡ false
    pub not_revoked : is_revoked ≡ false
    pub signature :
        (c : ℕ) (secret : Text)
        → o.secret ≡ some (c ∷ secret)
        → grant.signature ≡ some (mac (c ∷ secret) (unsigned_grant grant))

  verified :
      (grant : Grant) (o : VerifyOptions) (is_revoked : Bool)
      → verify_errors mac valid_grant grant o is_revoked ≡ ok []
      → IsVerified grant o is_revoked
  unfolding verify_errors state_errors signature_errors
  verified grant o is_revoked h =
      let r = >>=-eq-ok (signature_errors mac valid_grant grant o o.secret) _ h in
      let all : state_errors mac valid_grant grant o is_revoked ++ r.0 ≡ [] = cc r.2 in
      let s = append-nil-nil _ r.0 all in
      let a = report_if-nil _ _ _ s.0 in
      let b = report_if-nil _ _ _ a.1 in
      let c = report_if-nil (starts_after grant.not_before o.now) not_active _ b.1 in
      let d = report_if-nil (ended_by grant.expires_at o.now) expired _ c.1 in
      let e =
        report_if-nil (differs o.expected_subject_id grant.subject.id) subject_mismatch _ d.1 in
      let f =
        report_if-nil (session_differs o.expected_session_id grant.session_id) session_mismatch _
          e.1 in
      let g = report_if-nil _ _ _ f.1 in
      record {
        well_formed = not-false _ a.0;
        active = active grant o.now (not-false _ b.0) c.0 d.0;
        subject = e.0;
        session = f.0;
        not_revoked = g.0;
        signature = λ x secret given. keyed x secret r.0 given r.1 s.1;
      }
    where
      keyed :
          (x : ℕ) (secret : Text) (late : List VerifyError)
          → o.secret ≡ some (x ∷ secret)
          → signature_errors mac valid_grant grant o o.secret ≡ ok late
          → late ≡ []
          → grant.signature ≡ some (mac (x ∷ secret) (unsigned_grant grant))
      keyed x secret late given e silent =
          signed grant (x ∷ secret) grant.signature (rw given at e ∙ ap ok silent)

  -- An action on a resource is permitted only by a capability of the grant that covers both, and
  -- only where the grant is well formed and in its window at the time of the check, is bound to the
  -- expected subject and session, is not revoked, and, with a non-empty secret, carries the keyed
  -- hash of its unsigned form.
  pub authorize-requires :
      (grant : Grant) (o : VerifyOptions) (is_revoked : Bool) (action resource : Text)
      (c : Capability)
      → authorize mac valid_grant grant o is_revoked action resource ≡ ok (permitted c)
      → IsVerified grant o is_revoked
        × In c grant.capabilities
        × (capability_permits action resource c ≡ true)
  unfolding authorize matched_capability
  authorize-requires grant o is_revoked action resource c h =
      let r = >>=-eq-ok (verify_errors mac valid_grant grant o is_revoked) _ h in
      let a = answer-permitted r.0 (matched_capability grant action resource) c (cc r.2) in
      let i = find-In (capability_permits action resource) grant.capabilities a.1 in
      (verified grant o is_revoked (r.1 ∙ ap ok a.0), i.0, i.1)
