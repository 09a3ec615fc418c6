-- ===== src/Authority/Grant/Delegating/Steps.antt =====
-- The steps of a delegation that succeeds (delegateAuthorityGrant of
-- packages/core/src/authority/grant.js).
use Prim.Native.Nat.{Ordering}
use ruleoak.Common.{
  ℕ, Bool, not, ◌≡◌, refl, ap, subst, ◌∙◌, Option, none, some, List, [], ◌∷◌, is_empty,
}
use ruleoak.Common.Results.{Result, ok, err, >>=-eq-ok}
use ruleoak.Common.Texts.{Text}
use ruleoak.Authority.Budget.Registry.{Registry}
use ruleoak.Authority.Obligations.{Obligation}
use ruleoak.Authority.Grant.{Grant, attenuation_errors}
use ruleoak.Authority.Grant.Verification.{verify_errors}
use ruleoak.Authority.Grant.Issuing.{GrantSpec, build_unsigned, sign_if}
use ruleoak.Authority.Grant.Delegating.{
  DelegateError, DelegateOptions, thrown, require, no_errors, time_of, start_of, subject_of,
  child_spec, is_partitioned, reserve_if, delegate_authority_grant,
}

pub thrown-ok :
    {E A : Type 0} (f : E → DelegateError) (r : Result E A) {a : A} → thrown f r ≡ ok a → r ≡ ok a
thrown-ok f (ok b) h = cc h
thrown-ok f (err e) h = absurd (cc h)

no_errors-nil :
    {E : Type 0} (f : List E → DelegateError) (es : List E) {u : Unit {0}}
    → no_errors f es ≡ ok u
    → es ≡ []
no_errors-nil f [] h = refl
no_errors-nil f (e ∷ es) h = absurd (cc h)

time_of-ok : (o : Option ℕ) {t : ℕ} → time_of o ≡ ok t → o ≡ some t
time_of-ok none h = absurd (cc h)
time_of-ok (some t) h = cc h

ok_pair :
    {A B : Type 0} {a c : A} {b d : B}
    → (let r : Result DelegateError (A × B) = ok (a, b) in r) ≡ ok (c, d)
    → (a ≡ c) × (b ≡ d)
ok_pair h = (cc h, cc h)

module _ (canonical_order : Obligation → Obligation → Ordering) (number : ℕ → Text)
    (mac : Text → Grant → Text) (valid_grant : Grant → Bool) where
  -- The steps of a delegation that succeeds.
  pub record Steps (parent : Grant) (s : GrantSpec) (secret : Text) (o : DelegateOptions)
      (child : Grant) (registry : Option Registry) : Type 0 where
    pub verified :
        verify_errors mac valid_grant parent
          (record o.verification { secret = some secret })
          o.parent_revoked
        ≡ ok []
    pub now : ℕ
    pub timed : o.verification.now ≡ some now
    pub start : ℕ
    pub started : start_of now parent.not_before s.not_before ≡ ok start
    pub spec : GrantSpec
    pub specified :
        child_spec canonical_order number mac valid_grant parent.version parent s start ≡ ok spec
    pub plain : Grant
    pub built : build_unsigned canonical_order number mac valid_grant spec o.issue ≡ ok plain
    pub narrowed : attenuation_errors parent plain ≡ []
    pub signed : sign_if canonical_order number mac valid_grant plain secret ≡ ok child
    pub reserved :
        reserve_if canonical_order number mac valid_grant
          (is_partitioned canonical_order number mac valid_grant parent)
          parent
          child
          o
        ≡ ok registry

  pub delegate-Steps :
      (parent : Grant) (s : GrantSpec) (secret : Text) (o : DelegateOptions) (child : Grant)
      (registry : Option Registry)
      → delegate_authority_grant canonical_order number mac valid_grant parent s secret o
        ≡ ok (child, registry)
      → Steps parent s secret o child registry
  unfolding delegate_authority_grant
  delegate-Steps parent s secret o child registry run =
      let (errors, e1, r1) =
        >>=-eq-ok
          (thrown DelegateError.signing (
            verify_errors mac valid_grant parent (record o.verification { secret = some secret })
              o.parent_revoked))
          _ run in
      let (u2, e2, r2) = >>=-eq-ok (no_errors DelegateError.parent_invalid errors) _ r1 in
      let (u3, e3, r3) =
        >>=-eq-ok (require (not (is_empty (subject_of s).id)) DelegateError.no_subject) _ r2 in
      let (now, e4, r4) = >>=-eq-ok (time_of o.verification.now) _ r3 in
      let (start, e5, r5) = >>=-eq-ok (start_of now parent.not_before s.not_before) _ r4 in
      let (spec, e6, r6) =
        >>=-eq-ok (child_spec canonical_order number mac valid_grant parent.version parent s start)
          _ r5 in
      let (plain, e7, r7) =
        >>=-eq-ok
          (thrown DelegateError.not_built
            (build_unsigned canonical_order number mac valid_grant spec o.issue))
          _ r6 in
      let (u8, e8, r8) =
        >>=-eq-ok (no_errors DelegateError.exceeds_parent (attenuation_errors parent plain)) _ r7 in
      let (signed, e9, r9) =
        >>=-eq-ok
          (thrown DelegateError.signing
            (sign_if canonical_order number mac valid_grant plain secret))
          _ r8 in
      let (next, e10, r10) =
        >>=-eq-ok
          (reserve_if canonical_order number mac valid_grant
            (is_partitioned canonical_order number mac valid_grant parent) parent signed o)
          _ r9 in
      let (p, q) = ok_pair r10 in
      record {
        verified =
            subst
              (λ es.
                verify_errors mac valid_grant parent
                  (record o.verification { secret = some secret }) o.parent_revoked
                ≡ ok es)
              (no_errors-nil DelegateError.parent_invalid errors e2) (thrown-ok _ _ e1);
        now = now;
        timed = time_of-ok _ e4;
        start = start;
        started = e5;
        spec = spec;
        specified = e6;
        plain = plain;
        built = thrown-ok _ _ e7;
        narrowed = no_errors-nil DelegateError.exceeds_parent (attenuation_errors parent plain) e8;
        signed = thrown-ok _ _ e9 ∙ ap (λ (g : Grant). ok g) p;
        reserved =
            subst
              (λ g.
                reserve_if canonical_order number mac valid_grant
                  (is_partitioned canonical_order number mac valid_grant parent) parent g o
                ≡ ok registry)
              p (e10 ∙ ap (λ (r : Option Registry). ok r) q);
      }
