-- ===== src/Authority/Grant/Delegating/Verifying.antt =====
-- That a signed grant verifies: signAuthorityGrant and verifyAuthorityGrant of
-- packages/core/src/authority/grant.js.
use Prim.Native.Nat.{Ordering}
use ruleoak.Common.{
  ℕ, ◌≤◌, ◌<◌, Bool, true, false, ◌≡◌, refl, sym, subst, Option, none, some, [], ◌∷◌, arith,
  is_empty, Bool-cases, inl, inr, ltb, leb,
}
use ruleoak.Common.Results.{Result, ok, >>=-eq-ok}
use ruleoak.Common.Texts.{Text, same_refl}
use ruleoak.Authority.Obligations.{Obligation}
use ruleoak.Authority.Grant.{Grant}
use ruleoak.Authority.Grant.Verification.{
  VerifyOptions, SignError, secret_is_empty, invalid_grant, differs, sign, unsigned_grant,
  verify_errors, signature_errors, check_signature, state_errors,
}
use ruleoak.Authority.Budget.Registry.{Registry}
use ruleoak.Authority.Grant.Issuing.{GrantSpec, sign_if}
use ruleoak.Authority.Grant.Delegating.{DelegateOptions, delegate_authority_grant}
use ruleoak.Authority.Grant.Delegating.Delegated.{delegate-signed}

-- A check at a time, for the grant's own subject and with a signature under a secret.
abbrev pub own_check : Grant → ℕ → Text → VerifyOptions
own_check g t secret = record {
  now = some t;
  expected_subject_id = some g.subject.id;
  expected_session_id = none;
  require_signature = true;
  secret = some secret;
}

own_subject : (s : Text) → differs (some s) s ≡ false
own_subject [] = refl
own_subject (c ∷ s) = rw (same_refl (c ∷ s)) refl

no_session : (o : Option Text) → ruleoak.Authority.Grant.Verification.session_differs none o ≡ false
no_session none = refl
no_session (some []) = refl
no_session (some (c ∷ s)) = refl

module _ (mac : Text → Grant → Text) (valid_grant : Grant → Bool) where
  sign-mac :
      (g : Grant) (c : ℕ) (secret signature : Text)
      → sign mac valid_grant g (c ∷ secret) ≡ ok signature
      → (valid_grant (unsigned_grant g) ≡ true) × (signature ≡ mac (c ∷ secret) (unsigned_grant g))
  unfolding sign
  sign-mac g c secret signature h = elim (Bool-cases (valid_grant (unsigned_grant g))) [
    | inl t ↦ (t, cc (rw t at h))
    | inr f ↦ absurd (cc (rw f at h))
  ]

  checked_signature :
      (g : Grant) (c : ℕ) (secret s : Text)
      → valid_grant (unsigned_grant g) ≡ true
      → s ≡ mac (c ∷ secret) (unsigned_grant g)
      → is_empty s ≡ false
      → check_signature mac valid_grant g (c ∷ secret) (some s) ≡ ok []
  unfolding check_signature sign
  checked_signature g c secret [] v e n = absurd (cc n)
  checked_signature g c secret (d ∷ s) v e n = rw v (rw (sym e, same_refl (d ∷ s)) refl)

  timely :
      (g : Grant) (t : ℕ) (secret : Text)
      → valid_grant g ≡ true
      → g.not_before ≤ t
      → t < g.expires_at
      → state_errors mac valid_grant g (own_check g t secret) false ≡ []
  unfolding state_errors
  timely g t secret v a b =
      let early : ltb t g.not_before ≡ false = ground (arith, a) in
      let late : leb g.expires_at t ≡ false = ground (arith, b) in
      rw (v, early, late, own_subject g.subject.id, no_session g.session_id) refl

same_grant : {g h : Grant} → (let r : Result SignError Grant = ok g in r) ≡ ok h → g ≡ h
same_grant e = cc e

module _ (canonical_order : Obligation → Obligation → Ordering) (number : ℕ → Text)
    (mac : Text → Grant → Text) (valid_grant : Grant → Bool)
    (filled : (k : Text) (g : Grant) → is_empty (mac k g) ≡ false)
    (accepts : (k : Text) (g : Grant)
      → valid_grant (unsigned_grant g) ≡ true
      → valid_grant (record g { signature = some (mac k (unsigned_grant g)) }) ≡ true) where
  verified_with :
      (plain : Grant) (c : ℕ) (secret signature : Text) (t : ℕ)
      → valid_grant (unsigned_grant plain) ≡ true
      → signature ≡ mac (c ∷ secret) (unsigned_grant plain)
      → plain.not_before ≤ t
      → t < plain.expires_at
      → (let g : Grant = record plain { signature = some signature } in
          verify_errors mac valid_grant g (own_check g t (c ∷ secret)) false)
        ≡ ok []
  unfolding verify_errors signature_errors unsigned_grant
  verified_with plain c secret signature t v q a b =
      let g : Grant = record plain { signature = some signature } in
      let valid : valid_grant g ≡ true = rw q (accepts (c ∷ secret) plain v) in
      let there : is_empty signature ≡ false = rw q (filled (c ∷ secret) (unsigned_grant plain)) in
      rw
        (
          checked_signature mac valid_grant g c secret signature v q there,
          timely mac valid_grant g t (c ∷ secret) valid a b,
        )
        refl

  signed_verifies :
      (plain child : Grant) (c : ℕ) (secret : Text) (t : ℕ)
      → sign_if canonical_order number mac valid_grant plain (c ∷ secret) ≡ ok child
      → child.not_before ≤ t
      → t < child.expires_at
      → verify_errors mac valid_grant child (own_check child t (c ∷ secret)) false ≡ ok []
  unfolding sign_if
  signed_verifies plain child c secret t run a b =
      let (signature, e, r) = >>=-eq-ok (sign mac valid_grant plain (c ∷ secret)) _ run in
      let (v, q) = sign-mac mac valid_grant plain c secret signature e in
      subst
        (λ (g : Grant).
          g.not_before ≤ t
          → t < g.expires_at
          → verify_errors mac valid_grant g (own_check g t (c ∷ secret)) false ≡ ok [])
        (same_grant r) (verified_with plain c secret signature t v q) a b

  -- A child that is handed out with a secret that is not empty verifies with the same secret, for its
  -- own subject and at any time of its window while it is not revoked, provided that no keyed hash is
  -- the empty text and that a grant that is well formed unsigned is well formed signed.
  pub delegate-verifies :
      (parent : Grant) (s : GrantSpec) (c : ℕ) (secret : Text) (o : DelegateOptions) (child : Grant)
      (registry : Option Registry) (t : ℕ)
      → delegate_authority_grant canonical_order number mac valid_grant parent s (c ∷ secret) o
        ≡ ok (child, registry)
      → child.not_before ≤ t
      → t < child.expires_at
      → verify_errors mac valid_grant child (own_check child t (c ∷ secret)) false ≡ ok []
  delegate-verifies parent s c secret o child registry t run a b =
      let (plain, signed) =
        delegate-signed canonical_order number mac valid_grant parent s (c ∷ secret) o child
          registry run in
      signed_verifies plain child c secret t signed a b
