-- ===== src/Authority/Grant/Delegating/Delegated.antt =====
-- What delegateAuthorityGrant of packages/core/src/authority/grant.js hands out.
use Prim.Native.Nat.{Ordering}
use ruleoak.Common.{ℕ, Bool, true, ◌≡◌, refl, sym, Option, some, [], ◌∷◌, Option-cases, inl, inr}
use ruleoak.Common.Results.{Result, ok, >>=-eq-ok}
use ruleoak.Common.Texts.{Text}
use ruleoak.Authority.Budget.Registry.{Registry, Reservation, reserve}
use ruleoak.Authority.Obligations.{Obligation}
use ruleoak.Authority.Grant.{
  Version, v1_0, v1_1, Grant, v1_1_errors, delegation_errors, check_chain, attenuation_errors,
  is_attenuated,
}
use ruleoak.Authority.Grant.Verification.{sign, verify_errors}
use ruleoak.Authority.Grant.Issuing.{GrantSpec, sign_if}
use ruleoak.Authority.Grant.Delegating.{
  DelegateError, DelegateOptions, thrown, holder, is_partitioned, reserve_part, reserve_if,
  delegate_authority_grant,
}
use ruleoak.Authority.Grant.Delegating.Steps.{thrown-ok, delegate-Steps}

ok_value : {E A : Type 0} {a b : A} → (let r : Result E A = ok a in r) ≡ ok b → a ≡ b
ok_value h = cc h

unsigned_v1_1 :
    (v w : Version) (parent g : Grant) (s : Option Text)
    → v1_1_errors v w parent (record g { signature = s }) ≡ v1_1_errors v w parent g
unfolding v1_1_errors delegation_errors
unsigned_v1_1 v1_0 w parent g s = refl
unsigned_v1_1 v1_1 v1_0 parent g s = refl
unsigned_v1_1 v1_1 v1_1 parent g s = refl

-- The signature does not enter the check of attenuation.
unsigned_errors :
    (parent g : Grant) (s : Option Text)
    → attenuation_errors parent (record g { signature = s }) ≡ attenuation_errors parent g
unfolding attenuation_errors check_chain
unsigned_errors parent g s = rw (unsigned_v1_1 parent.version g.version parent g s) refl

module _ (canonical_order : Obligation → Obligation → Ordering) (number : ℕ → Text)
    (mac : Text → Grant → Text) (valid_grant : Grant → Bool) where
  -- A child that is handed out: the parent verifies with the secret, the child is an attenuation of
  -- it, and where the parent partitions its budget, the child's is reserved.
  pub record IsDelegated (parent : Grant) (secret : Text) (o : DelegateOptions) (child : Grant)
      (registry : Option Registry) : Type 0 where
    pub verified :
        verify_errors mac valid_grant parent
          (record o.verification { secret = some secret })
          o.parent_revoked
        ≡ ok []
    pub attenuated : is_attenuated parent child ≡ true
    pub reserved :
        is_partitioned canonical_order number mac valid_grant parent ≡ true
        → (before : Registry) × (r : Reservation) × (after : Registry) × (o.registry ≡ some before)
          × (reserve before (holder parent) (holder child) o.verification.now ≡ ok (r, after))
          × (registry ≡ some after)

  signed-IsPlain :
      (plain child : Grant) (secret : Text)
      → sign_if canonical_order number mac valid_grant plain secret ≡ ok child
      → (s : Option Text) × (child ≡ record plain { signature = s })
  unfolding sign_if
  signed-IsPlain plain child [] h = (plain.signature, cc h)
  signed-IsPlain plain child (c ∷ secret) h =
      let (signature, e, r) = >>=-eq-ok (sign mac valid_grant plain (c ∷ secret)) _ h in
      (some signature, sym (ok_value r))

  attenuated_signed :
      (parent plain : Grant) (s : Option Text)
      → attenuation_errors parent plain ≡ []
      → is_attenuated parent (record plain { signature = s }) ≡ true
  unfolding is_attenuated
  attenuated_signed parent plain s h = rw (unsigned_errors parent plain s, h) refl

  reserved_part :
      (parent child : Grant) (o : DelegateOptions) (registry : Option Registry)
      → reserve_part canonical_order number mac valid_grant parent child o.verification.now
          o.registry
        ≡ ok registry
      → (before : Registry) × (r : Reservation) × (after : Registry) × (o.registry ≡ some before)
        × (reserve before (holder parent) (holder child) o.verification.now ≡ ok (r, after))
        × (registry ≡ some after)
  unfolding reserve_part
  reserved_part parent child o registry h = elim (Option-cases o.registry) [
    | inl n ↦ absurd (cc (rw n at h))
    | inr (before, e) ↦
        let k = rw e at h in
        let ((r, after), q, z) =
          >>=-eq-ok
            (thrown DelegateError.not_reserved
              (reserve before (holder parent) (holder child) o.verification.now))
            _ k in
        (before, r, after, e, thrown-ok DelegateError.not_reserved _ q, sym (ok_value z))
  ]

  -- A delegation that succeeds hands out a child of a parent that verifies with the secret; the child
  -- is an attenuation of the parent, and where the parent partitions its budget, the reservation of
  -- the child's budget in the registry that is given succeeds and leaves the registry that is returned.
  pub delegate-IsDelegated :
      (parent : Grant) (s : GrantSpec) (secret : Text) (o : DelegateOptions) (child : Grant)
      (registry : Option Registry)
      → delegate_authority_grant canonical_order number mac valid_grant parent s secret o
        ≡ ok (child, registry)
      → IsDelegated parent secret o child registry
  unfolding reserve_if
  delegate-IsDelegated parent s secret o child registry run =
      let steps =
        delegate-Steps canonical_order number mac valid_grant parent s secret o child registry
          run in
      let (signature, e) = signed-IsPlain steps.plain child secret steps.signed in
      record {
        verified = steps.verified;
        attenuated = rw e (attenuated_signed parent steps.plain signature steps.narrowed);
        reserved = λ t. reserved_part parent child o registry (rw t at steps.reserved);
      }

  pub delegate-signed :
      (parent : Grant) (s : GrantSpec) (secret : Text) (o : DelegateOptions) (child : Grant)
      (registry : Option Registry)
      → delegate_authority_grant canonical_order number mac valid_grant parent s secret o
        ≡ ok (child, registry)
      → (plain : Grant) × (sign_if canonical_order number mac valid_grant plain secret ≡ ok child)
  delegate-signed parent s secret o child registry run =
      let steps =
        delegate-Steps canonical_order number mac valid_grant parent s secret o child registry
          run in
      (steps.plain, steps.signed)
