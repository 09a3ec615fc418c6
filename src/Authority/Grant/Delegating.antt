-- ===== src/Authority/Grant/Delegating.antt =====
-- delegateAuthorityGrant of packages/core/src/authority/grant.js. The answer of the revocation
-- registry on the parent is given; the budget registry may be absent.
mod Steps
pub mod Delegated
pub mod Verifying
use Prim.Native.Nat.{Ordering}
use ruleoak.Common.{
  ℕ, ◌+◌, Bool, true, false, not, ◌&&◌, Option, none, some, List, [], ◌∷◌, ◌++◌, ltb, if◌then◌else◌,
  is_empty,
}
use ruleoak.Common.Results.{Result, ok, err, ◌>>=◌}
use ruleoak.Common.Texts.{Text}
use ruleoak.Permission.Call.{or_default}
use ruleoak.Authority.Budget.{
  Number, whole, Budget, RawBudget, InheritError, inherit_authority_budget,
}
use ruleoak.Authority.Budget.Registry.{BudgetHolder, Registry, Reservation, ReserveError, reserve}
use ruleoak.Authority.Obligations.{Obligation, ObligationError, items, merge_authority_obligations}
use ruleoak.Authority.Grant.{
  Version, v1_0, v1_1, Principal, Grant, AttenuationError, attenuation_errors, is_partition,
}
use ruleoak.Authority.Grant.Verification.{VerifyError, VerifyOptions, SignError, verify_errors}
use ruleoak.Authority.Grant.Issuing.{
  Given, absent, no_date, date, RawDelegation, GrantSpec, IssueOptions, IssueError, or_value,
  text_in, normalize_principal, unknown_agent, build_unsigned, sign_if,
}

pub data DelegateError : Type 0 where
  parent_invalid : List VerifyError → DelegateError
  signing : SignError → DelegateError
  no_subject no_time bad_start not_allowed too_deep registry_required : DelegateError
  not_inherited : InheritError → DelegateError
  not_merged : ObligationError → DelegateError
  not_built : IssueError → DelegateError
  exceeds_parent : List AttenuationError → DelegateError
  not_reserved : ReserveError → DelegateError

-- `verification` holds the time and what is expected of the parent.
pub record DelegateOptions : Type 0 where
  pub verification : VerifyOptions
  pub issue : IssueOptions
  pub parent_revoked : Bool
  pub registry : Option Registry

abbrev pub thrown {ε ℓ} :
    {E : Type ε} {A : Type ℓ} → (E → DelegateError) → Result E A → Result DelegateError A
thrown f (ok a) = ok a
thrown f (err e) = err (f e)

abbrev pub require : Bool → DelegateError → Result DelegateError (Unit {0})
require b e = if b then ok tt else err e

abbrev pub no_errors {ℓ} :
    {E : Type ℓ} → (List E → DelegateError) → List E → Result DelegateError (Unit {0})
no_errors f [] = ok tt
no_errors f (e ∷ es) = err (f (e ∷ es))

abbrev pub time_of : Option ℕ → Result DelegateError ℕ
time_of none = err no_time
time_of (some t) = ok t

abbrev pub at_least : ℕ → ℕ → ℕ
at_least a b = if ltb a b then b else a

-- Math.max of the time of issuance, the parent's start and the start that is requested.
abbrev pub start_of : ℕ → ℕ → Given → Result DelegateError ℕ
start_of now parent absent = ok (at_least now parent)
start_of now parent no_date = err bad_start
start_of now parent (date t) = ok (at_least (at_least now parent) t)

abbrev pub end_of : Given → ℕ → Given
end_of absent parent = date parent
end_of g parent = g

-- A normalized budget as it is handed on.
abbrev pub raw : Budget → RawBudget
raw b f = elim (b f) [ some n ↦ some (whole n) | none ↦ none ]

abbrev pub is_v1_1 : Version → Bool
is_v1_1 v1_0 = false
is_v1_1 v1_1 = true

unfoldable pub child_delegation : Grant → RawDelegation → ℕ → RawDelegation
child_delegation parent requested depth = record {
  allowed = requested.allowed;
  max_depth = some (
      or_value requested.max_depth
        (if requested.allowed then parent.delegation.max_depth else depth));
  budget_mode = some (or_value requested.budget_mode parent.delegation.budget_mode);
}

abbrev pub nothing_requested : RawDelegation
nothing_requested = record { allowed = false; max_depth = none; budget_mode = none }

abbrev pub subject_of : GrantSpec → Principal
subject_of s = normalize_principal (or_value s.subject unknown_agent)

-- The fields of the child that are not those of version 1.1.
abbrev pub basic_spec : Grant → GrantSpec → ℕ → GrantSpec
basic_spec parent s start = record s {
  version = some parent.version;
  issuer = or_default parent.subject.id parent.issuer;
  subject = some (subject_of s);
  principal_chain = parent.principal_chain ++ subject_of s ∷ [];
  parent_grant_id = parent.grant_id;
  delegation_depth = some (parent.delegation_depth + 1);
  not_before = date start;
  expires_at = end_of s.expires_at parent.expires_at;
  task_id = or_default s.task_id (text_in parent.task_id);
  intent_id = or_default s.intent_id (text_in parent.intent_id);
  session_id = or_default s.session_id (text_in parent.session_id);
}

abbrev pub holder : Grant → BudgetHolder
holder g = record { grant_id = g.grant_id; budget = raw g.budget }

abbrev pub reserved : Reservation × Registry → Option Registry
reserved (r, registry) = some registry

module _ (canonical_order : Obligation → Obligation → Ordering) (number : ℕ → Text)
    (mac : Text → Grant → Text) (valid_grant : Grant → Bool) where
  -- What is asked of a parent of version 1.1, and the specification of the child.
  unfoldable pub child_spec : Version → Grant → GrantSpec → ℕ → Result DelegateError GrantSpec
  child_spec v1_0 parent s start = ok (basic_spec parent s start)
  child_spec v1_1 parent s start = do
    _ ← require parent.delegation.allowed not_allowed
    _ ← require (not (ltb parent.delegation.max_depth (parent.delegation_depth + 1))) too_deep
    budget ←
        thrown not_inherited
          (inherit_authority_budget (raw parent.budget) (or_value s.budget (λ f. none)))
    obligations ← thrown not_merged (
        merge_authority_obligations canonical_order (items parent.obligations)
          (or_value s.obligations []))
    ok (record (basic_spec parent s start) {
      ancestor_grant_ids = some (parent.ancestor_grant_ids ++ parent.grant_id ∷ []);
      budget = some (raw budget);
      obligations = some (items obligations);
      delegation = some (
          child_delegation parent (or_value s.delegation nothing_requested)
            (parent.delegation_depth + 1));
    })

  -- The reservation that partition asks for: the next registry.
  unfoldable pub reserve_part :
      Grant → Grant → Option ℕ → Option Registry → Result DelegateError (Option Registry)
  reserve_part parent child now none = err registry_required
  reserve_part parent child now (some registry) = do
    r ← thrown not_reserved (reserve registry (holder parent) (holder child) now)
    ok (reserved r)

  abbrev pub is_partitioned : Grant → Bool
  is_partitioned parent = is_v1_1 parent.version && is_partition parent.delegation.budget_mode

  unfoldable pub reserve_if :
      Bool → Grant → Grant → DelegateOptions → Result DelegateError (Option Registry)
  reserve_if true parent child o = reserve_part parent child o.verification.now o.registry
  reserve_if false parent child o = ok o.registry

  -- delegateAuthorityGrant: the child and the next budget registry.
  unfoldable pub delegate_authority_grant :
      Grant → GrantSpec → Text → DelegateOptions → Result DelegateError (Grant × Option Registry)
  delegate_authority_grant parent s secret o = do
    errors ← thrown signing (
        verify_errors mac valid_grant parent (record o.verification { secret = some secret })
          o.parent_revoked)
    _ ← no_errors parent_invalid errors
    _ ← require (not (is_empty (subject_of s).id)) no_subject
    now ← time_of o.verification.now
    start ← start_of now parent.not_before s.not_before
    spec ← child_spec parent.version parent s start
    child ← thrown not_built (build_unsigned canonical_order number mac valid_grant spec o.issue)
    _ ← no_errors exceeds_parent (attenuation_errors parent child)
    signed ← thrown signing (sign_if canonical_order number mac valid_grant child secret)
    registry ← reserve_if (is_partitioned parent) parent signed o
    ok (signed, registry)
