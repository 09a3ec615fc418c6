-- ===== src/Tests/Delegations.antt =====
-- An example of a delegation that partitions a budget.
use ruleoak.Common.{arith, ℕ, Bool, true, ◌≡◌, refl, Option, none, some, List, [], ◌∷◌}
use ruleoak.Common.Results.{Result, ok, err}
use ruleoak.Common.Texts.{Text, text}
use ruleoak.Authority.Budget.Registry.{Registry}
use ruleoak.Authority.Grant.{partition, Grant}
use ruleoak.Authority.Grant.Verification.{verify_errors}
use ruleoak.Authority.Grant.Issuing.{absent, GrantSpec}
use ruleoak.Authority.Grant.Delegating.{DelegateError, DelegateOptions, delegate_authority_grant}
use ruleoak.Authority.Grant.Delegating.Delegated.{IsDelegated, delegate-IsDelegated}
use ruleoak.Authority.Grant.Delegating.Verifying.{own_check, delegate-verifies}
use ruleoak.Tests.Fixtures.{no_order}
use ruleoak.Tests.Grants.{root, cap, agent}

abbrev number : ℕ → Text
number n = n ∷ []

abbrev mac : Text → Grant → Text
mac k g = text "m"

abbrev always : Grant → Bool
always g = true

abbrev parent : Grant
parent = record root {
  delegation = record { allowed = true; max_depth = 1; budget_mode = partition };
  signature = some (text "m");
}

abbrev spec : GrantSpec
spec = record {
  version = none;
  grant_id = text "g1";
  issuer = [];
  subject = some (agent (text "b"));
  principal_chain = [];
  capabilities = cap ∷ [];
  not_before = absent;
  expires_at = absent;
  ttl_ms = none;
  parent_grant_id = [];
  delegation_depth = none;
  task_id = [];
  intent_id = [];
  session_id = [];
  ancestor_grant_ids = none;
  budget = none;
  obligations = none;
  delegation = none;
}

abbrev options : DelegateOptions
options = record {
  verification = record {
    now = some 20;
    expected_subject_id = none;
    expected_session_id = none;
    require_signature = true;
    secret = none;
  };
  issue = record {
    issued_at = some 20;
    not_before = absent;
    ttl_ms = none;
    grant_id = [];
    issuer = [];
    subject = none;
    random_id = text "grant_1";
  };
  parent_revoked = ruleoak.Common.false;
  registry = some (record { records = []; capacity = none });
}

abbrev outcome : Result DelegateError (Grant × Option Registry)
outcome = delegate_authority_grant no_order number mac always parent spec (text "k") options

abbrev handed_out : Result DelegateError (Grant × Option Registry) → Grant × Option Registry
handed_out (ok r) = r
handed_out (err e) = (root, none)

succeeds : outcome ≡ ok (handed_out outcome)
unfolding delegate_authority_grant ruleoak.Authority.Grant.Delegating.reserve_if
    ruleoak.Authority.Grant.attenuation_errors ruleoak.Authority.Grant.Delegating.child_spec
    verify_errors ruleoak.Authority.Grant.Issuing.sign_if
    ruleoak.Authority.Grant.Issuing.build_unsigned ruleoak.Authority.Grant.Delegating.reserve_part
    ruleoak.Common.Texts.same ruleoak.Authority.Grant.v1_1_errors
    ruleoak.Authority.Grant.check_chain ruleoak.Authority.Grant.capability_errors
    ruleoak.Authority.Grant.Issuing.normalize_principal
    ruleoak.Authority.Obligations.merge_authority_obligations
    ruleoak.Authority.Grant.Delegating.child_delegation
    ruleoak.Authority.Budget.inherit_authority_budget
    ruleoak.Authority.Grant.Verification.state_errors
    ruleoak.Authority.Grant.Verification.signature_errors ruleoak.Authority.Grant.Verification.sign
    ruleoak.Authority.Grant.Issuing.normalize_delegation_policy
    ruleoak.Authority.Grant.Issuing.normalize_capabilities
    ruleoak.Authority.Obligations.normalize_obligations
    ruleoak.Authority.Grant.Issuing.grant_version_for
    ruleoak.Authority.Budget.normalize_authority_budget ruleoak.Authority.Budget.Registry.reserve
    ruleoak.Authority.Grant.same_texts ruleoak.Authority.Obligations.obligation_errors
    ruleoak.Authority.Grant.delegation_errors ruleoak.Authority.Budget.within_errors
    ruleoak.Authority.Grant.chain_errors ruleoak.Common.any
    ruleoak.Authority.Grant.capability_within ruleoak.Authority.Budget.merge
    ruleoak.Authority.Budget.checked ruleoak.Authority.Grant.Verification.check_signature
    ruleoak.Authority.Grant.Verification.without_secret
    ruleoak.Authority.Grant.Verification.unsigned_grant
    ruleoak.Authority.Grant.Issuing.unique_sorted ruleoak.Common.Sort.sort
    ruleoak.Authority.Obligations.collect ruleoak.Common.find
    ruleoak.Authority.Budget.Registry.perform ruleoak.Authority.Obligations.keeps
    ruleoak.Authority.Budget.field_within ruleoak.Authority.Grant.same_principal
    ruleoak.Authority.Grant.patterns_within ruleoak.Common.Ordered.compare_text
    ruleoak.Common.Ordered.distinct ruleoak.Common.select ruleoak.Common.Sort.insert
    ruleoak.Authority.Obligations.normalize_one ruleoak.Authority.Budget.bounded_number
    ruleoak.Authority.Budget.Registry.allocate ruleoak.Authority.Budget.Registry.confirm
    ruleoak.Authority.Obligations.same_type ruleoak.Common.all
    ruleoak.Authority.Pattern.authority_pattern_is_within
    ruleoak.Authority.Obligations.same_obligation ruleoak.Authority.Budget.add_authority_budgets
    ruleoak.Authority.Budget.Registry.persist ruleoak.Authority.Budget.Registry.used_from
    ruleoak.Authority.Budget.Registry.over_parent ruleoak.Authority.Budget.Registry.same_budget
    ruleoak.Engine.Glob.has_wild ruleoak.Authority.Pattern.authority_pattern_matches
    ruleoak.Common.Texts.starts_with ruleoak.Common.Texts.ends_with
    ruleoak.Authority.Pattern.static_prefix ruleoak.Engine.Glob.glob_test ruleoak.Engine.Glob.glob
    ruleoak.Engine.Glob.accepts ruleoak.Engine.Glob.step ruleoak.Engine.Glob.many
succeeds = refl

delegate-IsDelegated_example :
    IsDelegated no_order number mac always parent
      (text "k")
      options
      (handed_out outcome).0
      (handed_out outcome).1
delegate-IsDelegated_example =
    delegate-IsDelegated no_order number mac always parent spec (text "k") options
      (handed_out outcome).0 (handed_out outcome).1 succeeds

delegate-verifies_example :
    verify_errors mac always
      (handed_out outcome).0
      (own_check (handed_out outcome).0 30 (text "k"))
      ruleoak.Common.false
    ≡ ok []
unfolding delegate_authority_grant ruleoak.Authority.Grant.Delegating.reserve_if
    ruleoak.Authority.Grant.attenuation_errors ruleoak.Authority.Grant.Delegating.child_spec
    verify_errors ruleoak.Authority.Grant.Issuing.sign_if
    ruleoak.Authority.Grant.Issuing.build_unsigned ruleoak.Authority.Grant.Delegating.reserve_part
    ruleoak.Common.Texts.same ruleoak.Authority.Grant.v1_1_errors
    ruleoak.Authority.Grant.check_chain ruleoak.Authority.Grant.capability_errors
    ruleoak.Authority.Grant.Issuing.normalize_principal
    ruleoak.Authority.Obligations.merge_authority_obligations
    ruleoak.Authority.Grant.Delegating.child_delegation
    ruleoak.Authority.Budget.inherit_authority_budget
    ruleoak.Authority.Grant.Verification.state_errors
    ruleoak.Authority.Grant.Verification.signature_errors ruleoak.Authority.Grant.Verification.sign
    ruleoak.Authority.Grant.Issuing.normalize_delegation_policy
    ruleoak.Authority.Grant.Issuing.normalize_capabilities
    ruleoak.Authority.Obligations.normalize_obligations
    ruleoak.Authority.Grant.Issuing.grant_version_for
    ruleoak.Authority.Budget.normalize_authority_budget ruleoak.Authority.Budget.Registry.reserve
    ruleoak.Authority.Grant.same_texts ruleoak.Authority.Obligations.obligation_errors
    ruleoak.Authority.Grant.delegation_errors ruleoak.Authority.Budget.within_errors
    ruleoak.Authority.Grant.chain_errors ruleoak.Common.any
    ruleoak.Authority.Grant.capability_within ruleoak.Authority.Budget.merge
    ruleoak.Authority.Budget.checked ruleoak.Authority.Grant.Verification.check_signature
    ruleoak.Authority.Grant.Verification.without_secret
    ruleoak.Authority.Grant.Verification.unsigned_grant
    ruleoak.Authority.Grant.Issuing.unique_sorted ruleoak.Common.Sort.sort
    ruleoak.Authority.Obligations.collect ruleoak.Common.find
    ruleoak.Authority.Budget.Registry.perform ruleoak.Authority.Obligations.keeps
    ruleoak.Authority.Budget.field_within ruleoak.Authority.Grant.same_principal
    ruleoak.Authority.Grant.patterns_within ruleoak.Common.Ordered.compare_text
    ruleoak.Common.Ordered.distinct ruleoak.Common.select ruleoak.Common.Sort.insert
    ruleoak.Authority.Obligations.normalize_one ruleoak.Authority.Budget.bounded_number
    ruleoak.Authority.Budget.Registry.allocate ruleoak.Authority.Budget.Registry.confirm
    ruleoak.Authority.Obligations.same_type ruleoak.Common.all
    ruleoak.Authority.Pattern.authority_pattern_is_within
    ruleoak.Authority.Obligations.same_obligation ruleoak.Authority.Budget.add_authority_budgets
    ruleoak.Authority.Budget.Registry.persist ruleoak.Authority.Budget.Registry.used_from
    ruleoak.Authority.Budget.Registry.over_parent ruleoak.Authority.Budget.Registry.same_budget
    ruleoak.Engine.Glob.has_wild ruleoak.Authority.Pattern.authority_pattern_matches
    ruleoak.Common.Texts.starts_with ruleoak.Common.Texts.ends_with
    ruleoak.Authority.Pattern.static_prefix ruleoak.Engine.Glob.glob_test ruleoak.Engine.Glob.glob
    ruleoak.Engine.Glob.accepts ruleoak.Engine.Glob.step ruleoak.Engine.Glob.many
delegate-verifies_example =
    delegate-verifies no_order number mac always (λ k g. refl) (λ k g h. refl) parent spec b'k' []
      options (handed_out outcome).0 (handed_out outcome).1 30 succeeds (omega arith) (omega arith)
