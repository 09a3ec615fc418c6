-- ===== src/Tests/Grants.antt =====
-- Examples of grants: a parent that allows delegation and a narrower child.
use mathlib.Core.Bool.{false≢true}
use ruleoak.Engine.Glob.{has_wild}
use ruleoak.Common.{
  subst, sym, ◌∙◌, ℕ, ◌+◌, ◌≤◌, Bool, true, false, ◌≡◌, refl, Option, none, some, List, [], ◌∷◌,
  ◌++◌, In, head, tail, length, any,
}
use ruleoak.Common.Texts.{Text, text, ends_with}
use ruleoak.Authority.Budget.{within_errors}
use ruleoak.Authority.Obligations.{obligation_errors}
use ruleoak.Authority.Grant.{
  v1_1, inherit, Principal, Capability, Grant, is_attenuated, capability_permits,
}
use ruleoak.Authority.Grant.Verification.{VerifyOptions, permitted, authorize, unsigned_grant}
use ruleoak.Authority.Grant.Attenuation.{HasPlainSubtrees, IsPlainSubtree, IsLine, permits}
use ruleoak.Authority.Grant.Verification.Authorizing.{IsVerified, authorize-requires}
use ruleoak.Authority.Grant.Chain.{is_delegation_chain, chain-permits, chain-bounds, chain-confined}
use ruleoak.Tests.Budgets.{runs}

abbrev pub agent : Text → Principal
agent id = record { type = text "agent"; id = id; name = none; issuer = none }

abbrev pub root : Grant
root = record {
  version = v1_1;
  grant_id = text "g0";
  issuer = text "ruleoak";
  subject = agent (text "a");
  principal_chain = agent (text "a") ∷ [];
  capabilities =
      (record {
        id = text "cap_1";
        actions = text "file.read" ∷ [];
        resources = text "ruleoak://file/**" ∷ [];
      })
      ∷ [];
  issued_at = 10;
  not_before = 10;
  expires_at = 90;
  parent_grant_id = none;
  delegation_depth = 0;
  task_id = none;
  intent_id = none;
  session_id = none;
  ancestor_grant_ids = [];
  budget = runs 5;
  obligations = [];
  delegation = record { allowed = true; max_depth = 1; budget_mode = inherit };
  signature = none;
}

abbrev pub cap : Capability
cap = record {
  id = text "cap_1";
  actions = text "file.read" ∷ [];
  resources = text "ruleoak://file/src/*" ∷ [];
}

abbrev pub child : Grant
child = record {
  version = v1_1;
  grant_id = text "g1";
  issuer = text "a";
  subject = agent (text "b");
  principal_chain = agent (text "a") ∷ agent (text "b") ∷ [];
  capabilities = cap ∷ [];
  issued_at = 20;
  not_before = 20;
  expires_at = 80;
  parent_grant_id = some (text "g0");
  delegation_depth = 1;
  task_id = none;
  intent_id = none;
  session_id = none;
  ancestor_grant_ids = text "g0" ∷ [];
  budget = runs 2;
  obligations = [];
  delegation = record { allowed = false; max_depth = 1; budget_mode = inherit };
  signature = none;
}

abbrev resource : Text
resource = text "ruleoak://file/src/x"

action-IsLine : IsLine (text "file.read")
action-IsLine = (refl, (refl, (refl, (refl, (refl, (refl, (refl, (refl, (refl, tt)))))))))

resource-IsLine : IsLine resource
resource-IsLine = (
  refl,
  (
    refl,
    (
      refl,
      (
        refl,
        (
          refl,
          (
            refl,
            (
              refl,
              (
                refl,
                (
                  refl,
                  (
                    refl,
                    (
                      refl,
                      (refl, (refl, (refl, (refl, (refl, (refl, (refl, (refl, (refl, tt))))))))),
                    ),
                  ),
                ),
              ),
            ),
          ),
        ),
      ),
    ),
  ),
)

read_plain : IsPlainSubtree (text "file.read")
unfolding ends_with ruleoak.Common.Texts.same
read_plain e =
    let f : ends_with (text "**") (text "file.read") ≡ false = refl in
    absurd (false≢true (sym f ∙ e))

files_plain : IsPlainSubtree (text "ruleoak://file/**")
unfolding has_wild any
files_plain e = (text "ruleoak://file/", refl, refl)

only : (p q : Text) → IsPlainSubtree q → In p (q ∷ []) → IsPlainSubtree p
only p q h (head e) = subst IsPlainSubtree (sym e) h
only p q h (tail i) = elim i [ ]

root_cap_plain :
    (p : Text)
    → (In p (text "file.read" ∷ []) → IsPlainSubtree p)
      × (In p (text "ruleoak://file/**" ∷ []) → IsPlainSubtree p)
root_cap_plain p =
    (only p (text "file.read") read_plain, only p (text "ruleoak://file/**") files_plain)

sources_plain : IsPlainSubtree (text "ruleoak://file/src/*")
unfolding ends_with ruleoak.Common.Texts.same
sources_plain e =
    let f : ends_with (text "**") (text "ruleoak://file/src/*") ≡ false = refl in
    absurd (false≢true (sym f ∙ e))

child_cap_plain :
    (p : Text)
    → (In p (text "file.read" ∷ []) → IsPlainSubtree p)
      × (In p (text "ruleoak://file/src/*" ∷ []) → IsPlainSubtree p)
child_cap_plain p =
    (only p (text "file.read") read_plain, only p (text "ruleoak://file/src/*") sources_plain)

root_plain : HasPlainSubtrees root
root_plain c (head e) p =
    subst
      (λ (c : Capability).
        (In p c.actions → IsPlainSubtree p) × (In p c.resources → IsPlainSubtree p))
      (sym e) (root_cap_plain p)
root_plain c (tail i) p = elim i [ ]

attenuated : is_attenuated root child ≡ true
unfolding is_attenuated ruleoak.Authority.Grant.attenuation_errors ruleoak.Common.Texts.same
    ruleoak.Authority.Grant.check_chain ruleoak.Authority.Grant.chain_errors
    ruleoak.Authority.Grant.same_principal ruleoak.Authority.Grant.capability_errors any
    ruleoak.Authority.Grant.capability_within ruleoak.Authority.Grant.patterns_within
    ruleoak.Common.all ruleoak.Authority.Pattern.authority_pattern_is_within has_wild ends_with
    ruleoak.Common.Texts.starts_with ruleoak.Authority.Pattern.static_prefix
    ruleoak.Authority.Grant.v1_1_errors ruleoak.Authority.Grant.same_texts
    ruleoak.Authority.Budget.field_within within_errors ruleoak.Authority.Grant.delegation_errors
    ruleoak.Authority.Obligations.keeps obligation_errors ruleoak.Authority.Obligations.same_type
    ruleoak.Authority.Pattern.authority_pattern_matches ruleoak.Engine.Glob.accepts
    ruleoak.Engine.Glob.glob ruleoak.Engine.Glob.glob_test ruleoak.Engine.Glob.many
    ruleoak.Engine.Glob.step
attenuated = refl

pub delegated : is_delegation_chain root (child ∷ []) ≡ true
unfolding is_delegation_chain
delegated = rw attenuated refl

child_plain : HasPlainSubtrees child
child_plain c (head e) p =
    subst
      (λ (c : Capability).
        (In p c.actions → IsPlainSubtree p) × (In p c.resources → IsPlainSubtree p))
      (sym e) (child_cap_plain p)
child_plain c (tail i) p = elim i [ ]

chain_plain : (g : Grant) → In g (root ∷ child ∷ []) → HasPlainSubtrees g
chain_plain g (head e) = subst HasPlainSubtrees (sym e) root_plain
chain_plain g (tail (head e)) = subst HasPlainSubtrees (sym e) child_plain
chain_plain g (tail (tail i)) = elim i [ ]

chain-permits_example : permits root (text "file.read") resource ≡ true
unfolding permits any capability_permits ruleoak.Authority.Pattern.authority_pattern_matches
    ruleoak.Common.Texts.same ruleoak.Engine.Glob.glob_test ruleoak.Engine.Glob.accepts
    ruleoak.Engine.Glob.glob ruleoak.Engine.Glob.step ruleoak.Engine.Glob.many
chain-permits_example =
    chain-permits root (child ∷ []) (text "file.read") resource chain_plain action-IsLine
      resource-IsLine delegated refl

chain-bounds_example : (10 ≤ 20) × (80 ≤ 90) × (1 ≡ 0 + 1) × (2 ≡ 1 + 1)
chain-bounds_example = chain-bounds root (child ∷ []) delegated

chain-confined_example :
    (v1_1 ≡ v1_1)
    × (within_errors (runs 2) (runs 5) ≡ [])
    × (obligation_errors [] [] ≡ [])
    × (1 ≤ 1)
chain-confined_example = chain-confined root child [] refl delegated

abbrev mac : Text → Grant → Text
mac secret grant = text "hmac-sha256:1"

abbrev always : Grant → Bool
always g = true

abbrev signed_child : Grant
signed_child = record child { signature = some (text "hmac-sha256:1") }

abbrev options : VerifyOptions
options = record {
  now = some 30;
  expected_subject_id = some (text "b");
  expected_session_id = none;
  require_signature = true;
  secret = some (text "k");
}

authorize-requires_example :
    IsVerified mac always signed_child options false
    × In cap signed_child.capabilities
    × (capability_permits (text "file.read") resource cap ≡ true)
unfolding authorize ruleoak.Authority.Grant.Verification.verify_errors
    ruleoak.Authority.Grant.Verification.signature_errors
    ruleoak.Authority.Grant.Verification.check_signature ruleoak.Authority.Grant.Verification.sign
    ruleoak.Authority.Grant.Verification.state_errors ruleoak.Common.Texts.same
    ruleoak.Authority.Grant.matched_capability ruleoak.Common.find capability_permits any
    ruleoak.Authority.Pattern.authority_pattern_matches ruleoak.Engine.Glob.glob_test
    ruleoak.Engine.Glob.accepts ruleoak.Engine.Glob.glob ruleoak.Engine.Glob.step
    ruleoak.Engine.Glob.many unsigned_grant ruleoak.Authority.Grant.Verification.without_secret
authorize-requires_example =
    authorize-requires mac always signed_child options false (text "file.read") resource cap refl
