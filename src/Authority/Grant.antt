-- ===== src/Authority/Grant.antt =====
-- Authority grants: the data and isAuthorityGrantAttenuated of packages/core/src/authority/grant.js.
-- Times are milliseconds. The three times of a grant are dates, as validateAuthorityGrant requires;
-- what isAuthorityGrantAttenuated makes of a time that is no date is not modelled.
pub mod Attenuation
pub mod Chain
pub mod Verification
pub mod Issuing
pub mod Delegating
use ruleoak.Common.{
  ℕ, ◌+◌, Bool, true, false, not, ◌&&◌, ◌||◌, Option, none, some, List, [], ◌∷◌, ◌++◌, ltb, leb,
  ◌==◌, if◌then◌else◌, any, all, find, is_empty, length,
}
use ruleoak.Common.Texts.{Text, same}
use ruleoak.Authority.Budget.{Budget, BudgetError, within_errors}
use ruleoak.Authority.Obligations.{Obligation, obligation_errors}
use ruleoak.Authority.Pattern.{authority_pattern_matches, authority_pattern_is_within}

pub data Version : Type 0 where
  v1_0 v1_1 : Version

pub record Principal : Type 0 where
  pub type : Text
  pub id : Text
  pub name : Option Text
  pub issuer : Option Text

pub record Capability : Type 0 where
  pub id : Text
  pub actions : List Text
  pub resources : List Text

pub data BudgetMode : Type 0 where
  inherit partition : BudgetMode

pub record Delegation : Type 0 where
  pub allowed : Bool
  pub max_depth : ℕ
  pub budget_mode : BudgetMode

-- The last four fields before the signature are those of version 1.1.
pub record Grant : Type 0 where
  pub version : Version
  pub grant_id : Text
  pub issuer : Text
  pub subject : Principal
  pub principal_chain : List Principal
  pub capabilities : List Capability
  pub issued_at : ℕ
  pub not_before : ℕ
  pub expires_at : ℕ
  pub parent_grant_id : Option Text
  pub delegation_depth : ℕ
  pub task_id : Option Text
  pub intent_id : Option Text
  pub session_id : Option Text
  pub ancestor_grant_ids : List Text
  pub budget : Budget
  pub obligations : List Obligation
  pub delegation : Delegation
  pub signature : Option Text

abbrev pub same_optional : Option Text → Option Text → Bool
same_optional none none = true
same_optional (some a) (some b) = same a b
same_optional _ _ = false

-- canonicalStringify(a) === canonicalStringify(b), on principals and on lists of texts
unfoldable pub same_principal : Principal → Principal → Bool
same_principal a b =
    same a.type b.type
    && same a.id b.id
    && same_optional a.name b.name
    && same_optional a.issuer b.issuer

unfoldable pub same_texts : List Text → List Text → Bool
same_texts [] [] = true
same_texts (a ∷ s) (b ∷ t) = same a b && same_texts s t
same_texts _ _ = false

pub data AttenuationError : Type 0 where
  wrong_parent wrong_depth wrong_issuer starts_early expires_late : AttenuationError
  chain_length chain_changed chain_end capability_exceeds : AttenuationError
  version_lowered wrong_ancestry : AttenuationError
  budget_error : BudgetError → AttenuationError
  obligation_error : Obligation → AttenuationError
  delegation_not_allowed depth_exceeds max_depth_exceeds budget_mode_widened : AttenuationError

-- if (test) errors.push(error), in front of what is pushed later
abbrev pub push_if : Bool → AttenuationError → List AttenuationError → List AttenuationError
push_if true e later = e ∷ later
push_if false e later = later

-- The comparison of the chains position by position, and the child's last principal.
unfoldable pub chain_errors :
    List Principal → List Principal → Principal → List AttenuationError → List AttenuationError
chain_errors (p ∷ ps) (c ∷ cs) subject later =
    push_if (not (same_principal c p)) chain_changed (chain_errors ps cs subject later)
chain_errors [] (last ∷ []) subject later =
    push_if (not (same last.id subject.id) || not (same last.type subject.type)) chain_end later
chain_errors _ _ subject later = chain_length ∷ later

-- The errors on the chains: a wrong length alone, or the differences.
unfoldable pub check_chain : Grant → Grant → List AttenuationError → List AttenuationError
check_chain parent child later =
    if length child.principal_chain == length parent.principal_chain + 1
    then chain_errors parent.principal_chain child.principal_chain child.subject later
    else chain_length ∷ later

-- Every pattern of the child is within some pattern of the parent.
unfoldable pub patterns_within : List Text → List Text → Bool
patterns_within child parent = all (λ c. any (λ p. authority_pattern_is_within c p) parent) child

unfoldable pub capability_within : Capability → Capability → Bool
capability_within child parent =
    patterns_within child.actions parent.actions && patterns_within child.resources parent.resources

unfoldable pub capability_errors :
    List Capability → List Capability → List AttenuationError → List AttenuationError
capability_errors parent [] later = later
capability_errors parent (c ∷ cs) later =
    push_if (not (any (capability_within c) parent)) capability_exceeds
      (capability_errors parent cs later)

abbrev pub is_partition : BudgetMode → Bool
is_partition partition = true
is_partition inherit = false

-- delegationPolicyIsWithin, for two grants of version 1.1
unfoldable pub delegation_errors : Grant → Grant → List AttenuationError
delegation_errors parent child = push_if (not parent.delegation.allowed) delegation_not_allowed (
    push_if (ltb parent.delegation.max_depth child.delegation_depth) depth_exceeds (
      push_if (ltb parent.delegation.max_depth child.delegation.max_depth) max_depth_exceeds (
        push_if
          (is_partition parent.delegation.budget_mode
            && not (is_partition child.delegation.budget_mode))
          budget_mode_widened [])))

abbrev pub push_all {ℓ} :
    {A : Type ℓ} → (A → AttenuationError) → List A → List AttenuationError → List AttenuationError
push_all f [] later = later
push_all f (x ∷ xs) later = f x ∷ push_all f xs later

-- The part of the check for a parent of version 1.1.
unfoldable pub v1_1_errors : Version → Version → Grant → Grant → List AttenuationError
v1_1_errors v1_0 child_version parent child = []
v1_1_errors v1_1 v1_0 parent child = version_lowered ∷ []
v1_1_errors v1_1 v1_1 parent child =
    push_if
      (not
        (same_texts child.ancestor_grant_ids (parent.ancestor_grant_ids ++ parent.grant_id ∷ [])))
      wrong_ancestry
      (push_all budget_error (within_errors child.budget parent.budget) (
        push_all obligation_error (obligation_errors child.obligations parent.obligations)
          (delegation_errors parent child)))

-- The errors of isAuthorityGrantAttenuated, in order.
unfoldable pub attenuation_errors : Grant → Grant → List AttenuationError
attenuation_errors parent child =
    push_if (not (same_optional child.parent_grant_id (some parent.grant_id))) wrong_parent (
      push_if (not (child.delegation_depth == parent.delegation_depth + 1)) wrong_depth (
        push_if (not (same child.issuer parent.subject.id)) wrong_issuer (
          push_if (ltb child.not_before parent.not_before) starts_early (
            push_if (ltb parent.expires_at child.expires_at) expires_late (
              check_chain parent child (
                capability_errors parent.capabilities child.capabilities
                  (v1_1_errors parent.version child.version parent child)))))))

unfoldable pub is_attenuated : Grant → Grant → Bool
is_attenuated parent child = is_empty (attenuation_errors parent child)

-- capability.actions.some(…) && capability.resources.some(…)
unfoldable pub capability_permits : Text → Text → Capability → Bool
capability_permits action resource c =
    any (λ p. authority_pattern_matches p action) c.actions
    && any (λ p. authority_pattern_matches p resource) c.resources

unfoldable pub matched_capability : Grant → Text → Text → Option Capability
matched_capability grant action resource =
    find (capability_permits action resource) grant.capabilities
