-- ===== src/Authority/Grant/Issuing.antt =====
-- Building a grant: buildAuthorityGrant of packages/core/src/authority/grant.js. The random
-- identifier, the keyed hash and the structural validation are parameters. A capability lists its
-- actions and resources.
use Prim.Native.Nat.{Ordering}
use ruleoak.Common.{
  ℕ, suc, ◌+◌, Bool, true, false, not, ◌||◌, Option, none, some, List, [], ◌∷◌, ltb, if◌then◌else◌,
  is_empty, map, select,
}
use ruleoak.Common.Results.{Result, ok, err, ◌>>=◌}
use ruleoak.Common.Sort.{sort}
use ruleoak.Common.Texts.{Text, text}
use ruleoak.Common.Ordered.{compare_text, distinct}
use ruleoak.Permission.Call.{or_default}
use ruleoak.Authority.Budget.{Field, Budget, RawBudget, normalize_authority_budget}
use ruleoak.Authority.Obligations.{Obligation, Item, ObligationError, normalize_obligations}
use ruleoak.Authority.Grant.{
  Version, v1_0, v1_1, Principal, Capability, BudgetMode, inherit, Delegation, Grant,
}
use ruleoak.Authority.Grant.Verification.{SignError, sign}

-- A time as the caller writes it.
pub data Given : Type 0 where
  absent no_date : Given
  date : ℕ → Given

pub record RawDelegation : Type 0 where
  pub allowed : Bool
  pub max_depth : Option ℕ
  pub budget_mode : Option BudgetMode

pub record GrantSpec : Type 0 where
  pub version : Option Version
  pub grant_id : Text
  pub issuer : Text
  pub subject : Option Principal
  pub principal_chain : List Principal
  pub capabilities : List Capability
  pub not_before : Given
  pub expires_at : Given
  pub ttl_ms : Option ℕ
  pub parent_grant_id : Text
  pub delegation_depth : Option ℕ
  pub task_id : Text
  pub intent_id : Text
  pub session_id : Text
  pub ancestor_grant_ids : Option (List Text)
  pub budget : Option RawBudget
  pub obligations : Option (List Item)
  pub delegation : Option RawDelegation

-- `issued_at` is options.issuedAt, options.now, spec.issued_at or the clock, `none` where no date.
pub record IssueOptions : Type 0 where
  pub issued_at : Option ℕ
  pub not_before : Given
  pub ttl_ms : Option ℕ
  pub grant_id : Text
  pub issuer : Text
  pub subject : Option Principal
  pub random_id : Text

pub data IssueError : Type 0 where
  no_issue_time no_start no_expiry no_subject empty_actions empty_resources : IssueError
  budget_refused : Field → IssueError
  obligation_refused : ObligationError → IssueError
  invalid_grant : IssueError
  unsigned : SignError → IssueError

abbrev pub optional : Text → Option Text
optional s = if is_empty s then none else some s

abbrev pub text_in : Option Text → Text
text_in none = []
text_in (some s) = s

abbrev pub filled : Option Text → Option Text
filled o = optional (text_in o)

-- normalizePrincipal, on an object
unfoldable pub normalize_principal : Principal → Principal
normalize_principal p = record {
  type = or_default p.type (text "agent");
  id = or_default p.id (text_in p.name);
  name = filled p.name;
  issuer = filled p.issuer;
}

abbrev pub unknown_agent : Principal
unknown_agent = record {
  type = text "agent";
  id = text "unknown-agent";
  name = none;
  issuer = none;
}

abbrev pub or_else {ℓ} : {A : Type ℓ} → Option A → Option A → Option A
or_else none b = b
or_else (some a) b = some a

abbrev pub or_value {ℓ} : {A : Type ℓ} → Option A → A → A
or_value none d = d
or_value (some a) d = a

-- uniqueSorted
unfoldable pub unique_sorted : List Text → List Text
unique_sorted values = sort compare_text (distinct (select (λ v. not (is_empty v)) values))

abbrev pub is_given {ℓ} : {A : Type ℓ} → Option A → Bool
is_given none = false
is_given (some a) = true

-- grantVersionFor
unfoldable pub grant_version_for : GrantSpec → Version
grant_version_for s = or_value s.version (
    if is_given s.delegation
      || is_given s.budget
      || is_given s.obligations
      || is_given s.ancestor_grant_ids
    then v1_1
    else v1_0)

-- normalizeDelegationPolicy
unfoldable pub normalize_delegation_policy : Option RawDelegation → ℕ → Delegation
normalize_delegation_policy none depth = record {
  allowed = false;
  max_depth = depth;
  budget_mode = inherit;
}
normalize_delegation_policy (some d) depth = record {
  allowed = d.allowed;
  max_depth = or_value d.max_depth (if d.allowed then depth + 1 else depth);
  budget_mode = or_value d.budget_mode inherit;
}

abbrev pub require : Bool → IssueError → Result IssueError (Unit {0})
require b e = if b then ok tt else err e

abbrev pub for_v1_1 {ℓ} : {A : Type ℓ} → Version → A → A → A
for_v1_1 v1_0 a b = a
for_v1_1 v1_1 a b = b

abbrev pub thrown {ε ℓ} :
    {E : Type ε} {A : Type ℓ} → (E → IssueError) → Result E A → Result IssueError A
thrown f (ok a) = ok a
thrown f (err e) = err (f e)

-- normalizeCapabilities; an id that is absent is numbered by the text that is given for it.
unfoldable pub normalize_capabilities :
    (ℕ → Text) → ℕ → List Capability → Result IssueError (List Capability)
normalize_capabilities number index [] = ok []
normalize_capabilities number index (c ∷ cs) = do
  let actions = unique_sorted c.actions
  let resources = unique_sorted c.resources
  _ ← require (not (is_empty actions)) empty_actions
  _ ← require (not (is_empty resources)) empty_resources
  rest ← normalize_capabilities number (suc index) cs
  ok (
      record { id = or_default c.id (number (suc index)); actions = actions; resources = resources }
      ∷ rest)

abbrev pub or_given : Given → Given → Given
or_given absent b = b
or_given a b = a

abbrev pub date_of : IssueError → Given → ℕ → Result IssueError ℕ
date_of e absent default = ok default
date_of e no_date default = err e
date_of e (date t) default = ok t

-- Math.max(1000, ttl), and an hour where there is none.
abbrev pub ttl_of : Option ℕ → ℕ
ttl_of none = 3600000
ttl_of (some t) = if ltb t 1000 then 1000 else t

abbrev pub chain_of : List Principal → Principal → List Principal
chain_of [] subject = subject ∷ []
chain_of (p ∷ ps) subject = map normalize_principal (p ∷ ps)

abbrev pub subject_of : GrantSpec → IssueOptions → Principal
subject_of s o = normalize_principal (or_value (or_else s.subject o.subject) unknown_agent)

abbrev pub nothing : Budget
nothing f = none

abbrev pub issue_time : Option ℕ → Result IssueError ℕ
issue_time none = err no_issue_time
issue_time (some t) = ok t

module _ (canonical_order : Obligation → Obligation → Ordering) (number : ℕ → Text)
    (mac : Text → Grant → Text) (valid_grant : Grant → Bool) where
  -- buildAuthorityGrant up to the signature
  unfoldable pub build_unsigned : GrantSpec → IssueOptions → Result IssueError Grant
  build_unsigned s o = do
    issued ← issue_time o.issued_at
    start ← date_of no_start (or_given s.not_before o.not_before) issued
    end ← date_of no_expiry s.expires_at (issued + ttl_of (or_else o.ttl_ms s.ttl_ms))
    let subject = subject_of s o
    _ ← require (not (is_empty subject.id)) no_subject
    let depth = or_value s.delegation_depth 0
    let version = grant_version_for s
    capabilities ← normalize_capabilities number 0 s.capabilities
    budget ←
        for_v1_1 version (ok nothing)
          (thrown budget_refused (normalize_authority_budget (or_value s.budget (λ f. none))))
    obligations ← for_v1_1 version (ok []) (
        thrown obligation_refused
          (normalize_obligations canonical_order (or_value s.obligations [])))
    let grant : Grant = record {
      version = version;
      grant_id = or_default s.grant_id (or_default o.grant_id o.random_id);
      issuer = or_default s.issuer (or_default o.issuer (text "ruleoak"));
      subject = subject;
      principal_chain = chain_of s.principal_chain subject;
      capabilities = capabilities;
      issued_at = issued;
      not_before = start;
      expires_at = end;
      parent_grant_id = optional s.parent_grant_id;
      delegation_depth = depth;
      task_id = optional s.task_id;
      intent_id = optional s.intent_id;
      session_id = optional s.session_id;
      ancestor_grant_ids = for_v1_1 version [] (or_value s.ancestor_grant_ids []);
      budget = budget;
      obligations = obligations;
      delegation =
          for_v1_1 version (normalize_delegation_policy none 0)
            (normalize_delegation_policy s.delegation depth);
      signature = none;
    }
    _ ← require (valid_grant grant) invalid_grant
    ok grant

  -- signAuthorityGrant, where there is a secret
  unfoldable pub sign_if : Grant → Text → Result SignError Grant
  sign_if g [] = ok g
  sign_if g (c ∷ secret) = do
    signature ← sign mac valid_grant g (c ∷ secret)
    ok (record g { signature = some signature })

  -- buildAuthorityGrant
  unfoldable pub build_authority_grant : GrantSpec → IssueOptions → Text → Result IssueError Grant
  build_authority_grant s o secret = do
    grant ← build_unsigned s o
    thrown unsigned (sign_if grant secret)
