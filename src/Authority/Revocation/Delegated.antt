-- ===== src/Authority/Revocation/Delegated.antt =====
-- Revocation and delegation: revocationAncestorsForGrant of packages/core/src/authority/grant.js,
-- and the chains of grants that it covers.
use ruleoak.Common.{
  ℕ, ◌≤◌, true, ◌≡◌, ◌≢◌, refl, sym, subst, some, List, [], ◌∷◌, ◌++◌, In, head, tail, is_empty,
  if◌then◌else◌,
}
use ruleoak.Common.Results.{ok}
use ruleoak.Common.Texts.{Text}
use ruleoak.Authority.Grant.{Principal, Grant, v1_1}
use ruleoak.Authority.Grant.Chain.{is_delegation_chain, leaf, ids_above, chain-ancestors}
use ruleoak.Authority.Revocation.{
  authority_grant, principal, Revocation, Entry, Registry, Limits, Request, Ancestor, not_revoked,
  revoke, is_revoked, type_fits,
}
use ruleoak.Authority.Revocation.Effect.{Reaches}
use ruleoak.Authority.Revocation.Lasting.{revoke-cascades, same_subject_refl}

abbrev pub grant_refs : List Text → List Ancestor → List Ancestor
grant_refs [] more = more
grant_refs (id ∷ ids) more = (record { type = some authority_grant; id = id }) ∷ grant_refs ids more

abbrev pub principal_refs : List Principal → List Ancestor
principal_refs [] = []
principal_refs (p ∷ ps) =
    let rest = principal_refs ps in
    if is_empty p.id then rest else (record { type = some principal; id = p.id }) ∷ rest

-- revocationAncestorsForGrant
unfoldable pub revocation_ancestors : Grant → List Ancestor
revocation_ancestors g = grant_refs g.ancestor_grant_ids (principal_refs g.principal_chain)

In-grant_refs :
    (ids : List Text) (more : List Ancestor) (id : Text)
    → In id ids
    → (a : Ancestor) × In a (grant_refs ids more) × (a.id ≡ id) × (a.type ≡ some authority_grant)
In-grant_refs [] more id i = elim i [ ]
In-grant_refs (x ∷ ids) more id (head e) =
    (record { type = some authority_grant; id = x }, head refl, sym e, refl)
In-grant_refs (x ∷ ids) more id (tail i) =
    let r = In-grant_refs ids more id i in (r.0, tail r.1, r.2, r.3)

In-append_right : (id : Text) (a b : List Text) → In id b → In id (a ++ b)
In-append_right id [] b i = i
In-append_right id (x ∷ a) b i = tail (In-append_right id a b i)

module _ (digest_of : ℕ → Revocation → Text) (line_bytes : Entry → ℕ) (limits : Limits) where
  -- After a grant of a chain of delegations below a grant of version 1.1 is revoked with cascade,
  -- however many revocations succeed after it, a check of the last grant of the chain with the
  -- ancestors that its verification gives, at the time of the revocation or later, never answers
  -- that it is not revoked.
  pub revoke-delegated :
      (root : Grant) (gs : List Grant) (r s later : Registry) (q : Request) (at now : ℕ)
      → root.version ≡ v1_1
      → is_delegation_chain root gs ≡ true
      → In q.id (ids_above root gs)
      → q.type ≡ some authority_grant
      → q.at ≡ some at
      → q.cascade ≡ true
      → revoke digest_of line_bytes limits r q ≡ ok s
      → Reaches digest_of line_bytes limits s later
      → at ≤ now
      → is_revoked digest_of line_bytes limits later authority_grant
          (leaf root gs).grant_id
          (some now)
          (revocation_ancestors (leaf root gs))
        ≢ ok not_revoked
  unfolding revocation_ancestors
  revoke-delegated root gs r s later q at now v chain i ty time c h reached le =
      let last = leaf root gs in
      let named : In q.id last.ancestor_grant_ids =
        subst (In q.id) (sym (chain-ancestors root gs v chain))
          (In-append_right q.id root.ancestor_grant_ids (ids_above root gs) i) in
      let a =
        In-grant_refs last.ancestor_grant_ids (principal_refs last.principal_chain) q.id named in
      revoke-cascades digest_of line_bytes limits r s later q authority_grant authority_grant
        last.grant_id at now (revocation_ancestors last) a.0 ty time c h reached le a.1 a.2
        (fits a.0 a.3)
    where
      fits :
          (a : Ancestor) → a.type ≡ some authority_grant → type_fits a.type authority_grant ≡ true
      fits a e = rw e (same_subject_refl authority_grant)
