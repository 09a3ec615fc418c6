-- ===== src/Authority/Grant/Chain.antt =====
-- Chains of delegated grants: each grant is an attenuation (isAuthorityGrantAttenuated of
-- packages/core/src/authority/grant.js) of the one before it.
use ruleoak.Common.{
  ◌+◌, ◌≤◌, Bool, true, ◌&&◌, ◌≡◌, ◌∙◌, refl, sym, ap, subst, List, [], ◌∷◌, ◌++◌, arith, In, head,
  tail, and-eq-true, length, ltb,
}
use ruleoak.Common.Texts.{Text, same_iff}
use mathlib.Core.List.{append-nil, append_assoc}
use ruleoak.Authority.Budget.{within_errors}
use ruleoak.Authority.Budget.Bounds.{within_trans}
use ruleoak.Authority.Obligations.{obligation_errors}
use ruleoak.Authority.Obligations.Narrowing.{obligations_within_trans}
use ruleoak.Authority.Grant.{
  Version, v1_0, v1_1, Grant, v1_1_errors, delegation_errors, depth_exceeds, max_depth_exceeds,
  is_attenuated, same_texts,
}
use ruleoak.Authority.Grant.Attenuation.{
  HasPlainSubtrees, IsLine, permits, attenuated-IsNarrowed, attenuated-permits, push_if-nil,
  push_all-nil, not-false, at_most,
}

unfoldable pub is_delegation_chain : Grant → List Grant → Bool
is_delegation_chain root [] = true
is_delegation_chain root (g ∷ gs) = is_attenuated root g && is_delegation_chain g gs

-- The last grant of a chain.
abbrev pub leaf : Grant → List Grant → Grant
leaf root [] = root
leaf root (g ∷ gs) = leaf g gs

-- The last grant of a chain of delegations permits no action on a resource that the first does
-- not permit, provided that the patterns of every grant of the chain that end with `**` have no
-- other wildcard and that the action and the resource have no line terminator.
pub chain-permits :
    (root : Grant) (gs : List Grant) (action resource : Text)
    → ((g : Grant) → In g (root ∷ gs) → HasPlainSubtrees g)
    → IsLine action
    → IsLine resource
    → is_delegation_chain root gs ≡ true
    → permits (leaf root gs) action resource ≡ true
    → permits root action resource ≡ true
unfolding is_delegation_chain
chain-permits root [] action resource shape la lr h ok = ok
chain-permits root (g ∷ gs) action resource shape la lr h ok =
    let s = and-eq-true _ _ h in
    attenuated-permits root g action resource (shape root (head refl)) la lr s.0
      (chain-permits g gs action resource (λ p i. shape p (tail i)) la lr s.1 ok)

-- The last grant of a chain is active only while the first is, and both its depth and its chain
-- of principals grow by one with each delegation.
pub chain-bounds :
    (root : Grant) (gs : List Grant)
    → is_delegation_chain root gs ≡ true
    → (root.not_before ≤ (leaf root gs).not_before)
      × ((leaf root gs).expires_at ≤ root.expires_at)
      × ((leaf root gs).delegation_depth ≡ root.delegation_depth + length gs)
      × (length (leaf root gs).principal_chain ≡ length root.principal_chain + length gs)
unfolding is_delegation_chain
chain-bounds root [] h = (omega arith, omega arith, omega arith, omega arith)
chain-bounds root (g ∷ gs) h =
    let s = and-eq-true _ _ h in
    let n = attenuated-IsNarrowed root g s.0 in
    let ih = chain-bounds g gs s.1 in
    let a = n.starts in
    let b = n.ends in
    let c = n.depth in
    let d = n.chain in
    (omega (arith, a, ih), omega (arith, b, ih), omega (arith, c, ih), omega (arith, d, ih))

same_texts-eq : (a b : List Text) → same_texts a b ≡ true → a ≡ b
unfolding same_texts
same_texts-eq [] [] h = refl
same_texts-eq [] (_ ∷ _) h = absurd (cc h)
same_texts-eq (_ ∷ _) [] h = absurd (cc h)
same_texts-eq (x ∷ a) (y ∷ b) h =
    let s = and-eq-true _ _ h in
    let e = (same_iff x y).0 s.0 in let f = same_texts-eq a b s.1 in cc (e, f)

-- What an accepted child of a grant of version 1.1 has in addition.
pub record IsNarrowedV11 (parent child : Grant) : Type 0 where
  pub version : child.version ≡ v1_1
  pub ancestors : child.ancestor_grant_ids ≡ parent.ancestor_grant_ids ++ parent.grant_id ∷ []
  pub budget : within_errors child.budget parent.budget ≡ []
  pub obligations : obligation_errors child.obligations parent.obligations ≡ []
  pub allowed : parent.delegation.allowed ≡ true
  pub depth : child.delegation_depth ≤ parent.delegation.max_depth
  pub max_depth : child.delegation.max_depth ≤ parent.delegation.max_depth

delegation-nil :
    (parent child : Grant)
    → delegation_errors parent child ≡ []
    → (parent.delegation.allowed ≡ true)
      × (child.delegation_depth ≤ parent.delegation.max_depth)
      × (child.delegation.max_depth ≤ parent.delegation.max_depth)
unfolding delegation_errors
delegation-nil parent child h =
    let a = push_if-nil _ _ _ h in
    let b =
      push_if-nil (ltb parent.delegation.max_depth child.delegation_depth) depth_exceeds _ a.1 in
    let c =
      push_if-nil (ltb parent.delegation.max_depth child.delegation.max_depth) max_depth_exceeds _
        b.1 in
    (not-false _ a.0, at_most _ _ b.0, at_most _ _ c.0)

v1_1-nil :
    (parent child : Grant) (v : Version)
    → child.version ≡ v
    → v1_1_errors v1_1 v parent child ≡ []
    → IsNarrowedV11 parent child
unfolding v1_1_errors
v1_1-nil parent child v1_0 e h = absurd (cc h)
v1_1-nil parent child v1_1 e h =
    let a = push_if-nil _ _ _ h in
    let b = push_all-nil _ _ _ a.1 in
    let c = push_all-nil _ _ _ b.1 in
    let d = delegation-nil parent child c.1 in
    record {
      version = e;
      ancestors = same_texts-eq _ _ (not-false _ a.0);
      budget = b.0;
      obligations = c.0;
      allowed = d.0;
      depth = d.1;
      max_depth = d.2;
    }

pub attenuated-IsNarrowedV11 :
    (parent child : Grant)
    → parent.version ≡ v1_1
    → is_attenuated parent child ≡ true
    → IsNarrowedV11 parent child
attenuated-IsNarrowedV11 parent child v h =
    let n = attenuated-IsNarrowed parent child h in
    v1_1-nil parent child child.version refl
      (subst (λ v. v1_1_errors v child.version parent child ≡ []) v n.later)

-- Below a grant of version 1.1, the last grant of a non-empty chain of delegations is of version
-- 1.1, has a budget within the first grant's and keeps the first grant's obligations, and its
-- depth is at most the first grant's maximum depth.
pub chain-confined :
    (root g : Grant) (gs : List Grant)
    → root.version ≡ v1_1
    → is_delegation_chain root (g ∷ gs) ≡ true
    → ((leaf g gs).version ≡ v1_1)
      × (within_errors (leaf g gs).budget root.budget ≡ [])
      × (obligation_errors (leaf g gs).obligations root.obligations ≡ [])
      × ((leaf g gs).delegation_depth ≤ root.delegation.max_depth)
unfolding is_delegation_chain
chain-confined root g [] v h =
    let n = attenuated-IsNarrowedV11 root g v (and-eq-true _ _ h).0 in
    (n.version, n.budget, n.obligations, n.depth)
chain-confined root g (k ∷ gs) v h =
    let s = and-eq-true _ _ h in
    let n = attenuated-IsNarrowedV11 root g v s.0 in
    let m = n.max_depth in
    let ih = chain-confined g k gs n.version s.1 in
    let last = leaf k gs in
    (
      ih.0,
      within_trans last.budget g.budget root.budget ih.1 n.budget,
      obligations_within_trans last.obligations g.obligations root.obligations ih.2 n.obligations,
      omega (arith, m, ih.3),
    )

-- The identifiers of a grant and of the grants before the last of a chain.
abbrev pub ids_above : Grant → List Grant → List Text
ids_above root [] = []
ids_above root (g ∷ gs) = root.grant_id ∷ ids_above g gs

-- Below a grant of version 1.1, the last grant of a chain of delegations names as its ancestors
-- those of the first grant and then every grant of the chain before it, in order.
pub chain-ancestors :
    (root : Grant) (gs : List Grant)
    → root.version ≡ v1_1
    → is_delegation_chain root gs ≡ true
    → (leaf root gs).ancestor_grant_ids ≡ root.ancestor_grant_ids ++ ids_above root gs
unfolding is_delegation_chain
chain-ancestors root [] v h = sym (append-nil root.ancestor_grant_ids)
chain-ancestors root (g ∷ gs) v h =
    let s = and-eq-true _ _ h in
    let n = attenuated-IsNarrowedV11 root g v s.0 in
    chain-ancestors g gs n.version s.1
    ∙ ap (λ l. l ++ ids_above g gs) n.ancestors
    ∙ append_assoc root.ancestor_grant_ids (root.grant_id ∷ []) (ids_above g gs)
