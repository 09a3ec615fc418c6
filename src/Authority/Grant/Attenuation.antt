-- ===== src/Authority/Grant/Attenuation.antt =====
-- A parent and a child that passes isAuthorityGrantAttenuated of
-- packages/core/src/authority/grant.js.
use ruleoak.Common.{
  ℕ, ◌+◌, ◌≤◌, Bool, true, false, not, ◌≡◌, refl, ap, Option, none, some, List, [], ◌∷◌, arith, ltb,
  any, any-In, find-In, any_of_In, all-In, In, head, tail, is_empty, Bool-cases, and-eq-true, inl,
  inr, ◌==◌, length,
}
use ruleoak.Common.Texts.{Text, text, same_iff, ends_with}
use ruleoak.Engine.Glob.{dot_ok}
use ruleoak.Engine.Glob.Matching.{Each}
use ruleoak.Authority.Pattern.{authority_pattern_matches, authority_pattern_is_within}
use ruleoak.Authority.Pattern.Laws.{IsSubtree, within_sound}
use ruleoak.Authority.Grant.{
  Principal, Capability, Grant, AttenuationError, starts_early, expires_late, push_if, push_all,
  chain_errors, check_chain, patterns_within, capability_within, capability_errors, v1_1_errors,
  attenuation_errors, is_attenuated, capability_permits, same_optional, matched_capability,
}

-- A pattern that ends with `**` has no other wildcard.
abbrev pub IsPlainSubtree : Text → Type 0
IsPlainSubtree p = ends_with (text "**") p ≡ true → IsSubtree p

-- Every pattern of the grant is of that shape.
abbrev pub HasPlainSubtrees : Grant → Type 0
HasPlainSubtrees g =
    (c : Capability)
    → In c g.capabilities
    → (p : Text) → (In p c.actions → IsPlainSubtree p) × (In p c.resources → IsPlainSubtree p)

-- A text without line terminators.
abbrev pub IsLine : Text → Type 0
IsLine s = Each dot_ok s

patterns_within_sound :
    (child parent : List Text) (v : Text)
    → ((p : Text) → In p parent → IsPlainSubtree p)
    → IsLine v
    → patterns_within child parent ≡ true
    → any (λ p. authority_pattern_matches p v) child ≡ true
    → any (λ p. authority_pattern_matches p v) parent ≡ true
unfolding patterns_within
patterns_within_sound child parent v shape line within h =
    let c = any-In (λ p. authority_pattern_matches p v) child h in
    let k = all-In (λ c. any (λ p. authority_pattern_is_within c p) parent) child within c.1 in
    let p = any-In (λ p. authority_pattern_is_within c.0 p) parent k in
    any_of_In (λ p. authority_pattern_matches p v) parent p.1
      (within_sound c.0 v line c.2 p.0 (shape p.0 p.1) p.2)

capability_within_sound :
    (child parent : Capability) (action resource : Text)
    → ((p : Text)
        → (In p parent.actions → IsPlainSubtree p) × (In p parent.resources → IsPlainSubtree p))
    → IsLine action
    → IsLine resource
    → capability_within child parent ≡ true
    → capability_permits action resource child ≡ true
    → capability_permits action resource parent ≡ true
unfolding capability_within capability_permits
capability_within_sound child parent action resource shape la lr within h =
    let w = and-eq-true _ _ within in
    let k = and-eq-true _ _ h in
    rw (
      patterns_within_sound child.actions parent.actions action (λ p i. (shape p).0 i) la w.0 k.0,
      patterns_within_sound child.resources parent.resources resource (λ p i. (shape p).1 i) lr w.1
          k.1,
    )

pub push_if-nil :
    (t : Bool) (e : AttenuationError) (later : List AttenuationError)
    → push_if t e later ≡ []
    → (t ≡ false) × (later ≡ [])
push_if-nil true e later h = absurd (cc h)
push_if-nil false e later h = (refl, h)

pub push_all-nil {ℓ} :
    {A : Type ℓ} (f : A → AttenuationError) (xs : List A) (later : List AttenuationError)
    → push_all f xs later ≡ []
    → (xs ≡ []) × (later ≡ [])
push_all-nil f [] later h = (refl, h)
push_all-nil f (x ∷ xs) later h = absurd (cc h)

capability_errors-nil :
    (parent cs : List Capability) (later : List AttenuationError)
    → capability_errors parent cs later ≡ []
    → ((c : Capability) → In c cs → any (capability_within c) parent ≡ true) × (later ≡ [])
unfolding capability_errors
capability_errors-nil parent [] later h = (λ c i. elim i [ ], h)
capability_errors-nil parent (d ∷ cs) later h =
    let s = push_if-nil _ _ _ h in
    let ih = capability_errors-nil parent cs later s.1 in
    (λ c i. at_or_after c (not_false _ s.0) ih.0 i, ih.1)
  where
    not_false : (b : Bool) → not b ≡ false → b ≡ true
    not_false true e = refl
    not_false false e = absurd (cc e)

    at_or_after :
        (c : Capability)
        → any (capability_within d) parent ≡ true
        → ((c : Capability) → In c cs → any (capability_within c) parent ≡ true)
        → In c (d ∷ cs)
        → any (capability_within c) parent ≡ true
    at_or_after c now ih (head e) = rw e now
    at_or_after c now ih (tail i) = ih c i

chain_errors-nil :
    (ps cs : List Principal) (subject : Principal) (later : List AttenuationError)
    → chain_errors ps cs subject later ≡ []
    → later ≡ []
unfolding chain_errors
chain_errors-nil (p ∷ ps) [] subject later h = absurd (cc h)
chain_errors-nil (p ∷ ps) (c ∷ cs) subject later h =
    chain_errors-nil ps cs subject later (push_if-nil _ _ _ h).1
chain_errors-nil [] [] subject later h = absurd (cc h)
chain_errors-nil [] (last ∷ []) subject later h = (push_if-nil _ _ _ h).1
chain_errors-nil [] (a ∷ b ∷ cs) subject later h = absurd (cc h)

check_chain-nil :
    (parent child : Grant) (later : List AttenuationError)
    → check_chain parent child later ≡ []
    → (length child.principal_chain ≡ length parent.principal_chain + 1) × (later ≡ [])
unfolding check_chain
check_chain-nil parent child later h =
    elim (Bool-cases (length child.principal_chain == length parent.principal_chain + 1)) [
      | inl t ↦ (ground arith, chain_errors-nil _ _ _ later (rw t at h))
      | inr f ↦ absurd (cc (rw f at h))
    ]

-- What an accepted child has, beside its capabilities.
pub record IsNarrowed (parent child : Grant) : Type 0 where
  pub parent_id : child.parent_grant_id ≡ some parent.grant_id
  pub depth : child.delegation_depth ≡ parent.delegation_depth + 1
  pub issued_by_subject : child.issuer ≡ parent.subject.id
  pub starts : parent.not_before ≤ child.not_before
  pub ends : child.expires_at ≤ parent.expires_at
  pub chain : length child.principal_chain ≡ length parent.principal_chain + 1
  pub covered :
      (c : Capability)
      → In c child.capabilities
      → any (capability_within c) parent.capabilities ≡ true
  pub later : v1_1_errors parent.version child.version parent child ≡ []

pub not-false : (b : Bool) → not b ≡ false → b ≡ true
not-false true e = refl
not-false false e = absurd (cc e)

same_optional-some : (a : Option Text) (b : Text) → same_optional a (some b) ≡ true → a ≡ some b
same_optional-some none b h = absurd (cc h)
same_optional-some (some a) b h = ap some ((same_iff a b).0 h)

pub at_most : (m n : ℕ) → ltb m n ≡ false → n ≤ m
at_most m n t = ground arith

pub attenuated-IsNarrowed :
    (parent child : Grant) → is_attenuated parent child ≡ true → IsNarrowed parent child
unfolding is_attenuated attenuation_errors
attenuated-IsNarrowed parent child h =
    let a = push_if-nil _ _ _ (is_empty-nil _ h) in
    let b = push_if-nil _ _ _ a.1 in
    let c = push_if-nil _ _ _ b.1 in
    let d = push_if-nil (ltb child.not_before parent.not_before) starts_early _ c.1 in
    let e = push_if-nil (ltb parent.expires_at child.expires_at) expires_late _ d.1 in
    let f = check_chain-nil parent child _ e.1 in
    let g = capability_errors-nil parent.capabilities child.capabilities _ f.1 in
    record {
      parent_id = same_optional-some _ _ (not-false _ a.0);
      depth = equal _ _ (not-false _ b.0);
      issued_by_subject = (same_iff _ _).0 (not-false _ c.0);
      starts = at_most _ _ d.0;
      ends = at_most _ _ e.0;
      chain = f.0;
      covered = g.0;
      later = g.1;
    }
  where
    is_empty-nil : (l : List AttenuationError) → is_empty l ≡ true → l ≡ []
    is_empty-nil [] e = refl
    is_empty-nil (_ ∷ _) e = absurd (cc e)

    equal : (m n : ℕ) → (m == n) ≡ true → m ≡ n
    equal m n t = ground arith

-- Whether a grant permits an action on a resource.
unfoldable pub permits : Grant → Text → Text → Bool
permits g action resource = any (capability_permits action resource) g.capabilities

-- A child that passes the attenuation check permits no action on a resource that its parent does
-- not permit, provided that the parent's patterns that end with `**` have no other wildcard and
-- that the action and the resource have no line terminator.
pub attenuated-permits :
    (parent child : Grant) (action resource : Text)
    → HasPlainSubtrees parent
    → IsLine action
    → IsLine resource
    → is_attenuated parent child ≡ true
    → permits child action resource ≡ true
    → permits parent action resource ≡ true
unfolding permits
attenuated-permits parent child action resource shape la lr h ok =
    let n = attenuated-IsNarrowed parent child h in
    let c = any-In (capability_permits action resource) child.capabilities ok in
    let p = any-In (capability_within c.0) parent.capabilities (n.covered c.0 c.1) in
    any_of_In (capability_permits action resource) parent.capabilities p.1
      (capability_within_sound c.0 p.0 action resource (shape p.0 p.1) la lr p.2 c.2)

-- The grant that an authorization rests on.
pub matched-permits :
    (g : Grant) (action resource : Text) (c : Capability)
    → matched_capability g action resource ≡ some c
    → permits g action resource ≡ true
unfolding permits matched_capability
matched-permits g action resource c h =
    let i = find-In (capability_permits action resource) g.capabilities h in
    any_of_In (capability_permits action resource) g.capabilities i.0 i.1
