-- ===== src/Authority/Obligations/Narrowing.antt =====
-- Narrowing and merging of obligations (packages/core/src/authority/obligations.js).
use Prim.Native.Nat.{Ordering}
use ruleoak.Common.{
  true, ◌≡◌, ◌↔◌, refl, sym, ap, subst, List, [], ◌∷◌, ◌++◌, arith, any, any-In, any_of_In, In,
  head, tail, Bool-cases, inl, inr, ◌⊎◌,
}
use ruleoak.Common.Results.{ok, >>=-eq-ok}
use ruleoak.Common.Sort.{sort, sort_keeps}
use ruleoak.Authority.Obligations.{
  Obligation, execution_before, Item, item, items, normalize_one, same_obligation, add_unseen,
  collect, normalize_obligations, merge_authority_obligations, keeps, obligation_errors, Phase, pre,
  post, Context, satisfied, unsatisfied,
}

obligation_errors-nil :
    (child parent : List Obligation)
    → obligation_errors child parent ≡ []
    → (o : Obligation) → In o parent
    → (x : Obligation) × In x child × (keeps x o ≡ true)
unfolding obligation_errors
obligation_errors-nil child [] h o i = elim i [ ]
obligation_errors-nil child (p ∷ ps) h o i = elim (Bool-cases (any (λ x. keeps x p) child)) [
  | inl t ↦ at_or_after t (obligation_errors-nil child ps (rw t at h)) i
  | inr f ↦ let e = rw f at h in absurd (cc e)
]
  where
    at_or_after :
        any (λ x. keeps x p) child ≡ true
        → ((q : Obligation) → In q ps → (x : Obligation) × In x child × (keeps x q ≡ true))
        → In o (p ∷ ps)
        → (x : Obligation) × In x child × (keeps x o ≡ true)
    at_or_after t ih (head e) = rw e (any-In (λ x. keeps x p) child t)
    at_or_after t ih (tail j) = ih o j

nil_obligation_errors :
    (child parent : List Obligation)
    → ((o : Obligation) → In o parent → (x : Obligation) × In x child × (keeps x o ≡ true))
    → obligation_errors child parent ≡ []
unfolding obligation_errors
nil_obligation_errors child [] h = refl
nil_obligation_errors child (p ∷ ps) h =
    let k = h p (head refl) in
    rw (any_of_In (λ x. keeps x p) child k.1 k.2)
      (nil_obligation_errors child ps (λ o i. h o (tail i)))

keeps-satisfied :
    (c : Context) (phase : Phase) (x o : Obligation)
    → keeps x o ≡ true
    → satisfied c phase x ≡ true
    → satisfied c phase o ≡ true
unfolding keeps satisfied
keeps-satisfied c pre (execution_before d) (execution_before e) h k = ground arith
keeps-satisfied c post (execution_before d) (execution_before e) h k = refl
keeps-satisfied c phase x o h k = ground arith

unsatisfied-nil :
    (c : Context) (phase : Phase) (os : List Obligation)
    → (unsatisfied c phase os ≡ []) ↔ ((o : Obligation) → In o os → satisfied c phase o ≡ true)
unfolding unsatisfied
unsatisfied-nil c phase [] = (λ h o i. elim i [ ], λ h. refl)
unsatisfied-nil c phase (p ∷ ps) =
    let ih = unsatisfied-nil c phase ps in
    (forward ih.0, λ h. rw (h p (head refl)) (ih.1 (λ o i. h o (tail i))))
  where
    forward :
        (unsatisfied c phase ps ≡ [] → (o : Obligation) → In o ps → satisfied c phase o ≡ true)
        → unsatisfied c phase (p ∷ ps) ≡ []
        → (o : Obligation) → In o (p ∷ ps)
        → satisfied c phase o ≡ true
    forward ih h o i = elim (Bool-cases (satisfied c phase p)) [
      | inl t ↦ at_or_after t (ih (rw t at h)) i
      | inr f ↦ let e = rw f at h in absurd (cc e)
    ]
      where
        at_or_after :
            satisfied c phase p ≡ true
            → ((q : Obligation) → In q ps → satisfied c phase q ≡ true)
            → In o (p ∷ ps)
            → satisfied c phase o ≡ true
        at_or_after t later (head e) = rw e t
        at_or_after t later (tail j) = later o j

-- Where the child's obligations are within the parent's, a context that satisfies the child's, in
-- either phase, satisfies the parent's.
pub within-satisfied :
    (child parent : List Obligation) (c : Context) (phase : Phase)
    → obligation_errors child parent ≡ []
    → unsatisfied c phase child ≡ []
    → unsatisfied c phase parent ≡ []
within-satisfied child parent c phase within done = (unsatisfied-nil c phase parent).1 λ o i.
    let k = obligation_errors-nil child parent within o i in
    keeps-satisfied c phase k.0 o k.2 ((unsatisfied-nil c phase child).0 done k.0 k.1)

keeps_refl : (o : Obligation) → keeps o o ≡ true
unfolding keeps
keeps_refl (execution_before d) = ground arith
keeps_refl o = refl

same_obligation→eq : (a b : Obligation) → same_obligation a b ≡ true → a ≡ b
unfolding same_obligation
same_obligation→eq (execution_before a) (execution_before b) h = ground arith
same_obligation→eq a b h = ground arith

keeps_trans : (a b c : Obligation) → keeps a b ≡ true → keeps b c ≡ true → keeps a c ≡ true
unfolding keeps
keeps_trans (execution_before a) (execution_before b) (execution_before c) h k = ground arith
keeps_trans a b c h k = ground arith

-- Narrowing is transitive.
pub obligations_within_trans :
    (a b c : List Obligation)
    → obligation_errors a b ≡ []
    → obligation_errors b c ≡ []
    → obligation_errors a c ≡ []
obligations_within_trans a b c h k = nil_obligation_errors a c λ o i.
    let y = obligation_errors-nil b c k o i in
    let x = obligation_errors-nil a b h y.0 y.1 in (x.0, x.1, keeps_trans x.0 y.0 o x.2 y.2)

In-append_left : (o : Obligation) (xs ys : List Obligation) → In o xs → In o (xs ++ ys)
In-append_left o [] ys i = elim i [ ]
In-append_left o (x ∷ xs) ys (head e) = head e
In-append_left o (x ∷ xs) ys (tail i) = tail (In-append_left o xs ys i)

In-append_last : (o : Obligation) (xs : List Obligation) → In o (xs ++ o ∷ [])
In-append_last o [] = head refl
In-append_last o (x ∷ xs) = tail (In-append_last o xs)

In-add_unseen_old :
    (o : Obligation) (out : List Obligation) (p : Obligation) → In o out → In o (add_unseen out p)
In-add_unseen_old o out p i = elim (Bool-cases (any (same_obligation p) out)) [
  | inl t ↦ rw t i
  | inr f ↦ rw f (In-append_left o out (p ∷ []) i)
]

In-add_unseen_new : (o : Obligation) (out : List Obligation) → In o (add_unseen out o)
In-add_unseen_new o out = elim (Bool-cases (any (same_obligation o) out)) [
  | inl t ↦
      let a = any-In (same_obligation o) out t in
      rw t (subst (λ x. In x out) (sym (same_obligation→eq o a.0 a.2)) a.1)
  | inr f ↦ rw f (In-append_last o out)
]

collect_keeps :
    (out : List Obligation) (is : List Item) (res : List Obligation)
    → collect out is ≡ ok res
    → (o : Obligation) → (In o out) ⊎ In (item o) is
    → In o res
unfolding collect normalize_one
collect_keeps out [] res h o (inl i) = let e : out ≡ res = cc in subst (λ l. In o l) e i
collect_keeps out [] res h o (inr i) = elim i [ ]
collect_keeps out (item p ∷ is) res h o (inl i) =
    collect_keeps (add_unseen out p) is res h o (inl (In-add_unseen_old o out p i))
collect_keeps out (item p ∷ is) res h o (inr (head e)) =
    let q : o ≡ p = cc in
    collect_keeps (add_unseen out p) is res h o
      (inl (subst (λ x. In o (add_unseen out x)) q (In-add_unseen_new o out)))
collect_keeps out (item p ∷ is) res h o (inr (tail i)) =
    collect_keeps (add_unseen out p) is res h o (inr i)
collect_keeps out (Item.not_an_object ∷ is) res h o i = absurd (cc h)
collect_keeps out (Item.unsupported ∷ is) res h o i = absurd (cc h)
collect_keeps out (Item.bad_deadline ∷ is) res h o i = absurd (cc h)

In-items : (o : Obligation) (os : List Obligation) → In o os → In (item o) (items os)
In-items o [] i = elim i [ ]
In-items o (x ∷ os) (head e) = head (ap item e)
In-items o (x ∷ os) (tail i) = tail (In-items o os i)

module _ (canonical_order : Obligation → Obligation → Ordering) where
  normalize_keeps :
      (is : List Item) (res : List Obligation)
      → normalize_obligations canonical_order is ≡ ok res
      → (o : Obligation) → In (item o) is
      → In o res
  unfolding normalize_obligations
  normalize_keeps is res h o i =
      let s = >>=-eq-ok (collect [] is) _ h in
      let e : sort canonical_order s.0 ≡ res = cc (s.2) in
      subst (λ l. In o l) e (sort_keeps canonical_order s.0 (collect_keeps [] is s.0 s.1 o (inr i)))

  -- The obligations that mergeAuthorityObligations returns are within the parent's normalized
  -- obligations.
  pub merge-within :
      (parent requested : List Item) (p merged : List Obligation)
      → normalize_obligations canonical_order parent ≡ ok p
      → merge_authority_obligations canonical_order parent requested ≡ ok merged
      → obligation_errors merged p ≡ []
  unfolding merge_authority_obligations
  merge-within parent requested p merged hp h =
      let s1 = >>=-eq-ok (normalize_obligations canonical_order parent) _ h in
      let s2 = >>=-eq-ok (normalize_obligations canonical_order requested) _ s1.2 in
      let e : p ≡ s1.0 = cc (hp, s1.1) in
      nil_obligation_errors merged p λ o i. (
        o,
        normalize_keeps (items (s1.0 ++ s2.0)) merged s2.2 o
            (In-items o (s1.0 ++ s2.0) (In-append_left o s1.0 s2.0 (subst (λ l. In o l) e i))),
        keeps_refl o,
      )
