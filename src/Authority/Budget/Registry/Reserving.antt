-- ===== src/Authority/Budget/Registry/Reserving.antt =====
-- Sequences of reservations in DelegationBudgetRegistry (packages/core/src/authority/budget.js).
use ruleoak.Common.{
  ℕ, is_empty, ◌||◌, Bool, true, false, ◌≡◌, ◌∙◌, refl, sym, ap, subst, Option, none, some, List,
  [], ◌∷◌, ◌++◌, arith, all, ==_iff, find, select, inl, inr, Bool-cases,
}
use ruleoak.Common.Results.{ok, >>=-eq-ok}
use ruleoak.Common.Texts.{Text, same, same_refl}
use ruleoak.Authority.Budget.{
  max_executions, max_objects, max_bytes, max_amount, max_external_calls, Budget,
  normalize_authority_budget, BudgetError, within_errors,
}
use ruleoak.Authority.Budget.Registry.{
  Allocation, Registry, BudgetHolder, Reservation, budget_refused, same_budget, same_limit,
  of_child, throw, require_within, allocation_of, confirm, perform, reserve,
}
use ruleoak.Authority.Budget.Registry.Funding.{
  total, IsFunded, throw-eq-ok, Allocated, allocate-Allocated, Allocated-IsFunded,
}

-- What a successful reserve did: a new allocation, or nothing to a registry that has it.
data Outcome (parent child : BudgetHolder) (p c : Budget) (g : Registry) (res : Reservation)
    (g' : Registry) : Type 0 where
  added :
      find (of_child parent.grant_id child.grant_id) g.records ≡ none
      → Allocated parent.grant_id child.grant_id p c g res g'
      → Outcome parent child p c g res g'
  known :
      find (of_child parent.grant_id child.grant_id) g.records ≡ some res.allocation
      → same_budget res.allocation.budget c ≡ true
      → g' ≡ g
      → Outcome parent child p c g res g'

record Reserved (parent child : BudgetHolder) (g : Registry) (res : Reservation) (g' : Registry)
    : Type 0 where
  ids : (is_empty parent.grant_id || is_empty child.grant_id) ≡ false
  p : Budget
  c : Budget
  parent_budget : normalize_authority_budget parent.budget ≡ ok p
  child_budget : normalize_authority_budget child.budget ≡ ok c
  within : within_errors c p ≡ []
  outcome : Outcome parent child p c g res g'

require_within-eq-ok : (es : List BudgetError) {u : Unit {0}} → require_within es ≡ ok u → es ≡ []
require_within-eq-ok [] h = refl
require_within-eq-ok (e ∷ es) h = cc

module _ (parent child : BudgetHolder) (p c : Budget) (g : Registry) (at : Option ℕ)
    (res : Reservation) (g' : Registry) where
  performed :
      (o : Option Allocation)
      → find (of_child parent.grant_id child.grant_id) g.records ≡ o
      → perform parent.grant_id child.grant_id p c g at o ≡ ok (res, g')
      → Outcome parent child p c g res g'
  unfolding perform confirm
  performed none e h = added e (allocate-Allocated parent.grant_id child.grant_id p c g at res g' h)
  performed (some r) e h = elim (Bool-cases (same_budget r.budget c)) [
    | inl t ↦
        let k = rw t at h in
        let r' : res.allocation ≡ r = cc in
        known (e ∙ ap some (sym r'))
          (subst (λ (x : Allocation). same_budget x.budget c ≡ true) (sym r') t) (cc k)
    | inr f ↦ let k = rw f at h in absurd (cc k)
  ]

reserve-Reserved :
    (g : Registry) (parent child : BudgetHolder) (at : Option ℕ) (res : Reservation) (g' : Registry)
    → reserve g parent child at ≡ ok (res, g')
    → Reserved parent child g res g'
unfolding reserve
reserve-Reserved g parent child at res g' h =
    elim (Bool-cases (is_empty parent.grant_id || is_empty child.grant_id)) [
      | inl t ↦ let k = rw t at h in absurd (cc k)
      | inr f ↦
          let s1 =
            >>=-eq-ok (throw budget_refused (normalize_authority_budget parent.budget)) _
              (rw f at h) in
          let s2 =
            >>=-eq-ok (throw budget_refused (normalize_authority_budget child.budget)) _ s1.2 in
          let s3 = >>=-eq-ok (require_within (within_errors s2.0 s1.0)) _ s2.2 in
          record {
            ids = f;
            p = s1.0;
            c = s2.0;
            parent_budget = throw-eq-ok _ _ s1.1;
            child_budget = throw-eq-ok _ _ s2.1;
            within = require_within-eq-ok _ s3.1;
            outcome = performed parent child s1.0 s2.0 g at res g' _ refl s3.2;
          }
    ]

-- The budget that each grant id stands for.
abbrev pub Budgets : Type 0
Budgets = Text → Budget

-- A successful reserve, by a parent whose budget is the one that its id stands for.
pub data Step (budgets : Budgets) : Registry → Registry → Type 0 where
  reserving :
      (parent child : BudgetHolder) (at : Option ℕ) (res : Reservation) {g g' : Registry}
      → normalize_authority_budget parent.budget ≡ ok (budgets parent.grant_id)
      → reserve g parent child at ≡ ok (res, g')
      → Step budgets g g'

pub data Reach (budgets : Budgets) (start : Registry) : Registry → Type 0 where
  here : Reach budgets start start
  next : {g g' : Registry} → Reach budgets start g → Step budgets g g' → Reach budgets start g'

Step-IsFunded :
    {budgets : Budgets} {g g' : Registry}
    → Step budgets g g'
    → (holder : Text) → IsFunded holder (budgets holder) g.records
    → IsFunded holder (budgets holder) g'.records
Step-IsFunded {budgets} {g} {g'} (reserving parent child at res norm done) holder funded =
    after (reserve-Reserved g parent child at res g' done)
  where
    after : Reserved parent child g res g' → IsFunded holder (budgets holder) g'.records
    after r = stepped r.outcome
      where
        stepped :
            Outcome parent child r.p r.c g res g' → IsFunded holder (budgets holder) g'.records
        stepped (added fresh a) =
            Allocated-IsFunded a holder (budgets holder)
              (λ e. ap budgets e ∙ cc (norm, r.parent_budget)) funded
        stepped (known found dup same_registry) =
            subst (λ (x : Registry). IsFunded holder (budgets holder) x.records) (sym same_registry)
              funded

-- From a registry without records, whatever is reserved: for every grant and every field that its
-- budget limits, the children together have been given at most the limit.
pub Reach-IsFunded :
    (budgets : Budgets) (capacity : Option ℕ) {g : Registry}
    → Reach budgets (record { records = []; capacity = capacity }) g
    → (holder : Text) → IsFunded holder (budgets holder) g.records
unfolding select total
Reach-IsFunded budgets capacity here holder = λ f n e. omega arith
Reach-IsFunded budgets capacity (next r s) holder =
    Step-IsFunded s holder (Reach-IsFunded budgets capacity r holder)

find-append :
    (p : Allocation → Bool) (xs : List Allocation) (y : Allocation)
    → find p xs ≡ none
    → p y ≡ true
    → find p (xs ++ y ∷ []) ≡ some y
unfolding find
find-append p [] y h k = rw k
find-append p (x ∷ xs) y h k = elim (Bool-cases (p x)) [
  | inl t ↦ let e = rw t at h in absurd (cc e)
  | inr f ↦ rw f (find-append p xs y (rw f at h) k)
]

same_limit_refl : (a : Option ℕ) → same_limit a a ≡ true
same_limit_refl none = refl
same_limit_refl (some a) = (==_iff a a).1 refl

same_budget_refl : (b : Budget) → same_budget b b ≡ true
unfolding same_budget all
same_budget_refl b = rw (
  same_limit_refl (b max_executions),
  same_limit_refl (b max_objects),
  same_limit_refl (b max_bytes),
  same_limit_refl (b max_amount),
  same_limit_refl (b max_external_calls),
)

-- What makes reserve confirm an allocation.
confirmed :
    (g : Registry) (parent child : BudgetHolder) (at : Option ℕ) (p c : Budget) (r : Allocation)
    → (is_empty parent.grant_id || is_empty child.grant_id) ≡ false
    → normalize_authority_budget parent.budget ≡ ok p
    → normalize_authority_budget child.budget ≡ ok c
    → within_errors c p ≡ []
    → find (of_child parent.grant_id child.grant_id) g.records ≡ some r
    → same_budget r.budget c ≡ true
    → reserve g parent child at
      ≡ ok (record { reserved = false; duplicate = true; allocation = r }, g)
unfolding reserve perform confirm
confirmed g parent child at p c r ids np nc within found same =
    rw (ids, np, nc, within, found, same)

-- Reserving the same allocation again after it succeeded, at any time, confirms it and changes
-- nothing.
pub reserve_again :
    (g : Registry) (parent child : BudgetHolder) (at again : Option ℕ) (res : Reservation)
    (g' : Registry)
    → reserve g parent child at ≡ ok (res, g')
    → reserve g' parent child again
      ≡ ok (record { reserved = false; duplicate = true; allocation = res.allocation }, g')
reserve_again g parent child at again res g' h =
    again_from (reserve-Reserved g parent child at res g' h)
  where
    again_from :
        Reserved parent child g res g'
        → reserve g' parent child again
          ≡ ok (record { reserved = false; duplicate = true; allocation = res.allocation }, g')
    again_from r =
        confirmed g' parent child again r.p r.c res.allocation r.ids r.parent_budget r.child_budget
          r.within (found r.outcome) (budgets r.outcome)
      where
        found :
            Outcome parent child r.p r.c g res g'
            → find (of_child parent.grant_id child.grant_id) g'.records ≡ some res.allocation
        found (added fresh a) =
            let new = allocation_of parent.grant_id child.grant_id r.c a.time in
            let records : g'.records ≡ g.records ++ new ∷ [] =
              ap (λ (x : Registry). x.records) a.after in
            let e : res.allocation ≡ new = ap (λ (x : Reservation). x.allocation) a.fresh in
            rw (records, e)
              (find-append (of_child parent.grant_id child.grant_id) g.records new fresh
                (rw (same_refl parent.grant_id, same_refl child.grant_id)))
        found (known f s e) = rw e f

        budgets :
            Outcome parent child r.p r.c g res g' → same_budget res.allocation.budget r.c ≡ true
        budgets (added fresh a) =
            let new = allocation_of parent.grant_id child.grant_id r.c a.time in
            let e : res.allocation ≡ new = ap (λ (x : Reservation). x.allocation) a.fresh in
            rw e (same_budget_refl r.c)
        budgets (known f s e) = s
