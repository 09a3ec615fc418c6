-- ===== src/Authority/Budget/Registry/Funding.antt =====
-- One allocation of DelegationBudgetRegistry (packages/core/src/authority/budget.js).
use ruleoak.Common.{
  ℕ, length, ◌+◌, ◌≤◌, Bool, true, false, ◌≡◌, ◌∙◌, refl, sym, ap, subst, Option, none, some, List,
  [], ◌∷◌, ◌++◌, arith, find-none, select, inl, inr, Bool-cases, if◌then◌else◌,
}
use ruleoak.Common.Results.{Result, ok, err, >>=-eq-ok}
use ruleoak.Common.Texts.{Text, same, same_iff}
use ruleoak.Authority.Budget.{
  Field, fields, Budget, or_zero, add_field, or_field, add_authority_budgets, merge,
}
use ruleoak.Authority.Budget.Bounds.{fields_complete, unless-eq-ok}
use ruleoak.Authority.Budget.Registry.{
  Allocation, Registry, Reservation, ReserveError, addition_overflows, within_capacity, of_parent,
  used_from, no_budget, over_parent, persist, throw, refuse, require_time, allocation_of, allocate,
}

unfoldable pub total : Field → List Allocation → ℕ
total f [] = 0
total f (r ∷ rs) = or_zero (r.budget f) + total f rs

-- What the children of a grant have been given of a field.
abbrev pub allocated : Text → Field → List Allocation → ℕ
allocated parent f records = total f (select (of_parent parent) records)

total-append : (f : Field) (xs ys : List Allocation) → total f (xs ++ ys) ≡ total f xs + total f ys
unfolding total
total-append f [] ys = omega arith
total-append f (x ∷ xs) ys = omega (arith, total-append f xs ys)

select-append :
    (p : Allocation → Bool) (xs ys : List Allocation)
    → select p (xs ++ ys) ≡ select p xs ++ select p ys
unfolding select
select-append p [] ys = refl
select-append p (x ∷ xs) ys = ground (arith, select-append p xs ys)

or_zero-add_field : (a b : Option ℕ) → or_zero (add_field a b) ≡ or_zero a + or_zero b
or_zero-add_field none none = omega arith
or_zero-add_field none (some b) = refl
or_zero-add_field (some a) none = refl
or_zero-add_field (some a) (some b) = refl

or_zero-or_field : (a b : Option ℕ) → or_zero (or_field (add_field a b) a) ≡ or_zero a + or_zero b
or_zero-or_field none none = omega arith
or_zero-or_field none (some b) = refl
or_zero-or_field (some a) none = refl
or_zero-or_field (some a) (some b) = refl

add-eq-ok : (a b c : Budget) → add_authority_budgets a b ≡ ok c → c ≡ (λ f. add_field (a f) (b f))
unfolding add_authority_budgets
add-eq-ok a b c h = (unless-eq-ok _ _ c h).1

or_zero-add :
    (a b c : Budget) (f : Field)
    → add_authority_budgets a b ≡ ok c
    → or_zero (c f) ≡ or_zero (a f) + or_zero (b f)
or_zero-add a b c f h =
    ap (λ (d : Budget). or_zero (d f)) (add-eq-ok a b c h) ∙ or_zero-add_field (a f) (b f)

or_zero-merge :
    (a b c : Budget) (f : Field)
    → add_authority_budgets a b ≡ ok c
    → or_zero (merge a c f) ≡ or_zero (a f) + or_zero (b f)
unfolding merge
or_zero-merge a b c f h =
    ap (λ (d : Budget). or_zero (or_field (d f) (a f))) (add-eq-ok a b c h)
    ∙ or_zero-or_field (a f) (b f)

used_from-total :
    (used : Budget) (rs : List Allocation) (result : Budget) (f : Field)
    → used_from used rs ≡ ok result
    → or_zero (result f) ≡ or_zero (used f) + total f rs
unfolding used_from total
used_from-total used [] result f h =
    let e : result ≡ used = cc in omega (arith, ap (λ (d : Budget). or_zero (d f)) e)
used_from-total used (r ∷ rs) result f h =
    let s = >>=-eq-ok (add_authority_budgets used r.budget) _ h in
    omega (
      arith,
      used_from-total (merge used s.0) rs result f s.2,
      or_zero-merge used r.budget s.0 f s.1,
    )

over_parent-none :
    (p q : Budget) (f : Field) (n : ℕ) → over_parent p q ≡ none → p f ≡ some n → or_zero (q f) ≤ n
unfolding over_parent
over_parent-none p q f n h e = let k = find-none _ fields h (fields_complete f) in ground arith

-- The children of the grant together have at most its limits.
abbrev pub IsFunded : Text → Budget → List Allocation → Type 0
IsFunded parent budget records =
    (f : Field) (n : ℕ) → budget f ≡ some n → allocated parent f records ≤ n

pub throw-eq-ok {ℓ κ} :
    {E : Type ℓ} {A : Type κ} (f : E → ReserveError) (m : Result E A) {a : A}
    → throw f m ≡ ok a
    → m ≡ ok a
throw-eq-ok f (ok a) h = cc
throw-eq-ok f (err e) h = cc

refuse-eq-ok : (o : Option Field) {u : Unit {0}} → refuse o ≡ ok u → o ≡ none
refuse-eq-ok none h = refl
refuse-eq-ok (some f) h = cc

persist-records :
    (g : Registry) (rs : List Allocation) {g' : Registry}
    → persist g rs ≡ ok g'
    → g' ≡ record g { records = rs }
unfolding persist
persist-records g rs h = elim (Bool-cases (within_capacity g.capacity (length rs))) [
  | inl t ↦ let e = rw t at h in cc
  | inr f ↦ let e = rw f at h in cc
]

-- What a successful allocation did.
pub record Allocated (parent child : Text) (p c : Budget) (g : Registry) (res : Reservation)
    (g' : Registry) : Type 0 where
  pub time : ℕ
  pub fresh : res ≡ record {
    reserved = true;
    duplicate = false;
    allocation = allocation_of parent child c time;
  }
  pub after : g' ≡ record g { records = g.records ++ allocation_of parent child c time ∷ [] }
  pub room : (f : Field) (n : ℕ) → p f ≡ some n → allocated parent f g.records + or_zero (c f) ≤ n

pub allocate-Allocated :
    (parent child : Text) (p c : Budget) (g : Registry) (at : Option ℕ) (res : Reservation)
    (g' : Registry)
    → allocate parent child p c g at ≡ ok (res, g')
    → Allocated parent child p c g res g'
unfolding allocate
allocate-Allocated parent child p c g at res g' h =
    let s1 =
      >>=-eq-ok
        (throw addition_overflows (used_from no_budget (select (of_parent parent) g.records))) _
        h in
    let s2 = >>=-eq-ok (throw addition_overflows (add_authority_budgets s1.0 c)) _ s1.2 in
    let s3 = >>=-eq-ok (refuse (over_parent p s2.0)) _ s2.2 in
    let s4 = >>=-eq-ok (require_time at) _ s3.2 in
    let s5 = >>=-eq-ok (persist g (g.records ++ allocation_of parent child c s4.0 ∷ [])) _ s4.2 in
    record {
      time = s4.0;
      fresh = cc;
      after = (let e : g' ≡ s5.0 = cc in e ∙ persist-records g _ s5.1);
      room = λ f n e. omega (
        arith,
        used_from-total no_budget _ s1.0 f (throw-eq-ok _ _ s1.1),
        or_zero-add s1.0 c s2.0 f (throw-eq-ok _ _ s2.1),
        over_parent-none p s2.0 f n (refuse-eq-ok _ s3.1) e,
      );
    }

allocated-append :
    (parent : Text) (f : Field) (rs : List Allocation) (r : Allocation)
    → allocated parent f (rs ++ r ∷ [])
      ≡ allocated parent f rs + (if of_parent parent r then or_zero (r.budget f) else 0)
unfolding select total
allocated-append parent f rs r =
    ap (total f) (select-append (of_parent parent) rs (r ∷ []))
    ∙ total-append f (select (of_parent parent) rs) (select (of_parent parent) (r ∷ []))
    ∙ ap (λ n. total f (select (of_parent parent) rs) + n) last
  where
    last :
        total f (select (of_parent parent) (r ∷ []))
        ≡ (if of_parent parent r then or_zero (r.budget f) else 0)
    last = ground arith

-- An allocation keeps the grant within its budget and leaves the others alone.
pub Allocated-IsFunded :
    {parent child : Text} {p c : Budget} {g g' : Registry} {res : Reservation}
    → Allocated parent child p c g res g'
    → (holder : Text) (budget : Budget) → (holder ≡ parent → budget ≡ p)
    → IsFunded holder budget g.records
    → IsFunded holder budget g'.records
Allocated-IsFunded {parent} {child} {p} {c} {g} {g'} a holder budget same_holder funded f n e =
    let r = allocation_of parent child c a.time in
    let records : g'.records ≡ g.records ++ r ∷ [] = ap (λ (x : Registry). x.records) a.after in
    subst (λ rs. allocated holder f rs ≤ n) (sym records)
      (elim (Bool-cases (same parent holder)) [
        | inl t ↦
            let q : holder ≡ parent = sym ((same_iff parent holder).0 t) in
            let limit : p f ≡ some n = ap (λ (b : Budget). b f) (sym (same_holder q)) ∙ e in
            let start : allocated holder f g.records ≡ allocated parent f g.records =
              ap (λ x. allocated x f g.records) q in
            let grown = allocated-append holder f g.records r in
            let here : (if of_parent holder r then or_zero (r.budget f) else 0) ≡ or_zero (c f) =
              rw t in
            omega (arith, a.room f n limit, start, grown, here)
        | inr other ↦
            let grown = allocated-append holder f g.records r in
            let here : (if of_parent holder r then or_zero (r.budget f) else 0) ≡ 0 = rw other in
            omega (arith, funded f n e, grown, here)
      ])
