-- ===== src/Authority/Budget/Bounds.antt =====
-- The checks on budgets of packages/core/src/authority/budget.js.
use ruleoak.Common.{
  ℕ, ◌≤◌, not, ◌≡◌, ◌↔◌, ◌∙◌, refl, subst, sym, ap, Option, none, some, List, [], ◌∷◌, arith, find,
  In, head, tail,
}
use ruleoak.Common.Results.{Result, ok, err, >>=-eq-ok}
use ruleoak.Authority.Budget.{
  Field, max_executions, max_objects, max_bytes, max_amount, max_external_calls, fields, Number,
  invalid, whole, max_safe, RawBudget, Budget, bounded_number, field_valid, field_value,
  normalize_authority_budget, BudgetError, field_within, within_from, within_errors, merge,
  or_field, inherit_authority_budget, checked, UsageError, unless, field_usage, usage_from,
  usage_errors, throw_field,
}

pub fields_complete : (f : Field) → In f fields
fields_complete max_executions = head refl
fields_complete max_objects = tail (head refl)
fields_complete max_bytes = tail (tail (head refl))
fields_complete max_amount = tail (tail (tail (head refl)))
fields_complete max_external_calls = tail (tail (tail (tail (head refl))))

-- A child limit for a parent limit: present, and no higher.
abbrev pub LimitWithin : Option ℕ → Option ℕ → Type 0
LimitWithin c none = Unit
LimitWithin none (some p) = ⊥
LimitWithin (some c) (some p) = c ≤ p

abbrev pub IsWithin : Budget → Budget → Type 0
IsWithin c p = (f : Field) → LimitWithin (c f) (p f)

field_within_iff :
    (f : Field) (c p : Option ℕ) (later : List BudgetError)
    → (field_within f c p later ≡ []) ↔ (LimitWithin c p × (later ≡ []))
unfolding field_within
field_within_iff f none none later = ground arith
field_within_iff f none (some p) later = ground arith
field_within_iff f (some c) none later = ground arith
field_within_iff f (some c) (some p) later = ground arith

within_from_iff :
    (fs : List Field) (c p : Budget)
    → (within_from fs c p ≡ []) ↔ ((f : Field) → In f fs → LimitWithin (c f) (p f))
unfolding within_from
within_from_iff [] c p = (λ e f i. elim i [ ], λ h. refl)
within_from_iff (g ∷ fs) c p =
    let ih = within_from_iff fs c p in
    let here = field_within_iff g (c g) (p g) (within_from fs c p) in
    (
      λ e f i. at_or_after f (here.0 e).0 (ih.0 (here.0 e).1) i,
      λ h. here.1 (h g (head refl), ih.1 (λ f i. h f (tail i))),
    )
  where
    at_or_after :
        (f : Field)
        → LimitWithin (c g) (p g)
        → ((f : Field) → In f fs → LimitWithin (c f) (p f))
        → In f (g ∷ fs)
        → LimitWithin (c f) (p f)
    at_or_after f now later (head e) = subst (λ x. LimitWithin (c x) (p x)) (sym e) now
    at_or_after f now later (tail i) = later f i

-- budgetIsWithin has no error exactly when the child limits each field that the parent limits, and
-- limits it at most as high.
pub within_errors_iff : (c p : Budget) → (within_errors c p ≡ []) ↔ IsWithin c p
unfolding within_errors
within_errors_iff c p =
    let r = within_from_iff fields c p in
    (λ e f. r.0 e f (fields_complete f), λ h. r.1 (λ f i. h f))

LimitWithin-refl : (c : Option ℕ) → LimitWithin c c
LimitWithin-refl none = tt
LimitWithin-refl (some c) = omega arith

LimitWithin-trans : (a b c : Option ℕ) → LimitWithin a b → LimitWithin b c → LimitWithin a c
LimitWithin-trans a b none p q = tt
LimitWithin-trans a none (some c) p q = absurd q
LimitWithin-trans none (some b) (some c) p q = absurd p
LimitWithin-trans (some a) (some b) (some c) p q = omega arith

-- Narrowing is transitive: a grandchild's budget is within the grandparent's.
pub within_trans :
    (a b c : Budget) → within_errors a b ≡ [] → within_errors b c ≡ [] → within_errors a c ≡ []
within_trans a b c h k = (within_errors_iff a c).1 λ f.
    LimitWithin-trans (a f) (b f) (c f) ((within_errors_iff a b).0 h f)
      ((within_errors_iff b c).0 k f)

-- A normalized budget, written as one that is to be normalized.
abbrev pub raw : Budget → RawBudget
raw b f = elim (b f) [ none ↦ none | some n ↦ some (whole n) ]

pub unless-eq-ok : (o : Option Field) (b c : Budget) → unless o b ≡ ok c → (o ≡ none) × (c ≡ b)
unless-eq-ok none b c h = (refl, cc)
unless-eq-ok (some f) b c h = cc

field_value-le : (o : Option Number) (n : ℕ) → field_value o ≡ some n → n ≤ max_safe
unfolding bounded_number
field_value-le none n q = cc
field_value-le (some invalid) n q = cc
field_value-le (some (whole m)) n q = ground arith

-- Every limit of a normalized budget is a safe integer.
pub normalize-le-max_safe :
    (input : RawBudget) (b : Budget)
    → normalize_authority_budget input ≡ ok b
    → (f : Field) (n : ℕ) → b f ≡ some n
    → n ≤ max_safe
unfolding normalize_authority_budget
normalize-le-max_safe input b h f n e =
    let u = unless-eq-ok (find (λ g. not (field_valid (input g))) fields) _ b h in
    field_value-le (input f) n (sym (ap (λ (c : Budget). c f) u.1) ∙ e)

merge-IsWithin :
    (p r : Budget)
    → ((f : Field) (n m : ℕ) → r f ≡ some n → p f ≡ some m → n ≤ m)
    → IsWithin (merge p r) p
unfolding merge
merge-IsWithin p r h f = limit (r f) (p f) (h f)
  where
    limit :
        (x y : Option ℕ)
        → ((n m : ℕ) → x ≡ some n → y ≡ some m → n ≤ m)
        → LimitWithin (or_field x y) y
    limit none y h = LimitWithin-refl y
    limit (some n) none h = tt
    limit (some n) (some m) h = h n m refl refl

checked-eq-ok :
    (m : Budget) (es : List BudgetError) (b : Budget) → checked m es ≡ ok b → (es ≡ []) × (b ≡ m)
unfolding checked
checked-eq-ok m [] b h = (refl, cc)
checked-eq-ok m (e ∷ es) b h = cc

-- The normalized budgets of a parent and a request, and what is inherited from them.
pub record Inherited (parent requested : RawBudget) (b : Budget) : Type 0 where
  pub p : Budget
  pub r : Budget
  pub parent_budget : normalize_authority_budget parent ≡ ok p
  pub requested_budget : normalize_authority_budget requested ≡ ok r
  pub merged : b ≡ merge p r
  pub within : IsWithin b p

throw_field-eq-ok : (m : Result Field Budget) {b : Budget} → throw_field m ≡ ok b → m ≡ ok b
throw_field-eq-ok (ok a) h = cc
throw_field-eq-ok (err f) h = cc

-- A budget that inheritAuthorityBudget returns is the normalized request laid over the normalized
-- parent, and it is within the parent.
pub inherit-Inherited :
    (parent requested : RawBudget) (b : Budget)
    → inherit_authority_budget parent requested ≡ ok b
    → Inherited parent requested b
unfolding inherit_authority_budget
inherit-Inherited parent requested b h =
    let s1 = >>=-eq-ok (throw_field (normalize_authority_budget parent)) _ h in
    let s2 = >>=-eq-ok (throw_field (normalize_authority_budget requested)) _ s1.2 in
    let c = checked-eq-ok (merge s1.0 s2.0) _ b s2.2 in
    record {
      p = s1.0;
      r = s2.0;
      parent_budget = throw_field-eq-ok _ s1.1;
      requested_budget = throw_field-eq-ok _ s2.1;
      merged = c.1;
      within =
          subst (λ m. IsWithin m s1.0) (sym c.1) ((within_errors_iff (merge s1.0 s2.0) s1.0).0 c.0);
    }

-- Usage that is reported for a limited field is a safe whole number, no higher than the limit.
abbrev pub UsageWithin : Option ℕ → Option Number → Type 0
UsageWithin none used = Unit
UsageWithin (some limit) none = Unit
UsageWithin (some limit) (some invalid) = ⊥
UsageWithin (some limit) (some (whole n)) = (n ≤ limit) × (n ≤ max_safe)

field_usage_iff :
    (f : Field) (b : Option ℕ) (u : Option Number) (later : List UsageError)
    → (field_usage f b u later ≡ []) ↔ (UsageWithin b u × (later ≡ []))
unfolding field_usage bounded_number
field_usage_iff f none u later = ground arith
field_usage_iff f (some l) none later = ground arith
field_usage_iff f (some l) (some invalid) later = ground arith
field_usage_iff f (some l) (some (whole n)) later = ground arith

usage_from_iff :
    (fs : List Field) (b : Budget) (u : Field → Option Number)
    → (usage_from fs b u ≡ []) ↔ ((f : Field) → In f fs → UsageWithin (b f) (u f))
unfolding usage_from
usage_from_iff [] b u = (λ e f i. elim i [ ], λ h. refl)
usage_from_iff (g ∷ fs) b u =
    let ih = usage_from_iff fs b u in
    let here = field_usage_iff g (b g) (u g) (usage_from fs b u) in
    (
      λ e f i. at_or_after f (here.0 e).0 (ih.0 (here.0 e).1) i,
      λ h. here.1 (h g (head refl), ih.1 (λ f i. h f (tail i))),
    )
  where
    at_or_after :
        (f : Field)
        → UsageWithin (b g) (u g)
        → ((f : Field) → In f fs → UsageWithin (b f) (u f))
        → In f (g ∷ fs)
        → UsageWithin (b f) (u f)
    at_or_after f now later (head e) = subst (λ x. UsageWithin (b x) (u x)) (sym e) now
    at_or_after f now later (tail i) = later f i

-- evaluateAuthorityBudget has no error exactly when all the usage that is reported is within its
-- limit.
pub usage_errors_iff :
    (b : Budget) (u : Field → Option Number)
    → (usage_errors b u ≡ []) ↔ ((f : Field) → UsageWithin (b f) (u f))
unfolding usage_errors
usage_errors_iff b u =
    let r = usage_from_iff fields b u in (λ e f. r.0 e f (fields_complete f), λ h. r.1 (λ f i. h f))
