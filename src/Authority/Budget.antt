-- ===== src/Authority/Budget.antt =====
-- Authority budgets: packages/core/src/authority/budget.js, up to the registry. A number that the
-- caller supplies is `whole n`, or `invalid` where Number(value) is not a non-negative whole
-- number; fractional amounts of max_amount are outside the model.
pub mod Bounds
pub mod Registry
use ruleoak.Common.{
  ℕ, ◌+◌, ◌-◌, ◌^◌, Bool, true, false, not, ◌&&◌, Option, none, some, List, [], ◌∷◌, ltb,
  if◌then◌else◌, find, is_empty,
}
use ruleoak.Common.Results.{Result, ok, err, ◌>>=◌}

-- AUTHORITY_BUDGET_FIELDS
pub data Field : Type 0 where
  max_executions max_objects max_bytes max_amount max_external_calls : Field

abbrev pub fields : List Field
fields = max_executions ∷ max_objects ∷ max_bytes ∷ max_amount ∷ max_external_calls ∷ []

pub data Number : Type 0 where
  invalid : Number
  whole : ℕ → Number

-- Number.MAX_SAFE_INTEGER
abbrev pub max_safe : ℕ
max_safe = 2 ^ 53 - 1

-- A budget as the caller writes it, and a normalized one; `none` is an absent field.
abbrev pub RawBudget : Type 0
RawBudget = Field → Option Number

abbrev pub Budget : Type 0
Budget = Field → Option ℕ

-- finiteBoundedNumber; `none` where it throws.
unfoldable pub bounded_number : Number → Option ℕ
bounded_number invalid = none
bounded_number (whole n) = if ltb max_safe n then none else some n

abbrev pub is_some {ℓ} : {A : Type ℓ} → Option A → Bool
is_some none = false
is_some (some a) = true

abbrev pub field_valid : Option Number → Bool
field_valid none = true
field_valid (some n) = is_some (bounded_number n)

abbrev pub field_value : Option Number → Option ℕ
field_value none = none
field_value (some n) = bounded_number n

-- The throw of a loop over the fields at the first field that it refuses.
abbrev pub unless : Option Field → Budget → Result Field Budget
unless none b = ok b
unless (some f) b = err f

-- normalizeAuthorityBudget; an error names the field that is refused.
unfoldable pub normalize_authority_budget : RawBudget → Result Field Budget
normalize_authority_budget input =
    unless (find (λ f. not (field_valid (input f))) fields) (λ f. field_value (input f))

pub data BudgetError : Type 0 where
  omits : Field → BudgetError
  exceeds : Field → BudgetError

-- One round of the loop of budgetIsWithin: the errors of a field, in front of the later ones.
unfoldable pub field_within : Field → Option ℕ → Option ℕ → List BudgetError → List BudgetError
field_within f none (some p) later = omits f ∷ later
field_within f (some c) (some p) later = if ltb p c then exceeds f ∷ later else later
field_within f c none later = later

within_from : List Field → Budget → Budget → List BudgetError
within_from [] c p = []
within_from (f ∷ fs) c p = field_within f (c f) (p f) (within_from fs c p)

-- The errors of budgetIsWithin, on normalized budgets.
unfoldable pub within_errors : Budget → Budget → List BudgetError
unfolding within_from field_within
within_errors c p = within_from fields c p

-- What budgetIsWithin returns; an error is a throw of the normalization.
unfoldable pub budget_is_within : RawBudget → RawBudget → Result Field (List BudgetError)
budget_is_within child parent = do
  c ← normalize_authority_budget child
  p ← normalize_authority_budget parent
  ok (within_errors c p)

pub data InheritError : Type 0 where
  refused : Field → InheritError
  exceeds_parent : List BudgetError → InheritError

abbrev pub or_field : Option ℕ → Option ℕ → Option ℕ
or_field (some r) p = some r
or_field none p = p

-- {...p, ...r }
unfoldable pub merge : Budget → Budget → Budget
merge p r = λ f. or_field (r f) (p f)

abbrev pub throw_field {ℓ} : {A : Type ℓ} → Result Field A → Result InheritError A
throw_field (ok a) = ok a
throw_field (err f) = err (refused f)

unfoldable pub checked : Budget → List BudgetError → Result InheritError Budget
checked merged [] = ok merged
checked merged (e ∷ es) = err (exceeds_parent (e ∷ es))

unfoldable pub inherit_authority_budget : RawBudget → RawBudget → Result InheritError Budget
unfolding checked
inherit_authority_budget parent requested = do
  p ← throw_field (normalize_authority_budget parent)
  r ← throw_field (normalize_authority_budget requested)
  checked (merge p r) (within_errors (merge p r) p)

-- Number(value || 0)
abbrev pub or_zero : Option ℕ → ℕ
or_zero none = 0
or_zero (some n) = n

abbrev pub add_field : Option ℕ → Option ℕ → Option ℕ
add_field none none = none
add_field a b = some (or_zero a + or_zero b)

abbrev pub overflows : Option ℕ → Option ℕ → Bool
overflows none none = false
overflows a b = ltb max_safe (or_zero a + or_zero b)

-- addAuthorityBudgets, on normalized budgets; an error names the field that overflows.
unfoldable pub add_authority_budgets : Budget → Budget → Result Field Budget
add_authority_budgets a b =
    unless (find (λ f. overflows (a f) (b f)) fields) (λ f. add_field (a f) (b f))

pub data UsageError : Type 0 where
  usage_invalid : Field → UsageError
  usage_exceeds : Field → UsageError

abbrev pub used_within : Field → ℕ → Option ℕ → List UsageError → List UsageError
used_within f limit none later = usage_invalid f ∷ later
used_within f limit (some n) later = if ltb limit n then usage_exceeds f ∷ later else later

-- One round of evaluateAuthorityBudget: the limit of a field and the usage that it limits.
unfoldable pub field_usage : Field → Option ℕ → Option Number → List UsageError → List UsageError
field_usage f none used later = later
field_usage f (some limit) none later = later
field_usage f (some limit) (some used) later = used_within f limit (bounded_number used) later

usage_from : List Field → Budget → (Field → Option Number) → List UsageError
usage_from [] budget usage = []
usage_from (f ∷ fs) budget usage = field_usage f (budget f) (usage f) (usage_from fs budget usage)

-- The errors of evaluateAuthorityBudget; usage of `max_f` is the source's usage entry `f`.
unfoldable pub usage_errors : Budget → (Field → Option Number) → List UsageError
unfolding usage_from field_usage
usage_errors budget usage = usage_from fields budget usage

unfoldable pub evaluate_authority_budget :
    RawBudget → (Field → Option Number) → Result Field (List UsageError)
evaluate_authority_budget budget usage = do
  b ← normalize_authority_budget budget
  ok (usage_errors b usage)
