-- ===== src/Tests/Budgets.antt =====
-- Examples of budgets and obligations.
use ruleoak.Common.{
  ℕ, ◌-◌, ◌^◌, Bool, not, ◌≤◌, true, false, ◌≡◌, ◌↔◌, refl, Option, none, some, List, [], ◌∷◌, In,
  head, tail,
}
use ruleoak.Common.Texts.{text}
use ruleoak.Authority.Budget.{
  Field, max_executions, max_objects, max_bytes, max_amount, max_external_calls, Budget, RawBudget,
  Number, whole, normalize_authority_budget, within_errors, field_value, merge,
  inherit_authority_budget, usage_errors,
}
use ruleoak.Authority.Budget.Bounds.{IsWithin, within_errors_iff, Inherited, inherit-Inherited}
use ruleoak.Authority.Budget.Registry.{
  Allocation, Registry, BudgetHolder, Reservation, reserve, no_budget, allocation_of,
}
use ruleoak.Authority.Budget.Registry.Funding.{IsFunded}
use ruleoak.Authority.Budget.Registry.Reserving.{reserving, here, next, Reach-IsFunded}
use ruleoak.Authority.Obligations.{
  Obligation, Item, item, require_approval, execution_before, obligation_errors, Context, pre,
  satisfied, unsatisfied, normalize_obligations, merge_authority_obligations,
}
use ruleoak.Authority.Obligations.Narrowing.{within-satisfied, merge-within}
use ruleoak.Tests.Fixtures.{no_order}

-- A limit on executions alone.
abbrev pub runs : ℕ → Budget
runs n max_executions = some n
runs n max_objects = none
runs n max_bytes = none
runs n max_amount = none
runs n max_external_calls = none

abbrev pub raw_runs : ℕ → RawBudget
raw_runs n max_executions = some (whole n)
raw_runs n max_objects = none
raw_runs n max_bytes = none
raw_runs n max_amount = none
raw_runs n max_external_calls = none

within_errors_iff_example : (within_errors (runs 2) (runs 5) ≡ []) ↔ IsWithin (runs 2) (runs 5)
within_errors_iff_example = within_errors_iff (runs 2) (runs 5)

-- The limit as normalization leaves it.
abbrev normal : ℕ → Budget
normal n f = field_value (raw_runs n f)

inherit-Inherited_example : Inherited (raw_runs 5) (raw_runs 2) (merge (normal 5) (normal 2))
unfolding inherit_authority_budget normalize_authority_budget ruleoak.Common.find
    ruleoak.Authority.Budget.bounded_number within_errors merge
inherit-Inherited_example =
    inherit-Inherited (raw_runs 5) (raw_runs 2) (merge (normal 5) (normal 2)) refl

abbrev parent : BudgetHolder
parent = record { grant_id = text "p"; budget = raw_runs 5 }

abbrev child : BudgetHolder
child = record { grant_id = text "c"; budget = raw_runs 2 }

abbrev no_records : Registry
no_records = record { records = []; capacity = none }

-- What the registry of a process has after `child` is reserved.
abbrev reserved_child : Registry
reserved_child = record {
  records = allocation_of (text "p") (text "c") (normal 2) 7 ∷ [];
  capacity = none;
}

abbrev reservation : Bool → Reservation
reservation again = record {
  reserved = not again;
  duplicate = again;
  allocation = allocation_of (text "p") (text "c") (normal 2) 7;
}

Reach-IsFunded_example : IsFunded (text "p") (normal 5) reserved_child.records
unfolding normalize_authority_budget ruleoak.Common.find ruleoak.Authority.Budget.bounded_number
    reserve within_errors ruleoak.Authority.Budget.Registry.perform
    ruleoak.Authority.Budget.Registry.allocate ruleoak.Authority.Budget.Registry.used_from
    ruleoak.Common.select ruleoak.Authority.Budget.add_authority_budgets
    ruleoak.Authority.Budget.Registry.over_parent ruleoak.Authority.Budget.Registry.persist
Reach-IsFunded_example =
    Reach-IsFunded (λ id. normal 5) none
      (next {g = no_records} {g' = reserved_child} here (
        reserving parent child (some 7) (reservation false) {g = no_records} {g' = reserved_child}
          refl refl))
      (text "p")

within-satisfied_example :
    unsatisfied
      (record {
        approved = true;
        recorder_available = false;
        target_verified = false;
        now = some 1;
        effect_receipt = false;
      })
      pre
      (execution_before 9 ∷ [])
    ≡ []
unfolding obligation_errors unsatisfied ruleoak.Common.any ruleoak.Authority.Obligations.keeps
    satisfied
within-satisfied_example =
    within-satisfied (execution_before 5 ∷ require_approval ∷ []) (execution_before 9 ∷ [])
      (record {
        approved = true;
        recorder_available = false;
        target_verified = false;
        now = some 1;
        effect_receipt = false;
      })
      pre refl refl

merge-within_example :
    obligation_errors (require_approval ∷ execution_before 5 ∷ []) (require_approval ∷ []) ≡ []
unfolding normalize_obligations merge_authority_obligations ruleoak.Authority.Obligations.collect
    ruleoak.Authority.Obligations.normalize_one ruleoak.Common.Sort.sort ruleoak.Common.any
    ruleoak.Common.Sort.insert ruleoak.Authority.Obligations.same_obligation
merge-within_example =
    merge-within no_order (item require_approval ∷ []) (item (execution_before 5) ∷ [])
      (require_approval ∷ []) (require_approval ∷ execution_before 5 ∷ []) refl refl
