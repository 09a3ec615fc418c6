-- ===== src/Authority/Budget/Registry.antt =====
-- DelegationBudgetRegistry of packages/core/src/authority/budget.js: the allocations of partition
-- delegation, and reserve. Records hold normalized budgets, as reserve writes them; the digest of a
-- record and its serialized form are not modelled. A registry with a file has a capacity
-- (limits.maxRecords), one in memory has none.
pub mod Funding
pub mod Reserving
use ruleoak.Common.{
  ℕ, Bool, true, false, not, ◌&&◌, ◌||◌, Option, none, some, List, [], ◌∷◌, ◌++◌, ltb,
  if◌then◌else◌, find, select, all, is_empty, length, ◌==◌,
}
use ruleoak.Common.Results.{Result, ok, err, ◌>>=◌}
use ruleoak.Common.Texts.{Text, same}
use ruleoak.Authority.Budget.{
  Field, fields, Budget, RawBudget, normalize_authority_budget, within_errors, BudgetError, or_zero,
  or_field, add_authority_budgets, merge,
}

pub record Allocation : Type 0 where
  pub parent_grant_id : Text
  pub child_grant_id : Text
  pub budget : Budget
  pub allocated_at : ℕ

pub record Registry : Type 0 where
  pub records : List Allocation
  pub capacity : Option ℕ

pub record BudgetHolder : Type 0 where
  pub grant_id : Text
  pub budget : RawBudget

pub data ReserveError : Type 0 where
  ids_required : ReserveError
  budget_refused : Field → ReserveError
  exceeds_parent : List BudgetError → ReserveError
  conflicts : ReserveError
  addition_overflows : Field → ReserveError
  exceeds_remaining : Field → ReserveError
  invalid_time : ReserveError
  registry_full : ReserveError

pub record Reservation : Type 0 where
  pub reserved : Bool
  pub duplicate : Bool
  pub allocation : Allocation

abbrev pub same_limit : Option ℕ → Option ℕ → Bool
same_limit none none = true
same_limit (some a) (some b) = a == b
same_limit _ _ = false

-- canonicalStringify(a) === canonicalStringify(b)
unfoldable pub same_budget : Budget → Budget → Bool
same_budget a b = all (λ f. same_limit (a f) (b f)) fields

abbrev pub of_parent : Text → Allocation → Bool
of_parent parent r = same r.parent_grant_id parent

-- The loop that adds up what has been allocated; Object.assign is `merge`.
unfoldable pub used_from : Budget → List Allocation → Result Field Budget
used_from used [] = ok used
used_from used (r ∷ rs) = do
  added ← add_authority_budgets used r.budget
  used_from (merge used added) rs

abbrev pub no_budget : Budget
no_budget f = none

abbrev pub over : Option ℕ → Option ℕ → Bool
over none projected = false
over (some limit) projected = ltb limit (or_zero projected)

-- The first field of which the projected total exceeds the parent's limit.
unfoldable pub over_parent : Budget → Budget → Option Field
over_parent parent projected = find (λ f. over (parent f) (projected f)) fields

abbrev pub within_capacity : Option ℕ → ℕ → Bool
within_capacity none n = true
within_capacity (some most) n = not (ltb most n)

-- _persistUnlocked
unfoldable pub persist : Registry → List Allocation → Result ReserveError Registry
persist registry records =
    if within_capacity registry.capacity (length records)
    then ok (record registry { records = records })
    else err registry_full

abbrev pub throw {ℓ κ} :
    {E : Type ℓ} {A : Type κ} → (E → ReserveError) → Result E A → Result ReserveError A
throw f (ok a) = ok a
throw f (err e) = err (f e)

abbrev pub refuse : Option Field → Result ReserveError (Unit {0})
refuse none = ok tt
refuse (some f) = err (exceeds_remaining f)

abbrev pub require_time : Option ℕ → Result ReserveError ℕ
require_time none = err invalid_time
require_time (some t) = ok t

abbrev pub allocation_of : Text → Text → Budget → ℕ → Allocation
allocation_of parent child budget time = record {
  parent_grant_id = parent;
  child_grant_id = child;
  budget = budget;
  allocated_at = time;
}

module _ (parent child : Text) (parent_budget child_budget : Budget) where
  -- The part of `perform` that allocates.
  unfoldable pub allocate : Registry → Option ℕ → Result ReserveError (Reservation × Registry)
  allocate registry at = do
    used ←
        throw addition_overflows (used_from no_budget (select (of_parent parent) registry.records))
    projected ← throw addition_overflows (add_authority_budgets used child_budget)
    _ ← refuse (over_parent parent_budget projected)
    time ← require_time at
    let r = allocation_of parent child child_budget time
    registry' ← persist registry (registry.records ++ r ∷ [])
    ok (record { reserved = true; duplicate = false; allocation = r }, registry')

  -- An allocation that is there already is confirmed or refused.
  unfoldable pub confirm : Registry → Allocation → Result ReserveError (Reservation × Registry)
  confirm registry r =
      if same_budget r.budget child_budget
      then ok (record { reserved = false; duplicate = true; allocation = r }, registry)
      else err conflicts

  unfoldable pub perform :
      Registry → Option ℕ → Option Allocation → Result ReserveError (Reservation × Registry)
  perform registry at (some r) = confirm registry r
  perform registry at none = allocate registry at

abbrev pub of_child : Text → Text → Allocation → Bool
of_child parent child r = same r.parent_grant_id parent && same r.child_grant_id child

abbrev pub require_within : List BudgetError → Result ReserveError (Unit {0})
require_within [] = ok tt
require_within (e ∷ es) = err (exceeds_parent (e ∷ es))

unfoldable pub reserve :
    Registry → BudgetHolder → BudgetHolder → Option ℕ → Result ReserveError (Reservation × Registry)
reserve registry parent child at =
    if is_empty parent.grant_id || is_empty child.grant_id then err ids_required else do
      p ← throw budget_refused (normalize_authority_budget parent.budget)
      c ← throw budget_refused (normalize_authority_budget child.budget)
      _ ← require_within (within_errors c p)
      perform parent.grant_id child.grant_id p c registry at
          (find (of_child parent.grant_id child.grant_id) registry.records)
