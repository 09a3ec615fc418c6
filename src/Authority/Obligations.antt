-- ===== src/Authority/Obligations.antt =====
-- Obligations of a grant or a lease: packages/core/src/authority/obligations.js. A deadline is the
-- time in milliseconds that its text stands for. The order that localeCompare gives to the
-- canonical forms is a parameter; it decides the order of the result only.
pub mod Narrowing
use Prim.Native.Nat.{Ordering}
use ruleoak.Common.{
  ℕ, Bool, true, false, not, ◌&&◌, ◌||◌, Option, none, some, List, [], ◌∷◌, ◌++◌, ◌==◌, leb,
  if◌then◌else◌, any,
}
use ruleoak.Common.Results.{Result, ok, err, ◌>>=◌}
use ruleoak.Common.Sort.{sort}

-- The supported types.
pub data Obligation : Type 0 where
  require_approval require_effect_receipt require_recorder target_verified : Obligation
  execution_before : ℕ → Obligation

-- An item as the caller writes it: not an object, of another type, with a deadline that is no
-- date, or supported. Unknown fields of an item are dropped.
pub data Item : Type 0 where
  not_an_object unsupported bad_deadline : Item
  item : Obligation → Item

pub data ObligationError : Type 0 where
  must_be_object unsupported_type requires_deadline : ObligationError

-- normalizeOne
unfoldable pub normalize_one : Item → Result ObligationError Obligation
normalize_one not_an_object = err must_be_object
normalize_one unsupported = err unsupported_type
normalize_one bad_deadline = err requires_deadline
normalize_one (item o) = ok o

-- Equality of canonical forms.
unfoldable pub same_obligation : Obligation → Obligation → Bool
same_obligation require_approval require_approval = true
same_obligation require_effect_receipt require_effect_receipt = true
same_obligation require_recorder require_recorder = true
same_obligation target_verified target_verified = true
same_obligation (execution_before a) (execution_before b) = a == b
same_obligation _ _ = false

-- x.type === y.type
unfoldable pub same_type : Obligation → Obligation → Bool
same_type require_approval require_approval = true
same_type require_effect_receipt require_effect_receipt = true
same_type require_recorder require_recorder = true
same_type target_verified target_verified = true
same_type (execution_before a) (execution_before b) = true
same_type _ _ = false

abbrev pub add_unseen : List Obligation → Obligation → List Obligation
add_unseen out o = if any (same_obligation o) out then out else out ++ o ∷ []

-- The loop of normalizeObligations; what has been seen is what has been put out.
unfoldable pub collect : List Obligation → List Item → Result ObligationError (List Obligation)
collect out [] = ok out
collect out (i ∷ is) = do o ← normalize_one i; collect (add_unseen out o) is

abbrev pub items : List Obligation → List Item
items [] = []
items (o ∷ os) = item o ∷ items os

module _ (canonical_order : Obligation → Obligation → Ordering) where
  unfoldable pub normalize_obligations : List Item → Result ObligationError (List Obligation)
  normalize_obligations obligations = do out ← collect [] obligations; ok (sort canonical_order out)

  unfoldable pub merge_authority_obligations :
      List Item → List Item → Result ObligationError (List Obligation)
  merge_authority_obligations parent requested = do
    p ← normalize_obligations parent
    r ← normalize_obligations requested
    normalize_obligations (items (p ++ r))

-- Whether an obligation of the child keeps an obligation of the parent.
unfoldable pub keeps : Obligation → Obligation → Bool
unfolding same_type
keeps (execution_before d) (execution_before e) = leb d e
keeps x o = same_type x o

-- The errors of obligationsAreWithin on normalized lists: the parent's obligations that no
-- obligation of the child keeps.
unfoldable pub obligation_errors : List Obligation → List Obligation → List Obligation
obligation_errors child [] = []
obligation_errors child (o ∷ parent) =
    let later = obligation_errors child parent in
    if any (λ x. keeps x o) child then later else o ∷ later

pub data Phase : Type 0 where
  pre post : Phase

-- `now` is none where the time is no date; a comparison with it is false.
pub record Context : Type 0 where
  pub approved : Bool
  pub recorder_available : Bool
  pub target_verified : Bool
  pub now : Option ℕ
  pub effect_receipt : Bool

abbrev pub has_passed : Option ℕ → ℕ → Bool
has_passed none deadline = false
has_passed (some now) deadline = leb deadline now

-- Whether evaluateObligations has no error for an obligation.
unfoldable pub satisfied : Context → Phase → Obligation → Bool
satisfied c pre require_approval = c.approved
satisfied c pre require_recorder = c.recorder_available
satisfied c pre target_verified = c.target_verified
satisfied c pre (execution_before d) = not (has_passed c.now d)
satisfied c pre require_effect_receipt = true
satisfied c post require_effect_receipt = c.effect_receipt
satisfied c post _ = true

-- The obligations that evaluateObligations reports, on a normalized list.
unfoldable pub unsatisfied : Context → Phase → List Obligation → List Obligation
unsatisfied c phase [] = []
unsatisfied c phase (o ∷ os) =
    let later = unsatisfied c phase os in if satisfied c phase o then later else o ∷ later
