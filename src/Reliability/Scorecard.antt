-- ===== src/Reliability/Scorecard.antt =====
-- buildReliabilityScorecard and reliabilityScorecardExitCode of
-- packages/core/src/crashlab/scorecard.js. A text that is empty stands for one that is absent; the
-- expected and actual values of a check, which are only copied, and the numbers of attempts and
-- effects are left out.
pub mod Passing
use Prim.Native.Nat.{compare, Ordering}
use ruleoak.Common.{
  ℕ, ◌+◌, ◌-◌, Bool, true, false, not, ◌&&◌, ◌||◌, Option, none, some, List, [], ◌∷◌, ◌++◌, ◌==◌,
  ltb, if◌then◌else◌, any, all, select, length, is_empty, map,
}
use ruleoak.Common.Results.{Result, ok, err}
use ruleoak.Common.Sort.{sort, then_by}
use ruleoak.Common.Texts.{Text, text, same}
use ruleoak.Common.Ordered.{compare_text}
use ruleoak.Permission.Call.{or_default, one_of}

-- RELIABILITY_SCORECARD_DIMENSIONS
pub data Dimension : Type 0 where
  duplicate_effect_resistance revocation_compliance ambiguity_handling : Dimension
  retry_boundedness evidence_completeness recovery_correctness : Dimension

abbrev pub dimensions : List Dimension
dimensions =
    duplicate_effect_resistance ∷ revocation_compliance ∷ ambiguity_handling ∷ retry_boundedness
    ∷ evidence_completeness ∷ recovery_correctness ∷ []

abbrev pub dimension_rank : Dimension → ℕ
dimension_rank duplicate_effect_resistance = 0
dimension_rank revocation_compliance = 1
dimension_rank ambiguity_handling = 2
dimension_rank retry_boundedness = 3
dimension_rank evidence_completeness = 4
dimension_rank recovery_correctness = 5

abbrev pub same_dimension : Dimension → Dimension → Bool
same_dimension a b = dimension_rank a == dimension_rank b

pub record Check : Type 0 where
  pub id : Text
  pub pass : Bool
  -- Number(check.actual) and Number(check.expected.max), `none` where they are no number.
  pub actual : Option ℕ
  pub most : Option ℕ

pub record Outcome : Type 0 where
  pub scenario_id : Text
  pub scenario : Text
  -- result.status === 'PASS'
  pub passed : Bool
  pub failure_class : Text
  pub checks : List Check
  -- The names of the invariants, and whether each is false.
  pub invariants : List (Text × Bool)

-- scenarioIdentity
unfoldable pub scenario_identity : Outcome → Text
scenario_identity r =
    or_default r.scenario_id (text "legacy:" ++ or_default r.scenario (text "<unnamed>"))

-- checkId
abbrev pub check_id : Check → Text
check_id c = or_default c.id (text "unknown_check")

abbrev pub exceeds : Option ℕ → Option ℕ → Bool
exceeds (some a) (some b) = ltb b a
exceeds _ _ = false

-- dimensionForCheck
unfoldable pub dimension_for_check : Check → Outcome → Dimension
dimension_for_check c r =
    let id = check_id c in
    if one_of
      (text "duplicate_effect_resistance"
        ∷ text "duplicate-effect-prevention"
        ∷ text "one_use_authority"
        ∷ [])
      id
    then duplicate_effect_resistance
    else if one_of (text "revocation_compliance" ∷ text "revocation-compliance" ∷ []) id
    then revocation_compliance
    else if one_of
        (text "ambiguity_preservation"
          ∷ text "eventual_consistency_handling"
          ∷ text "ambiguous-failure-recovery"
          ∷ [])
        id
    then ambiguity_handling
    else if one_of
        (text "retry_boundedness" ∷ text "retry-boundedness" ∷ text "attempt-ceiling" ∷ []) id
    then retry_boundedness
    else if one_of
        (text "evidence_completeness"
          ∷ text "evidence_expectation"
          ∷ text "recorder-completeness"
          ∷ [])
        id
    then evidence_completeness
    else if same id (text "authority_behavior") && same r.failure_class (text "revocation_race")
    then revocation_compliance
    else if same id (text "effect_count_range") && exceeds c.actual c.most
    then duplicate_effect_resistance
    else recovery_correctness

-- dimensionForInvariant
unfoldable pub dimension_for_invariant : Text → Dimension
dimension_for_invariant id =
    if one_of (text "duplicate_effect_resistance" ∷ text "one_use_authority" ∷ []) id
    then duplicate_effect_resistance
    else if same id (text "retry_boundedness")
    then retry_boundedness
    else if same id (text "revocation_compliance")
    then revocation_compliance
    else if one_of (text "ambiguity_preservation" ∷ text "eventual_consistency_handling" ∷ []) id
    then ambiguity_handling
    else if same id (text "evidence_completeness")
    then evidence_completeness
    else recovery_correctness

-- A check as a dimension lists it.
pub record Listed : Type 0 where
  pub dimension : Dimension
  pub scenario_id : Text
  pub check_id : Text
  pub pass : Bool

abbrev pub listed_check : Outcome → Check → Listed
listed_check r c = record {
  dimension = dimension_for_check c r;
  scenario_id = scenario_identity r;
  check_id = check_id c;
  pass = c.pass;
}

abbrev pub listed_failure : Outcome → Dimension → Text → Listed
listed_failure r d id = record {
  dimension = d;
  scenario_id = scenario_identity r;
  check_id = id;
  pass = false;
}

abbrev pub false_invariants : Outcome → List Text
false_invariants r = map (λ i. i.0) (select (λ i. i.1) r.invariants)

-- checkIds.has(id)
abbrev pub has_check : Outcome → Text → Bool
has_check r id = any (λ c. same (check_id c) id) r.checks

abbrev pub unlisted_invariants : Outcome → List Text
unlisted_invariants r = select (λ i. not (has_check r i)) (false_invariants r)

abbrev pub status_failure : Outcome → List Listed
status_failure r =
    if not r.passed && not (any (λ c. not c.pass) r.checks) && is_empty (false_invariants r)
    then listed_failure r recovery_correctness (text "scenario_status") ∷ []
    else []

-- What a result adds to the dimensions, in order.
unfoldable pub listed_of : Outcome → List Listed
listed_of r =
    map (λ c. listed_check r c) r.checks
    ++ (map (λ i. listed_failure r (dimension_for_invariant i) i) (unlisted_invariants r)
        ++ status_failure r)

unfoldable pub listed_all : List Outcome → List Listed
listed_all [] = []
listed_all (r ∷ rs) = listed_of r ++ listed_all rs

abbrev pub by_check : Listed → Listed → Ordering
by_check a b =
    then_by (compare_text a.scenario_id b.scenario_id) (compare_text a.check_id b.check_id)

unfoldable pub checks_of : Dimension → List Listed → List Listed
checks_of d listed = sort by_check (select (λ l. same_dimension l.dimension d) listed)

pub data Status : Type 0 where
  pass fail not_applicable : Status

unfoldable pub dimension_status : List Listed → Status
dimension_status checks =
    if length checks == 0
    then not_applicable
    else if ltb 0 (length (select (λ l. not l.pass) checks))
    then fail
    else pass

abbrev pub is_pass : Status → Bool
is_pass pass = true
is_pass _ = false

abbrev pub is_fail : Status → Bool
is_fail fail = true
is_fail _ = false

abbrev pub by_identity : Outcome → Outcome → Ordering
by_identity a b =
    then_by (compare_text (scenario_identity a) (scenario_identity b))
      (compare_text a.scenario b.scenario)

-- Whether an identity comes twice.
unfoldable pub has_duplicate : List Outcome → Bool
has_duplicate [] = false
has_duplicate (r ∷ rs) =
    any (λ s. same (scenario_identity r) (scenario_identity s)) rs || has_duplicate rs

pub data ScorecardError : Type 0 where
  no_results duplicate_identity : ScorecardError

pub record Scorecard : Type 0 where
  pub status : Status
  pub scenarios_total : ℕ
  pub scenarios_pass : ℕ
  pub scenarios_fail : ℕ
  pub dimension : Dimension → Status
  pub checks : Dimension → List Listed
  pub failing_invariants : List (Text × Text)

abbrev pub invariants_of : Outcome → List (Text × Text)
invariants_of r = map (λ i. (scenario_identity r, i)) (false_invariants r)

unfoldable pub all_invariants : List Outcome → List (Text × Text)
all_invariants [] = []
all_invariants (r ∷ rs) = invariants_of r ++ all_invariants rs

abbrev pub by_invariant : Text × Text → Text × Text → Ordering
by_invariant a b = then_by (compare_text a.0 b.0) (compare_text a.1 b.1)

unfoldable pub overall : List Outcome → List Listed → Status
overall sorted listed =
    if (length (select (λ r. r.passed) sorted) == length sorted)
      && all (λ d. not (is_fail (dimension_status (checks_of d listed)))) dimensions
    then pass
    else fail

unfoldable pub scorecard_of : List Outcome → Scorecard
scorecard_of sorted =
    let listed = listed_all sorted in
    record {
      status = overall sorted listed;
      scenarios_total = length sorted;
      scenarios_pass = length (select (λ r. r.passed) sorted);
      scenarios_fail = length sorted - length (select (λ r. r.passed) sorted);
      dimension = λ d. dimension_status (checks_of d listed);
      checks = λ d. checks_of d listed;
      failing_invariants = sort by_invariant (all_invariants sorted);
    }

-- buildReliabilityScorecard
unfoldable pub build_reliability_scorecard : List Outcome → Result ScorecardError Scorecard
build_reliability_scorecard results =
    if is_empty results
    then err no_results
    else if has_duplicate (sort by_identity results)
    then err duplicate_identity
    else ok (scorecard_of (sort by_identity results))

-- reliabilityScorecardExitCode
unfoldable pub reliability_scorecard_exit_code : Scorecard → ℕ
reliability_scorecard_exit_code s = if is_pass s.status then 0 else 2
