-- ===== src/Reliability/Release.antt =====
-- evaluateAgentReleaseGate of packages/core/src/release/agent-release-gate.js. A number of JavaScript
-- is a value of a type that is a parameter, with its comparison, difference and ratio; a value that
-- `finite` turns to null is `none`. A text that is empty stands for one that is absent. The messages
-- and the digest of the policy are left out.
mod Calm
pub mod Parts
pub mod Releasing
use ruleoak.Common.{
  ℕ, Bool, true, false, not, ◌&&◌, ◌||◌, Option, none, some, List, [], ◌∷◌, ◌++◌, any, select,
  length, if◌then◌else◌, is_empty,
}
use ruleoak.Common.Sort.{sort}
use ruleoak.Common.Texts.{Text, same}
use ruleoak.Engine.Policy.{member}
use ruleoak.Execution.Verification.Observers.{is_space}
use ruleoak.Common.Ordered.{compare_text, distinct}

-- AGENT_RELEASE_STATES
pub data State : Type 0 where
  pass pass_with_conditions block insufficient_evidence incomparable : State

-- model_qualification?.verdict: the three that block are one constructor.
pub data Qualification : Type 0 where
  blocked conditional other : Qualification

pub record GatePolicy (N : Type 0) : Type 0 where
  pub max_new_critical_failures : N
  pub max_unsafe_tool_calls : N
  pub max_duplicate_effects : N
  pub max_ambiguous_effects : N
  pub min_effect_verification_coverage : N
  pub max_task_success_drop : N
  pub max_latency_regression_ratio : N
  pub max_cost_regression_ratio : N
  pub require_evidence_fingerprints : Bool
  pub require_suite_identity : Bool
  pub require_capability_fingerprints : Bool
  pub require_capability_review : Bool
  pub require_crashlab_pass : Bool

pub record Snapshot (N : Type 0) : Type 0 where
  pub evidence_fingerprint : Text
  pub suite_id : Text
  pub suite_version : Option Text
  pub capability_fingerprint : Text
  pub capability_review_fingerprint : Text
  -- Whether the drift requires a review of the policy, where there is a drift.
  pub capability_drift : Option Bool
  pub capability_reviewed : Option Bool
  pub crashlab_passed : Bool
  pub critical_case_failures : List Text
  pub unsafe_tool_calls : Option N
  pub duplicate_effects : Option N
  pub ambiguous_effects : Option N
  pub effect_verification_coverage : Option N
  pub task_success_rate : Option N
  pub latency_ms : Option N
  pub cost_usd : Option N
  pub qualification : Qualification

pub data Reason : Type 0 where
  new_critical_failures unsafe_calls duplicates ambiguity unreviewed_drift : Reason
  success_regression model_verdict : Reason
  baseline_fingerprint candidate_fingerprint baseline_suite candidate_suite : Reason
  baseline_capability candidate_capability coverage missing_drift missing_review : Reason
  incomplete_review crashlab success_rate : Reason
  reviewed_drift latency cost model_conditions : Reason
  missing_snapshot different_suites different_versions : Reason

-- What is pushed on blocking, evidence_gaps and warnings.
pub data Finding : Type 0 where
  blocking gap warning : (why : Reason) → Finding

pub record GateDecision : Type 0 where
  pub state : State
  pub findings : List Finding

abbrev pub is_blocking : Finding → Bool
is_blocking (blocking why) = true
is_blocking _ = false

abbrev pub is_gap : Finding → Bool
is_gap (gap why) = true
is_gap _ = false

abbrev pub is_warning : Finding → Bool
is_warning (warning why) = true
is_warning _ = false

-- A text with a unit that is no space.
unfoldable pub present : Text → Bool
present s = any (λ c. not (is_space c)) s

abbrev pub found_if : Bool → Finding → List Finding
found_if true f = f ∷ []
found_if false f = []

abbrev pub is_none {ℓ} : {A : Type ℓ} → Option A → Bool
is_none none = true
is_none (some a) = false

-- Two versions that are both there and differ.
abbrev pub versions_differ : Option Text → Option Text → Bool
versions_differ (some a) (some b) = not (same a b)
versions_differ _ _ = false

-- uniq
unfoldable pub uniq : List Text → List Text
uniq values = sort compare_text (distinct values)

module _ {N : Type 0} where
  abbrev pub lacks_suite : Snapshot N → Bool
  lacks_suite s = not (present s.suite_id) || is_none s.suite_version

  unfoldable pub identity_findings : GatePolicy N → Snapshot N → Snapshot N → List Finding
  identity_findings p b c =
      found_if (p.require_evidence_fingerprints && not (present b.evidence_fingerprint))
        (gap baseline_fingerprint)
      ++ found_if (p.require_evidence_fingerprints && not (present c.evidence_fingerprint))
          (gap candidate_fingerprint)
      ++ found_if (p.require_suite_identity && lacks_suite b) (gap baseline_suite)
      ++ found_if (p.require_suite_identity && lacks_suite c) (gap candidate_suite)
      ++ found_if (p.require_capability_fingerprints && not (present b.capability_fingerprint))
          (gap baseline_capability)
      ++ found_if (p.require_capability_fingerprints && not (present c.capability_fingerprint))
          (gap candidate_capability)

  unfoldable pub suites_differ : Snapshot N → Snapshot N → Bool
  suites_differ b c =
      not (is_empty b.suite_id) && not (is_empty c.suite_id) && not (same b.suite_id c.suite_id)

  unfoldable pub new_critical : Snapshot N → Snapshot N → List Text
  new_critical b c =
      select (λ x. not (member (uniq b.critical_case_failures) x)) (uniq c.critical_case_failures)

  unfoldable pub capability_changed : Snapshot N → Snapshot N → Bool
  capability_changed b c =
      present b.capability_fingerprint
      && present c.capability_fingerprint
      && not (same b.capability_fingerprint c.capability_fingerprint)

  unfoldable pub review_bound : Snapshot N → Bool
  review_bound c =
      present c.capability_review_fingerprint
      && same c.capability_review_fingerprint c.capability_fingerprint

  abbrev pub requires_review : Snapshot N → Bool
  requires_review c = elim c.capability_drift [ some b ↦ b | none ↦ false ]

  abbrev pub review_findings : GatePolicy N → Snapshot N → List Finding
  review_findings p c =
      if p.require_capability_review && not (review_bound c)
      then (if requires_review c then blocking unreviewed_drift else gap missing_review) ∷ []
      else found_if (review_bound c && requires_review c) (warning reviewed_drift)

  abbrev pub review_incomplete : Snapshot N → Bool
  review_incomplete c = elim c.capability_reviewed [ some b ↦ not b | none ↦ false ]

  unfoldable pub capability_findings : GatePolicy N → Snapshot N → Snapshot N → List Finding
  capability_findings p b c =
      (if capability_changed b c
        then found_if (is_none c.capability_drift) (gap missing_drift) ++ review_findings p c
        else [])
      ++ found_if
          (p.require_capability_review && not (capability_changed b c) && review_incomplete c)
          (gap incomplete_review)
      ++ found_if (p.require_crashlab_pass && not c.crashlab_passed) (gap crashlab)

  unfoldable pub model_findings : Snapshot N → List Finding
  model_findings c = elim c.qualification [
    | blocked ↦ blocking model_verdict ∷ []
    | conditional ↦ warning model_conditions ∷ []
    | other ↦ []
  ]

unfoldable pub state_of : List Finding → State
state_of findings =
    if any is_blocking findings
    then block
    else if any is_gap findings
    then insufficient_evidence
    else if any is_warning findings
    then pass_with_conditions
    else pass

module _ {N : Type 0} (of_count : ℕ → N) (exceeds : N → N → Bool) (minus : N → N → N)
    (relative_to : N → N → Option N) where
  -- A count that must be there and within its budget.
  abbrev pub count_findings : Option N → N → Reason → List Finding
  count_findings none most why = gap why ∷ []
  count_findings (some n) most why = found_if (exceeds n most) (blocking why)

  abbrev pub coverage_findings : Option N → N → List Finding
  coverage_findings none least = gap coverage ∷ []
  coverage_findings (some n) least = found_if (exceeds least n) (gap coverage)

  unfoldable pub effect_findings : GatePolicy N → Snapshot N → Snapshot N → List Finding
  effect_findings p b c =
      found_if (exceeds (of_count (length (new_critical b c))) p.max_new_critical_failures)
        (blocking new_critical_failures)
      ++ count_findings c.unsafe_tool_calls p.max_unsafe_tool_calls unsafe_calls
      ++ count_findings c.duplicate_effects p.max_duplicate_effects duplicates
      ++ count_findings c.ambiguous_effects p.max_ambiguous_effects ambiguity
      ++ coverage_findings c.effect_verification_coverage p.min_effect_verification_coverage

  -- drop
  abbrev pub drop : Option N → Option N → Option N
  drop (some c) (some b) = some (minus b c)
  drop _ _ = none

  -- ratio, which is null where the baseline is zero.
  abbrev pub ratio : Option N → Option N → Option N
  ratio (some c) (some b) = relative_to c b
  ratio _ _ = none

  abbrev pub success_findings : Option N → N → List Finding
  success_findings none most = gap success_rate ∷ []
  success_findings (some d) most = found_if (exceeds d most) (blocking success_regression)

  abbrev pub ratio_findings : Option N → N → Reason → List Finding
  ratio_findings none most why = []
  ratio_findings (some r) most why = found_if (exceeds r most) (warning why)

  unfoldable pub regression_findings : GatePolicy N → Snapshot N → Snapshot N → List Finding
  regression_findings p b c =
      success_findings (drop c.task_success_rate b.task_success_rate) p.max_task_success_drop
      ++ ratio_findings (ratio c.latency_ms b.latency_ms) p.max_latency_regression_ratio latency
      ++ ratio_findings (ratio c.cost_usd b.cost_usd) p.max_cost_regression_ratio cost

  unfoldable pub findings_of : GatePolicy N → Snapshot N → Snapshot N → List Finding
  findings_of p b c =
      identity_findings p b c
      ++ effect_findings p b c
      ++ capability_findings p b c
      ++ regression_findings p b c
      ++ model_findings c

  abbrev pub insufficient : GateDecision
  insufficient = record { state = insufficient_evidence; findings = gap missing_snapshot ∷ [] }

  abbrev pub not_comparable : GatePolicy N → Snapshot N → Snapshot N → Reason → GateDecision
  not_comparable p b c why = record {
    state = incomparable;
    findings = blocking why ∷ identity_findings p b c;
  }

  unfoldable pub compared : GatePolicy N → Snapshot N → Snapshot N → GateDecision
  compared p b c =
      if suites_differ b c
      then not_comparable p b c different_suites
      else if versions_differ b.suite_version c.suite_version
      then not_comparable p b c different_versions
      else record { state = state_of (findings_of p b c); findings = findings_of p b c }

  -- evaluateAgentReleaseGate, where a snapshot may be absent.
  unfoldable pub evaluate_agent_release_gate :
      GatePolicy N → Option (Snapshot N) → Option (Snapshot N) → GateDecision
  evaluate_agent_release_gate p (some b) (some c) = compared p b c
  evaluate_agent_release_gate p (some b) none = insufficient
  evaluate_agent_release_gate p none c = insufficient
