-- ===== src/Tests/Releases.antt =====
-- An example of a release.
use ruleoak.Common.{ℕ, ◌-◌, Bool, true, ◌≡◌, ◌↔◌, Option, none, some, [], ltb}
use ruleoak.Common.Texts.{text}
use ruleoak.Reliability.Release.{GatePolicy, Snapshot, other, evaluate_agent_release_gate}
use ruleoak.Reliability.Release.Releasing.{releases, IsReleasable, releases_iff}

abbrev of_count : ℕ → ℕ
of_count n = n

abbrev exceeds : ℕ → ℕ → Bool
exceeds n most = ltb most n

abbrev minus : ℕ → ℕ → ℕ
minus a b = a - b

abbrev relative_to : ℕ → ℕ → Option ℕ
relative_to c b = none

abbrev strict : GatePolicy ℕ
strict = record {
  max_new_critical_failures = 0;
  max_unsafe_tool_calls = 0;
  max_duplicate_effects = 0;
  max_ambiguous_effects = 0;
  min_effect_verification_coverage = 95;
  max_task_success_drop = 2;
  max_latency_regression_ratio = 25;
  max_cost_regression_ratio = 25;
  require_evidence_fingerprints = true;
  require_suite_identity = true;
  require_capability_fingerprints = true;
  require_capability_review = true;
  require_crashlab_pass = true;
}

abbrev stable : Snapshot ℕ
stable = record {
  evidence_fingerprint = text "e";
  suite_id = text "s";
  suite_version = some (text "1");
  capability_fingerprint = text "c";
  capability_review_fingerprint = [];
  capability_drift = none;
  capability_reviewed = none;
  crashlab_passed = true;
  critical_case_failures = [];
  unsafe_tool_calls = some 0;
  duplicate_effects = some 0;
  ambiguous_effects = some 0;
  effect_verification_coverage = some 96;
  task_success_rate = some 90;
  latency_ms = none;
  cost_usd = none;
  qualification = other;
}

releases_iff_example :
    (releases
        (evaluate_agent_release_gate of_count exceeds minus relative_to strict
          (some stable)
          (some stable)).state
      ≡ true)
    ↔ ((b : Snapshot ℕ) × (c : Snapshot ℕ) × (some stable ≡ some b)
        × (some stable ≡ some c)
        × IsReleasable of_count exceeds minus relative_to strict b c)
releases_iff_example =
    releases_iff of_count exceeds minus relative_to strict (some stable) (some stable)
