-- ===== src/Reliability/Release/Parts.antt =====
-- What each part of evaluateAgentReleaseGate asks of the snapshots
-- (packages/core/src/release/agent-release-gate.js).
use mathlib.Core.Logic.{◌↔◌}
use ruleoak.Common.{
  ℕ, Bool, true, false, not, ◌&&◌, ◌≡◌, ◌≢◌, refl, Option, none, some, List, [], ◌∷◌, all, arith,
  length, if◌then◌else◌,
}
use ruleoak.Reliability.Release.{
  GatePolicy, Snapshot, Reason, baseline_fingerprint, candidate_fingerprint, baseline_suite,
  candidate_suite, baseline_capability, candidate_capability, coverage, new_critical_failures,
  unsafe_calls, duplicates, ambiguity, missing_drift, missing_review, unreviewed_drift,
  reviewed_drift, incomplete_review, crashlab, Finding, blocking, gap, warning, present, found_if,
  is_none, lacks_suite, identity_findings, new_critical, capability_changed, review_bound,
  requires_review, review_findings, review_incomplete, capability_findings, count_findings,
  coverage_findings, effect_findings,
}
use ruleoak.Reliability.Release.Calm.{calm, both, wanted, avoided, unwanted}

module _ {N : Type 0} (of_count : ℕ → N) (exceeds : N → N → Bool) (minus : N → N → N)
    (relative_to : N → N → Option N) where
  -- A value that is there and does not exceed a bound.
  abbrev pub Within : Option N → N → Type 0
  Within o most = (n : N) × (o ≡ some n) × (exceeds n most ≡ false)

  -- What is known of both snapshots, where the policy wants it.
  pub record IsIdentified (p : GatePolicy N) (b c : Snapshot N) : Type 0 where
    pub evidence :
        p.require_evidence_fingerprints ≡ true
        → (present b.evidence_fingerprint ≡ true) × (present c.evidence_fingerprint ≡ true)
    pub suites : p.require_suite_identity ≡ true → (lacks_suite b ≡ false) × (lacks_suite c ≡ false)
    pub capabilities :
        p.require_capability_fingerprints ≡ true
        → (present b.capability_fingerprint ≡ true) × (present c.capability_fingerprint ≡ true)

  -- The effects of the candidate are known and within the budgets.
  pub record IsSafe (p : GatePolicy N) (b c : Snapshot N) : Type 0 where
    pub critical :
        exceeds (of_count (length (new_critical b c))) p.max_new_critical_failures ≡ false
    pub unsafe : Within c.unsafe_tool_calls p.max_unsafe_tool_calls
    pub duplicate : Within c.duplicate_effects p.max_duplicate_effects
    pub ambiguous : Within c.ambiguous_effects p.max_ambiguous_effects
    pub covered :
        (n : N) × (c.effect_verification_coverage ≡ some n)
        × (exceeds p.min_effect_verification_coverage n ≡ false)

  -- A change of capabilities was assessed, and reviewed where the policy wants it.
  pub record IsReviewed (p : GatePolicy N) (b c : Snapshot N) : Type 0 where
    pub assessed : capability_changed b c ≡ true → c.capability_drift ≢ none
    pub bound :
        capability_changed b c ≡ true → p.require_capability_review ≡ true → review_bound c ≡ true
    pub complete :
        capability_changed b c ≡ false
        → p.require_capability_review ≡ true
        → c.capability_reviewed ≢ some false
    pub crash_tested : p.require_crashlab_pass ≡ true → c.crashlab_passed ≡ true

  pub identity_iff :
      (p : GatePolicy N) (b c : Snapshot N)
      → (calm (identity_findings p b c) ≡ true) ↔ IsIdentified p b c
  unfolding identity_findings
  identity_iff p b c =
      let fingerprints = p.require_evidence_fingerprints in
      let capabilities = p.require_capability_fingerprints in
      let suites = p.require_suite_identity in
      let parts =
        both _ _
          (both _ _
            (both _ _
              (both _ _
                (both _ _
                  (wanted fingerprints (present b.evidence_fingerprint) (gap baseline_fingerprint)
                    refl)
                  (wanted fingerprints (present c.evidence_fingerprint) (gap candidate_fingerprint)
                    refl))
                (avoided suites (lacks_suite b) (gap baseline_suite) refl))
              (avoided suites (lacks_suite c) (gap candidate_suite) refl))
            (wanted capabilities (present b.capability_fingerprint) (gap baseline_capability) refl))
          (wanted capabilities (present c.capability_fingerprint) (gap candidate_capability)
            refl) in
      (
        λ h.
            let (((((eb, ec), sb), sc), cb), cc) = parts.0 h in
            record {
              evidence = λ t. (eb t, ec t);
              suites = λ t. (sb t, sc t);
              capabilities = λ t. (cb t, cc t);
            },
        λ k. parts.1 (
          (
            (
              ((λ t. (k.evidence t).0, λ t. (k.evidence t).1), λ t. (k.suites t).0),
              λ t. (k.suites t).1,
            ),
            λ t. (k.capabilities t).0,
          ),
          λ t. (k.capabilities t).1,
        ),
      )

  count_iff :
      (o : Option N) (most : N) (why : Reason)
      → (calm (count_findings of_count exceeds minus relative_to o most why) ≡ true) ↔ Within o most
  unfolding calm all
  count_iff none most why = (λ h. absurd (cc h), λ w. absurd (cc w.1))
  count_iff (some n) most why =
      let part = unwanted (exceeds n most) (blocking why) refl in
      (λ h. (n, refl, part.0 h), λ w. part.1 (let q : n ≡ w.0 = cc w.1 in rw q w.2))

  coverage_iff :
      (o : Option N) (least : N)
      → (calm (coverage_findings of_count exceeds minus relative_to o least) ≡ true)
        ↔ ((n : N) × (o ≡ some n) × (exceeds least n ≡ false))
  unfolding calm all
  coverage_iff none least = (λ h. absurd (cc h), λ w. absurd (cc w.1))
  coverage_iff (some n) least =
      let part = unwanted (exceeds least n) (gap coverage) refl in
      (λ h. (n, refl, part.0 h), λ w. part.1 (let q : n ≡ w.0 = cc w.1 in rw q w.2))

  pub effect_iff :
      (p : GatePolicy N) (b c : Snapshot N)
      → (calm (effect_findings of_count exceeds minus relative_to p b c) ≡ true) ↔ IsSafe p b c
  unfolding effect_findings
  effect_iff p b c =
      let parts =
        both _ _
          (both _ _
            (both _ _
              (both _ _
                (unwanted
                  (exceeds (of_count (length (new_critical b c))) p.max_new_critical_failures)
                  (blocking new_critical_failures) refl)
                (count_iff c.unsafe_tool_calls p.max_unsafe_tool_calls unsafe_calls))
              (count_iff c.duplicate_effects p.max_duplicate_effects duplicates))
            (count_iff c.ambiguous_effects p.max_ambiguous_effects ambiguity))
          (coverage_iff c.effect_verification_coverage p.min_effect_verification_coverage) in
      (
        λ h.
            let ((((k, u), d), a), v) = parts.0 h in
            record { critical = k; unsafe = u; duplicate = d; ambiguous = a; covered = v },
        λ k. parts.1 ((((k.critical, k.unsafe), k.duplicate), k.ambiguous), k.covered),
      )

  drift_iff :
      (o : Option Bool) → (calm (found_if (is_none o) (gap missing_drift)) ≡ true) ↔ (o ≢ none)
  unfolding calm all
  drift_iff none = (λ h. absurd (cc h), λ h. absurd (h refl))
  drift_iff (some b) = (λ h e. cc e, λ h. refl)

  review_iff :
      (p : GatePolicy N) (c : Snapshot N)
      → (calm (review_findings p c) ≡ true)
        ↔ (p.require_capability_review ≡ true → review_bound c ≡ true)
  unfolding calm all
  review_iff p c = go p.require_capability_review (review_bound c) (requires_review c)
    where
      go :
          (a b r : Bool)
          → (calm (
                if a && not b
                then (if r then blocking unreviewed_drift else gap missing_review) ∷ []
                else found_if (b && r) (warning reviewed_drift))
              ≡ true)
            ↔ (a ≡ true → b ≡ true)
      go true true true = ground arith
      go true true false = ground arith
      go true false true = ground arith
      go true false false = ground arith
      go false b r = ground arith

  if_changed :
      {P : Type 0} (d : Bool) (xs : List Finding)
      → ((calm xs ≡ true) ↔ P)
      → (calm (if d then xs else []) ≡ true) ↔ (d ≡ true → P)
  unfolding calm all
  if_changed true xs q = (λ h t. q.0 h, λ h. q.1 (h refl))
  if_changed false xs q = (λ h t. cc t, λ h. refl)

  complete_iff :
      (a d : Bool) (c : Snapshot N)
      → (calm (found_if (a && not d && review_incomplete c) (gap incomplete_review)) ≡ true)
        ↔ (d ≡ false → a ≡ true → c.capability_reviewed ≢ some false)
  unfolding calm all
  complete_iff a d c = go a d c.capability_reviewed
    where
      go :
          (a d : Bool) (o : Option Bool)
          → (calm (
                found_if
                  (a && not d && (elim o [ some b ↦ not b | none ↦ false ]))
                  (gap incomplete_review))
              ≡ true)
            ↔ (d ≡ false → a ≡ true → o ≢ some false)
      go true true o = (λ h e. cc e, λ h. refl)
      go false d o = (λ h e t. cc t, λ h. refl)
      go true false none = (λ h e t q. cc q, λ h. refl)
      go true false (some true) = (λ h e t q. cc q, λ h. refl)
      go true false (some false) = (λ h. absurd (cc h), λ h. absurd (h refl refl refl))

  pub capability_iff :
      (p : GatePolicy N) (b c : Snapshot N)
      → (calm (capability_findings p b c) ≡ true) ↔ IsReviewed p b c
  unfolding capability_findings
  capability_iff p b c =
      let changed = capability_changed b c in
      let parts =
        both _ _
          (both _ _
            (if_changed changed _ (both _ _ (drift_iff c.capability_drift) (review_iff p c)))
            (complete_iff p.require_capability_review changed c))
          (wanted p.require_crashlab_pass c.crashlab_passed (gap crashlab) refl) in
      (
        λ h.
            let ((reviewed, complete), tested) = parts.0 h in
            record {
              assessed = λ t. (reviewed t).0;
              bound = λ t. (reviewed t).1;
              complete = complete;
              crash_tested = tested;
            },
        λ k. parts.1 ((λ t. (k.assessed t, k.bound t), k.complete), k.crash_tested),
      )
