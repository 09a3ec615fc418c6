-- ===== src/Reliability/Release/Releasing.antt =====
-- Which candidates packages/core/src/release/agent-release-gate.js releases.
use mathlib.Core.Logic.{◌↔◌}
use ruleoak.Common.{
  ℕ, Bool, true, false, not, ◌&&◌, ◌≡◌, ◌≢◌, refl, sym, ◌∙◌, Option, none, some, List, [], ◌∷◌, any,
  all, arith, if◌then◌else◌,
}
use ruleoak.Reliability.Release.{
  State, success_regression, model_verdict, model_conditions, pass, pass_with_conditions,
  Qualification, blocked, conditional, other, GatePolicy, Snapshot, not_comparable,
  different_suites, different_versions, latency, cost, Reason, Finding, blocking, warning,
  is_blocking, is_gap, is_warning, versions_differ, suites_differ, model_findings, state_of,
  success_findings, ratio_findings, drop, regression_findings, findings_of,
  evaluate_agent_release_gate, compared,
}
use ruleoak.Reliability.Release.Calm.{calm, calm_none, both, unwanted}
use ruleoak.Reliability.Release.Parts.{
  IsIdentified, IsSafe, IsReviewed, identity_iff, effect_iff, capability_iff,
}

-- A state in which the candidate may be released.
unfoldable pub releases : State → Bool
releases pass = true
releases pass_with_conditions = true
releases _ = false

releases-state_of : (xs : List Finding) → releases (state_of xs) ≡ calm xs
unfolding releases state_of
releases-state_of xs = go (any is_blocking xs) (any is_gap xs) (any is_warning xs) (calm_none xs)
  where
    go :
        (a b c : Bool)
        → (not a && not b) ≡ calm xs
        → releases (
            if a
            then State.block
            else if b
            then State.insufficient_evidence
            else if c
            then pass_with_conditions
            else pass)
          ≡ calm xs
    go true b c h = h
    go false true c h = h
    go false false true h = h
    go false false false h = h

module _ {N : Type 0} (of_count : ℕ → N) (exceeds : N → N → Bool) (minus : N → N → N)
    (relative_to : N → N → Option N) where
  -- The task success is known of both and did not fall by more than the policy lets it.
  abbrev pub Succeeds : GatePolicy N → Snapshot N → Snapshot N → Type 0
  Succeeds p b c =
      (x : N) × (y : N) × (c.task_success_rate ≡ some x)
      × (b.task_success_rate ≡ some y)
      × (exceeds (minus y x) p.max_task_success_drop ≡ false)

  ratio_calm :
      (o : Option N) (most : N) (why : Reason)
      → calm (ratio_findings of_count exceeds minus relative_to o most why) ≡ true
  unfolding calm all
  ratio_calm none most why = refl
  ratio_calm (some r) most why = ground arith

  always : (xs : List Finding) → calm xs ≡ true → (calm xs ≡ true) ↔ Unit {0}
  always xs h = (λ k. tt, λ u. h)

  success_iff :
      (c b : Option N) (most : N)
      → (calm (
            success_findings of_count exceeds minus relative_to
              (drop of_count exceeds minus relative_to c b)
              most)
          ≡ true)
        ↔ ((x : N) × (y : N) × (c ≡ some x) × (b ≡ some y) × (exceeds (minus y x) most ≡ false))
  unfolding calm all
  success_iff none b most = (λ h. absurd (cc h), λ w. absurd (cc w.2))
  success_iff (some x) none most = (λ h. absurd (cc h), λ w. absurd (cc w.3))
  success_iff (some x) (some y) most =
      let part = unwanted (exceeds (minus y x) most) (blocking success_regression) refl in
      (
        λ h. (x, y, refl, refl, part.0 h),
        λ w. part.1 (let q : x ≡ w.0 = cc w.2 in let r : y ≡ w.1 = cc w.3 in rw (q, r) w.4),
      )

  regression_iff :
      (p : GatePolicy N) (b c : Snapshot N)
      → (calm (regression_findings of_count exceeds minus relative_to p b c) ≡ true)
        ↔ Succeeds p b c
  unfolding regression_findings
  regression_iff p b c =
      let parts =
        both _ _
          (both _ _ (success_iff c.task_success_rate b.task_success_rate p.max_task_success_drop)
            (always _ (ratio_calm _ p.max_latency_regression_ratio latency)))
          (always _ (ratio_calm _ p.max_cost_regression_ratio cost)) in
      (λ h. (parts.0 h).0.0, λ k. parts.1 ((k, tt), tt))

  model_iff : (c : Snapshot N) → (calm (model_findings c) ≡ true) ↔ (c.qualification ≢ blocked)
  unfolding calm model_findings all
  model_iff c = go c.qualification
    where
      go :
          (q : Qualification)
          → (calm (elim q [
            | blocked ↦ blocking model_verdict ∷ []
            | conditional ↦ warning model_conditions ∷ []
            | other ↦ []
          ])
              ≡ true)
            ↔ (q ≢ blocked)
      go blocked = (λ h. absurd (cc h), λ h. absurd (h refl))
      go conditional = (λ h e. cc e, λ h. refl)
      go other = (λ h e. cc e, λ h. refl)

  -- What a release rests on.
  pub record IsReleasable (p : GatePolicy N) (b c : Snapshot N) : Type 0 where
    pub comparable :
        (suites_differ b c ≡ false) × (versions_differ b.suite_version c.suite_version ≡ false)
    pub identified : IsIdentified of_count exceeds minus relative_to p b c
    pub safe : IsSafe of_count exceeds minus relative_to p b c
    pub reviewed : IsReviewed of_count exceeds minus relative_to p b c
    pub successful : Succeeds p b c
    pub qualified : c.qualification ≢ blocked

  findings_iff :
      (p : GatePolicy N) (b c : Snapshot N)
      → (calm (findings_of of_count exceeds minus relative_to p b c) ≡ true) ↔ (
          (((IsIdentified of_count exceeds minus relative_to p b c
                × IsSafe of_count exceeds minus relative_to p b c)
              × IsReviewed of_count exceeds minus relative_to p b c)
            × Succeeds p b c)
          × (c.qualification ≢ blocked))
  unfolding findings_of
  findings_iff p b c =
      both _ _
        (both _ _
          (both _ _
            (both _ _ (identity_iff of_count exceeds minus relative_to p b c)
              (effect_iff of_count exceeds minus relative_to p b c))
            (capability_iff of_count exceeds minus relative_to p b c))
          (regression_iff p b c))
        (model_iff c)

  compared_iff :
      (p : GatePolicy N) (b c : Snapshot N)
      → (releases (compared of_count exceeds minus relative_to p b c).state ≡ true)
        ↔ IsReleasable p b c
  unfolding compared releases
  compared_iff p b c =
      go (suites_differ b c) (versions_differ b.suite_version c.suite_version) refl refl
    where
      go :
          (d v : Bool)
          → suites_differ b c ≡ d
          → versions_differ b.suite_version c.suite_version ≡ v
          → (releases
                (if d
                  then not_comparable of_count exceeds minus relative_to p b c different_suites
                  else if v
                  then not_comparable of_count exceeds minus relative_to p b c different_versions
                  else record {
                    state = state_of (findings_of of_count exceeds minus relative_to p b c);
                    findings = findings_of of_count exceeds minus relative_to p b c;
                  }).state
              ≡ true)
            ↔ IsReleasable p b c
      go true v d e = (λ h. absurd (cc h), λ k. absurd (cc (d, k.comparable.0)))
      go false true d e = (λ h. absurd (cc h), λ k. absurd (cc (e, k.comparable.1)))
      go false false d e =
          let f = findings_iff p b c in
          let state = releases-state_of (findings_of of_count exceeds minus relative_to p b c) in
          (
            λ h.
                let ((((i, s), r), t), q) = f.0 (sym state ∙ h) in
                record {
                  comparable = (d, e);
                  identified = i;
                  safe = s;
                  reviewed = r;
                  successful = t;
                  qualified = q;
                },
            λ k. state ∙ f.1 ((((k.identified, k.safe), k.reviewed), k.successful), k.qualified),
          )

  -- A candidate is released, with or without conditions, exactly when both snapshots are there and
  -- comparable, what the policy wants of them is known, the effects of the candidate are known and
  -- within the budgets, a change of capabilities was assessed and reviewed as the policy wants, the
  -- success rate did not fall by more than it lets it, and no verdict on the model blocks.
  pub releases_iff :
      (p : GatePolicy N) (b c : Option (Snapshot N))
      → (releases (evaluate_agent_release_gate of_count exceeds minus relative_to p b c).state
          ≡ true)
        ↔ ((x : Snapshot N) × (y : Snapshot N) × (b ≡ some x) × (c ≡ some y) × IsReleasable p x y)
  unfolding evaluate_agent_release_gate releases
  releases_iff p none c = (λ h. absurd (cc h), λ w. absurd (cc w.2))
  releases_iff p (some b) none = (λ h. absurd (cc h), λ w. absurd (cc w.3))
  releases_iff p (some b) (some c) =
      let k = compared_iff p b c in
      (
        λ h. (b, c, refl, refl, k.0 h),
        λ w. let r : b ≡ w.0 = cc w.2 in let q : c ≡ w.1 = cc w.3 in k.1 (rw (r, q) w.4),
      )
