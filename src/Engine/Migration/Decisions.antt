-- ===== src/Engine/Migration/Decisions.antt =====
-- What a policy decides before and after migratePolicyToV2 (packages/core/src/migration/policy.js).
use Prim.Native.Nat.{Ordering}
use ruleoak.Common.{
  ℕ, Bool, true, false, ◌≡◌, refl, sym, ap, subst, inl, inr, Option, none, some, List, [], ◌∷◌,
  ◌==◌, all, select_keeps, all-In, is_empty, arith, Bool-cases, Option-cases, and-eq-true, In, head,
  tail, ◌∙◌, not, if◌then◌else◌, ◌&&◌, ==_iff, ◌⊎◌,
}
use ruleoak.Common.Results.{Result, ok}
use ruleoak.Common.Sort.{sort}
use ruleoak.Common.Texts.{Text}
use ruleoak.Engine.Pattern.{Best, best_match}
use ruleoak.Engine.Pattern.Laws.{best_match-IsBest, best_match-none}
use ruleoak.Engine.Policy.{Decision, Policy, Action, valid_policy, non_empty, normalize_decision}
use ruleoak.Engine.Rules.{Match, action_key, structured_matches, choose_structured_match}
use ruleoak.Engine.Rules.Choice.{structured_matches_complete}
use ruleoak.Engine.Evaluate.{
  Verdict, listed_decision, legacy_decision, decide, or_else, map_verdict, structured_denies,
}
use ruleoak.Engine.Evaluate.Precedence.{
  or_else-decides, map_verdict-none, denied_match, denied_missed, denies_stage, denies_stage-action,
  exact_stage, effect-match_of,
}
use ruleoak.Engine.Migration.{
  migrated_policy, migration_of, unchanged, Migration, MigrationError, migrate_policy_to_v2,
  detect_policy_version, filled,
}
use ruleoak.Engine.Migration.Origins.{blocked-Standing}
use ruleoak.Engine.Migration.Strictness.{
  rules, last_stages, AsStrict, In-Source, unblocked, last-AsStrict,
}

or_else-AsStrict :
    (o : Option Verdict) (x y : Verdict)
    → AsStrict x.action y.action
    → AsStrict (or_else o x).action (or_else o y).action
or_else-AsStrict none x y h = h
or_else-AsStrict (some v) x y h = inl refl

module _ (locale_compare : Text → Text → Ordering) (show : ℕ → Text) (prefix : Text) (a : Action)
    (p : Policy) where
  abbrev migrated : Policy
  migrated = migrated_policy show prefix p

  abbrev denies : Option Verdict
  denies = denies_stage locale_compare a migrated

  abbrev denied : Option Match
  denied =
      choose_structured_match locale_compare
        (structured_denies (structured_matches (rules locale_compare show prefix a p) a))

  -- The stages of the migrated policy after the exact denials.
  abbrev migrated_rest : Verdict
  migrated_rest = or_else denies (
      or_else (exact_stage locale_compare a p Decision.needs_approval) (
        or_else (exact_stage locale_compare a p Decision.allow)
          (last_stages locale_compare show prefix a p)))

  abbrev legacy_last : Verdict
  legacy_last =
      legacy_decision (best_match p.allowed_actions (action_key a))
        (best_match p.approval_required (action_key a)) p

  -- The stages of the legacy policy after the exact denials.
  abbrev legacy_rest : Option Best → Verdict
  legacy_rest blocked = or_else (map_verdict (listed_decision Decision.deny) blocked) (
      or_else (exact_stage locale_compare a p Decision.needs_approval)
        (or_else (exact_stage locale_compare a p Decision.allow) legacy_last))

  decide-legacy :
      p.rules ≡ none
      → decide locale_compare a p
        ≡ or_else
            (exact_stage locale_compare a p Decision.deny)
            (legacy_rest (best_match p.blocked_actions (action_key a)))
  unfolding decide structured_matches structured_denies choose_structured_match best_match sort
      ruleoak.Common.select
  decide-legacy e = rw e refl

  decide-migrated :
      decide locale_compare a migrated
      ≡ or_else (exact_stage locale_compare a p Decision.deny) migrated_rest
  unfolding decide migrated_policy legacy_decision best_match
  decide-migrated = refl

  module _ (valid : valid_policy p ≡ true) where
    -- Where a blocked pattern matches, a rule that stands for it denies.
    blocked_denies :
        (b : Best)
        → best_match p.blocked_actions (action_key a) ≡ some b
        → migrated_rest.action ≡ Decision.deny
    unfolding migrated_policy filled normalize_decision valid_policy
    blocked_denies b e =
        let best = best_match-IsBest _ _ b e in
        let i =
          select_keeps _ p.blocked_actions best.listed (all-In _ _ blocked_filled best.listed) in
        let s = blocked-Standing show prefix p i in
        or_else-decides denies _ Decision.deny (denies_stage-action locale_compare a migrated) (
          inl (
            map_verdict-none _ _ (
              denied_missed locale_compare _
                (structured_matches_complete _ a s.1 (s.2.applies a ∙ best.matched))
                (effect-match_of locale_compare a p s.0 ∙ ap normalize_decision s.2.effect))))
      where
        blocked_filled : all non_empty p.blocked_actions ≡ true
        blocked_filled = ground arith

    -- Where no blocked pattern matches, no rule denies.
    free_denies : best_match p.blocked_actions (action_key a) ≡ none → denies ≡ none
    unfolding migrated_policy
    free_denies e = elim (Option-cases denied) [
      | inl n ↦ rw n refl
      | inr (m, f) ↦
          let d = denied_match locale_compare _ f in
          elim (unblocked locale_compare show prefix a p m (best_match-none _ _ e)
            (In-Source locale_compare show prefix a p m d.0)) [
              | inl q ↦ absurd (cc (q.0, d.1))
              | inr q ↦ absurd (cc (q.0, d.1))
            ]
    ]

    rest-AsStrict :
        AsStrict
          (legacy_rest (best_match p.blocked_actions (action_key a))).action
          migrated_rest.action
    unfolding valid_policy listed_decision
    rest-AsStrict = elim (Option-cases (best_match p.blocked_actions (action_key a))) [
      | inr (b, e) ↦ inl (rw e (sym (blocked_denies b e)))
      | inl e ↦
          rw (e, free_denies e)
            (or_else-AsStrict (exact_stage locale_compare a p Decision.needs_approval) _ _ (
              or_else-AsStrict (exact_stage locale_compare a p Decision.allow) _ _ (
                last-AsStrict locale_compare show prefix a p (ground arith) (ground arith)
                  (best_match-none _ _ e))))
    ]

    migrated-AsStrict :
        p.rules ≡ none
        → AsStrict (decide locale_compare a p).action (decide locale_compare a migrated).action
    migrated-AsStrict e =
        rw (decide-legacy e, decide-migrated)
          (or_else-AsStrict (exact_stage locale_compare a p Decision.deny) _ _ rest-AsStrict)

  -- A policy of version 1 has no structured rules.
  without_rules : (detect_policy_version p == 2) ≡ false → p.rules ≡ none
  unfolding detect_policy_version
  without_rules h = ground arith

  same_policy :
      {m n : Migration}
      → ◌≡◌ {A = Result MigrationError Migration} (ok m) (ok n)
      → m.policy ≡ n.policy
  same_policy e = cc e

  -- Where migratePolicyToV2 returns a policy, the policy decides as before on every action, or asks
  -- for approval where the policy before allowed.
  pub migrate-AsStrict :
      (m : Migration)
      → migrate_policy_to_v2 show prefix p ≡ ok m
      → AsStrict (decide locale_compare a p).action (decide locale_compare a m.policy).action
  unfolding migrate_policy_to_v2 migration_of
  migrate-AsStrict m run = elim (Bool-cases (valid_policy p)) [
    | inr f ↦ absurd (cc (rw f at run))
    | inl t ↦ elim (Bool-cases (detect_policy_version p == 2)) [
      | inl two ↦
          let q : ok (unchanged show prefix p) ≡ ok m = rw (t, two) at run in
          inl (ap (λ n. (decide locale_compare a n).action) (same_policy q))
      | inr one ↦ elim (Bool-cases (valid_policy migrated)) [
        | inr g ↦ absurd (cc (rw (t, one, g) at run))
        | inl v ↦
            let q : ok (migration_of show prefix p) ≡ ok m = rw (t, one, v) at run in
            subst
              (λ n. AsStrict (decide locale_compare a p).action (decide locale_compare a n).action)
              (same_policy q) (migrated-AsStrict t (without_rules one))
      ]
    ]
  ]
