-- ===== src/Engine/Migration/Strictness.antt =====
-- The decisions of a policy and of its migration (packages/core/src/migration/policy.js).
use Prim.Native.Nat.{Ordering}
use ruleoak.Common.{
  ℕ, true, false, ◌≡◌, refl, ◌∙◌, sym, ap, subst, ◌⊎◌, inl, inr, Option, none, some, List, arith,
  In, head, tail, is_empty, all, all-In, select_keeps, Bool-cases, Option-cases, ltb,
}
use ruleoak.Common.Int.{pos}
use ruleoak.Common.Texts.{Text}
use ruleoak.Engine.Pattern.{Best, best_match, matches_pattern}
use ruleoak.Engine.Pattern.Laws.{best_match-IsBest, best_match-none}
use ruleoak.Engine.Policy.{Effect, Decision, normalize_decision, Rule, Policy, Action, non_empty}
use ruleoak.Engine.Rules.{
  Match, action_key, rule_applies, match_of, structured_matches, choose_structured_match, or_zero,
}
use ruleoak.Engine.Rules.Choice.{
  structured_matches_sound, structured_matches_complete, choose-Outranks, choose_total, ◌≤ℤ◌,
}
use ruleoak.Engine.Evaluate.{
  Verdict, structured_decision, listed_decision, default_decision, legacy_decision, or_else,
  map_verdict,
}
use ruleoak.Engine.Migration.{
  filled, migrated_rules, migrated_default, migrated_policy, as_effect, or_approval,
}
use ruleoak.Engine.Migration.Origins.{
  Listed, Origin, of_blocked, of_approval, of_allowed, migrated_rules-Origin, approval-Standing,
  allowed-Standing,
}

-- The same decision, or to ask where it was to allow.
abbrev pub AsStrict : Decision → Decision → Type 0
AsStrict legacy migrated =
    (legacy ≡ migrated) ⊎ ((legacy ≡ Decision.allow) × (migrated ≡ Decision.needs_approval))

module _ (locale_compare : Text → Text → Ordering) (show : ℕ → Text) (prefix : Text) (a : Action)
    (p : Policy) where
  abbrev pub rules : List Rule
  rules = migrated_rules show prefix p

  abbrev pub chosen : Option Match
  chosen = choose_structured_match locale_compare (structured_matches rules a)

  -- The rule that a match of the migrated policy stands for.
  abbrev pub Source : Match → Type 0
  Source c =
      (r : Rule) × Origin show prefix p r
      × (rule_applies r a ≡ true)
      × (c.effect ≡ normalize_decision r.effect)
      × (c.priority ≡ or_zero r.priority)

  pub In-Source : (c : Match) → In c (structured_matches rules a) → Source c
  unfolding match_of
  In-Source c i =
      let s = structured_matches_sound rules a i in
      (
        s.0,
        migrated_rules-Origin show prefix p s.1,
        s.2,
        ap (λ (m : Match). m.effect) s.3,
        ap (λ (m : Match). m.priority) s.3,
      )

  chosen-Source : (c : Match) → chosen ≡ some c → Source c
  chosen-Source c e = In-Source c (choose-Outranks locale_compare _ c e).0

  -- A rule that applies is outranked by a chosen one.
  chosen_above :
      (r : Rule) (n : ℕ)
      → In r rules
      → r.priority ≡ some (pos n)
      → rule_applies r a ≡ true
      → (c : Match) × (chosen ≡ some c) × (pos n ≤ℤ c.priority)
  unfolding match_of
  chosen_above r n i h t =
      let m = structured_matches_complete rules a i t in
      let c = choose_total locale_compare (structured_matches rules a) (not_empty m) in
      let above = (choose-Outranks locale_compare _ c.0 c.1).1 (match_of r a) m in
      (c.0, c.1, subst (λ k. k ≤ℤ c.0.priority) (ap or_zero h) above.priority)
    where
      not_empty : {x : Match} {ms : List Match} → In x ms → is_empty ms ≡ false
      not_empty (head e) = refl
      not_empty (tail j) = refl

  abbrev pub Missed : List Text → Type 0
  Missed qs = (q : Text) → In q qs → matches_pattern q (action_key a) ≡ false

  -- A pattern for which a rule that applies stands, in a list without a match.
  missed :
      (qs : List Text) (e : Effect) (n : ℕ) (r : Rule)
      → Missed qs
      → Listed qs e n r
      → rule_applies r a ≡ true
      → ⊥
  missed qs e n r none_there l t =
      let f = none_there l.0 l.1 in let g = l.2.applies a in cc (f, g, t)

  -- A match of the migrated policy where no blocked pattern matches is of one of the other lists.
  pub unblocked :
      (c : Match)
      → Missed p.blocked_actions
      → Source c
      → ((c.effect ≡ Decision.needs_approval) × (Missed p.approval_required → ⊥))
        ⊎ ((c.effect ≡ Decision.allow) × (c.priority ≡ pos 100) × (Missed p.allowed_actions → ⊥))
  unfolding normalize_decision
  unblocked c free (r, of_blocked l, t, e, n) = absurd (missed _ _ _ r free l t)
  unblocked c free (r, of_approval l, t, e, n) =
      inl (e ∙ ap normalize_decision l.2.effect, λ m. missed _ _ _ r m l t)
  unblocked c free (r, of_allowed l, t, e, n) = inr (
    e ∙ ap normalize_decision l.2.effect,
    n ∙ ap or_zero l.2.priority_is,
    λ m. missed _ _ _ r m l t,
  )

  -- The last stages of the migrated policy.
  abbrev pub last_stages : Verdict
  last_stages =
      or_else (map_verdict structured_decision chosen)
        (default_decision (migrated_policy show prefix p))

  chosen_last : (c : Match) → chosen ≡ some c → last_stages.action ≡ c.effect
  unfolding structured_decision
  chosen_last c e = rw e refl

  defaults : (default_decision p).action ≡ (default_decision (migrated_policy show prefix p)).action
  unfolding default_decision migrated_policy migrated_default normalize_decision
  defaults = by_default p.default_action
    where
      by_default :
          (e : Option Effect)
          → elim e [ none ↦ Decision.needs_approval | some f ↦ normalize_decision f ]
            ≡ normalize_decision (as_effect (normalize_decision (or_approval e)))
      by_default none = refl
      by_default (some Effect.allow) = refl
      by_default (some Effect.deny) = refl
      by_default (some Effect.block) = refl
      by_default (some Effect.needs_approval) = refl
      by_default (some Effect.dry_run_only) = refl

  abbrev pub allowed_best : Option Best
  allowed_best = best_match p.allowed_actions (action_key a)

  abbrev pub approval_best : Option Best
  approval_best = best_match p.approval_required (action_key a)

  -- Where both lists of the policy have no empty pattern.
  module _ (allowed_filled : all non_empty p.allowed_actions ≡ true)
      (approval_filled : all non_empty p.approval_required ≡ true)
      (free : Missed p.blocked_actions) where
    asked_last : (b : Best) → approval_best ≡ some b → last_stages.action ≡ Decision.needs_approval
    unfolding filled
    asked_last b e =
        let best = best_match-IsBest _ _ b e in
        let i =
          select_keeps _ p.approval_required best.listed (all-In _ _ approval_filled best.listed) in
        let s = approval-Standing show prefix p i in
        let c = chosen_above s.0 200 s.1 s.2.priority_is (s.2.applies a ∙ best.matched) in
        elim (unblocked c.0 free (chosen-Source c.0 c.1)) [
          | inl q ↦ chosen_last c.0 c.1 ∙ q.0
          | inr q ↦
              let wrong : pos 200 ≤ℤ pos 100 = subst (λ k. pos 200 ≤ℤ k) q.1 c.2 in
              absurd (omega (arith, wrong))
        ]

    allowed_last :
        (b : Best)
        → allowed_best ≡ some b
        → approval_best ≡ none
        → last_stages.action ≡ Decision.allow
    unfolding filled
    allowed_last b e n =
        let best = best_match-IsBest _ _ b e in
        let i =
          select_keeps _ p.allowed_actions best.listed (all-In _ _ allowed_filled best.listed) in
        let s = allowed-Standing show prefix p i in
        let c = chosen_above s.0 100 s.1 s.2.priority_is (s.2.applies a ∙ best.matched) in
        elim (unblocked c.0 free (chosen-Source c.0 c.1)) [
          | inl q ↦ absurd (q.1 (best_match-none _ _ n))
          | inr q ↦ chosen_last c.0 c.1 ∙ q.0
        ]

    default_last :
        allowed_best ≡ none
        → approval_best ≡ none
        → last_stages.action ≡ (default_decision p).action
    default_last m n = elim (Option-cases chosen) [
      | inl e ↦ rw e (sym defaults)
      | inr (c, e) ↦ elim (unblocked c free (chosen-Source c e)) [
        | inl q ↦ absurd (q.1 (best_match-none _ _ n))
        | inr q ↦ absurd (q.2 (best_match-none _ _ m))
      ]
    ]

    pub last-AsStrict :
        AsStrict (legacy_decision allowed_best approval_best p).action last_stages.action
    unfolding legacy_decision listed_decision
    last-AsStrict = by_best allowed_best approval_best refl refl
      where
        by_best :
            (x y : Option Best)
            → allowed_best ≡ x
            → approval_best ≡ y
            → AsStrict (legacy_decision x y p).action last_stages.action
        by_best none none e f = inl (sym (default_last e f))
        by_best (some b) none e f = inl (sym (allowed_last b e f))
        by_best none (some c) e f = inl (sym (asked_last c f))
        by_best (some b) (some c) e f = elim (Bool-cases (ltb c.specificity b.specificity)) [
          | inl t ↦ inr (rw t refl, asked_last c f)
          | inr n ↦ inl (rw n (sym (asked_last c f)))
        ]
