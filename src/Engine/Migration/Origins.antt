-- ===== src/Engine/Migration/Origins.antt =====
-- Where the rules of a migrated policy come from (packages/core/src/migration/policy.js).
use ruleoak.Common.{
  ℕ, ◌+◌, Bool, true, false, ◌&&◌, ◌||◌, ◌≡◌, refl, inl, inr, some, List, [], ◌∷◌, arith, In, head,
  tail, In_of_append, In-append_left, In-append_right, select-In, any,
}
use ruleoak.Common.Int.{pos}
use ruleoak.Common.Texts.{Text, text, same}
use ruleoak.Engine.Pattern.{matches_pattern, matches_resource_pattern}
use ruleoak.Engine.Policy.{Effect, Rule, Policy, Action}
use ruleoak.Engine.Rules.{
  action_key, rule_applies, is_enabled, conditions_hold, matches_any, matches_any_overlap,
  risk_in_range,
}
use ruleoak.Engine.Migration.{filled, migrated_rule, rules_from, migrated_rules, denying, approving}

-- A rule that stands for a pattern of a legacy list.
pub record StandsFor (q : Text) (e : Effect) (priority : ℕ) (r : Rule) : Type 0 where
  pub effect : r.effect ≡ e
  pub priority_is : r.priority ≡ some (pos priority)
  pub applies : (a : Action) → rule_applies r a ≡ matches_pattern q (action_key a)

migrated_rule-StandsFor :
    (id : Text) (e : Effect) (n : ℕ) (q : Text) → StandsFor q e n (migrated_rule id e n q)
unfolding rule_applies is_enabled conditions_hold matches_any matches_any_overlap risk_in_range any
    matches_resource_pattern same
migrated_rule-StandsFor id e n q = record {
  effect = refl;
  priority_is = refl;
  applies = λ a. applies_iff (matches_pattern q (action_key a));
}
  where
    applies_iff : (b : Bool) → ((((true && (b || false)) && true) && true) && true) ≡ b
    applies_iff b = ground arith

-- A pattern of a list, for which the rule stands.
abbrev pub Listed : List Text → Effect → ℕ → Rule → Type 0
Listed qs e n r = (q : Text) × In q qs × StandsFor q e n r

-- A rule in the list, which stands for the pattern.
abbrev pub Standing : List Rule → Effect → ℕ → Text → Type 0
Standing rs e n q = (r : Rule) × In r rs × StandsFor q e n r

module _ (show : ℕ → Text) (prefix : Text) where
  rules_from-Listed :
      (word : Text) (e : Effect) (n index : ℕ) (qs : List Text) {r : Rule}
      → In r (rules_from show prefix word e n index qs)
      → Listed qs e n r
  unfolding rules_from
  rules_from-Listed word e n index [] i = elim i [ ]
  rules_from-Listed word e n index (q ∷ qs) (head p) =
      (q, head refl, rw p (migrated_rule-StandsFor _ e n q))
  rules_from-Listed word e n index (q ∷ qs) (tail i) =
      let ih = rules_from-Listed word e n (index + 1) qs i in (ih.0, tail ih.1, ih.2)

  rules_from-Standing :
      (word : Text) (e : Effect) (n index : ℕ) (qs : List Text) {q : Text}
      → In q qs
      → Standing (rules_from show prefix word e n index qs) e n q
  unfolding rules_from
  rules_from-Standing word e n index [] i = elim i [ ]
  rules_from-Standing word e n index (p ∷ qs) (head h) =
      (_, head refl, rw h (migrated_rule-StandsFor _ e n p))
  rules_from-Standing word e n index (p ∷ qs) (tail i) =
      let ih = rules_from-Standing word e n (index + 1) qs i in (ih.0, tail ih.1, ih.2)

  -- The three origins of a migrated rule.
  pub data Origin (p : Policy) (r : Rule) : Type 0 where
    of_blocked : Listed p.blocked_actions Effect.deny 300 r → Origin p r
    of_approval : Listed p.approval_required Effect.needs_approval 200 r → Origin p r
    of_allowed : Listed p.allowed_actions Effect.allow 100 r → Origin p r

  unfilled :
      (qs : List Text) (e : Effect) (n : ℕ) {r : Rule} → Listed (filled qs) e n r → Listed qs e n r
  unfolding filled
  unfilled qs e n l = (l.0, (select-In _ qs l.1).0, l.2)

  pub migrated_rules-Origin :
      (p : Policy) {r : Rule} → In r (migrated_rules show prefix p) → Origin p r
  unfolding migrated_rules
  migrated_rules-Origin p i = elim (In_of_append (denying show prefix p) _ i) [
    | inl j ↦ of_blocked (unfilled _ _ _ (rules_from-Listed _ _ _ _ _ j))
    | inr k ↦ elim (In_of_append (approving show prefix p) _ k) [
      | inl j ↦ of_approval (unfilled _ _ _ (rules_from-Listed _ _ _ _ _ j))
      | inr j ↦ of_allowed (unfilled _ _ _ (rules_from-Listed _ _ _ _ _ j))
    ]
  ]

  pub blocked-Standing :
      (p : Policy) {q : Text}
      → In q (filled p.blocked_actions)
      → Standing (migrated_rules show prefix p) Effect.deny 300 q
  unfolding migrated_rules
  blocked-Standing p i =
      let s = rules_from-Standing (text "-deny-") Effect.deny 300 0 _ i in
      (s.0, In-append_left _ s.1, s.2)

  pub approval-Standing :
      (p : Policy) {q : Text}
      → In q (filled p.approval_required)
      → Standing (migrated_rules show prefix p) Effect.needs_approval 200 q
  unfolding migrated_rules
  approval-Standing p i =
      let s = rules_from-Standing (text "-approve-") Effect.needs_approval 200 0 _ i in
      (s.0, In-append_right (denying show prefix p) (In-append_left _ s.1), s.2)

  pub allowed-Standing :
      (p : Policy) {q : Text}
      → In q (filled p.allowed_actions)
      → Standing (migrated_rules show prefix p) Effect.allow 100 q
  unfolding migrated_rules
  allowed-Standing p i =
      let s = rules_from-Standing (text "-allow-") Effect.allow 100 0 _ i in
      (
        s.0,
        In-append_right (denying show prefix p) (In-append_right (approving show prefix p) s.1),
        s.2,
      )
