-- ===== src/Engine/Evaluate/Precedence.antt =====
-- The precedence of denials in evaluatePolicy (packages/core/src/engine/evaluator.js).
use Prim.Native.Nat.{Ordering}
use ruleoak.Common.{
  true, false, ◌≡◌, ◌≢◌, refl, ◌∙◌, ◌⊎◌, inl, inr, Option, none, some, List, [], ◌∷◌, In, find-In,
  find-none, select-In, select_keeps,
}
use ruleoak.Common.Texts.{Text}
use ruleoak.Engine.Pattern.{best_match, matches_pattern}
use ruleoak.Engine.Pattern.Laws.{best_match-none}
use ruleoak.Engine.Policy.{Decision, normalize_decision, ExactRule, Rule, Policy, Action, all_rules}
use ruleoak.Engine.Rules.{
  Match, action_key, exact_action_rules_for, rule_applies, match_of, structured_matches,
  choose_structured_match,
}
use ruleoak.Engine.Rules.Choice.{structured_matches_complete, choose-Outranks, choose_total}
use ruleoak.Engine.Evaluate.{
  Verdict, is_decision, exact_decision, structured_decision, listed_decision, or_else, map_verdict,
  exact_with, structured_denies, decide,
}

-- The reasons to deny that a policy can hold for an action.
pub data DenySource (a : Action) (p : Policy) : Type 0 where
  exact :
      (r : ExactRule)
      → In r (exact_action_rules_for p.exact_action_rules a)
      → normalize_decision r.effect ≡ Decision.deny
      → DenySource a p
  structured :
      (r : Rule)
      → In r (all_rules p.rules)
      → rule_applies r a ≡ true
      → normalize_decision r.effect ≡ Decision.deny
      → DenySource a p
  blocked :
      (q : Text) → In q p.blocked_actions → matches_pattern q (action_key a) ≡ true → DenySource a p

pub is_decision_iff : (d e : Decision) → is_decision d e ≡ true → d ≡ e
is_decision_iff Decision.allow Decision.allow h = refl
is_decision_iff Decision.deny Decision.deny h = refl
is_decision_iff Decision.needs_approval Decision.needs_approval h = refl
is_decision_iff Decision.dry_run_only Decision.dry_run_only h = refl
is_decision_iff Decision.allow Decision.deny h = cc
is_decision_iff _ _ h = cc

is_decision_refl : (d e : Decision) → d ≡ e → is_decision d e ≡ true
is_decision_refl Decision.allow e h = rw (← h)
is_decision_refl Decision.deny e h = rw (← h)
is_decision_refl Decision.needs_approval e h = rw (← h)
is_decision_refl Decision.dry_run_only e h = rw (← h)

not-none {ℓ} : {A : Type ℓ} (o : Option A) → o ≢ none → (x : A) × (o ≡ some x)
not-none none h = absurd (h refl)
not-none (some x) h = (x, refl)

pub or_else-cases :
    (o : Option Verdict) (rest : Verdict)
    → ((v : Verdict) × (o ≡ some v) × (or_else o rest ≡ v)) ⊎ ((o ≡ none) × (or_else o rest ≡ rest))
or_else-cases none rest = inr (refl, refl)
or_else-cases (some v) rest = inl (v, refl, refl)

-- The stage decides if it has a verdict, and all its verdicts have one action.
pub or_else-decides :
    (o : Option Verdict) (rest : Verdict) (d : Decision)
    → ((v : Verdict) → o ≡ some v → v.action ≡ d)
    → (o ≢ none) ⊎ (rest.action ≡ d)
    → (or_else o rest).action ≡ d
or_else-decides none rest d h (inl k) = absurd (k refl)
or_else-decides none rest d h (inr k) = k
or_else-decides (some v) rest d h k = h v refl

pub map_verdict-some {ℓ} :
    {A : Type ℓ} (f : A → Verdict) (o : Option A) {v : Verdict}
    → map_verdict f o ≡ some v
    → (x : A) × (o ≡ some x) × (v ≡ f x)
map_verdict-some f none e = cc
map_verdict-some f (some x) e = (x, refl, cc)

pub map_verdict-none {ℓ} :
    {A : Type ℓ} (f : A → Verdict) (o : Option A) → o ≢ none → map_verdict f o ≢ none
map_verdict-none f none h e = h refl
map_verdict-none f (some x) h e = cc

pub exact_found :
    (d : Decision) (rules : List ExactRule) {r : ExactRule}
    → exact_with d rules ≡ some r
    → In r rules × (normalize_decision r.effect ≡ d)
unfolding exact_with
exact_found d rules e = let f = find-In _ rules e in (f.0, is_decision_iff _ d f.1)

pub exact_missed :
    (d : Decision) (rules : List ExactRule) {r : ExactRule}
    → In r rules
    → normalize_decision r.effect ≡ d
    → exact_with d rules ≢ none
unfolding exact_with
exact_missed d rules i h e = let f = find-none _ rules e i in cc (f, is_decision_refl _ d h)

module _ (locale_compare : Text → Text → Ordering) where
  pub denied_match :
      (ms : List Match) {m : Match}
      → choose_structured_match locale_compare (structured_denies ms) ≡ some m
      → In m ms × (m.effect ≡ Decision.deny)
  unfolding structured_denies
  denied_match ms {m} e =
      let c = choose-Outranks locale_compare _ m e in
      let s = select-In _ ms c.0 in (s.0, is_decision_iff _ Decision.deny s.1)

  pub denied_missed :
      (ms : List Match) {m : Match}
      → In m ms
      → m.effect ≡ Decision.deny
      → choose_structured_match locale_compare (structured_denies ms) ≢ none
  unfolding structured_denies
  denied_missed ms {m} i h e =
      let k =
        select_keeps (λ n. is_decision n.effect Decision.deny) ms i (is_decision_refl _ _ h) in
      absurd (not-empty k e)
    where
      not-empty : {ns : List Match} → In m ns → choose_structured_match locale_compare ns ≢ none
      not-empty {ns = []} j q = elim j [ ]
      not-empty {ns = n ∷ ns} j q = cc (q, (choose_total locale_compare (n ∷ ns) refl).1)

module _ (locale_compare : Text → Text → Ordering) (a : Action) (p : Policy) where
  abbrev pub exact_rules : List ExactRule
  exact_rules = exact_action_rules_for p.exact_action_rules a

  abbrev pub matches : List Match
  matches = structured_matches (all_rules p.rules) a

  abbrev pub exact_stage : Decision → Option Verdict
  exact_stage d = map_verdict exact_decision (exact_with d exact_rules)

  abbrev pub denies_stage : Option Verdict
  denies_stage =
      map_verdict structured_decision
        (choose_structured_match locale_compare (structured_denies matches))

  abbrev pub blocked_stage : Option Verdict
  blocked_stage =
      map_verdict (listed_decision Decision.deny) (best_match p.blocked_actions (action_key a))

  pub exact_stage-action : (d : Decision) (v : Verdict) → exact_stage d ≡ some v → v.action ≡ d
  unfolding exact_decision
  exact_stage-action d v e =
      let m = map_verdict-some exact_decision _ e in rw m.2 (exact_found d exact_rules m.1).1

  pub denies_stage-action : (v : Verdict) → denies_stage ≡ some v → v.action ≡ Decision.deny
  unfolding structured_decision
  denies_stage-action v e =
      let m = map_verdict-some structured_decision _ e in
      rw m.2 (denied_match locale_compare matches m.1).1

  pub blocked_stage-action : (v : Verdict) → blocked_stage ≡ some v → v.action ≡ Decision.deny
  unfolding listed_decision
  blocked_stage-action v e =
      let m = map_verdict-some (listed_decision Decision.deny) _ e in rw m.2 refl

  pub effect-match_of : (r : Rule) → (match_of r a).effect ≡ normalize_decision r.effect
  unfolding match_of
  effect-match_of r = refl

  -- If an exact rule, a structured rule that applies or a blocked pattern denies the action, the
  -- decision is deny, whatever else the policy says.
  pub deny_wins : DenySource a p → (decide locale_compare a p).action ≡ Decision.deny
  unfolding decide
  deny_wins (DenySource.exact r i h) =
      or_else-decides (exact_stage Decision.deny) _ Decision.deny (exact_stage-action Decision.deny)
        (inl (map_verdict-none _ _ (exact_missed Decision.deny exact_rules i h)))
  deny_wins (structured r i t h) =
      or_else-decides (exact_stage Decision.deny) _ Decision.deny (exact_stage-action Decision.deny)
        (inr (
          or_else-decides denies_stage _ Decision.deny denies_stage-action (
            inl (
              map_verdict-none _ _ (
                denied_missed locale_compare matches (structured_matches_complete _ a i t)
                  (effect-match_of r ∙ h))))))
  deny_wins (blocked q i t) =
      or_else-decides (exact_stage Decision.deny) _ Decision.deny (exact_stage-action Decision.deny)
        (inr (
          or_else-decides denies_stage _ Decision.deny denies_stage-action (
            inr (
              or_else-decides blocked_stage _ Decision.deny blocked_stage-action (
                inl (
                  map_verdict-none _ _
                    (not_missed (best_match-none p.blocked_actions (action_key a)))))))))
    where
      not_missed :
          (best_match p.blocked_actions (action_key a) ≡ none
            → (r : Text) → In r p.blocked_actions
            → matches_pattern r (action_key a) ≡ false)
          → best_match p.blocked_actions (action_key a) ≢ none
      not_missed law e = let f = law e q i in cc
