-- ===== src/Tests/Scorecard.antt =====
-- An example of a scorecard.
use ruleoak.Common.{Bool, true, false, ◌≡◌, ◌↔◌, refl, none, [], ◌∷◌, In, List}
use ruleoak.Common.Texts.{Text, text}
use ruleoak.Reliability.Scorecard.{Outcome, Scorecard, scorecard_of, build_reliability_scorecard}
use ruleoak.Reliability.Scorecard.Passing.{IsClean, pass_iff}

-- A result that passes although one of its invariants is false, as a check with its id passes.
abbrev unclean : Outcome
unclean = record {
  scenario_id = text "s";
  scenario = text "s";
  passed = true;
  failure_class = [];
  checks = record { id = text "i"; pass = true; actual = none; most = none } ∷ [];
  invariants = (text "i", true) ∷ [];
}

abbrev card : Scorecard
card = scorecard_of (unclean ∷ [])

pass_iff_example :
    (card.status ≡ ruleoak.Reliability.Scorecard.pass)
    ↔ ((r : Outcome) → In r (unclean ∷ []) → IsClean r)
unfolding build_reliability_scorecard scorecard_of ruleoak.Common.Sort.sort
    ruleoak.Reliability.Scorecard.has_duplicate ruleoak.Reliability.Scorecard.listed_all
    ruleoak.Common.Sort.insert ruleoak.Common.Ordered.compare_text
    ruleoak.Reliability.Scorecard.scenario_identity ruleoak.Common.any ruleoak.Common.Texts.same
    ruleoak.Reliability.Scorecard.listed_of ruleoak.Reliability.Scorecard.dimension_for_invariant
    ruleoak.Reliability.Scorecard.dimension_for_check ruleoak.Common.select
pass_iff_example = pass_iff (unclean ∷ []) card refl
