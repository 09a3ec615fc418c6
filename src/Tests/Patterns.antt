-- ===== src/Tests/Patterns.antt =====
-- Examples of patterns.
use ruleoak.Common.{true, false, ◌≡◌, ◌↔◌, refl, Option, none, some, List, [], ◌∷◌, In, head, tail}
use ruleoak.Common.Texts.{Text, text, starts_with, ends_with, same}
use ruleoak.Engine.Glob.{glob, glob_test, has_wild}
use ruleoak.Engine.Glob.Language.{Fits, glob_test_iff}
use ruleoak.Engine.Pattern.{best_match, scored, matches_pattern}
use ruleoak.Engine.Pattern.Laws.{IsBest, best_match-IsBest}
use ruleoak.Authority.Pattern.{authority_pattern_matches, authority_pattern_is_within}
use ruleoak.Authority.Pattern.Laws.{subtree, within_sound}
use ruleoak.Authority.Pattern.Widening.{gapped, within_widens}

glob_test_iff_example :
    (glob_test (text "f?*") (text "file") ≡ true) ↔ Fits (text "f?*") (text "file")
glob_test_iff_example = glob_test_iff (text "f?*") (text "file")

abbrev patterns : List Text
patterns = text "file.*" ∷ text "file.read" ∷ text "*" ∷ []

best_match-IsBest_example : IsBest (text "file.read") patterns (scored (text "file.read"))
unfolding best_match matches_pattern same ends_with has_wild ruleoak.Common.any
    ruleoak.Engine.Glob.has_star ruleoak.Common.Texts.drop_last starts_with
    ruleoak.Engine.Pattern.pattern_specificity
best_match-IsBest_example =
    best_match-IsBest patterns (text "file.read") (scored (text "file.read")) refl

within_sound_example : authority_pattern_matches (text "src/**") (text "src/a/b") ≡ true
unfolding authority_pattern_matches authority_pattern_is_within has_wild same glob_test
    ruleoak.Engine.Glob.accepts glob ruleoak.Engine.Glob.step ruleoak.Engine.Glob.many
    ruleoak.Common.any ends_with starts_with ruleoak.Authority.Pattern.static_prefix
within_sound_example =
    within_sound (text "src/a/*") (text "src/a/b")
      (refl, (refl, (refl, (refl, (refl, (refl, (refl, tt))))))) refl (text "src/**")
      (λ e. (text "src/", refl, refl)) refl

within_widens_example :
    (authority_pattern_is_within (subtree (text "a/")) (gapped (text "a/") (text "/x")) ≡ true)
    × (authority_pattern_matches (subtree (text "a/")) (text "a/") ≡ true)
    × (authority_pattern_matches (gapped (text "a/") (text "/x")) (text "a/") ≡ false)
unfolding has_wild ruleoak.Common.any
within_widens_example = within_widens (text "a/") b'/' (text "x") refl refl
