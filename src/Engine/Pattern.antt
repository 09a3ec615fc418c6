-- ===== src/Engine/Pattern.antt =====
-- Action and resource patterns: patternSpecificity, matchesPattern, matchesResourcePattern and
-- bestMatch of packages/core/src/engine/evaluator.js.
pub mod Laws
use ruleoak.Common.{
  ℕ, Bool, true, false, not, ◌&&◌, ◌||◌, Option, none, some, List, [], ◌∷◌, ltb, if◌then◌else◌,
}
use ruleoak.Common.Texts.{Text, text, same, starts_with, ends_with, drop_last}
use ruleoak.Engine.Glob.{has_star, has_wild, glob_test}

abbrev pub everything : Text
everything = text "*"

unfoldable pub pattern_specificity : Text → ℕ
pattern_specificity pattern =
    if same pattern everything
    then 0
    else if ends_with (text ".*") pattern
    then 1
    else if has_wild pattern
    then 1
    else 2

-- `pattern` stands for its prefix: it ends with `.*` and has no other `*`.
abbrev pub is_family : Text → Bool
is_family pattern = ends_with (text ".*") pattern && not (has_star (drop_last 2 pattern))

unfoldable pub matches_pattern : Text → Text → Bool
matches_pattern pattern key =
    if same pattern everything
    then true
    else if is_family pattern
    then starts_with (drop_last 1 pattern) key
    else if not (has_wild pattern)
    then same pattern key
    else glob_test pattern key

unfoldable pub matches_resource_pattern : Text → Text → Bool
matches_resource_pattern pattern resource =
    if same pattern everything || same pattern (text "**") then true else glob_test pattern resource

-- A match of a pattern list, with its specificity.
pub record Best : Type 0 where
  pub pattern : Text
  pub specificity : ℕ

-- if (!best || specificity > best.specificity) best = {pattern, specificity }
abbrev pub keep_better : Best → Option Best → Option Best
keep_better found none = some found
keep_better found (some b) = if ltb b.specificity found.specificity then some found else some b

abbrev pub scored : Text → Best
scored p = record { pattern = p; specificity = pattern_specificity p }

-- One round of the loop of bestMatch.
unfoldable pub better : Text → Text → Option Best → Option Best
better key p best = if matches_pattern p key then keep_better (scored p) best else best

unfoldable pub best_from : Text → Option Best → List Text → Option Best
best_from key best [] = best
best_from key best (p ∷ ps) = best_from key (better key p best) ps

unfoldable pub best_match : List Text → Text → Option Best
unfolding best_from better
best_match patterns key = best_from key none patterns
