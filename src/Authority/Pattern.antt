-- ===== src/Authority/Pattern.antt =====
-- authorityPatternMatches, staticPrefix and authorityPatternIsWithin of
-- packages/core/src/authority/grant.js.
pub mod Laws
pub mod Widening
use ruleoak.Common.{ℕ, Bool, true, false, not, ◌||◌, List, [], ◌∷◌, if◌then◌else◌}
use ruleoak.Common.Texts.{Text, text, same, starts_with, ends_with}
use ruleoak.Engine.Glob.{is_wild, has_wild, glob_test}

abbrev pub is_universal : Text → Bool
is_universal pattern = same pattern (text "*") || same pattern (text "**")

unfoldable pub authority_pattern_matches : Text → Text → Bool
authority_pattern_matches pattern value =
    if is_universal pattern then true else glob_test pattern value

-- The characters in front of the first `?` or `*`.
unfoldable pub static_prefix : Text → Text
static_prefix [] = []
static_prefix (c ∷ s) = let more = static_prefix s in if is_wild c then [] else c ∷ more

unfoldable pub authority_pattern_is_within : Text → Text → Bool
authority_pattern_is_within child parent =
    if is_universal parent || same child parent
    then true
    else if not (has_wild child)
    then authority_pattern_matches parent child
    else if not (has_wild parent)
    then false
    else if ends_with (text "**") parent
    then starts_with (static_prefix parent) (static_prefix child)
    else false
