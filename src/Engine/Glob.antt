-- ===== src/Engine/Glob.antt =====
-- The glob patterns of globToRegExp (packages/core/src/engine/evaluator.js) and of the identical
-- wildcardToRegExp (packages/core/src/authority/grant.js). The regular expression is the list of
-- its tokens; `test` on the anchored expression is a backtracking match over UTF-16 code units.
pub mod Matching
pub mod Literal
pub mod Language
use ruleoak.Common.{ℕ, Bool, true, false, not, ◌&&◌, ◌||◌, List, [], ◌∷◌, ◌==◌, if◌then◌else◌, any}
use ruleoak.Common.Texts.{Text}

pub data Token : Type 0 where
  -- an escaped or plain character
  lit : ℕ → Token
  -- `.`
  one : Token
  -- `[^/]*`
  segment : Token
  -- `.*`
  rest : Token

-- pattern.includes('*'), pattern.includes('?') and /[?*]/.test(pattern)
abbrev pub is_star : ℕ → Bool
is_star c = c == b'*'

abbrev pub is_wild : ℕ → Bool
is_wild c = c == b'*' || c == b'?'

unfoldable pub has_star : Text → Bool
has_star p = any is_star p

unfoldable pub has_wild : Text → Bool
has_wild p = any is_wild p

token : ℕ → Token
token c = if c == b'?' then one else lit c

-- The loop of globToRegExp; `**` takes two characters.
unfoldable pub glob : Text → List Token
unfolding token
glob [] = []
glob (c ∷ []) = (if is_star c then segment else token c) ∷ []
glob (c ∷ d ∷ s) =
    let after = glob s in
    let next = glob (d ∷ s) in
    if is_star c then (if is_star d then rest ∷ after else segment ∷ next) else token c ∷ next

-- `.` matches no line terminator.
abbrev pub is_line_end : ℕ → Bool
is_line_end c = c == 10 || c == 13 || c == 0x2028 || c == 0x2029

abbrev pub dot_ok : ℕ → Bool
dot_ok c = not (is_line_end c)

abbrev pub segment_ok : ℕ → Bool
segment_ok c = not (c == b'/')

-- `C*` before a continuation.
unfoldable pub many : (ℕ → Bool) → (Text → Bool) → Text → Bool
many ok k [] = k []
many ok k (c ∷ s) = k (c ∷ s) || (ok c && many ok k s)

unfoldable pub step : Token → (Text → Bool) → Text → Bool
step (lit a) k [] = false
step (lit a) k (c ∷ s) = a == c && k s
step one k [] = false
step one k (c ∷ s) = dot_ok c && k s
step segment k s = many segment_ok k s
step rest k s = many dot_ok k s

unfoldable pub accepts : List Token → Text → Bool
accepts [] [] = true
accepts [] (c ∷ s) = false
accepts (t ∷ ts) s = step t (accepts ts) s

-- globToRegExp(pattern).test(value)
unfoldable pub glob_test : Text → Text → Bool
glob_test pattern value = accepts (glob pattern) value
