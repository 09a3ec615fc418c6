-- ===== src/Gate/Fragments.antt =====
-- extractJsonFragments of packages/cli/src/stream-gate.js, with findNextJsonStart and findJsonEnd. A
-- position in the buffer is the text that is left from it. JSON.parse is a parameter that answers
-- `none` where it throws.
pub mod Lossless
pub mod Openers
use ruleoak.Common.{
  ℕ, zero, suc, Bool, true, false, not, ◌&&◌, ◌||◌, Option, none, some, List, [], ◌∷◌, ◌++◌, ◌==◌,
  if◌then◌else◌, is_empty, length,
}
use ruleoak.Common.Texts.{Text}
use ruleoak.Gate.Json.{Json}

-- The text before a position, and the text from it.
abbrev pub Split : Type 0
Split = Text × Text

abbrev pub keep : ℕ → Split → Split
keep c (before, rest) = (c ∷ before, rest)

abbrev pub opens : ℕ → Bool
opens c = c == b'{' || c == b'['

-- findNextJsonStart: the rest is empty where there is no start.
unfoldable pub find_next_json_start : Text → Split
find_next_json_start [] = ([], [])
find_next_json_start (c ∷ s) =
    let later = find_next_json_start s in if opens c then ([], c ∷ s) else keep c later

abbrev pub close_for : ℕ → ℕ
close_for open_unit = if open_unit == b'{' then b'}' else b']'

-- The variables of the loop in findJsonEnd. The last of the stack is its head.
pub record Scanner : Type 0 where
  pub stack : List ℕ
  pub in_string : Bool
  pub escaped : Bool

pub data Step : Type 0 where
  go_on : Scanner → Step
  stop : (malformed : Bool) → Step

-- A closing unit, against the stack.
abbrev pub close : Scanner → List ℕ → ℕ → Step
close x [] c = stop true
close x (top ∷ []) c = if c == top then stop false else stop true
close x (top ∷ next ∷ below) c =
    if c == top then go_on (record x { stack = next ∷ below }) else stop true

abbrev pub step_in_string : Scanner → ℕ → Step
step_in_string x c =
    if x.escaped
    then go_on (record x { escaped = false })
    else if c == b'\\'
    then go_on (record x { escaped = true })
    else if c == b'"'
    then go_on (record x { in_string = false })
    else go_on x

unfoldable pub step : Scanner → ℕ → Step
step x c =
    if x.in_string
    then step_in_string x c
    else if c == b'"'
    then go_on (record x { in_string = true })
    else if c == b'{'
    then go_on (record x { stack = b'}' ∷ x.stack })
    else if c == b'['
    then go_on (record x { stack = b']' ∷ x.stack })
    else if c == b'}' || c == b']'
    then close x x.stack c
    else go_on x

abbrev pub opened_by : ℕ → Scanner
opened_by open_unit = record {
  stack = close_for open_unit ∷ [];
  in_string = false;
  escaped = false;
}

-- What findJsonEnd finds: the units up to the end and those behind it, or no end.
pub data End : Type 0 where
  no_end : End
  ends : (malformed : Bool) → (before : Text) → (rest : Text) → End

abbrev pub keep_unit : ℕ → End → End
keep_unit c no_end = no_end
keep_unit c (ends malformed before rest) = ends malformed (c ∷ before) rest

unfoldable pub find_json_end : Scanner → Text → End
find_json_end x [] = no_end
find_json_end x (c ∷ s) = elim (step x c) [
  | stop malformed ↦ ends malformed (c ∷ []) s
  | go_on y ↦ keep_unit c (find_json_end y s)
]

pub data Fragment : Type 0 where
  noise : (raw : Text) → Fragment
  json : (raw : Text) → (value : Json) → Fragment
  malformed_json : (raw : Text) → Fragment

pub record Extraction : Type 0 where
  pub fragments : List Fragment
  pub remaining : Text

abbrev pub is_line_end : ℕ → Bool
is_line_end c = c == b'\n' || c == b'\r'

abbrev pub join_line : ℕ → Split → Split
join_line c ([], rest) = if is_line_end c then (c ∷ [], rest) else ([], c ∷ rest)
join_line c (d ∷ lines, rest) = (c ∷ d ∷ lines, rest)

-- The text up to the last line end, and the rest.
unfoldable pub split_last_line : Text → Split
split_last_line [] = ([], [])
split_last_line (c ∷ s) = join_line c (split_last_line s)

abbrev pub noise_of : Text → List Fragment
noise_of [] = []
noise_of (c ∷ s) = noise (c ∷ s) ∷ []

abbrev pub last_noise : Split → Extraction
last_noise (lines, rest) = record { fragments = noise_of lines; remaining = rest }

abbrev pub behind : List Fragment → Option Extraction → Option Extraction
behind found none = none
behind found (some more) =
    some (record { fragments = found ++ more.fragments; remaining = more.remaining })

module _ (parse : Text → Option Json) where
  abbrev pub parsed : Text → Option Json → Fragment
  parsed raw none = malformed_json raw
  parsed raw (some value) = json raw value

  abbrev pub fragment_of : Bool → Text → Fragment
  fragment_of malformed raw = if malformed then malformed_json raw else parsed raw (parse raw)

  -- A round of the loop from the start of a JSON text on: `next` is the loop behind its end.
  abbrev pub from_end : (Text → Option Extraction) → Text → ℕ → Text → End → Option Extraction
  from_end next before open_unit inner no_end =
      some (record { fragments = noise_of before; remaining = open_unit ∷ inner })
  from_end next before open_unit inner (ends malformed units rest) =
      behind (noise_of before ++ fragment_of malformed (open_unit ∷ units) ∷ []) (next rest)

  abbrev pub from_start : (Text → Option Extraction) → Split → Option Extraction
  from_start next (before, []) = some (last_noise (split_last_line before))
  from_start next (before, open_unit ∷ inner) =
      from_end next before open_unit inner (find_json_end (opened_by open_unit) inner)

  -- The loop; `none` where the fuel is used up.
  unfoldable pub extract_from : ℕ → Text → Option Extraction
  extract_from zero s = none
  extract_from (suc fuel) [] = some (record { fragments = []; remaining = [] })
  extract_from (suc fuel) (c ∷ s) =
      from_start (λ rest. extract_from fuel rest) (find_next_json_start (c ∷ s))

  abbrev pub or_unread : Text → Option Extraction → Extraction
  or_unread s none = record { fragments = []; remaining = s }
  or_unread s (some x) = x

  -- extractJsonFragments, with as much fuel as the buffer is long.
  unfoldable pub extract_json_fragments : Text → Extraction
  extract_json_fragments buffer = or_unread buffer (extract_from (suc (length buffer)) buffer)
