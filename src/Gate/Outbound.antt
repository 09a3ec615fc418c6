-- ===== src/Gate/Outbound.antt =====
-- RuleOakOutboundGate of packages/cli/src/stream-gate.js.
pub mod Transparent
use ruleoak.Common.{Option, List, [], ◌∷◌, ◌++◌}
use ruleoak.Common.Texts.{Text}
use ruleoak.Gate.Json.{Json}
use ruleoak.Gate.Fragments.{
  Fragment, noise, json, malformed_json, Extraction, extract_json_fragments,
}

-- A call of onJson or onMalformed, or a text that is written to stdout.
pub data Event : Type 0 where
  on_json : Json → Event
  on_malformed : Text → Event
  stdout : Text → Event

abbrev pub handle_fragment : Fragment → List Event
handle_fragment (noise raw) = stdout raw ∷ []
handle_fragment (json raw value) = on_json value ∷ stdout raw ∷ []
handle_fragment (malformed_json raw) = on_malformed raw ∷ stdout raw ∷ []

unfoldable pub handle_fragments : List Fragment → List Event
handle_fragments [] = []
handle_fragments (f ∷ fs) = handle_fragment f ++ handle_fragments fs

-- end(), on what the buffer holds.
unfoldable pub finish : Text → List Event
finish [] = []
finish (c ∷ s) = stdout (c ∷ s) ∷ []

module _ (parse : Text → Option Json) where
  -- write(chunk), on what the buffer holds: the next buffer and the events.
  unfoldable pub write : Text → Text → Text × List Event
  write buffer chunk =
      let x = extract_json_fragments parse (buffer ++ chunk) in
      (x.remaining, handle_fragments x.fragments)

  -- The events of a stream of chunks and its end, from a buffer on.
  unfoldable pub run : Text → List Text → List Event
  run buffer [] = finish buffer
  run buffer (chunk ∷ chunks) = (write buffer chunk).1 ++ run (write buffer chunk).0 chunks
