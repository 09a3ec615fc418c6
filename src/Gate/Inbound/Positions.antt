-- ===== src/Gate/Inbound/Positions.antt =====
-- Where an item stands in the stream that RuleOakInboundGate of packages/cli/src/stream-gate.js reads:
-- the chunk that completes its text, the fragment of that chunk and the place in a batch.
use ruleoak.Common.{ℕ, zero, suc, ◌≡◌, Option, List, [], ◌∷◌, ◌++◌}
use ruleoak.Common.Texts.{Text}
use ruleoak.Gate.Json.{Json, array, Items, no_items, item}
use ruleoak.Gate.Fragments.{Fragment, json, extract_json_fragments}

abbrev pub StandsInBatch : Items → ℕ → Json → Type 0
StandsInBatch no_items index v = ⊥
StandsInBatch (item value more) zero v = v ≡ value
StandsInBatch (item value more) (suc index) v = StandsInBatch more index v

-- A value that is no batch is its own only item.
abbrev pub StandsInValue : Json → ℕ → Json → Type 0
StandsInValue (array items) index v = StandsInBatch items index v
StandsInValue value zero v = v ≡ value
StandsInValue value (suc index) v = ⊥

abbrev pub StandsInFragment : Fragment → ℕ → Json → Type 0
StandsInFragment (json raw value) index v = StandsInValue value index v
StandsInFragment _ index v = ⊥

abbrev pub StandsInFragments : List Fragment → ℕ → ℕ → Json → Type 0
StandsInFragments [] fragment index v = ⊥
StandsInFragments (f ∷ fs) zero index v = StandsInFragment f index v
StandsInFragments (f ∷ fs) (suc fragment) index v = StandsInFragments fs fragment index v

-- The item of a stream of chunks, from what the buffer holds.
abbrev pub StandsIn : (Text → Option Json) → Text → List Text → ℕ → ℕ → ℕ → Json → Type 0
StandsIn parse buffer [] chunk fragment index v = ⊥
StandsIn parse buffer (c ∷ chunks) zero fragment index v =
    StandsInFragments (extract_json_fragments parse (buffer ++ c)).fragments fragment index v
StandsIn parse buffer (c ∷ chunks) (suc chunk) fragment index v =
    StandsIn parse (extract_json_fragments parse (buffer ++ c)).remaining chunks chunk fragment
      index v
