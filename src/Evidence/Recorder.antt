-- ===== src/Evidence/Recorder.antt =====
-- EvidenceRecorder and verifyEvidence of packages/core/src/protocol/recorder.js. A log is the list of
-- its events, and an append runs under the lock of its file. The hash of an event, the fresh
-- identifier and the length of a line are parameters; a time is `none` where it is invalid.
pub mod Chain
pub mod Commitment
use ruleoak.Common.{
  ℕ, ◌+◌, Bool, true, false, not, ◌&&◌, Option, none, some, List, [], ◌∷◌, ◌++◌, ltb, ◌==◌,
  if◌then◌else◌, is_empty,
}
use ruleoak.Common.Results.{Result, ok, err}
use ruleoak.Common.Texts.{Text, text, same}
use ruleoak.Permission.Call.{or_default}
use ruleoak.Engine.Policy.{Effect, Action}
use ruleoak.Execution.Receipt.{EffectReceipt}
use ruleoak.Evidence.Event.{
  DecisionReceipt, Recorded, Content, Event, present, valid_evidence_event,
}

-- GENESIS_HASH
abbrev pub genesis_hash : Text
genesis_hash = text "GENESIS"

-- EVIDENCE_RECORDER_LIMITS, with what the options lay over it.
pub record Limits : Type 0 where
  pub max_bytes : ℕ
  pub max_line_bytes : ℕ
  pub max_events : ℕ

pub data AppendError : Type 0 where
  invalid_time invalid_event too_many_events line_too_long log_too_long : AppendError

-- The arguments of append.
pub record Request : Type 0 where
  pub event_id : Text
  pub action : Action
  pub decision : Recorded
  pub timestamp : Option Text
  pub event_type : Text
  pub effect_receipt : Option EffectReceipt
  pub ledger_payload : Option Text

-- _readLastEventUnlocked
unfoldable pub last_event : List Event → Option Event
last_event [] = none
last_event (e ∷ es) = elim (last_event es) [ some later ↦ some later | none ↦ some e ]

-- lastEvent?.hash || GENESIS_HASH
abbrev pub hash_after : Option Event → Text
hash_after none = genesis_hash
hash_after (some e) = or_default e.hash genesis_hash

abbrev pub index_after : Option Event → ℕ
index_after none = 1
index_after (some e) = e.content.index + 1

abbrev pub as_deny : Effect → Effect
as_deny Effect.block = Effect.deny
as_deny e = e

abbrev pub normalized : Recorded → Recorded
normalized d = record d { action = as_deny d.action }

abbrev pub field_of : (DecisionReceipt → Text) → Option DecisionReceipt → Text
field_of field none = []
field_of field (some r) = field r

unfoldable pub content_of : Request → Text → Option Event → Content
content_of q time last = record {
  event_id = q.event_id;
  index = index_after last;
  timestamp = time;
  action = q.action;
  decision = normalized q.decision;
  previous_hash = hash_after last;
  decision_id = field_of (λ r. r.decision_id) q.decision.receipt;
  action_digest = field_of (λ r. r.action_digest) q.decision.receipt;
  policy_digest = field_of (λ r. r.policy_digest) q.decision.receipt;
  event_type = q.event_type;
  effect_receipt = q.effect_receipt;
  ledger_payload = q.ledger_payload;
}

pub data LineError : Type 0 where
  malformed wrong_index wrong_previous_hash wrong_hash : LineError
  wrong_decision_id wrong_action_digest wrong_policy_digest : LineError

abbrev pub report_if : Bool → LineError → List LineError
report_if true e = e ∷ []
report_if false e = []

unfoldable pub report_all : List (Bool × LineError) → List LineError
report_all [] = []
report_all ((b, e) ∷ rest) = report_if b e ++ report_all rest

-- Two identifiers that are both there and differ.
abbrev pub conflict : Text → Text → Bool
conflict a b = present a && present b && not (same a b)

module _ (event_hash : Text → Content → Text) (valid_receipt : EffectReceipt → Bool)
    (line_bytes : Event → ℕ) (limits : Limits) where
  abbrev pub event_of : Content → Event
  event_of c = record { content = c; hash = event_hash c.previous_hash c }

  unfoldable pub log_bytes : List Event → ℕ
  log_bytes [] = 0
  log_bytes (e ∷ es) = line_bytes e + log_bytes es

  -- The checks of append on the event that it made.
  unfoldable pub write_event : List Event → Event → Result AppendError (List Event)
  write_event log e =
      if not (valid_evidence_event valid_receipt e.content)
      then err invalid_event
      else if ltb limits.max_events e.content.index
      then err too_many_events
      else if ltb limits.max_line_bytes (line_bytes e)
      then err line_too_long
      else if ltb limits.max_bytes (log_bytes log + line_bytes e)
      then err log_too_long
      else ok (log ++ e ∷ [])

  -- append
  unfoldable pub append : List Event → Request → Result AppendError (List Event)
  append log q = elim q.timestamp [
    | none ↦ err invalid_time
    | some time ↦ write_event log (event_of (content_of q time (last_event log)))
  ]

  -- The errors of verifyEvidence on the event with an index, behind a hash.
  unfoldable pub line_errors : ℕ → Text → Event → List LineError
  line_errors index previous e =
      let receipt = e.content.decision.receipt in
      report_all (
        (not (valid_evidence_event valid_receipt e.content), malformed)
        ∷ (not (e.content.index == index), wrong_index)
        ∷ (not (same e.content.previous_hash previous), wrong_previous_hash)
        ∷ (not (same e.hash (event_hash previous e.content)), wrong_hash)
        ∷ (
          conflict (field_of (λ r. r.decision_id) receipt) e.content.decision_id,
          wrong_decision_id,
        )
        ∷ (
          conflict (field_of (λ r. r.action_digest) receipt) e.content.action_digest,
          wrong_action_digest,
        )
        ∷ (
          conflict (field_of (λ r. r.policy_digest) receipt) e.content.policy_digest,
          wrong_policy_digest,
        )
        ∷ [])

  unfoldable pub verify_from : ℕ → Text → List Event → List LineError
  verify_from index previous [] = []
  verify_from index previous (e ∷ es) =
      line_errors index previous e ++ verify_from (index + 1) e.hash es

  -- verifyEvidence
  unfoldable pub verify_evidence : List Event → List LineError
  verify_evidence log = verify_from 1 genesis_hash log
