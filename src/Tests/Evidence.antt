-- ===== src/Tests/Evidence.antt =====
-- Examples of evidence logs.
use ruleoak.Common.{
  ℕ, Bool, true, false, ◌≡◌, refl, Option, none, some, List, [], ◌∷◌, In, head, tail,
}
use ruleoak.Common.Texts.{Text, text}
use ruleoak.Engine.Policy.{Effect}
use ruleoak.Execution.Receipt.{EffectReceipt}
use ruleoak.Evidence.Event.{Content, Event, Recorded}
use ruleoak.Evidence.Recorder.{
  Limits, Request, last_event, content_of, event_of, append, verify_evidence,
}
use ruleoak.Evidence.Recorder.Chain.{Written, start, appended, Written-verifies}
use ruleoak.Evidence.Recorder.Commitment.{NoCollision, commitment}
use ruleoak.Tests.Rules.{read_file}

abbrev event_hash : Text → Content → Text
event_hash previous c = c.index ∷ previous

abbrev valid_receipt : EffectReceipt → Bool
valid_receipt r = true

abbrev line_bytes : Event → ℕ
line_bytes e = 1

abbrev limits : Limits
limits = record { max_bytes = 2; max_line_bytes = 1; max_events = 2 }

abbrev request : Request
request = record {
  event_id = text "e";
  action = read_file;
  decision = record { action = Effect.block; receipt = none };
  timestamp = some (text "now");
  event_type = text "decision";
  effect_receipt = none;
  ledger_payload = none;
}

abbrev event_behind : List Event → Event
event_behind log =
    event_of event_hash valid_receipt line_bytes limits
      (content_of request (text "now") (last_event log))

abbrev one_event : List Event
one_event = event_behind [] ∷ []

abbrev two_events : List Event
two_events = event_behind [] ∷ event_behind one_event ∷ []

two_events-Written : Written event_hash valid_receipt line_bytes limits two_events
unfolding append last_event content_of ruleoak.Evidence.Recorder.write_event
    ruleoak.Evidence.Event.valid_evidence_event ruleoak.Evidence.Recorder.log_bytes
    ruleoak.Engine.Policy.valid_action ruleoak.Evidence.Event.valid_decision_receipt
    ruleoak.Common.all
two_events-Written = appended two_events request (appended one_event request start refl) refl

Written-verifies_example :
    verify_evidence event_hash valid_receipt line_bytes limits two_events ≡ []
Written-verifies_example =
    Written-verifies event_hash valid_receipt line_bytes limits (λ p c. refl) two_events-Written

alone : NoCollision event_hash valid_receipt line_bytes limits one_event one_event
alone e f (head p) (head q) h = cc (p, q)
alone e f (tail i) j h = elim i [ ]
alone e f (head p) (tail j) h = elim j [ ]

commitment_example : one_event ≡ one_event
unfolding verify_evidence ruleoak.Evidence.Recorder.verify_from
    ruleoak.Evidence.Recorder.line_errors ruleoak.Evidence.Event.valid_evidence_event
    ruleoak.Evidence.Recorder.report_all ruleoak.Common.Texts.same
    ruleoak.Engine.Policy.valid_action ruleoak.Evidence.Event.valid_decision_receipt
    ruleoak.Common.all content_of last_event
commitment_example =
    commitment event_hash valid_receipt line_bytes limits one_event one_event refl refl alone refl
      refl
