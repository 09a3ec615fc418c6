-- ===== src/Gate/Inbound.antt =====
-- RuleOakInboundGate of packages/cli/src/stream-gate.js. What the callbacks and the store of consumed
-- receipts answer to an item is given, by the position of the item in the stream; a handler that is
-- absent answers `none`. Receipts, reasons and the output on stderr are left out, and the gate holds
-- a policy.
pub mod Cleared
pub mod Positions
pub mod Forwarded
use Prim.Native.Nat.{Ordering}
use ruleoak.Common.{
  ℕ, suc, Bool, true, false, not, ◌&&◌, ◌||◌, Option, none, some, List, [], ◌∷◌, ◌++◌, ◌==◌,
  if◌then◌else◌, is_empty, any,
}
use ruleoak.Common.Texts.{Text, text, starts_with}
use ruleoak.Engine.Policy.{Decision, Policy}
use ruleoak.Permission.Call.{Call, or_default}
use ruleoak.Permission.Normalizer.{NormalizeOptions, normalize_tool_call}
use ruleoak.Permission.Gateway.{SessionCache, Ruling, rule_on, evaluate_permission_request}
use ruleoak.Permission.Classifier.{classify_risk}
use ruleoak.Engine.Evaluate.{decided, invalid_action_decision}
use ruleoak.Execution.Verification.Observers.{is_space}
use ruleoak.Gate.Json.{
  Json, null, array, Items, no_items, item, property, is_route_probe, is_tool_call, is_notification,
}
use ruleoak.Gate.Action.{Script, has_text_resource, action_from_tool_call}
use ruleoak.Gate.Fragments.{
  Fragment, noise, json, malformed_json, Extraction, extract_json_fragments,
}

-- The decisions of an approval handler: those that allow, needs_approval, and all others.
pub data ApprovalDecision : Type 0 where
  allowing still_pending denying : ApprovalDecision

pub record Answers : Type 0 where
  pub sessions : SessionCache
  pub approval : Option ApprovalDecision
  -- consumeExecutionGrant(...).ok, where receipts are consumed automatically.
  pub consumption : Option Bool
  -- beforeForward(...)?.allow !== false
  pub pre_forward : Option Bool

-- What is sent to the client.
pub data Response : Type 0 where
  probe_active : (id : Json) → Response
  parse_error : Response
  denied : (id : Json) → (approval_required : Bool) → Response

-- `response: null` where there is nothing to send.
pub data Outcome : Type 0 where
  forward : Outcome
  withhold : Option Response → Outcome
  -- Evaluation throws.
  fails : Outcome

pub data Output : Type 0 where
  to_child : Text → Output
  to_client : Response → Output
  to_client_batch : List Response → Output

abbrev pub id_of : Json → Json
id_of value = elim (property (text "id") value) [ none ↦ null | some id ↦ id ]

-- routeProbeResponse
abbrev pub probe_response : Json → Option Response
probe_response value = elim (property (text "id") value) [
  | none ↦ none
  | some id ↦ some (probe_active id)
]

-- denialResponse
abbrev pub denial_response : Json → Decision → Option Response
denial_response value d =
    if is_notification value
    then none
    else some (denied (id_of value) (elim d [ Decision.needs_approval ↦ true | _ ↦ false ]))

-- The decision after the approval handler, which is asked only where approval is needed.
unfoldable pub resolve : Option ApprovalDecision → Decision → Decision
resolve none d = d
resolve (some allowing) Decision.needs_approval = Decision.allow
resolve (some denying) Decision.needs_approval = Decision.deny
resolve (some still_pending) d = d
resolve (some allowing) d = d
resolve (some denying) d = d

-- Whether an answer stands in the way.
abbrev pub objects : Option Bool → Bool
objects (some false) = true
objects _ = false

-- The rest of #evaluateJsonRpcItem, from the resolved decision on.
unfoldable pub settle : Json → Answers → Decision → Outcome
settle value a Decision.allow =
    if objects a.consumption || objects a.pre_forward
    then withhold (denial_response value Decision.deny)
    else forward
settle value a d = withhold (denial_response value d)

abbrev pub settle_ruling : Json → Answers → Option Ruling → Outcome
settle_ruling value a none = fails
settle_ruling value a (some r) = settle value a (resolve a.approval r.verdict.action)

abbrev pub no_options : NormalizeOptions
no_options = record { session_id = []; agent_id = []; scope = [] }

module _ (locale_compare : Text → Text → Ordering) (fingerprint : Call → Text) (js : Script)
    (parse : Text → Option Json) (policy : Policy) (answers : Json → Answers) where
  -- evaluatePermissionRequest on the action of a tool call, which carries no authority. The policy
  -- engine refuses an action whose target is no string.
  unfoldable pub rule_on_tool_call : Json → Option Ruling
  rule_on_tool_call value = elim (normalize_tool_call (action_from_tool_call js value) no_options) [
    | none ↦ none
    | some call ↦
        if has_text_resource js value
        then evaluate_permission_request locale_compare fingerprint call policy none none
            (answers value).sessions
        else rule_on (classify_risk call) none ((answers value).sessions (fingerprint call))
            (decided invalid_action_decision)
  ]

  -- #evaluateJsonRpcItem
  unfoldable pub evaluate_item : Json → Outcome
  evaluate_item value =
      if is_route_probe value
      then withhold (probe_response value)
      else if not (is_tool_call value)
      then forward
      else settle_ruling value (answers value) (rule_on_tool_call value)

-- The answers by the positions of the chunk, of the fragment in it and of the item in a batch, so
-- that a handler may answer differently to equal items.
abbrev pub AnswersByItem : Type 0
AnswersByItem = ℕ → Json → Answers

abbrev pub AnswersByFragment : Type 0
AnswersByFragment = ℕ → AnswersByItem

abbrev pub AnswersByChunk : Type 0
AnswersByChunk = ℕ → AnswersByFragment

module _ (locale_compare : Text → Text → Ordering) (fingerprint : Call → Text) (js : Script)
    (parse : Text → Option Json) (policy : Policy) where
  -- The loop over a batch: what is allowed and the responses; `none` where an evaluation throws.
  abbrev pub keep_outcome :
      Json → Outcome → Option (Items × List Response) → Option (Items × List Response)
  keep_outcome value fails rest = none
  keep_outcome value o none = none
  keep_outcome value forward (some (allowed, responses)) = some (item value allowed, responses)
  keep_outcome value (withhold none) (some kept) = some kept
  keep_outcome value (withhold (some r)) (some (allowed, responses)) = some (allowed, r ∷ responses)

  unfoldable pub evaluate_items : AnswersByItem → Items → Option (Items × List Response)
  evaluate_items answers no_items = some (no_items, [])
  evaluate_items answers (item value more) =
      keep_outcome value
        (evaluate_item locale_compare fingerprint js parse policy (answers 0) value)
        (evaluate_items (λ n. answers (suc n)) more)

  abbrev pub write_allowed : Items → List Output
  write_allowed no_items = []
  write_allowed (item value more) =
      to_child (js.stringify (array (item value more)) ++ text "\n") ∷ []

  abbrev pub write_responses : List Response → List Output
  write_responses [] = []
  write_responses (r ∷ rs) = to_client_batch (r ∷ rs) ∷ []

  abbrev pub write_batch : Option (Items × List Response) → Option (List Output)
  write_batch none = none
  write_batch (some (allowed, responses)) =
      some (write_allowed allowed ++ write_responses responses)

  abbrev pub write_outcome : Text → Outcome → Option (List Output)
  write_outcome raw forward = some (to_child (raw ++ text "\n") ∷ [])
  write_outcome raw (withhold none) = some []
  write_outcome raw (withhold (some r)) = some (to_client r ∷ [])
  write_outcome raw fails = none

  -- #handleJson
  unfoldable pub handle_json : AnswersByItem → Json → Text → Option (List Output)
  handle_json answers (array items) raw = write_batch (evaluate_items answers items)
  handle_json answers value raw =
      write_outcome raw (evaluate_item locale_compare fingerprint js parse policy (answers 0) value)

  -- #handleFragment
  unfoldable pub handle_fragment : AnswersByItem → Fragment → Option (List Output)
  handle_fragment answers (noise raw) = some (to_child raw ∷ [])
  handle_fragment answers (malformed_json raw) = some (to_client parse_error ∷ [])
  handle_fragment answers (json raw value) = handle_json answers value raw

  -- The fragments up to one whose handling throws, and whether one does.
  abbrev pub and_then : Option (List Output) → List Output × Bool → List Output × Bool
  and_then none rest = ([], true)
  and_then (some out) (later, thrown) = (out ++ later, thrown)

  unfoldable pub handle_fragments : AnswersByFragment → List Fragment → List Output × Bool
  handle_fragments answers [] = ([], false)
  handle_fragments answers (f ∷ fs) =
      and_then (handle_fragment (answers 0) f) (handle_fragments (λ n. answers (suc n)) fs)

  -- write(chunk), on what the buffer holds: the next buffer and the output.
  unfoldable pub write : AnswersByFragment → Text → Text → Text × List Output
  write answers buffer chunk =
      let x = extract_json_fragments parse (buffer ++ chunk) in
      (x.remaining, (handle_fragments answers x.fragments).0)

  -- trim().startsWith('{') or trim().startsWith('[')
  unfoldable pub looks_like_json : Text → Bool
  looks_like_json [] = false
  looks_like_json (c ∷ s) =
      let rest = looks_like_json s in if is_space c then rest else c == b'{' || c == b'['

  -- end(), on what the buffer holds.
  unfoldable pub finish : Text → List Output
  finish [] = []
  finish (c ∷ s) =
      if looks_like_json (c ∷ s) then to_client parse_error ∷ [] else to_child (c ∷ s) ∷ []

  -- The output of a stream of chunks and its end, from a buffer on.
  unfoldable pub run : AnswersByChunk → Text → List Text → List Output
  run answers buffer [] = finish buffer
  run answers buffer (chunk ∷ chunks) =
      (write (answers 0) buffer chunk).1
      ++ run (λ n. answers (suc n)) (write (answers 0) buffer chunk).0 chunks
