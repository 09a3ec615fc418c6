-- ===== src/Lib.antt =====
-- RuleOak decides whether a tool call of an agent may run. A call is normalized and classified
-- (packages/core/src/permission), checked against the authority that its agent was delegated
-- (packages/core/src/authority) and against a policy (packages/core/src/engine), and answered with
-- allow, deny, needs_approval or dry_run_only. A gate on the stream between a client and a server
-- (packages/cli/src/stream-gate.js) asks for that answer on every call that passes it. A call that
-- ran is verified against its effect (packages/core/src/execution) and recorded in a chain of
-- events (packages/core/src/protocol, packages/core/src/evidence).
--
-- Common: lists, texts, sorting, integers and results that the parts share. A text is a list of
--   UTF-16 code units; a number is natural, and one that JavaScript holds exactly is at most
--   2 ^ 53 - 1, which is written out where the code tests it; a time is its milliseconds.
-- Engine: packages/core/src/engine/evaluator.js.
--   Engine/Glob: globToRegExp and the test of the expression it builds, token by token.
--   Engine/Pattern: patternSpecificity, matchesPattern, matchesResourcePattern, bestMatch.
--   Engine/Policy: the policy and the action, with validatePolicy and validateActionEnvelope of
--     packages/protocol/src/index.js.
--   Engine/Rules: exactActionRulesFor, structuredRuleMatch, chooseStructuredMatch.
--   Engine/Evaluate: evaluatePolicy; its early returns are the stages that `or_else` chains.
--   Engine/Migration: migratePolicyToV2 of packages/core/src/migration/policy.js.
-- Authority: packages/core/src/authority.
--   Authority/Pattern, Authority/Grant, Authority/Grant/Verification: the patterns, the attenuation
--     of a delegated grant, its verification and its use, in grant.js. Authority/Grant/Chain: a
--     list of grants, each an attenuation of the one before it. Authority/Grant/Issuing:
--     buildAuthorityGrant. Authority/Grant/Delegating: delegateAuthorityGrant, which takes the
--     registry of budgets and returns the next.
--   Authority/Budget, Authority/Budget/Registry: budget.js; a registry is the list of its records,
--     and `reserve` returns the next registry.
--   Authority/Obligations: obligations.js.
--   Authority/Revocation: revocation.js; a registry is the list of its entries, and `revoke`
--     returns the next registry. Authority/Revocation/Delegated: how a grant names its ancestors.
-- Execution: packages/core/src/execution.
--   Execution/Lease: lease.js; the marker directory is a list of names, and an attempt carries what
--     it has seen of it before it creates its own file.
--   Execution/Receipt: effect-receipt.js, with the validation of a receipt.
--   Execution/Verification: effect-verification.js, the records that bind a verification to a lease
--     and the decision on a retry. Execution/Verification/Paths and Filesystem: the paths and the
--     verifier of the file system, which reads a state of the disk. Execution/Verification/Observers:
--     the verifiers of git, processes and HTTP.
-- Permission: packages/core/src/permission.
--   Permission/Call: the normalized call. Permission/Normalizer: normalizeToolCall on an envelope.
--   Permission/Classifier: classifyRisk. Permission/Gateway: evaluatePermissionRequest and the
--     session cache of approval.js.
-- Gate: packages/cli/src/stream-gate.js. A stream is the list of its chunks, and what the gate
--   writes is a list of outputs.
--   Gate/Json: values of JSON. Gate/Action: actionFromJsonRpcToolCall. Gate/Fragments:
--     extractJsonFragments. Gate/Inbound, Gate/Outbound: the two gates, each a function from the
--     buffer and a chunk to the next buffer and the output. Gate/Inbound/Positions: where an item
--     stands in the stream; the answers of the callbacks are given by position.
-- Evidence: the chain of events.
--   Evidence/Event: the validators of packages/protocol/src/index.js. Evidence/Recorder: append and
--     verifyEvidence of packages/core/src/protocol/recorder.js. Evidence/Trace: traceEvidenceGraph of
--     packages/core/src/evidence/graph.js.
-- Reliability: what reports on many runs.
--   Reliability/Scorecard: packages/core/src/crashlab/scorecard.js. Reliability/Release:
--     evaluateAgentReleaseGate of packages/core/src/release/agent-release-gate.js.
-- Tests: concrete runs.
--
-- The gateway calls the classifier, takes the answer of an authority check, calls the engine and
-- then the session cache. The inbound gate makes an action of a tool call, normalizes it and calls
-- the gateway. The attenuation of a grant calls the patterns, the budgets and the obligations; its
-- verification takes the answer of the revocation registry. A delegation verifies the parent,
-- builds and signs the child and reserves its budget. A verification record rests on the
-- verification of its receipt.
--
-- Nearly every loop is structural recursion over a list or a text. Two run on fuel: the loop of
-- extractJsonFragments, with one more than the length of the buffer, as each round takes a unit at
-- least; and the climb of canonicalPotentialPath, with one more than the length of the path, as each
-- round takes the name of its directory. Errors are values: a function that throws returns a
-- result, an option, or the list of its messages as data.
--
-- Parameters of the model: localeCompare, the fingerprint of a call, the digests, the keyed hash of
-- a signature, the hash of an event, the length of a line in a file, the structural validation of a
-- grant, JSON.parse, JSON.stringify, String(), the text of a number, node:path and the disk, the
-- answers of git and of a probe, and the arithmetic of the release gate. The detectors of secrets
-- and injected instructions on free text, the callbacks of the gate and the validation of an evidence
-- graph enter as their answers.
--
-- Not modelled: the words of messages and traces, fractional amounts of a budget, times of a
-- grant that are no dates, the files and locks of the operating system (an operation of a
-- registry or a log runs under its lock), the building of leases and receipts, the inference of
-- an expected effect, envelopes, approvals, the consumer of decision receipts, the building of an
-- evidence graph, policy lint, the inspector, the command line apart from the gate, and the
-- editor extension.
pub mod Common
pub mod Engine
pub mod Authority
pub mod Execution
pub mod Permission
pub mod Gate
pub mod Evidence
pub mod Reliability
pub mod Tests
