-- ===== src/Evidence/Trace.antt =====
-- traceEvidenceGraph of packages/core/src/evidence/graph.js. The tests of assertGraph are given by
-- their answer. A set of node ids is a list; the data of nodes and the summary are left out.
mod Marking
pub mod Reaching
pub mod Shown
use ruleoak.Common.{
  ℕ, zero, suc, Bool, true, false, not, ◌&&◌, Option, none, some, List, [], ◌∷◌, ltb, if◌then◌else◌,
  is_empty, find, select,
}
use ruleoak.Common.Int.{ℤ, pos, negsuc}
use ruleoak.Common.Results.{Result, ok, err}
use ruleoak.Common.Texts.{Text, same}
use ruleoak.Engine.Policy.{member}

pub data Kind : Type 0 where
  principal grant envelope decision approval lease adapter effect recorder_event : Kind

pub record Node : Type 0 where
  pub node_id : Text
  pub kind : Kind
  pub ref_id : Text

pub record Edge : Type 0 where
  pub edge_id : Text
  pub from : Text
  pub to : Text
  pub relation : Text

pub record Unresolved : Type 0 where
  pub source_node_id : Text
  pub relation : Text
  pub target_kind : Kind
  pub target_ref_id : Text

pub record Graph : Type 0 where
  pub nodes : List Node
  pub edges : List Edge
  pub unresolved_references : List Unresolved

pub data TraceError : Type 0 where
  invalid_graph node_not_found : TraceError

pub record Trace : Type 0 where
  pub target : Node
  pub nodes : List Node
  pub edges : List Edge
  pub unresolved_references : List Unresolved
  pub complete : Bool

-- Math.max(0, Math.min(options.maxDepth, 32)), and 16 where it is no integer.
unfoldable pub max_depth : Option ℤ → ℕ
max_depth none = 16
max_depth (some (negsuc n)) = 0
max_depth (some (pos n)) = if ltb 32 n then 32 else n

-- The set `keep` and the set `next`, from an edge on.
unfoldable pub mark : List Edge → List Text → List Text × List Text → List Text × List Text
mark [] frontier sets = sets
mark (e ∷ es) frontier (keep, next) = mark es frontier (
    if member frontier e.to && not (member keep e.from)
    then (e.from ∷ keep, e.from ∷ next)
    else (keep, next))

-- The loop, for so many rounds: what is kept in the end.
unfoldable pub rounds : ℕ → List Edge → List Text → List Text → List Text
rounds zero edges frontier keep = keep
rounds (suc n) edges [] keep = keep
rounds (suc n) edges (x ∷ frontier) keep =
    let (kept, next) = mark edges (x ∷ frontier) (keep, []) in rounds n edges next kept

abbrev pub kept_from : Graph → Node → ℕ → List Text
kept_from g target depth = rounds depth g.edges (target.node_id ∷ []) (target.node_id ∷ [])

abbrev pub trace_of : Graph → Node → List Text → Trace
trace_of g target keep =
    let unresolved = select (λ r. member keep r.source_node_id) g.unresolved_references in
    record {
      target = target;
      nodes = select (λ n. member keep n.node_id) g.nodes;
      edges = select (λ e. member keep e.from && member keep e.to) g.edges;
      unresolved_references = unresolved;
      complete = is_empty unresolved;
    }

-- traceEvidenceGraph
unfoldable pub trace_evidence_graph : Bool → Graph → Text → Option ℤ → Result TraceError Trace
trace_evidence_graph valid g target_node_id depth =
    if not valid
    then err invalid_graph
    else elim (find (λ n. same n.node_id target_node_id) g.nodes) [
      | none ↦ err node_not_found
      | some target ↦ ok (trace_of g target (kept_from g target (max_depth depth)))
    ]
