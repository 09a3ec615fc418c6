-- ===== src/Tests/Traces.antt =====
-- An example of a trace.
use ruleoak.Common.{none, [], ◌∷◌, true, refl}
use ruleoak.Common.Texts.{Text, text}
use ruleoak.Evidence.Trace.{
  Node, Edge, Graph, effect, lease, max_depth, kept_from, trace_of, trace_evidence_graph,
}
use ruleoak.Evidence.Trace.Shown.{IsTrace, trace-IsTrace}

abbrev executed : Node
executed = record { node_id = text "effect:1"; kind = effect; ref_id = text "1" }

abbrev graph : Graph
graph = record {
  nodes =
      record { node_id = text "lease:1"; kind = lease; ref_id = text "1" }
      ∷ executed
      ∷ record { node_id = text "lease:2"; kind = lease; ref_id = text "2" }
      ∷ [];
  edges =
      record {
        edge_id = text "1";
        from = text "lease:1";
        to = text "effect:1";
        relation = text "authorizes";
      }
      ∷ [];
  unresolved_references = [];
}

trace-IsTrace_example :
    IsTrace graph (text "effect:1") 16 (trace_of graph executed (kept_from graph executed 16))
unfolding trace_evidence_graph ruleoak.Common.find ruleoak.Common.Texts.same max_depth
    ruleoak.Common.select ruleoak.Evidence.Trace.rounds ruleoak.Common.any
    ruleoak.Evidence.Trace.mark
trace-IsTrace_example =
    trace-IsTrace true graph (text "effect:1") none
      (trace_of graph executed (kept_from graph executed 16)) refl
