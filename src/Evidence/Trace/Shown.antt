-- ===== src/Evidence/Trace/Shown.antt =====
-- What traceEvidenceGraph of packages/core/src/evidence/graph.js shows.
use ruleoak.Common.{
  ℕ, Bool, true, false, ◌&&◌, ◌≡◌, refl, ◌↔◌, inl, inr, Option, List, [], ◌∷◌, find, select, In,
  head, subst, and-eq-true, is_empty, Option-cases, select-In, select_keeps, find-In,
}
use ruleoak.Common.Int.{ℤ}
use ruleoak.Common.Results.{ok}
use ruleoak.Common.Texts.{Text, same, same_iff}
use ruleoak.Engine.Policy.{member}
use ruleoak.Evidence.Trace.{
  Node, Edge, Unresolved, Graph, Trace, max_depth, kept_from, trace_of, trace_evidence_graph,
}
use ruleoak.Evidence.Trace.Marking.{member_iff}
use ruleoak.Evidence.Trace.Reaching.{Leads, kept_iff}

-- What a trace shows.
pub record IsTrace (g : Graph) (target : Text) (depth : ℕ) (t : Trace) : Type 0 where
  pub of_target : t.target.node_id ≡ target
  pub nodes_iff : (n : Node) → In n t.nodes ↔ (In n g.nodes × Leads g.edges depth n.node_id target)
  pub edges_iff :
      (e : Edge)
      → In e t.edges
        ↔ (In e g.edges × Leads g.edges depth e.from target × Leads g.edges depth e.to target)
  pub complete_iff : (t.complete ≡ true) ↔ (
      (r : Unresolved)
      → In r g.unresolved_references
      → ¬ (Leads g.edges depth r.source_node_id target))

select_iff :
    {A : Type 0} (p : A → Bool) (xs : List A) (a : A)
    → In a (select p xs) ↔ (In a xs × (p a ≡ true))
select_iff p xs a = (λ i. select-In p xs i, λ h. select_keeps p xs h.0 h.1)

no_In : {A : Type 0} (xs : List A) {a : A} → is_empty xs ≡ true → In a xs → ⊥
no_In [] h i = elim i [ ]
no_In (x ∷ xs) h i = cc h

empty_of_no_In : {A : Type 0} (xs : List A) → ((a : A) → In a xs → ⊥) → is_empty xs ≡ true
empty_of_no_In [] h = refl
empty_of_no_In (x ∷ xs) h = absurd (h x (head refl))

none_selected :
    {A : Type 0} (p : A → Bool) (xs : List A)
    → (is_empty (select p xs) ≡ true) ↔ ((a : A) → In a xs → ¬ (p a ≡ true))
none_selected p xs = (
  λ h a i t. no_In (select p xs) h (select_keeps p xs i t),
  λ h. empty_of_no_In (select p xs) (λ a i. let s = select-In p xs i in h a s.0 s.1),
)

trace_of-IsTrace :
    (g : Graph) (target : Node) (depth : ℕ)
    → IsTrace g target.node_id depth (trace_of g target (kept_from g target depth))
trace_of-IsTrace g target depth = record {
  of_target = refl;
  nodes_iff = λ n.
      let s = select_iff (λ n. member (kept_from g target depth) n.node_id) g.nodes n in
      (λ i. ((s.0 i).0, (leads n.node_id).0 (s.0 i).1), λ h. s.1 (h.0, (leads n.node_id).1 h.1));
  edges_iff = λ e.
      let s =
        select_iff
          (λ (e : Edge).
            member (kept_from g target depth) e.from && member (kept_from g target depth) e.to)
          g.edges e in
      (
        λ i.
            let (j, b) = s.0 i in
            let (x, y) = and-eq-true _ _ b in (j, (leads e.from).0 x, (leads e.to).0 y),
        λ h. s.1 (h.0, rw ((leads e.from).1 h.1, (leads e.to).1 h.2) refl),
      );
  complete_iff =
      let s =
        none_selected (λ (r : Unresolved). member (kept_from g target depth) r.source_node_id)
          g.unresolved_references in
      (
        λ h r i l. s.0 h r i ((leads r.source_node_id).1 l),
        λ h. s.1 (λ r i m. h r i ((leads r.source_node_id).0 m)),
      );
}
  where
    leads :
        (x : Text)
        → (member (kept_from g target depth) x ≡ true) ↔ Leads g.edges depth x target.node_id
    leads x =
        let m = member_iff (kept_from g target depth) x in
        let k = kept_iff g.edges depth target.node_id x in (λ h. k.0 (m.0 h), λ l. m.1 (k.1 l))

-- A trace holds exactly the nodes of the graph from which at most as many edges as the depth lead to
-- the target, exactly the edges between such nodes, and is complete exactly when no reference of such
-- a node is unresolved.
pub trace-IsTrace :
    (valid : Bool) (g : Graph) (target : Text) (depth : Option ℤ) (t : Trace)
    → trace_evidence_graph valid g target depth ≡ ok t
    → IsTrace g target (max_depth depth) t
unfolding trace_evidence_graph
trace-IsTrace false g target depth t run = absurd (cc run)
trace-IsTrace true g target depth t run =
    elim (Option-cases (find (λ n. same n.node_id target) g.nodes)) [
      | inl e ↦ absurd (cc (rw e at run))
      | inr (n, e) ↦
          let q : ok (trace_of g n (kept_from g n (max_depth depth))) ≡ ok t = rw e at run in
          let named : n.node_id ≡ target = (same_iff n.node_id target).0 (find-In _ g.nodes e).1 in
          let shown = trace_of-IsTrace g n (max_depth depth) in
          subst (λ (u : Trace). IsTrace g target (max_depth depth) u) (cc q)
            (subst
              (λ (x : Text).
                IsTrace g x (max_depth depth) (trace_of g n (kept_from g n (max_depth depth))))
              named shown)
    ]
