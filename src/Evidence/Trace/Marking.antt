-- ===== src/Evidence/Trace/Marking.antt =====
-- What a pass over the edges marks (traceEvidenceGraph of packages/core/src/evidence/graph.js).
use ruleoak.Common.{
  Bool, true, false, not, ◌&&◌, ◌≡◌, refl, sym, ap, ◌↔◌, ◌⊎◌, inl, inr, List, [], ◌∷◌,
  if◌then◌else◌, In, head, tail, any-In, any_of_In,
}
use ruleoak.Common.Texts.{Text, same, same_iff, same_refl}
use ruleoak.Engine.Policy.{member}
use ruleoak.Evidence.Trace.{Edge, mark}

pub member_iff : (xs : List Text) (x : Text) → (member xs x ≡ true) ↔ In x xs
member_iff xs x = (
  λ h.
      let (y, i, e) = any-In (λ v. same v x) xs h in
      let q : x ≡ y = sym ((same_iff y x).0 e) in rw q i,
  λ i. any_of_In (λ v. same v x) xs i (same_refl x),
)

-- The result of the loop over the edges.
pub record IsMarked (edges : List Edge) (frontier keep next : List Text)
    (out : List Text × List Text) : Type 0 where
  pub keeps : {x : Text} → In x keep → In x out.0
  pub keeps_next : {x : Text} → In x next → In x out.1
  pub fresh : {x : Text} → In x out.0 → In x keep ⊎ In x out.1
  pub reached :
      {x : Text}
      → In x out.1
      → In x next ⊎ ((e : Edge) × In e edges × In e.to frontier × (x ≡ e.from))
  pub marked : {e : Edge} → In e edges → In e.to frontier → In e.from out.0

mark_added :
    (e : Edge) (es : List Edge) (frontier keep next : List Text) (out : List Text × List Text)
    → In e.to frontier
    → IsMarked es frontier (e.from ∷ keep) (e.from ∷ next) out
    → IsMarked (e ∷ es) frontier keep next out
mark_added e es frontier keep next out t m = record {
  keeps = λ i. m.keeps (tail i);
  keeps_next = λ i. m.keeps_next (tail i);
  fresh = λ i. fresh_by (m.fresh i);
  reached = λ i. reached_by (m.reached i);
  marked = λ i j. marked_by i j;
}
  where
    fresh_by : {x : Text} → In x (e.from ∷ keep) ⊎ In x out.1 → In x keep ⊎ In x out.1
    fresh_by (inl (head q)) = inr (m.keeps_next (head q))
    fresh_by (inl (tail i)) = inl i
    fresh_by (inr i) = inr i

    reached_by :
        {x : Text}
        → In x (e.from ∷ next) ⊎ ((d : Edge) × In d es × In d.to frontier × (x ≡ d.from))
        → In x next ⊎ ((d : Edge) × In d (e ∷ es) × In d.to frontier × (x ≡ d.from))
    reached_by (inl (head q)) = inr (e, head refl, t, q)
    reached_by (inl (tail i)) = inl i
    reached_by (inr (d, i, j, q)) = inr (d, tail i, j, q)

    marked_by : {d : Edge} → In d (e ∷ es) → In d.to frontier → In d.from out.0
    marked_by (head q) j = m.keeps (head (ap (λ (d : Edge). d.from) q))
    marked_by (tail i) j = m.marked i j

mark_passed :
    (e : Edge) (es : List Edge) (frontier keep next : List Text) (out : List Text × List Text)
    → (In e.to frontier → In e.from keep)
    → IsMarked es frontier keep next out
    → IsMarked (e ∷ es) frontier keep next out
mark_passed e es frontier keep next out t m = record {
  keeps = m.keeps;
  keeps_next = m.keeps_next;
  fresh = m.fresh;
  reached = λ i. reached_by (m.reached i);
  marked = λ i j. marked_by i j;
}
  where
    reached_by :
        {x : Text}
        → In x next ⊎ ((d : Edge) × In d es × In d.to frontier × (x ≡ d.from))
        → In x next ⊎ ((d : Edge) × In d (e ∷ es) × In d.to frontier × (x ≡ d.from))
    reached_by (inl i) = inl i
    reached_by (inr (d, i, j, q)) = inr (d, tail i, j, q)

    marked_by : {d : Edge} → In d (e ∷ es) → In d.to frontier → In d.from out.0
    marked_by (head q) j = let k = m.keeps (t (rw q at j)) in rw q k
    marked_by (tail i) j = m.marked i j

pub mark-IsMarked :
    (edges : List Edge) (frontier keep next : List Text)
    → IsMarked edges frontier keep next (mark edges frontier (keep, next))
unfolding mark
mark-IsMarked [] frontier keep next = record {
  keeps = λ i. i;
  keeps_next = λ i. i;
  fresh = λ i. inl i;
  reached = λ i. inl i;
  marked = λ i j. elim i [ ];
}
mark-IsMarked (e ∷ es) frontier keep next =
    go (member frontier e.to) (member keep e.from) refl refl (λ k n. mark-IsMarked es frontier k n)
  where
    go :
        (f k : Bool)
        → member frontier e.to ≡ f
        → member keep e.from ≡ k
        → ((keep next : List Text) → IsMarked es frontier keep next (mark es frontier (keep, next)))
        → IsMarked
            (e ∷ es)
            frontier
            keep
            next
            (mark es frontier (if f && not k then (e.from ∷ keep, e.from ∷ next) else (keep, next)))
    go true false p q ih =
        mark_added e es frontier keep next _ ((member_iff frontier e.to).0 p)
          (ih (e.from ∷ keep) (e.from ∷ next))
    go true true p q ih =
        mark_passed e es frontier keep next _ (λ i. (member_iff keep e.from).0 q) (ih keep next)
    go false k p q ih =
        mark_passed e es frontier keep next _ (λ i. absurd (cc (p, (member_iff frontier e.to).1 i)))
          (ih keep next)
