-- ===== src/Evidence/Trace/Reaching.antt =====
-- Which nodes traceEvidenceGraph of packages/core/src/evidence/graph.js keeps.
use ruleoak.Common.{ℕ, zero, suc, ◌≡◌, refl, ◌↔◌, ◌⊎◌, inl, inr, List, [], ◌∷◌, In, head, tail}
use ruleoak.Common.Texts.{Text}
use ruleoak.Evidence.Trace.{Edge, mark, rounds}
use ruleoak.Evidence.Trace.Marking.{IsMarked, mark-IsMarked}

-- At most so many edges lead from a node to another.
pub data Leads (edges : List Edge) : ℕ → Text → Text → Type 0 where
  here : {n : ℕ} {x y : Text} → x ≡ y → Leads edges n x y
  by_edge :
      {n : ℕ} {x y : Text} (e : Edge)
      → In e edges
      → y ≡ e.to
      → Leads edges n x e.from
      → Leads edges (suc n) x y

Leads-more : {edges : List Edge} {n : ℕ} {x y : Text} → Leads edges n x y → Leads edges (suc n) x y
Leads-more (here q) = here q
Leads-more (by_edge e i q l) = by_edge e i q (Leads-more l)

module _ (edges : List Edge) where
  -- Where the edges into what is kept start in what is kept, but for those into the frontier.
  abbrev IsClosed : List Text → List Text → Type 0
  IsClosed frontier keep =
      (e : Edge) → In e edges → In e.to keep → In e.from keep ⊎ In e.to frontier

  mark-IsClosed :
      (frontier keep : List Text)
      → IsClosed frontier keep
      → IsClosed (mark edges frontier (keep, [])).1 (mark edges frontier (keep, [])).0
  mark-IsClosed frontier keep h e i j =
      let m = mark-IsMarked edges frontier keep [] in
      elim (m.fresh j) [
        | inr k ↦ inr k
        | inl k ↦ elim (h e i k) [ inl l ↦ inl (m.keeps l) | inr l ↦ inl (m.marked i l) ]
      ]

  rounds_keep :
      (n : ℕ) (frontier keep : List Text) {x : Text}
      → In x keep
      → In x (rounds n edges frontier keep)
  unfolding rounds
  rounds_keep zero frontier keep i = i
  rounds_keep (suc n) [] keep i = i
  rounds_keep (suc n) (z ∷ frontier) keep i =
      rounds_keep n _ _ ((mark-IsMarked edges (z ∷ frontier) keep []).keeps i)

  -- What is closed holds whatever leads to it.
  closed-Leads :
      (keep : List Text)
      → IsClosed [] keep
      → {n : ℕ} {x y : Text} → Leads edges n x y
      → In y keep
      → In x keep
  closed-Leads keep h (here q) i = rw q i
  closed-Leads keep h (by_edge e j q l) i = elim (h e j (rw q at i)) [
    | inl k ↦ closed-Leads keep h l k
    | inr k ↦ elim k [ ]
  ]

  rounds_complete :
      (n : ℕ) (frontier keep : List Text)
      → IsClosed frontier keep
      → {x y : Text} → Leads edges n x y
      → In y keep
      → In x (rounds n edges frontier keep)
  unfolding rounds
  rounds_complete n frontier keep h (here q) i = rounds_keep n frontier keep (rw q i)
  rounds_complete (suc n) [] keep h (by_edge e j q l) i = closed-Leads keep h (by_edge e j q l) i
  rounds_complete (suc n) (z ∷ frontier) keep h (by_edge e j q l) i =
      let m = mark-IsMarked edges (z ∷ frontier) keep [] in
      let started : In e.from (mark edges (z ∷ frontier) (keep, [])).0 = elim (h e j (rw q at i)) [
        | inl k ↦ m.keeps k
        | inr k ↦ m.marked j k
      ] in
      rounds_complete n _ _ (mark-IsClosed (z ∷ frontier) keep h) l started

  -- What is kept after the rounds leads to what was, by as many edges more.
  rounds_sound :
      (n : ℕ) (frontier keep : List Text)
      → ((x : Text) → In x frontier → In x keep)
      → {x : Text} → In x (rounds n edges frontier keep)
      → (y : Text) × In y keep × Leads edges n x y
  unfolding rounds
  rounds_sound zero frontier keep h {x} i = (x, i, here refl)
  rounds_sound (suc n) [] keep h {x} i = (x, i, here refl)
  rounds_sound (suc n) (z ∷ frontier) keep h {x} i =
      let (y, j, l) = rounds_sound n _ _ (λ w k. next_kept w (m.reached k)) i in
      before y (m.fresh j) l
    where
      m : IsMarked edges (z ∷ frontier) keep [] (mark edges (z ∷ frontier) (keep, []))
      m = mark-IsMarked edges (z ∷ frontier) keep []

      next_kept :
          (w : Text)
          → In w [] ⊎ ((e : Edge) × In e edges × In e.to (z ∷ frontier) × (w ≡ e.from))
          → In w (mark edges (z ∷ frontier) (keep, [])).0
      next_kept w (inl k) = elim k [ ]
      next_kept w (inr (e, a, b, q)) = rw q (m.marked a b)

      behind_edge :
          (y : Text)
          → In y [] ⊎ ((e : Edge) × In e edges × In e.to (z ∷ frontier) × (y ≡ e.from))
          → Leads edges n x y
          → (w : Text) × In w keep × Leads edges (suc n) x w
      behind_edge y (inl k) l = elim k [ ]
      behind_edge y (inr (e, a, b, q)) l = (e.to, h e.to b, by_edge e a refl (rw q at l))

      before :
          (y : Text)
          → In y keep ⊎ In y (mark edges (z ∷ frontier) (keep, [])).1
          → Leads edges n x y
          → (w : Text) × In w keep × Leads edges (suc n) x w
      before y (inl k) l = (y, k, Leads-more l)
      before y (inr k) l = behind_edge y (m.reached k) l

  pub kept_iff :
      (n : ℕ) (target x : Text)
      → In x (rounds n edges (target ∷ []) (target ∷ [])) ↔ Leads edges n x target
  kept_iff n target x = (
    λ i.
        let (y, j, l) = rounds_sound n (target ∷ []) (target ∷ []) (λ w k. k) i in
        let q : y ≡ target = only j in rw q at l,
    λ l. rounds_complete n (target ∷ []) (target ∷ []) (λ e i j. inr j) l (head refl),
  )
    where
      only : {y : Text} → In y (target ∷ []) → y ≡ target
      only (head q) = q
      only (tail i) = elim i [ ]
