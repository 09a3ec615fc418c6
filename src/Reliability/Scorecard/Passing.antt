-- ===== src/Reliability/Scorecard/Passing.antt =====
-- When a scorecard passes (packages/core/src/crashlab/scorecard.js).
use ruleoak.Common.{
  ◌<◌, Bool, true, false, not, ◌≡◌, refl, sym, ap, ◌∙◌, ◌↔◌, inl, inr, List, [], ◌∷◌, arith, ◌==◌,
  ltb, ltb→lt, ==_iff, if◌then◌else◌, all, select, length, is_empty, map, In, head, tail,
  Bool-cases, and-eq-true, all-In, select-In, select_keeps, In_of_append, In-append_left,
  In-append_right,
}
use ruleoak.Common.Results.{ok, err}
use ruleoak.Common.Sort.{sort, sort-In, sort_keeps}
use ruleoak.Common.Texts.{Text}
use ruleoak.Reliability.Counting.{
  select_all, all_select, In-not_empty, not_empty-In, map_keeps, map-In,
}
use ruleoak.Reliability.Scorecard.{
  Dimension, duplicate_effect_resistance, revocation_compliance, ambiguity_handling,
  retry_boundedness, evidence_completeness, recovery_correctness, dimensions, same_dimension, Check,
  Outcome, Listed, listed_check, listed_failure, dimension_for_invariant, false_invariants,
  has_check, unlisted_invariants, status_failure, listed_of, listed_all, by_check, checks_of, pass,
  fail, dimension_status, is_fail, by_identity, has_duplicate, no_results, duplicate_identity,
  Scorecard, overall, scorecard_of, build_reliability_scorecard,
}

-- A result that passed, whose checks all pass, and whose false invariants are each named by a
-- check.
pub record IsClean (r : Outcome) : Type 0 where
  pub succeeded : r.passed ≡ true
  pub sound : (c : Check) → In c r.checks → c.pass ≡ true
  pub named : (i : Text) → In i (false_invariants r) → has_check r i ≡ true

not-true_of : (b : Bool) → not b ≡ true → b ≡ false
not-true_of b h = ground arith

same_dimension_refl : (d : Dimension) → same_dimension d d ≡ true
same_dimension_refl duplicate_effect_resistance = refl
same_dimension_refl revocation_compliance = refl
same_dimension_refl ambiguity_handling = refl
same_dimension_refl retry_boundedness = refl
same_dimension_refl evidence_completeness = refl
same_dimension_refl recovery_correctness = refl

In-dimensions : (d : Dimension) → In d dimensions
In-dimensions duplicate_effect_resistance = head refl
In-dimensions revocation_compliance = tail (head refl)
In-dimensions ambiguity_handling = tail (tail (head refl))
In-dimensions retry_boundedness = tail (tail (tail (head refl)))
In-dimensions evidence_completeness = tail (tail (tail (tail (head refl))))
In-dimensions recovery_correctness = tail (tail (tail (tail (tail (head refl)))))

-- A dimension that does not fail lists passing checks alone, and the converse.
status_sound :
    (checks : List Listed) {l : Listed}
    → is_fail (dimension_status checks) ≡ false
    → In l checks
    → l.pass ≡ true
unfolding dimension_status
status_sound checks {l} h i = elim (Bool-cases l.pass) [
  | inl t ↦ t
  | inr f ↦
      let some_check : 0 < length checks = In-not_empty checks i in
      let bad : In l (select (λ m. not m.pass) checks) = select_keeps _ checks i (rw f refl) in
      let failed : 0 < length (select (λ m. not m.pass) checks) = In-not_empty _ bad in
      ground (arith, h, some_check, failed)
]

status_complete :
    (checks : List Listed)
    → ((l : Listed) → In l checks → l.pass ≡ true)
    → is_fail (dimension_status checks) ≡ false
unfolding dimension_status
status_complete checks h = elim (Bool-cases (ltb 0 (length bad))) [
  | inl t ↦
      let (l, i) = not_empty-In bad (ltb→lt 0 (length bad) t) in
      let (j, f) = select-In _ checks i in elim (passes_or_not l.pass (h l j) f) [ ]
  | inr f ↦ ground (arith, f)
]
  where
    bad : List Listed
    bad = select (λ m. not m.pass) checks

    passes_or_not : (b : Bool) → b ≡ true → not b ≡ true → ⊥
    passes_or_not b p n = cc

listed-checks_of :
    (listed : List Listed) {l : Listed} → In l listed → In l (checks_of l.dimension listed)
unfolding checks_of
listed-checks_of listed {l} i =
    sort_keeps by_check _ (select_keeps _ listed i (same_dimension_refl l.dimension))

checks_of-listed :
    (d : Dimension) (listed : List Listed) {l : Listed} → In l (checks_of d listed) → In l listed
unfolding checks_of
checks_of-listed d listed i = (select-In _ listed (sort-In by_check _ i)).0

all_of_In {ℓ} :
    {A : Type ℓ} (p : A → Bool) (xs : List A) → ((a : A) → In a xs → p a ≡ true) → all p xs ≡ true
unfolding all
all_of_In p [] h = refl
all_of_In p (x ∷ xs) h = rw (h x (head refl), all_of_In p xs (λ a i. h a (tail i)))

if_pass : (b : Bool) → (if b then pass else fail) ≡ pass → b ≡ true
if_pass true h = refl
if_pass false h = cc

-- The whole passes when all results passed and no listed check fails.
overall_iff :
    (sorted : List Outcome) (listed : List Listed)
    → (overall sorted listed ≡ pass) ↔ (
        ((r : Outcome) → In r sorted → r.passed ≡ true)
        × ((l : Listed) → In l listed → l.pass ≡ true))
unfolding overall
overall_iff sorted listed = (passing, clean)
  where
    passing :
        overall sorted listed ≡ pass
        → ((r : Outcome) → In r sorted → r.passed ≡ true)
          × ((l : Listed) → In l listed → l.pass ≡ true)
    passing h =
        let (counted, sound) = and-eq-true _ _ (if_pass _ h) in
        (
          λ r i. select_all (λ r. r.passed) sorted ((==_iff _ _).0 counted) i,
          λ l i.
              status_sound (checks_of l.dimension listed)
                (not-true_of _ (all-In _ dimensions sound (In-dimensions l.dimension)))
                (listed-checks_of listed i),
        )

    clean :
        ((r : Outcome) → In r sorted → r.passed ≡ true)
          × ((l : Listed) → In l listed → l.pass ≡ true)
        → overall sorted listed ≡ pass
    clean (rs, ls) =
        let counted = all_select (λ r. r.passed) sorted rs in
        let full : (length (select (λ r. r.passed) sorted) == length sorted) ≡ true =
          (==_iff _ _).1 counted in
        let sound : all (λ d. not (is_fail (dimension_status (checks_of d listed)))) dimensions
            ≡ true =
          all_of_In _ dimensions (λ d i.
            rw (status_complete (checks_of d listed) (λ l j. ls l (checks_of-listed d listed j)))
              refl) in
        rw (full, sound) refl

-- The checks that a clean result lists all pass.
listed_of_sound : (r : Outcome) → IsClean r → (l : Listed) → In l (listed_of r) → l.pass ≡ true
unfolding listed_of
listed_of_sound r clean l i = elim (In_of_append (map (λ c. listed_check r c) r.checks) _ i) [
  | inl j ↦ let (c, k, e) = map-In (λ c. listed_check r c) r.checks j in rw e (clean.sound c k)
  | inr j ↦
      elim (In_of_append
        (map (λ i. listed_failure r (dimension_for_invariant i) i) (unlisted_invariants r)) _ j) [
          | inl k ↦
              let (i, m, e) =
                map-In (λ i. listed_failure r (dimension_for_invariant i) i) (unlisted_invariants r)
                  k in
              let (q, missing) = select-In (λ i. not (has_check r i)) (false_invariants r) m in
              elim (both (has_check r i) (clean.named i q) missing) [ ]
          | inr k ↦ elim (no_failure clean.succeeded k) [ ]
        ]
]
  where
    both : (b : Bool) → b ≡ true → not b ≡ true → ⊥
    both b p n = cc

    no_failure : r.passed ≡ true → In l (status_failure r) → ⊥
    no_failure t k = elim (rw t at k) [ ]

false_not_true : false ≡ true → ⊥
false_not_true e = cc

-- A result whose listed checks pass, and that passed, is clean.
IsClean-listed :
    (r : Outcome)
    → r.passed ≡ true
    → ((l : Listed) → In l (listed_of r) → l.pass ≡ true)
    → IsClean r
unfolding listed_of
IsClean-listed r t h = record {
  succeeded = t;
  sound =
      λ c i. h (listed_check r c) (In-append_left _ (map_keeps (λ c. listed_check r c) r.checks i));
  named = λ i j. elim (Bool-cases (has_check r i)) [
    | inl y ↦ y
    | inr n ↦
        let unlisted = select_keeps (λ i. not (has_check r i)) (false_invariants r) j (rw n refl) in
        let failure =
          map_keeps (λ i. listed_failure r (dimension_for_invariant i) i) (unlisted_invariants r)
            unlisted in
        elim (false_not_true (
          h _ (
            In-append_right (map (λ c. listed_check r c) r.checks) (In-append_left _ failure)))) [ ]
  ];
}

listed_all-In :
    (rs : List Outcome) {l : Listed}
    → In l (listed_all rs)
    → (r : Outcome) × In r rs × In l (listed_of r)
unfolding listed_all
listed_all-In [] i = elim i [ ]
listed_all-In (r ∷ rs) i = elim (In_of_append (listed_of r) (listed_all rs) i) [
  | inl j ↦ (r, head refl, j)
  | inr j ↦ let rest = listed_all-In rs j in (rest.0, tail rest.1, rest.2)
]

listed_all_keeps :
    (rs : List Outcome) {r : Outcome} {l : Listed}
    → In r rs
    → In l (listed_of r)
    → In l (listed_all rs)
unfolding listed_all
listed_all_keeps [] i j = elim i [ ]
listed_all_keeps (r ∷ rs) (head e) j = In-append_left (listed_all rs) (rw e at j)
listed_all_keeps (r ∷ rs) (tail i) j = In-append_right (listed_of r) (listed_all_keeps rs i j)

built_card :
    (results : List Outcome) (card : Scorecard)
    → build_reliability_scorecard results ≡ ok card
    → card ≡ scorecard_of (sort by_identity results)
unfolding build_reliability_scorecard
built_card results card built =
    go (is_empty results) (has_duplicate (sort by_identity results)) built
  where
    go :
        (a b : Bool)
        → (if a
            then err no_results
            else if b
            then err duplicate_identity
            else ok (scorecard_of (sort by_identity results)))
          ≡ ok card
        → card ≡ scorecard_of (sort by_identity results)
    go true b e = cc
    go false true e = cc
    go false false e = cc

-- A scorecard that is built passes exactly when each result passed, all its checks pass, and each
-- of its false invariants is the id of one of its checks.
pub pass_iff :
    (results : List Outcome) (card : Scorecard)
    → build_reliability_scorecard results ≡ ok card
    → (card.status ≡ pass) ↔ ((r : Outcome) → In r results → IsClean r)
unfolding scorecard_of
pass_iff results card built = (sound, complete)
  where
    sorted : List Outcome
    sorted = sort by_identity results

    status : card.status ≡ overall sorted (listed_all sorted)
    status = ap (λ c. c.status) (built_card results card built)

    sound : card.status ≡ pass → (r : Outcome) → In r results → IsClean r
    sound h r i =
        let (passed, listed) = (overall_iff sorted (listed_all sorted)).0 (sym status ∙ h) in
        let j = sort_keeps by_identity results i in
        IsClean-listed r (passed r j) (λ l k. listed l (listed_all_keeps sorted j k))

    complete : ((r : Outcome) → In r results → IsClean r) → card.status ≡ pass
    complete clean =
        status
        ∙ (overall_iff sorted (listed_all sorted)).1 (
          λ r i. (clean r (sort-In by_identity results i)).succeeded,
          λ l i.
              let (r, j, k) = listed_all-In sorted i in
              listed_of_sound r (clean r (sort-In by_identity results j)) l k,
        )
