-- ===== src/Execution/Lease/Once.antt =====
-- Sequences of uses of leases: consumeExecutionLease of packages/core/src/execution/lease.js.
use ruleoak.Common.{
  ℕ, ◌+◌, ◌≤◌, Bool, false, ◌≡◌, ◌∙◌, refl, sym, ap, subst, List, [], ◌∷◌, arith, if◌then◌else◌,
  any, inl, inr, Bool-cases,
}
use ruleoak.Common.Results.{Result, ok, err, >>=-eq-ok}
use ruleoak.Common.Texts.{Text, same, same_iff, same_refl}
use ruleoak.Execution.Lease.{
  Lease, Use, LeaseError, SignError, is_time, verify_execution_lease, Consumption, consumed,
  create_marker, settle, consume_execution_lease,
}

-- An attempt to use a lease, with the markers that it sees when it looks for its own.
pub record Attempt : Type 0 where
  pub lease : Lease
  pub use_of : Use
  pub seen : List Text

abbrev is_consumed : Consumption → ℕ
is_consumed consumed = 1
is_consumed _ = 0

-- The markers after an attempt, and whether it has used a lease with the marker.
abbrev pub markers_after : List Text → Result SignError (Consumption × List Text) → List Text
markers_after markers (err e) = markers
markers_after markers (ok r) = r.1

abbrev pub uses_of : Text → Text → Result SignError (Consumption × List Text) → ℕ
uses_of name marker (err e) = 0
uses_of name marker (ok r) = if same name marker then is_consumed r.0 else 0

abbrev pub held : Text → List Text → ℕ
held name markers = if any (same name) markers then 1 else 0

created_here :
    (marker : Text) (markers : List Text)
    → uses_of marker marker (ok (create_marker markers marker)) + held marker markers
      ≤ held marker (create_marker markers marker).1
unfolding create_marker any
created_here marker markers = elim (Bool-cases (any (same marker) markers)) [
  | inl t ↦ rw (t, same_refl marker) (rw t (omega arith))
  | inr n ↦ rw (n, same_refl marker) (omega arith)
]

created_other :
    (name marker : Text) (markers : List Text)
    → same name marker ≡ false
    → uses_of name marker (ok (create_marker markers marker)) + held name markers
      ≤ held name (create_marker markers marker).1
unfolding create_marker any
created_other name marker markers f = elim (Bool-cases (any (same marker) markers)) [
  | inl t ↦ rw (f, t) (omega arith)
  | inr n ↦ rw (f, n) (rw f (omega arith))
]

created :
    (name marker : Text) (markers : List Text)
    → uses_of name marker (ok (create_marker markers marker)) + held name markers
      ≤ held name (create_marker markers marker).1
created name marker markers = elim (Bool-cases (same name marker)) [
  | inr f ↦ created_other name marker markers f
  | inl t ↦
      subst
        (λ m.
          uses_of name m (ok (create_marker markers m)) + held name markers
          ≤ held name (create_marker markers m).1)
        ((same_iff name marker).0 t) (created_here name markers)
]

module _ (mac : Text → Lease → Text) (valid_lease : Lease → Bool) (marker_name : Lease → Text) where
  abbrev pub attempt : List Text → Attempt → Result SignError (Consumption × List Text)
  attempt markers a =
      consume_execution_lease mac valid_lease marker_name a.seen markers a.lease a.use_of

  -- How often a lease with the marker is consumed in a sequence of attempts, each creating its file
  -- after the ones before it.
  unfoldable pub consumptions : Text → List Text → List Attempt → ℕ
  consumptions name markers [] = 0
  consumptions name markers (a ∷ more) =
      uses_of name (marker_name a.lease) (attempt markers a)
      + consumptions name (markers_after markers (attempt markers a)) more

  -- Whatever settles an attempt, the uses of a marker and its file before are at most its file after.
  settled :
      (name : Text) (seen markers : List Text) (l : Lease) (u : Use) (errors : List LeaseError)
      → uses_of name
            (marker_name l)
            (ok (settle mac valid_lease marker_name seen markers l u errors))
          + held name markers
        ≤ held name (settle mac valid_lease marker_name seen markers l u errors).1
  unfolding settle
  settled name seen markers l u (e ∷ es) = ground arith
  settled name seen markers l u [] = elim (Bool-cases u.has_store) [
    | inr f ↦ rw f (ground arith)
    | inl t ↦ elim (Bool-cases (any (same (marker_name l)) seen)) [
      | inl r ↦ rw (t, r) (ground arith)
      | inr n ↦ elim (Bool-cases (is_time u.consumed_at)) [
        | inr b ↦ rw (t, n, b) (ground arith)
        | inl g ↦ rw (t, n, g) (created name (marker_name l) markers)
      ]
    ]
  ]

  attempted :
      (name : Text) (markers : List Text) (a : Attempt)
      → uses_of name (marker_name a.lease) (attempt markers a) + held name markers
        ≤ held name (markers_after markers (attempt markers a))
  unfolding consume_execution_lease
  attempted name markers a =
      by_errors (verify_execution_lease mac valid_lease marker_name a.lease a.use_of) refl
    where
      by_errors :
          (r : Result SignError (List LeaseError))
          → verify_execution_lease mac valid_lease marker_name a.lease a.use_of ≡ r
          → uses_of name (marker_name a.lease) (attempt markers a) + held name markers
            ≤ held name (markers_after markers (attempt markers a))
      by_errors (err e) h = rw h (omega arith)
      by_errors (ok errors) h = rw h (settled name a.seen markers a.lease a.use_of errors)

  held-le : (name : Text) (markers : List Text) → held name markers ≤ 1
  held-le name markers = ground arith

  -- Over any sequence of attempts to consume leases, whatever each has seen when it looked for its
  -- marker, leases with the same marker are consumed once at most, and not at all where the
  -- marker is there at the start.
  pub consumed_once :
      (name : Text) (markers : List Text) (attempts : List Attempt)
      → consumptions name markers attempts + held name markers ≤ 1
  unfolding consumptions
  consumed_once name markers [] = omega (arith, held-le name markers)
  consumed_once name markers (a ∷ more) =
      let one = attempted name markers a in
      let ih = consumed_once name (markers_after markers (attempt markers a)) more in
      omega (arith, one, ih)

  -- A lease that is consumed has verified without an error, and its marker was neither seen nor
  -- there when it was created; it is there afterwards.
  pub consume-requires :
      (seen markers after : List Text) (l : Lease) (u : Use)
      → consume_execution_lease mac valid_lease marker_name seen markers l u ≡ ok (consumed, after)
      → (verify_execution_lease mac valid_lease marker_name l u ≡ ok [])
        × (any (same (marker_name l)) seen ≡ false)
        × (any (same (marker_name l)) markers ≡ false)
        × (after ≡ marker_name l ∷ markers)
  unfolding consume_execution_lease settle create_marker
  consume-requires seen markers after l u h =
      let r = >>=-eq-ok (verify_execution_lease mac valid_lease marker_name l u) _ h in
      let s = cleared r.0 (cc r.2) in (r.1 ∙ ap ok s.0, s.1, s.2, s.3)
    where
      outcome : {p q : Consumption × List Text} → p ≡ q → p.0 ≡ q.0
      outcome e = ap (λ (r : Consumption × List Text). r.0) e

      files : {p q : Consumption × List Text} → p ≡ q → p.1 ≡ q.1
      files e = ap (λ (r : Consumption × List Text). r.1) e

      cleared :
          (errors : List LeaseError)
          → settle mac valid_lease marker_name seen markers l u errors ≡ (consumed, after)
          → (errors ≡ [])
            × (any (same (marker_name l)) seen ≡ false)
            × (any (same (marker_name l)) markers ≡ false)
            × (after ≡ marker_name l ∷ markers)
      cleared (x ∷ xs) e = absurd (cc (outcome e))
      cleared [] e = elim (Bool-cases u.has_store) [
        | inr f ↦ absurd (cc (outcome (rw f at e)))
        | inl t ↦ elim (Bool-cases (any (same (marker_name l)) seen)) [
          | inl r ↦ absurd (cc (outcome (rw (t, r) at e)))
          | inr n ↦ elim (Bool-cases (is_time u.consumed_at)) [
            | inr b ↦ absurd (cc (outcome (rw (t, n, b) at e)))
            | inl g ↦ elim (Bool-cases (any (same (marker_name l)) markers)) [
              | inl there ↦ absurd (cc (outcome (rw (t, n, g, there) at e)))
              | inr fresh ↦ (refl, n, fresh, sym (files (rw (t, n, g, fresh) at e)))
            ]
          ]
        ]
      ]
