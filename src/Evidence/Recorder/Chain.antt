-- ===== src/Evidence/Recorder/Chain.antt =====
-- What append keeps of a log that verifies (packages/core/src/protocol/recorder.js).
use ruleoak.Common.{
  ℕ, suc, ◌+◌, Bool, true, false, not, ◌≡◌, refl, ap, ◌↔◌, Option, none, some, List, [], ◌∷◌, ◌++◌,
  arith, length, ==_iff, is_empty,
}
use ruleoak.Common.Results.{ok, err}
use ruleoak.Common.Texts.{Text, same_iff, same_refl}
use ruleoak.Execution.Receipt.{EffectReceipt}
use ruleoak.Evidence.Event.{Content, Event, valid_evidence_event}
use ruleoak.Evidence.Recorder.{
  genesis_hash, Limits, invalid_time, Request, last_event, hash_after, index_after, field_of,
  content_of, LineError, report_if, report_all, conflict, event_of, write_event, append,
  line_errors, verify_from, verify_evidence,
}

report-nil :
    (b : Bool) (e : LineError) (rest : List LineError)
    → report_if b e ++ rest ≡ []
    → (b ≡ false) × (rest ≡ [])
report-nil true e rest h = cc
report-nil false e rest h = (refl, h)

append-nil_parts : (xs ys : List LineError) → xs ++ ys ≡ [] → (xs ≡ []) × (ys ≡ [])
append-nil_parts [] ys h = (refl, h)
append-nil_parts (x ∷ xs) ys h = cc

not-false : (b : Bool) → not b ≡ false → b ≡ true
not-false true h = refl
not-false false h = cc

no_conflict : (a : Text) → conflict a a ≡ false
no_conflict a = ground (arith, same_refl a)

module _ (event_hash : Text → Content → Text) (valid_receipt : EffectReceipt → Bool)
    (line_bytes : Event → ℕ) (limits : Limits) where
  -- An event that has its place in a chain: its number, the hash before it and its own hash.
  pub record InChain (index : ℕ) (previous : Text) (e : Event) : Type 0 where
    pub valid : valid_evidence_event valid_receipt e.content ≡ true
    pub numbered : e.content.index ≡ index
    pub linked : e.content.previous_hash ≡ previous
    pub hashed : e.hash ≡ event_hash previous e.content
    pub decided :
        conflict (field_of (λ r. r.decision_id) e.content.decision.receipt) e.content.decision_id
        ≡ false
    pub acted :
        conflict
          (field_of (λ r. r.action_digest) e.content.decision.receipt)
          e.content.action_digest
        ≡ false
    pub governed :
        conflict
          (field_of (λ r. r.policy_digest) e.content.decision.receipt)
          e.content.policy_digest
        ≡ false

  abbrev pub IsChain : ℕ → Text → List Event → Type 0
  IsChain index previous [] = Unit {0}
  IsChain index previous (e ∷ es) = InChain index previous e × IsChain (index + 1) e.hash es

  line-InChain :
      (index : ℕ) (previous : Text) (e : Event)
      → line_errors event_hash valid_receipt line_bytes limits index previous e ≡ []
      → InChain index previous e
  unfolding line_errors report_all
  line-InChain index previous e h =
      let a = report-nil _ _ _ h in
      let b = report-nil _ _ _ a.1 in
      let c = report-nil _ _ _ b.1 in
      let d = report-nil _ _ _ c.1 in
      let f = report-nil _ _ _ d.1 in
      let g = report-nil _ _ _ f.1 in
      record {
        valid = not-false _ a.0;
        numbered = (==_iff e.content.index index).0 (not-false _ b.0);
        linked = (same_iff _ _).0 (not-false _ c.0);
        hashed = (same_iff _ _).0 (not-false _ d.0);
        decided = f.0;
        acted = g.0;
        governed = (report-nil _ _ _ g.1).0;
      }

  InChain-line :
      (index : ℕ) (previous : Text) (e : Event)
      → InChain index previous e
      → line_errors event_hash valid_receipt line_bytes limits index previous e ≡ []
  unfolding line_errors report_all
  InChain-line index previous e h =
      rw
        (
          h.valid,
          (==_iff e.content.index index).1 h.numbered,
          (same_iff e.content.previous_hash previous).1 h.linked,
          (same_iff e.hash (event_hash previous e.content)).1 h.hashed,
          h.decided,
          h.acted,
          h.governed,
        )
        refl

  pub verify_from-IsChain :
      (log : List Event) (index : ℕ) (previous : Text)
      → (verify_from event_hash valid_receipt line_bytes limits index previous log ≡ [])
        ↔ IsChain index previous log
  unfolding verify_from
  verify_from-IsChain [] index previous = (λ h. tt, λ h. refl)
  verify_from-IsChain (e ∷ es) index previous =
      let ih = verify_from-IsChain es (index + 1) e.hash in
      (
        λ h. let p = append-nil_parts _ _ h in (line-InChain index previous e p.0, ih.0 p.1),
        λ h. rw (InChain-line index previous e h.0, ih.1 h.1) refl,
      )

  -- The hash behind a log.
  abbrev pub hash_behind : Text → List Event → Text
  hash_behind previous [] = previous
  hash_behind previous (e ∷ es) = hash_behind e.hash es

  IsChain-append :
      (log : List Event) (index : ℕ) (previous : Text) (e : Event)
      → IsChain index previous log
      → InChain (index + length log) (hash_behind previous log) e
      → IsChain index previous (log ++ e ∷ [])
  IsChain-append [] index previous e h k =
      let q : index + 0 ≡ index = omega arith in (rw q at k, tt)
  IsChain-append (f ∷ fs) index previous e h k =
      let q : index + suc (length fs) ≡ index + 1 + length fs = omega arith in
      (h.0, IsChain-append fs (index + 1) f.hash e h.1 (rw q at k))

  -- The last event of a chain, where there is one.
  abbrev Last : ℕ → Text → List Event → Option Event → Type 0
  Last index previous log none = log ≡ []
  Last index previous log (some e) =
      (e.content.index + 1 ≡ index + length log)
      × (e.hash ≡ hash_behind previous log)
      × (p : Text) × (e.hash ≡ event_hash p e.content)

  last_event-Last :
      (log : List Event) (index : ℕ) (previous : Text)
      → IsChain index previous log
      → Last index previous log (last_event log)
  unfolding last_event
  last_event-Last [] index previous h = refl
  last_event-Last (e ∷ es) index previous h =
      by_rest (last_event es) (last_event-Last es (index + 1) e.hash h.1)
    where
      by_rest :
          (o : Option Event)
          → Last (index + 1) e.hash es o
          → Last index previous (e ∷ es) (elim o [ some later ↦ some later | none ↦ some e ])
      by_rest none k = rw k (omega (arith, h.0.numbered), refl, previous, h.0.hashed)
      by_rest (some f) k = (omega (arith, k.0), k.1, k.2, k.3)

  -- A hash is never the empty text.
  module _ (filled : (p : Text) (c : Content) → is_empty (event_hash p c) ≡ false) where
    after-Last :
        (log : List Event) (o : Option Event)
        → Last 1 genesis_hash log o
        → (index_after o ≡ 1 + length log) × (hash_after o ≡ hash_behind genesis_hash log)
    after-Last log none h = rw h (omega arith, refl)
    after-Last log (some e) (n, k, p, q) =
        let f : is_empty e.hash ≡ false = rw q (filled p e.content) in (omega (arith, n), rw f k)

    new-InChain :
        (q : Request) (time : Text) (o : Option Event) (index : ℕ) (previous : Text)
        → index_after o ≡ index
        → hash_after o ≡ previous
        → valid_evidence_event valid_receipt (content_of q time o) ≡ true
        → InChain index previous
            (event_of event_hash valid_receipt line_bytes limits (content_of q time o))
    unfolding content_of
    new-InChain q time o index previous n h v = record {
      valid = v;
      numbered = n;
      linked = h;
      hashed = ap (λ (p : Text). event_hash p (content_of q time o)) h;
      decided = no_conflict _;
      acted = no_conflict _;
      governed = no_conflict _;
    }

    -- The event that write_event adds is valid.
    write_event-ok :
        (log : List Event) (e : Event) (log' : List Event)
        → write_event event_hash valid_receipt line_bytes limits log e ≡ ok log'
        → (valid_evidence_event valid_receipt e.content ≡ true) × (log' ≡ log ++ e ∷ [])
    unfolding write_event
    write_event-ok log e log' h = ground arith

    append-IsChain :
        (log log' : List Event) (q : Request)
        → IsChain 1 genesis_hash log
        → append event_hash valid_receipt line_bytes limits log q ≡ ok log'
        → IsChain 1 genesis_hash log'
    unfolding append
    append-IsChain log log' q k h = by_time q.timestamp h
      where
        by_time :
            (t : Option Text)
            → (elim t [
              | none ↦ err invalid_time
              | some time ↦ write_event event_hash valid_receipt line_bytes limits log (
                  event_of event_hash valid_receipt line_bytes limits
                    (content_of q time (last_event log)))
            ])
              ≡ ok log'
            → IsChain 1 genesis_hash log'
        by_time none h = absurd (cc h)
        by_time (some time) h =
            let w = write_event-ok log _ log' h in
            let l = after-Last log (last_event log) (last_event-Last log 1 genesis_hash k) in
            rw (w.1) (
              IsChain-append log 1 genesis_hash _ k
                (new-InChain q time (last_event log) _ _ l.0 l.1 w.0))

  -- The logs that a recorder writes: from the empty log by appends that succeed.
  pub data Written : List Event → Type 0 where
    start : Written []
    appended :
        {log : List Event} (log' : List Event) (q : Request)
        → Written log
        → append event_hash valid_receipt line_bytes limits log q ≡ ok log'
        → Written log'

  -- Every log that appends build from the empty log verifies without an error, provided that no hash is
  -- the empty text.
  pub Written-verifies :
      ((p : Text) (c : Content) → is_empty (event_hash p c) ≡ false)
      → {log : List Event} → Written log
      → verify_evidence event_hash valid_receipt line_bytes limits log ≡ []
  unfolding verify_evidence
  Written-verifies filled {log} r = (verify_from-IsChain log 1 genesis_hash).1 (chain r)
    where
      chain : {es : List Event} → Written es → IsChain 1 genesis_hash es
      chain start = tt
      chain (appended {log = es} es' q s h) = append-IsChain filled es es' q (chain s) h
