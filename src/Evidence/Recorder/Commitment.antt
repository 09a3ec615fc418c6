-- ===== src/Evidence/Recorder/Commitment.antt =====
-- What the number of events and the last hash of a log fix (packages/core/src/protocol/recorder.js).
use ruleoak.Common.{
  ℕ, ◌+◌, Bool, ◌≡◌, refl, sym, ap, ◌∙◌, List, [], ◌∷◌, arith, length, In, head, tail,
}
use ruleoak.Common.Texts.{Text}
use ruleoak.Execution.Receipt.{EffectReceipt}
use ruleoak.Evidence.Event.{Content, Event}
use ruleoak.Evidence.Recorder.{genesis_hash, Limits, verify_evidence}
use ruleoak.Evidence.Recorder.Chain.{InChain, IsChain, hash_behind, verify_from-IsChain}

module _ (event_hash : Text → Content → Text) (valid_receipt : EffectReceipt → Bool)
    (line_bytes : Event → ℕ) (limits : Limits) where
  -- No event of one log collides with one of the other.
  abbrev pub NoCollision : List Event → List Event → Type 0
  NoCollision es fs =
      (e f : Event)
      → In e es
      → In f fs
      → event_hash e.content.previous_hash e.content ≡ event_hash f.content.previous_hash f.content
      → e.content ≡ f.content

  -- Two events of chains with the same hash are the same, and so are the hashes before them.
  same_hash :
      (i j : ℕ) (p q : Text) (e f : Event)
      → InChain event_hash valid_receipt line_bytes limits i p e
      → InChain event_hash valid_receipt line_bytes limits j q f
      → NoCollision (e ∷ []) (f ∷ [])
      → e.hash ≡ f.hash
      → (e ≡ f) × (p ≡ q)
  same_hash i j p q e f a b n h =
      let c = n e f (head refl) (head refl) (
        ap (λ (r : Text). event_hash r e.content) a.linked
        ∙ sym a.hashed
        ∙ h
        ∙ b.hashed
        ∙ ap (λ (r : Text). event_hash r f.content) (sym b.linked)) in
      (same_event c h, sym a.linked ∙ ap (λ (x : Content). x.previous_hash) c ∙ b.linked)
    where
      same_event : e.content ≡ f.content → e.hash ≡ f.hash → e ≡ f
      same_event c h = λ k. record { content = c k; hash = h k }

  same_chains :
      (es fs : List Event) (i j : ℕ) (p q : Text)
      → IsChain event_hash valid_receipt line_bytes limits i p es
      → IsChain event_hash valid_receipt line_bytes limits j q fs
      → NoCollision es fs
      → length es ≡ length fs
      → hash_behind event_hash valid_receipt line_bytes limits p es
        ≡ hash_behind event_hash valid_receipt line_bytes limits q fs
      → (es ≡ fs) × (p ≡ q)
  same_chains [] [] i j p q a b u n h = (refl, h)
  same_chains [] (f ∷ fs) i j p q a b u n h = absurd (omega (arith, n))
  same_chains (e ∷ es) [] i j p q a b u n h = absurd (omega (arith, n))
  same_chains (e ∷ es) (f ∷ fs) i j p q a b u n h =
      let rest =
        same_chains es fs (i + 1) (j + 1) e.hash f.hash a.1 b.1 (λ x y k l. u x y (tail k) (tail l))
          (omega (arith, n)) h in
      let s = same_hash i j p q e f a.0 b.0 (first u) rest.1 in (cc (s.0, rest.0), s.1)
    where
      first : NoCollision (e ∷ es) (f ∷ fs) → NoCollision (e ∷ []) (f ∷ [])
      first u x y (head k) (head l) = u x y (head k) (head l)
      first u x y (tail k) l = elim k [ ]
      first u x y (head k) (tail l) = elim l [ ]

  -- Two logs that verify, with the same number of events and the same last hash, are the same log,
  -- provided that no event of the one and event of the other collide under the hash.
  pub commitment :
      (es fs : List Event)
      → verify_evidence event_hash valid_receipt line_bytes limits es ≡ []
      → verify_evidence event_hash valid_receipt line_bytes limits fs ≡ []
      → NoCollision es fs
      → length es ≡ length fs
      → hash_behind event_hash valid_receipt line_bytes limits genesis_hash es
        ≡ hash_behind event_hash valid_receipt line_bytes limits genesis_hash fs
      → es ≡ fs
  unfolding verify_evidence
  commitment es fs a b u n h =
      (same_chains es fs 1 1 genesis_hash genesis_hash
        ((verify_from-IsChain event_hash valid_receipt line_bytes limits es 1 genesis_hash).0 a)
        ((verify_from-IsChain event_hash valid_receipt line_bytes limits fs 1 genesis_hash).0 b) u n
        h).0
