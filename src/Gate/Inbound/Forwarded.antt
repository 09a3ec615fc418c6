-- ===== src/Gate/Inbound/Forwarded.antt =====
-- What RuleOakInboundGate of packages/cli/src/stream-gate.js lets through to the server.
use Prim.Native.Nat.{Ordering}
use ruleoak.Common.{
  ℕ, suc, Bool, true, false, not, ◌&&◌, ◌||◌, ◌≡◌, ◌≢◌, refl, ap, subst, ◌⊎◌, inl, inr, Option,
  none, some, List, [], ◌∷◌, ◌++◌, arith, Bool-cases, Option-cases, In, head, tail, In_of_append,
  if◌then◌else◌, or-eq-true, ==_iff,
}
use ruleoak.Common.Texts.{Text, text}
use ruleoak.Engine.Policy.{Policy}
use ruleoak.Permission.Call.{Call}
use ruleoak.Execution.Verification.Observers.{is_space}
use ruleoak.Gate.Json.{Json, array, Items, no_items, item}
use ruleoak.Gate.Action.{Script}
use ruleoak.Gate.Fragments.{Fragment, noise, json, malformed_json, opens}
use ruleoak.Gate.Fragments.Openers.{IsPlain, IsTail, IsSound, extract-IsOpened}
use ruleoak.Gate.Inbound.Positions.{
  StandsInBatch, StandsInValue, StandsInFragment, StandsInFragments, StandsIn,
}
use ruleoak.Gate.Inbound.Cleared.{MayPass, item-MayPass}
use ruleoak.Gate.Inbound.{
  Answers, AnswersByItem, AnswersByFragment, AnswersByChunk, evaluate_item, Response, Outcome,
  forward, withhold, fails, Output, to_child, to_client, parse_error, keep_outcome, evaluate_items,
  write_allowed, write_responses, write_batch, write_outcome, handle_json, handle_fragment,
  and_then, handle_fragments, write, looks_like_json, finish, run,
}

opener_not_space : (c : ℕ) → opens c ≡ true → is_space c ≡ false
unfolding ruleoak.Common.any
opener_not_space c h = elim (or-eq-true _ _ h) [
  | inl e ↦ rw ((==_iff c 123).0 e) refl
  | inr e ↦ rw ((==_iff c 91).0 e) refl
]

module _ (locale_compare : Text → Text → Ordering) (fingerprint : Call → Text) (js : Script)
    (parse : Text → Option Json) (policy : Policy) (answers : AnswersByChunk)
    (stream : List Text) where
  -- A value stands at some position of the stream and may pass with the answers for that position.
  abbrev pub MayPassHere : Json → Type 0
  MayPassHere value =
      (chunk : ℕ) × (fragment : ℕ) × (index : ℕ) × StandsIn parse [] stream chunk fragment index
        value
      × MayPass locale_compare fingerprint js parse policy (answers chunk fragment index) value

  abbrev pub AllMayPass : Items → Type 0
  AllMayPass no_items = Unit {0}
  AllMayPass (item value more) = MayPassHere value × AllMayPass more

  -- A text that the server may be sent.
  pub data Passes : Text → Type 0 where
    plain : (s : Text) → IsPlain s → Passes s
    one :
        (raw : Text) (value : Json)
        → parse raw ≡ some value
        → MayPassHere value
        → Passes (raw ++ text "\n")
    several : (items : Items) → AllMayPass items → Passes (js.stringify (array items) ++ text "\n")

  abbrev Fine : List Output → Type 0
  Fine out = (t : Text) → In (to_child t) out → Passes t

  Fine-nil : Fine []
  Fine-nil t i = elim i [ ]

  Fine-append : (xs ys : List Output) → Fine xs → Fine ys → Fine (xs ++ ys)
  Fine-append xs ys h k t i = elim (In_of_append xs ys i) [ inl j ↦ h t j | inr j ↦ k t j ]

  Fine-child : (s : Text) → Passes s → Fine (to_child s ∷ [])
  Fine-child s h t (head e) = let q : t ≡ s = cc e in rw q h
  Fine-child s h t (tail i) = elim i [ ]

  Fine-client : (o : Output) → ((t : Text) → to_child t ≢ o) → Fine (o ∷ [])
  Fine-client o h t (head e) = absurd (h t e)
  Fine-client o h t (tail i) = elim i [ ]

  abbrev AllKept : Option (Items × List Response) → Type 0
  AllKept none = Unit {0}
  AllKept (some (allowed, responses)) = AllMayPass allowed

  keep-AllKept :
      (value : Json) (o : Outcome) (rest : Option (Items × List Response))
      → (o ≡ forward → MayPassHere value)
      → AllKept rest
      → AllKept (keep_outcome locale_compare fingerprint js parse policy value o rest)
  keep-AllKept value fails rest h k = tt
  keep-AllKept value forward none h k = tt
  keep-AllKept value (withhold o) none h k = tt
  keep-AllKept value forward (some (allowed, responses)) h k = (h refl, k)
  keep-AllKept value (withhold none) (some kept) h k = k
  keep-AllKept value (withhold (some r)) (some (allowed, responses)) h k = k

  -- An item and the answers to it are those at some position of the stream.
  abbrev Located : (Json → Answers) → Json → Type 0
  Located a value =
      (chunk : ℕ) × (fragment : ℕ) × (index : ℕ) × StandsIn parse [] stream chunk fragment index
        value
      × (a ≡ answers chunk fragment index)

  item-MayPassHere :
      (a : Json → Answers) (value : Json)
      → Located a value
      → evaluate_item locale_compare fingerprint js parse policy a value ≡ forward
      → MayPassHere value
  item-MayPassHere a value (chunk, fragment, index, stands, e) h =
      let m = item-MayPass locale_compare fingerprint js parse policy a value h in
      (
        chunk,
        fragment,
        index,
        stands,
        subst (λ b. MayPass locale_compare fingerprint js parse policy b value) e m,
      )

  items-AllKept :
      (a : AnswersByItem) (items : Items)
      → ((k : ℕ) (v : Json) → StandsInBatch items k v → Located (a k) v)
      → AllKept (evaluate_items locale_compare fingerprint js parse policy a items)
  unfolding evaluate_items
  items-AllKept a no_items at_items = tt
  items-AllKept a (item value more) at_items =
      keep-AllKept value _ _ (item-MayPassHere (a 0) value (at_items 0 value refl))
        (items-AllKept (λ n. a (suc n)) more (λ k. at_items (suc k)))

  -- What a step writes, where it does not throw.
  abbrev FineIf : Option (List Output) → Type 0
  FineIf o = (out : List Output) → o ≡ some out → Fine out

  Fine-some : (out : List Output) → Fine out → FineIf (some out)
  Fine-some out h other e = subst Fine (cc e) h

  batch-Fine :
      (kept : Option (Items × List Response))
      → AllKept kept
      → FineIf (write_batch locale_compare fingerprint js parse policy kept)
  batch-Fine none h = λ out e. absurd (cc e)
  batch-Fine (some (allowed, responses)) h =
      Fine-some _ (Fine-append _ _ (of_allowed allowed h) (of_responses responses))
    where
      of_allowed :
          (items : Items)
          → AllMayPass items
          → Fine (write_allowed locale_compare fingerprint js parse policy items)
      of_allowed no_items k = Fine-nil
      of_allowed (item value more) k = Fine-child _ (several (item value more) k)

      of_responses :
          (rs : List Response)
          → Fine (write_responses locale_compare fingerprint js parse policy rs)
      of_responses [] = Fine-nil
      of_responses (r ∷ rs) = Fine-client _ (λ t e. cc e)

  outcome-Fine :
      (raw : Text) (o : Outcome)
      → (o ≡ forward → Passes (raw ++ text "\n"))
      → FineIf (write_outcome locale_compare fingerprint js parse policy raw o)
  outcome-Fine raw forward h = Fine-some _ (Fine-child _ (h refl))
  outcome-Fine raw (withhold none) h = Fine-some _ Fine-nil
  outcome-Fine raw (withhold (some r)) h = Fine-some _ (Fine-client _ (λ t e. cc e))
  outcome-Fine raw fails h = λ out e. absurd (cc e)

  json-Fine :
      (a : AnswersByItem) (value : Json) (raw : Text)
      → ((k : ℕ) (v : Json) → StandsInValue value k v → Located (a k) v)
      → parse raw ≡ some value
      → FineIf (handle_json locale_compare fingerprint js parse policy a value raw)
  unfolding handle_json
  json-Fine a (array items) raw at_items p = batch-Fine _ (items-AllKept a items at_items)
  json-Fine a value raw at_items p =
      outcome-Fine raw _
        (λ e. one raw value p (item-MayPassHere (a 0) value (at_items 0 value refl) e))

  fragment-Fine :
      (a : AnswersByItem) (f : Fragment)
      → ((k : ℕ) (v : Json) → StandsInFragment f k v → Located (a k) v)
      → IsSound parse f
      → FineIf (handle_fragment locale_compare fingerprint js parse policy a f)
  unfolding handle_fragment
  fragment-Fine a (noise raw) at_items h = Fine-some _ (Fine-child raw (plain raw h))
  fragment-Fine a (malformed_json raw) at_items h = Fine-some _ (Fine-client _ (λ t e. cc e))
  fragment-Fine a (json raw value) at_items h = json-Fine a value raw at_items h

  and_then-Fine :
      (o : Option (List Output)) (rest : List Output × Bool)
      → FineIf o
      → Fine rest.0
      → Fine (and_then locale_compare fingerprint js parse policy o rest).0
  and_then-Fine none (later, thrown) h k = Fine-nil
  and_then-Fine (some out) (later, thrown) h k = Fine-append out later (h out refl) k

  fragments-Fine :
      (a : AnswersByFragment) (fs : List Fragment)
      → ((j k : ℕ) (v : Json) → StandsInFragments fs j k v → Located (a j k) v)
      → ((f : Fragment) → In f fs → IsSound parse f)
      → Fine (handle_fragments locale_compare fingerprint js parse policy a fs).0
  unfolding handle_fragments
  fragments-Fine a [] at_items h = Fine-nil
  fragments-Fine a (f ∷ fs) at_items h =
      and_then-Fine _ _ (fragment-Fine (a 0) f (at_items 0) (h f (head refl)))
        (fragments-Fine (λ n. a (suc n)) fs (λ j. at_items (suc j)) (λ g i. h g (tail i)))

  by_look :
      (b : Bool) (s : Text)
      → (b ≡ false → Passes s)
      → Fine (if b then to_client parse_error ∷ [] else to_child s ∷ [])
  by_look true s h = Fine-client _ (λ t e. cc e)
  by_look false s h = Fine-child s (h refl)

  finish-Fine : (s : Text) → IsTail s → Fine (finish locale_compare fingerprint js parse policy s)
  unfolding finish looks_like_json
  finish-Fine [] h = Fine-nil
  finish-Fine (c ∷ s) (inl p) = by_look _ (c ∷ s) (λ f. plain (c ∷ s) p)
  finish-Fine (c ∷ s) (inr (d, rest, e, o)) =
      let q : opens c ≡ true = let same : c ≡ d = cc e in rw same o in
      by_look _ (c ∷ s) (λ f. absurd (cc (q, rw (opener_not_space c q) at f)))

  run-Fine :
      (a : AnswersByChunk) (chunks : List Text) (buffer : Text)
      → ((i j k : ℕ) (v : Json) → StandsIn parse buffer chunks i j k v → Located (a i j k) v)
      → IsTail buffer
      → Fine (run locale_compare fingerprint js parse policy a buffer chunks)
  unfolding run write
  run-Fine a [] buffer at_items h = finish-Fine buffer h
  run-Fine a (chunk ∷ chunks) buffer at_items h =
      let x = extract-IsOpened parse (buffer ++ chunk) in
      Fine-append _ _ (fragments-Fine (a 0) _ (at_items 0) x.sound)
        (run-Fine (λ n. a (suc n)) chunks _ (λ i. at_items (suc i)) x.left_over)

  -- Whatever chunks arrive, in whatever pieces, a text that is written to the server is plain, with no
  -- unit that opens an object or an array, or is a JSON text whose value may pass, or is the list of
  -- the items of a batch that may pass. A value may pass if it is no probe, and is no tool call or one
  -- that is allowed, or approved where approval is needed, with no refused receipt and no objection
  -- before it is forwarded, by the answers to the item at its position in the stream.
  pub run-Passes :
      (t : Text)
      → In (to_child t) (run locale_compare fingerprint js parse policy answers [] stream)
      → Passes t
  run-Passes t i =
      run-Fine answers stream [] (λ i j k v s. (i, j, k, s, refl)) (inl (λ c j. elim j [ ])) t i
