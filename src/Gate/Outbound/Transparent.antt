-- ===== src/Gate/Outbound/Transparent.antt =====
-- What RuleOakOutboundGate of packages/cli/src/stream-gate.js keeps of the server's output.
use mathlib.Core.List.{append-nil, append_assoc}
use ruleoak.Common.{◌≡◌, refl, sym, ap, ◌∙◌, Option, List, [], ◌∷◌, ◌++◌}
use ruleoak.Common.Texts.{Text}
use ruleoak.Gate.Json.{Json}
use ruleoak.Gate.Fragments.{Fragment, noise, json, malformed_json, extract_json_fragments}
use ruleoak.Gate.Fragments.Lossless.{raw_text, extract-lossless}
use ruleoak.Gate.Outbound.{
  Event, on_json, on_malformed, stdout, handle_fragments, finish, write, run,
}

-- What is written to stdout.
unfoldable pub written : List Event → Text
written [] = []
written (stdout s ∷ es) = s ++ written es
written (on_json value ∷ es) = written es
written (on_malformed raw ∷ es) = written es

-- The chunks, one after the other.
unfoldable pub joined : List Text → Text
joined [] = []
joined (chunk ∷ chunks) = chunk ++ joined chunks

written-append : (xs ys : List Event) → written (xs ++ ys) ≡ written xs ++ written ys
unfolding written
written-append [] ys = refl
written-append (stdout s ∷ xs) ys = simp (written-append xs ys, append_assoc)
written-append (on_json value ∷ xs) ys = written-append xs ys
written-append (on_malformed raw ∷ xs) ys = written-append xs ys

written-handle : (fs : List Fragment) → written (handle_fragments fs) ≡ raw_text fs
unfolding written handle_fragments raw_text
written-handle [] = refl
written-handle (noise raw ∷ fs) = simp (written-handle fs)
written-handle (json raw value ∷ fs) = simp (written-handle fs)
written-handle (malformed_json raw ∷ fs) = simp (written-handle fs)

written-finish : (s : Text) → written (finish s) ≡ s
unfolding written finish
written-finish [] = refl
written-finish (c ∷ s) = append-nil (c ∷ s)

module _ (parse : Text → Option Json) where
  run-written :
      (chunks : List Text) (buffer : Text)
      → written (run parse buffer chunks) ≡ buffer ++ joined chunks
  unfolding run write joined
  run-written [] buffer = written-finish buffer ∙ sym (append-nil buffer)
  run-written (chunk ∷ chunks) buffer =
      let x = extract_json_fragments parse (buffer ++ chunk) in
      written-append (handle_fragments x.fragments) (run parse x.remaining chunks)
      ∙ rw (written-handle x.fragments, run-written chunks x.remaining)
          (sym (append_assoc (raw_text x.fragments) x.remaining (joined chunks))
            ∙ ap (λ s. s ++ joined chunks) (extract-lossless parse (buffer ++ chunk)).1
            ∙ append_assoc buffer chunk (joined chunks))

  -- Whatever chunks the server's output arrives in, the gate writes to stdout exactly that output: its
  -- chunks one after the other, with nothing lost, added or reordered.
  pub outbound-transparent : (chunks : List Text) → written (run parse [] chunks) ≡ joined chunks
  outbound-transparent chunks = run-written chunks []
