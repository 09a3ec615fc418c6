-- ===== src/Gate/Fragments/Lossless.antt =====
-- What extractJsonFragments of packages/cli/src/stream-gate.js keeps of a buffer.
use mathlib.Core.List.{append-nil, append_assoc}
use ruleoak.Common.{
  ℕ, zero, suc, ◌<◌, Bool, true, false, ◌≡◌, refl, sym, ap, subst, ◌∙◌, inl, inr, Option, none,
  some, List, [], ◌∷◌, ◌++◌, arith, Bool-cases, length, length-append,
}
use ruleoak.Common.Texts.{Text}
use ruleoak.Gate.Json.{Json}
use ruleoak.Gate.Fragments.{
  Split, keep, opens, find_next_json_start, Scanner, Step, go_on, stop, step, End, no_end, ends,
  keep_unit, find_json_end, opened_by, Fragment, noise, json, malformed_json, Extraction,
  is_line_end, join_line, split_last_line, noise_of, last_noise, behind, parsed, fragment_of,
  from_end, from_start, extract_from, extract_json_fragments,
}

abbrev pub raw_of : Fragment → Text
raw_of (noise raw) = raw
raw_of (json raw value) = raw
raw_of (malformed_json raw) = raw

-- The texts of the fragments, one after the other.
unfoldable pub raw_text : List Fragment → Text
raw_text [] = []
raw_text (f ∷ fs) = raw_of f ++ raw_text fs

pub raw_text-append : (fs gs : List Fragment) → raw_text (fs ++ gs) ≡ raw_text fs ++ raw_text gs
unfolding raw_text
raw_text-append [] gs = refl
raw_text-append (f ∷ fs) gs = simp (raw_text-append fs gs, append_assoc)

raw_text-noise_of : (s : Text) → raw_text (noise_of s) ≡ s
unfolding raw_text
raw_text-noise_of [] = refl
raw_text-noise_of (c ∷ s) = simp append-nil

raw_text_single : (f : Fragment) → raw_text (f ∷ []) ≡ raw_of f
unfolding raw_text
raw_text_single f = append-nil (raw_of f)

abbrev IsSplit : Split → Text → Type 0
IsSplit x s = x.0 ++ x.1 ≡ s

keep-IsSplit : (c : ℕ) (x : Split) (s : Text) → IsSplit x s → IsSplit (keep c x) (c ∷ s)
keep-IsSplit c x s h = cc h

start-IsSplit : (s : Text) → IsSplit (find_next_json_start s) s
unfolding find_next_json_start
start-IsSplit [] = refl
start-IsSplit (c ∷ s) = elim (Bool-cases (opens c)) [
  | inl t ↦ rw t refl
  | inr f ↦ rw f (keep-IsSplit c (find_next_json_start s) s (start-IsSplit s))
]

join_line-IsSplit : (c : ℕ) (x : Split) (s : Text) → IsSplit x s → IsSplit (join_line c x) (c ∷ s)
join_line-IsSplit c ([], rest) s h = elim (Bool-cases (is_line_end c)) [
  | inl t ↦ rw t (cc h)
  | inr f ↦ rw f (cc h)
]
join_line-IsSplit c (d ∷ lines, rest) s h = cc h

last_line-IsSplit : (s : Text) → IsSplit (split_last_line s) s
unfolding split_last_line
last_line-IsSplit [] = refl
last_line-IsSplit (c ∷ s) = join_line-IsSplit c (split_last_line s) s (last_line-IsSplit s)

-- An end keeps the text, and leaves less of it.
abbrev Keeps : End → Text → Type 0
Keeps no_end s = Unit {0}
Keeps (ends malformed before rest) s = (before ++ rest ≡ s) × (length rest < length s)

keep_unit-Keeps : (c : ℕ) (e : End) (s : Text) → Keeps e s → Keeps (keep_unit c e) (c ∷ s)
keep_unit-Keeps c no_end s h = tt
keep_unit-Keeps c (ends malformed before rest) s h = (cc (h.0), omega (arith, h.1))

step-Keeps :
    (r : Step) (c : ℕ) (s : Text)
    → ((y : Scanner) → Keeps (find_json_end y s) s)
    → Keeps
        (elim r [
          | stop malformed ↦ ends malformed (c ∷ []) s
          | go_on y ↦ keep_unit c (find_json_end y s)
        ])
        (c ∷ s)
step-Keeps (stop malformed) c s ih = (refl, omega arith)
step-Keeps (go_on y) c s ih = keep_unit-Keeps c _ s (ih y)

end-Keeps : (x : Scanner) (s : Text) → Keeps (find_json_end x s) s
unfolding find_json_end
end-Keeps x [] = tt
end-Keeps x (c ∷ s) = step-Keeps (step x c) c s (λ y. end-Keeps y s)

-- The fragments and what remains are the text.
abbrev pub Lossless : Extraction → Text → Type 0
Lossless x s = raw_text x.fragments ++ x.remaining ≡ s

-- An extraction succeeds and is lossless.
abbrev pub Succeeds : Option Extraction → Text → Type 0
Succeeds o s = (x : Extraction) × (o ≡ some x) × Lossless x s

last_noise-Lossless : (x : Split) (s : Text) → IsSplit x s → Lossless (last_noise x) s
last_noise-Lossless x s h = rw (raw_text-noise_of x.0) h

behind-Succeeds :
    (found : List Fragment) (o : Option Extraction) (s rest : Text)
    → Succeeds o rest
    → raw_text found ++ rest ≡ s
    → Succeeds (behind found o) s
behind-Succeeds found o s rest (x, e, l) h = (
  record { fragments = found ++ x.fragments; remaining = x.remaining },
  rw e refl,
  rw (raw_text-append found x.fragments, append_assoc, l) h,
)

-- The loop from a text on, with every shorter text done.
abbrev Shorter : (Text → Option Extraction) → ℕ → Type 0
Shorter next n = (rest : Text) → length rest < n → Succeeds (next rest) rest

module _ (parse : Text → Option Json) where
  raw_of-fragment_of :
      (malformed : Bool) (raw : Text) → raw_of (fragment_of parse malformed raw) ≡ raw
  raw_of-fragment_of true raw = refl
  raw_of-fragment_of false raw = by_value (parse raw)
    where
      by_value : (v : Option Json) → raw_of (parsed parse raw v) ≡ raw
      by_value none = refl
      by_value (some v) = refl

  from_end-Succeeds :
      (next : Text → Option Extraction) (before : Text) (open_unit : ℕ) (inner : Text) (e : End)
      → Keeps e inner
      → Shorter next (length inner)
      → Succeeds (from_end parse next before open_unit inner e) (before ++ open_unit ∷ inner)
  from_end-Succeeds next before o inner no_end k h = (_, refl, rw (raw_text-noise_of before) refl)
  from_end-Succeeds next before o inner (ends malformed units rest) k h =
      behind-Succeeds _ (next rest) _ rest (h rest k.1) (
        rw
          (
            raw_text-append (noise_of before) (fragment_of parse malformed (o ∷ units) ∷ []),
            raw_text-noise_of before,
            raw_text_single (fragment_of parse malformed (o ∷ units)),
            raw_of-fragment_of malformed (o ∷ units),
            append_assoc,
            k.0,
          )
          refl)

  from_start-Succeeds :
      (next : Text → Option Extraction) (x : Split) (s : Text)
      → IsSplit x s
      → Shorter next (length s)
      → Succeeds (from_start parse next x) s
  from_start-Succeeds next (before, []) s k h = (
    _,
    refl,
    last_noise-Lossless (split_last_line before) s
        (last_line-IsSplit before ∙ sym (append-nil before) ∙ k),
  )
  from_start-Succeeds next (before, o ∷ inner) s k h =
      subst (Succeeds (from_start parse next (before, o ∷ inner))) k (
        from_end-Succeeds next before o inner _ (end-Keeps (opened_by o) inner) (λ rest less.
          h rest (omega (arith, ap (λ (t : Text). length t) k, length-append before (o ∷ inner)))))

  pub extract_from-Succeeds :
      (fuel : ℕ) (s : Text) → length s < fuel → Succeeds (extract_from parse fuel s) s
  unfolding extract_from raw_text
  extract_from-Succeeds zero s h = absurd (omega (arith, h))
  extract_from-Succeeds (suc fuel) [] h = (_, refl, refl)
  extract_from-Succeeds (suc fuel) (c ∷ s) h =
      from_start-Succeeds (λ rest. extract_from parse fuel rest) _ (c ∷ s) (start-IsSplit (c ∷ s))
        (λ rest less. extract_from-Succeeds fuel rest (omega arith))

  -- The loop of extractJsonFragments ends within the fuel, and the texts of its fragments followed by
  -- what remains are the buffer: nothing is lost, added or reordered.
  pub extract-lossless :
      (buffer : Text)
      → (extract_from parse (suc (length buffer)) buffer
          ≡ some (extract_json_fragments parse buffer))
        × (raw_text (extract_json_fragments parse buffer).fragments
              ++ (extract_json_fragments parse buffer).remaining
            ≡ buffer)
  unfolding extract_json_fragments
  extract-lossless buffer =
      let (x, e, l) = extract_from-Succeeds (suc (length buffer)) buffer (omega arith) in
      rw e (refl, l)
