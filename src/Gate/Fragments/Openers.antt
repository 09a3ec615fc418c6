-- ===== src/Gate/Fragments/Openers.antt =====
-- Where extractJsonFragments of packages/cli/src/stream-gate.js finds a JSON text.
use ruleoak.Common.{
  ℕ, zero, suc, Bool, true, false, ◌≡◌, refl, subst, ◌⊎◌, inl, inr, Option, none, some, List, [],
  ◌∷◌, ◌++◌, Bool-cases, In, head, tail, In_of_append, length,
}
use ruleoak.Common.Texts.{Text}
use ruleoak.Gate.Json.{Json}
use ruleoak.Gate.Fragments.Lossless.{extract-lossless}
use ruleoak.Gate.Fragments.{
  Split, keep, opens, find_next_json_start, End, no_end, ends, Fragment, noise, json,
  malformed_json, Extraction, is_line_end, join_line, split_last_line, noise_of, last_noise, behind,
  parsed, fragment_of, from_end, from_start, extract_from, extract_json_fragments,
}

-- No unit opens an object or an array.
abbrev pub IsPlain : Text → Type 0
IsPlain s = (c : ℕ) → In c s → opens c ≡ false

-- What is left over is plain, or begins with a unit that opens.
abbrev pub IsTail : Text → Type 0
IsTail s = IsPlain s ⊎ ((c : ℕ) × (rest : Text) × (s ≡ c ∷ rest) × (opens c ≡ true))

IsPlain-nil : IsPlain []
IsPlain-nil c i = elim i [ ]

IsPlain-cons : (d : ℕ) (s : Text) → opens d ≡ false → IsPlain s → IsPlain (d ∷ s)
IsPlain-cons d s f h c (head e) = rw e f
IsPlain-cons d s f h c (tail i) = h c i

IsPlain-tail : (d : ℕ) (s : Text) → IsPlain (d ∷ s) → IsPlain s
IsPlain-tail d s h c i = h c (tail i)

-- The text before the start is plain, and the start opens.
abbrev Starts : Split → Type 0
Starts (before, []) = IsPlain before
Starts (before, o ∷ inner) = IsPlain before × (opens o ≡ true)

keep-Starts : (c : ℕ) (x : Split) → opens c ≡ false → Starts x → Starts (keep c x)
keep-Starts c (before, []) f h = IsPlain-cons c before f h
keep-Starts c (before, o ∷ inner) f h = (IsPlain-cons c before f h.0, h.1)

start-Starts : (s : Text) → Starts (find_next_json_start s)
unfolding find_next_json_start
start-Starts [] = IsPlain-nil
start-Starts (c ∷ s) = elim (Bool-cases (opens c)) [
  | inl t ↦ rw t (IsPlain-nil, t)
  | inr f ↦ rw f (keep-Starts c (find_next_json_start s) f (start-Starts s))
]

abbrev BothPlain : Split → Type 0
BothPlain x = IsPlain x.0 × IsPlain x.1

join_line-BothPlain :
    (c : ℕ) (x : Split) → opens c ≡ false → BothPlain x → BothPlain (join_line c x)
join_line-BothPlain c ([], rest) f h = elim (Bool-cases (is_line_end c)) [
  | inl t ↦ rw t (IsPlain-cons c [] f IsPlain-nil, h.1)
  | inr n ↦ rw n (IsPlain-nil, IsPlain-cons c rest f h.1)
]
join_line-BothPlain c (d ∷ lines, rest) f h = (IsPlain-cons c (d ∷ lines) f h.0, h.1)

last_line-BothPlain : (s : Text) → IsPlain s → BothPlain (split_last_line s)
unfolding split_last_line
last_line-BothPlain [] h = (IsPlain-nil, IsPlain-nil)
last_line-BothPlain (c ∷ s) h =
    join_line-BothPlain c (split_last_line s) (h c (head refl))
      (last_line-BothPlain s (IsPlain-tail c s h))

module _ (parse : Text → Option Json) where
  -- Noise is plain, and a JSON fragment is what JSON.parse reads in its text.
  abbrev pub IsSound : Fragment → Type 0
  IsSound (noise raw) = IsPlain raw
  IsSound (json raw value) = parse raw ≡ some value
  IsSound (malformed_json raw) = Unit {0}

  pub record IsOpened (x : Extraction) : Type 0 where
    pub sound : (f : Fragment) → In f x.fragments → IsSound f
    pub left_over : IsTail x.remaining

  noise_of-IsSound : (s : Text) → IsPlain s → (f : Fragment) → In f (noise_of s) → IsSound f
  noise_of-IsSound [] h f i = elim i [ ]
  noise_of-IsSound (c ∷ s) h f (head e) = rw e h
  noise_of-IsSound (c ∷ s) h f (tail i) = elim i [ ]

  fragment_of-IsSound : (malformed : Bool) (raw : Text) → IsSound (fragment_of parse malformed raw)
  fragment_of-IsSound true raw = tt
  fragment_of-IsSound false raw = by_value (parse raw) refl
    where
      by_value : (v : Option Json) → parse raw ≡ v → IsSound (parsed parse raw v)
      by_value none e = tt
      by_value (some v) e = e

  found-IsSound :
      (before : Text) (g : Fragment)
      → IsPlain before
      → IsSound g
      → (f : Fragment) → In f (noise_of before ++ g ∷ [])
      → IsSound f
  found-IsSound before g h k f i = elim (In_of_append (noise_of before) (g ∷ []) i) [
    | inl j ↦ noise_of-IsSound before h f j
    | inr j ↦ last j
  ]
    where
      last : In f (g ∷ []) → IsSound f
      last (head e) = rw e k
      last (tail j) = elim j [ ]

  behind-IsOpened :
      (found : List Fragment) (o : Option Extraction) (x : Extraction)
      → ((f : Fragment) → In f found → IsSound f)
      → ((y : Extraction) → o ≡ some y → IsOpened y)
      → behind found o ≡ some x
      → IsOpened x
  behind-IsOpened found none x h k e = absurd (cc e)
  behind-IsOpened found (some y) x h k e =
      let w = k y refl in
      let all : IsOpened (record { fragments = found ++ y.fragments; remaining = y.remaining }) =
        record {
          sound = λ f i. elim (In_of_append found y.fragments i) [
            | inl j ↦ h f j
            | inr j ↦ w.sound f j
          ];
          left_over = w.left_over;
        } in
      subst IsOpened (cc e) all

  from_end-IsOpened :
      (next : Text → Option Extraction) (before : Text) (o : ℕ) (inner : Text) (e : End)
      (x : Extraction)
      → ((rest : Text) (y : Extraction) → next rest ≡ some y → IsOpened y)
      → IsPlain before
      → opens o ≡ true
      → from_end parse next before o inner e ≡ some x
      → IsOpened x
  from_end-IsOpened next before o inner no_end x k h t e =
      let all : IsOpened (record { fragments = noise_of before; remaining = o ∷ inner }) = record {
        sound = noise_of-IsSound before h;
        left_over = inr (o, inner, refl, t);
      } in
      subst IsOpened (cc e) all
  from_end-IsOpened next before o inner (ends malformed units rest) x k h t e =
      behind-IsOpened _ (next rest) x
        (found-IsSound before _ h (fragment_of-IsSound malformed (o ∷ units))) (k rest) e

  from_start-IsOpened :
      (next : Text → Option Extraction) (w : Split) (x : Extraction)
      → ((rest : Text) (y : Extraction) → next rest ≡ some y → IsOpened y)
      → Starts w
      → from_start parse next w ≡ some x
      → IsOpened x
  from_start-IsOpened next (before, []) x k h e =
      let p = last_line-BothPlain before h in
      let all : IsOpened (last_noise (split_last_line before)) = record {
        sound = noise_of-IsSound (split_last_line before).0 p.0;
        left_over = inl p.1;
      } in
      subst IsOpened (cc e) all
  from_start-IsOpened next (before, o ∷ inner) x k h e =
      from_end-IsOpened next before o inner _ x k h.0 h.1 e

  extract_from-IsOpened :
      (fuel : ℕ) (s : Text) (x : Extraction) → extract_from parse fuel s ≡ some x → IsOpened x
  unfolding extract_from
  extract_from-IsOpened zero s x e = absurd (cc e)
  extract_from-IsOpened (suc fuel) [] x e =
      let all : IsOpened (record { fragments = []; remaining = [] }) = record {
        sound = λ f i. elim i [ ];
        left_over = inl IsPlain-nil;
      } in
      subst IsOpened (cc e) all
  extract_from-IsOpened (suc fuel) (c ∷ s) x e =
      from_start-IsOpened (λ rest. extract_from parse fuel rest) _ x (extract_from-IsOpened fuel)
        (start-Starts (c ∷ s)) e

  pub extract-IsOpened : (buffer : Text) → IsOpened (extract_json_fragments parse buffer)
  extract-IsOpened buffer =
      extract_from-IsOpened (suc (length buffer)) buffer _ (extract-lossless parse buffer).0
