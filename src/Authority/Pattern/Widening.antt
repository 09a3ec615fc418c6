-- ===== src/Authority/Pattern/Widening.antt =====
-- authorityPatternIsWithin (packages/core/src/authority/grant.js), a parent with inner wildcards.
use ruleoak.Common.{
  ℕ, ◌+◌, true, false, ◌||◌, ◌≡◌, ◌≢◌, refl, sym, ap, subst, ◌∙◌, inl, inr, [], ◌∷◌, ◌++◌, map,
  arith, any, Bool-cases, or-eq-true, length, length-append,
}
use mathlib.Core.List.{append-nil}
use ruleoak.Common.Texts.{
  Text, text, same, same_iff, same_refl, starts_with, ends_with, starts_with-append,
}
use ruleoak.Engine.Glob.{lit, segment, is_star, has_wild, glob, glob_test}
use ruleoak.Engine.Glob.Matching.{Matches, word, glob_test-Matches}
use ruleoak.Engine.Glob.Literal.{glob-plain, Matches-plain}
use ruleoak.Authority.Pattern.{
  is_universal, authority_pattern_matches, static_prefix, authority_pattern_is_within,
}
use ruleoak.Authority.Pattern.Laws.{
  subtree, static_prefix-subtree, subtree-accepts, matches_of_glob,
}

-- `prefix*middle**`
abbrev pub gapped : Text → Text → Text
gapped prefix middle = prefix ++ b'*' ∷ (middle ++ text "**")

ends_with-append : (p suffix : Text) → ends_with suffix (p ++ suffix) ≡ true
unfolding ends_with
ends_with-append [] [] = refl
ends_with-append [] (c ∷ s) = ground (arith, same_refl (c ∷ s))
ends_with-append (c ∷ p) s = ground (arith, ends_with-append p s)

ends_with-prepend :
    (p suffix s : Text) → ends_with suffix s ≡ true → ends_with suffix (p ++ s) ≡ true
unfolding ends_with
ends_with-prepend [] suffix s h = h
ends_with-prepend (c ∷ p) suffix s h = ground (arith, ends_with-prepend p suffix s h)

wild_after : (p q : Text) → has_wild (p ++ b'*' ∷ q) ≡ true
unfolding has_wild any
wild_after [] q = refl
wild_after (c ∷ p) q = ground (arith, wild_after p q)

append-eq-nil : (u v : Text) → [] ≡ u ++ v → v ≡ []
append-eq-nil [] v e = sym e
append-eq-nil (c ∷ u) v e = cc

glob-star : (c : ℕ) (s : Text) → is_star c ≡ false → glob (b'*' ∷ c ∷ s) ≡ segment ∷ glob (c ∷ s)
unfolding glob
glob-star c s h = ground arith

-- A segment and then a character need something to match.
segment-needs :
    (c : ℕ) (middle : Text)
    → has_wild (c ∷ middle) ≡ false
    → ¬ Matches (segment ∷ glob ((c ∷ middle) ++ text "**")) []
segment-needs c middle plain (word u v w m e) =
    let last : v ≡ [] = append-eq-nil u v e in
    let cut = subst (λ t. Matches t v) (glob-plain (c ∷ middle) (text "**") plain) m in
    let r = Matches-plain (c ∷ middle) (glob (text "**")) v cut in cc (r.1, last)

within_of :
    (child parent : Text)
    → has_wild child ≡ true
    → has_wild parent ≡ true
    → ends_with (text "**") parent ≡ true
    → starts_with (static_prefix parent) (static_prefix child) ≡ true
    → authority_pattern_is_within child parent ≡ true
unfolding authority_pattern_is_within
within_of child parent a b c d = elim (Bool-cases (is_universal parent || same child parent)) [
  | inl t ↦ rw t
  | inr f ↦ rw (f, a, b, c) d
]

matches-narrow :
    (p v : Text)
    → is_universal p ≡ false
    → glob_test p v ≢ true
    → authority_pattern_matches p v ≡ false
unfolding authority_pattern_matches
matches-narrow p v f h = elim (Bool-cases (glob_test p v)) [
  | inl t ↦ absurd (h t)
  | inr g ↦ rw (f, g)
]

module _ (prefix : Text) (c : ℕ) (middle : Text) where
  abbrev parent : Text
  parent = gapped prefix (c ∷ middle)

  length-parent : length parent ≡ length prefix + (length middle + 4)
  length-parent = omega (
    arith,
    length-append prefix (b'*' ∷ c ∷ (middle ++ text "**")),
    length-append middle (text "**"),
  )

  narrow : is_universal parent ≡ false
  narrow = elim (Bool-cases (is_universal parent)) [
    | inr f ↦ f
    | inl t ↦ elim (or-eq-true (same parent (text "*")) _ t) [
      | inl e ↦ absurd (
          omega
            (arith, ap (λ (s : Text). length s) ((same_iff parent (text "*")).0 e), length-parent))
      | inr e ↦ absurd (
          omega
            (arith, ap (λ (s : Text). length s) ((same_iff parent (text "**")).0 e), length-parent))
    ]
  ]

  module _ (plain_prefix : has_wild prefix ≡ false)
      (plain_middle : has_wild (c ∷ middle) ≡ false) where
    plain_head : is_star c ≡ false
    unfolding has_wild any
    plain_head = ground (arith, plain_middle)

    glob-parent : glob parent ≡ map lit prefix ++ segment ∷ glob ((c ∷ middle) ++ text "**")
    glob-parent =
        glob-plain prefix (b'*' ∷ c ∷ (middle ++ text "**")) plain_prefix
        ∙ ap (λ ts. map lit prefix ++ ts) (glob-star c (middle ++ text "**") plain_head)

    rejected : glob_test parent prefix ≢ true
    rejected h =
        let m =
          subst (λ ts. Matches ts prefix) glob-parent ((glob_test-Matches parent prefix).0 h) in
        let r = Matches-plain prefix (segment ∷ glob ((c ∷ middle) ++ text "**")) prefix m in
        segment-needs c middle plain_middle (
          subst (λ t. Matches (segment ∷ glob ((c ∷ middle) ++ text "**")) t)
            (nothing_left prefix r.0 r.1) r.2)
      where
        nothing_left : (p r : Text) → p ≡ p ++ r → r ≡ []
        nothing_left [] r e = sym e
        nothing_left (d ∷ p) r e = nothing_left p r (cc)

    -- Where the prefix has no wildcard and the middle is not empty and has none, a child `prefix**`
    -- passes as narrower than the parent `prefix*middle**`, yet it matches the prefix, which the
    -- parent does not match.
    pub within_widens :
        (authority_pattern_is_within (subtree prefix) parent ≡ true)
        × (authority_pattern_matches (subtree prefix) prefix ≡ true)
        × (authority_pattern_matches parent prefix ≡ false)
    within_widens = (
      within_of (subtree prefix) parent (wild_after prefix (text "*"))
          (wild_after prefix (c ∷ (middle ++ text "**")))
          (ends_with-prepend prefix (text "**") _ (
            ends_with-prepend (b'*' ∷ c ∷ middle) (text "**") (text "**")
              (ends_with-append [] (text "**"))))
          prefixes,
      matches_of_glob (subtree prefix) prefix (
          subst (λ t. glob_test (subtree prefix) t ≡ true) (append-nil prefix)
            (subtree-accepts prefix [] plain_prefix tt)),
      matches-narrow parent prefix narrow rejected,
    )
      where
        prefixes : starts_with (static_prefix parent) (static_prefix (subtree prefix)) ≡ true
        prefixes =
            rw
              (
                static_prefix-subtree prefix (c ∷ (middle ++ text "**")) plain_prefix,
                static_prefix-subtree prefix (text "*") plain_prefix,
              )
              (subst (λ t. starts_with prefix t ≡ true) (append-nil prefix)
                (starts_with-append prefix []))
