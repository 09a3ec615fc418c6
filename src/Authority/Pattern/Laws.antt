-- ===== src/Authority/Pattern/Laws.antt =====
-- authorityPatternIsWithin and authorityPatternMatches of packages/core/src/authority/grant.js.
use ruleoak.Common.{
  ℕ, Bool, true, false, ◌≡◌, ◌≢◌, refl, sym, ap, subst, ◌∙◌, ◌⊎◌, inl, inr, [], ◌∷◌, ◌++◌, map,
  arith, if◌then◌else◌, any, Bool-cases, or-eq-true,
}
use mathlib.Core.Bool.{false≢true}
use mathlib.Core.List.{append-nil, append_assoc}
use ruleoak.Common.Texts.{Text, text, same, same_iff, starts_with, ends_with, starts_with→append}
use ruleoak.Engine.Glob.{lit, rest, is_wild, has_wild, glob, glob_test, dot_ok}
use ruleoak.Engine.Glob.Matching.{Matches, done, word, Each, glob_test-Matches}
use ruleoak.Engine.Glob.Literal.{glob-plain, Matches-plain, plain-Matches}
use ruleoak.Authority.Pattern.{
  is_universal, authority_pattern_matches, static_prefix, authority_pattern_is_within,
}

-- A parent `prefix**` whose only wildcard is its end.
abbrev pub subtree : Text → Text
subtree prefix = prefix ++ text "**"

universal_stars : is_universal (text "**") ≢ false
unfolding same
universal_stars e = cc

-- Every pattern is its static prefix and a rest that begins with a wildcard.
static_prefix-split :
    (p : Text) → (r : Text) × (p ≡ static_prefix p ++ r) × (has_wild (static_prefix p) ≡ false)
unfolding static_prefix has_wild any
static_prefix-split [] = ([], refl, refl)
static_prefix-split (c ∷ s) = elim (Bool-cases (is_wild c)) [
  | inl t ↦ (c ∷ s, rw t, rw t)
  | inr f ↦ let ih = static_prefix-split s in (ih.0, rw f (ap (λ t. c ∷ t) ih.1), rw f (rw f ih.2))
]

-- A value that a pattern accepts begins with the pattern's static prefix.
static_prefix-accepts :
    (p v : Text) → glob_test p v ≡ true → (r : Text) × (v ≡ static_prefix p ++ r)
static_prefix-accepts p v h =
    let s = static_prefix-split p in
    let m = (glob_test-Matches p v).0 h in
    let cut : glob p ≡ map lit (static_prefix p) ++ glob s.0 =
      ap glob s.1 ∙ glob-plain (static_prefix p) s.0 s.2 in
    let r = Matches-plain (static_prefix p) (glob s.0) v (subst (λ t. Matches t v) cut m) in
    (r.0, r.1)

-- A pattern with no wildcard accepts only itself.
plain-accepts : (p v : Text) → has_wild p ≡ false → glob_test p v ≡ true → v ≡ p
unfolding glob
plain-accepts p v h t =
    let cut : glob p ≡ map lit p ++ [] = ap glob (sym (append-nil p)) ∙ glob-plain p [] h in
    let r = Matches-plain p [] v (subst (λ t. Matches t v) cut ((glob_test-Matches p v).0 t)) in
    ended r.0 r.2 r.1
  where
    ended : (r : Text) → Matches [] r → v ≡ p ++ r → v ≡ p
    ended [] d e = e ∙ append-nil p
    ended (_ ∷ _) d e = elim d [ ]

-- `prefix**` accepts every value that begins with the prefix and goes on without a line terminator.
pub subtree-accepts :
    (p r : Text) → has_wild p ≡ false → Each dot_ok r → glob_test (subtree p) (p ++ r) ≡ true
unfolding glob
subtree-accepts p r h e =
    let cut : glob (subtree p) ≡ map lit p ++ rest ∷ [] = glob-plain p (text "**") h in
    (glob_test-Matches (subtree p) (p ++ r)).1 (
      subst (λ t. Matches t (p ++ r)) (sym cut)
        (plain-Matches p (rest ∷ []) r (word r [] e done (sym (append-nil r)))))

pub static_prefix-subtree : (p q : Text) → has_wild p ≡ false → static_prefix (p ++ b'*' ∷ q) ≡ p
unfolding static_prefix has_wild any
static_prefix-subtree [] q h = refl
static_prefix-subtree (c ∷ p) q h = ground (arith, static_prefix-subtree p q)

Each-append : (ok : ℕ → Bool) (p r : Text) → Each ok (p ++ r) → Each ok r
Each-append ok [] r e = e
Each-append ok (c ∷ p) r e = Each-append ok p r e.1

-- A universal pattern has no static prefix.
static_prefix-universal : (p : Text) → is_universal p ≡ true → static_prefix p ≡ []
unfolding static_prefix
static_prefix-universal p h = elim (or-eq-true (same p (text "*")) _ h) [
  | inl e ↦ ap static_prefix ((same_iff p (text "*")).0 e)
  | inr e ↦ ap static_prefix ((same_iff p (text "**")).0 e)
]

has_wild-universal : (p : Text) → is_universal p ≡ true → has_wild p ≡ true
unfolding has_wild any
has_wild-universal p h = elim (or-eq-true (same p (text "*")) _ h) [
  | inl e ↦ ap has_wild ((same_iff p (text "*")).0 e)
  | inr e ↦ ap has_wild ((same_iff p (text "**")).0 e)
]

-- Where a pattern matches a value, either it is universal or its expression accepts the value.
matches-cases :
    (p v : Text)
    → authority_pattern_matches p v ≡ true
    → (is_universal p ≡ true) ⊎ (glob_test p v ≡ true)
unfolding authority_pattern_matches
matches-cases p v h = elim (Bool-cases (is_universal p)) [ inl t ↦ inl t | inr f ↦ inr (rw f at h) ]

pub matches_of_glob : (p v : Text) → glob_test p v ≡ true → authority_pattern_matches p v ≡ true
unfolding authority_pattern_matches
matches_of_glob p v h = elim (Bool-cases (is_universal p)) [ inl t ↦ rw t | inr f ↦ rw f h ]

matches_of_universal : (p v : Text) → is_universal p ≡ true → authority_pattern_matches p v ≡ true
unfolding authority_pattern_matches
matches_of_universal p v h = rw h

starts_with-nil : (p : Text) → starts_with p [] ≡ true → p ≡ []
unfolding starts_with
starts_with-nil [] h = refl
starts_with-nil (c ∷ p) h = cc

-- The parent ends with `**` and has no wildcard before it.
abbrev pub IsSubtree : Text → Type 0
IsSubtree parent = (prefix : Text) × (parent ≡ subtree prefix) × (has_wild prefix ≡ false)

module _ (child v : Text) (line : Each dot_ok v)
    (m : authority_pattern_matches child v ≡ true) where
  within_subtree :
      (prefix : Text)
      → has_wild prefix ≡ false
      → is_universal (subtree prefix) ≡ false
      → starts_with (static_prefix (subtree prefix)) (static_prefix child) ≡ true
      → authority_pattern_matches (subtree prefix) v ≡ true
  within_subtree prefix plain narrow h = elim (matches-cases child v m) [
    | inl u ↦
        let none : prefix ≡ [] =
          starts_with-nil prefix (rw (static_prefix-universal child u) at starts) in
        let e : subtree prefix ≡ text "**" = ap subtree none in absurd (wide e)
    | inr g ↦
        let r = static_prefix-accepts child v g in
        let q = starts_with→append prefix (static_prefix child) starts in
        let e : v ≡ prefix ++ (q.0 ++ r.0) =
          r.1 ∙ ap (λ t. t ++ r.0) q.1 ∙ append_assoc prefix q.0 r.0 in
        matches_of_glob (subtree prefix) v (
          subst (λ t. glob_test (subtree prefix) t ≡ true) (sym e)
            (subtree-accepts prefix (q.0 ++ r.0) plain
              (Each-append dot_ok prefix (q.0 ++ r.0) (subst (Each dot_ok) e line))))
  ]
    where
      starts : starts_with prefix (static_prefix child) ≡ true
      starts = rw (static_prefix-subtree prefix (text "*") plain) at h

      wide : subtree prefix ≡ text "**" → ⊥
      wide e =
          let t : is_universal (text "**") ≡ false = subst (λ t. is_universal t ≡ false) e narrow in
          universal_stars t

  within_wild :
      (parent : Text)
      → (ends_with (text "**") parent ≡ true → IsSubtree parent)
      → is_universal parent ≡ false
      → (if ends_with (text "**") parent
          then starts_with (static_prefix parent) (static_prefix child)
          else false)
        ≡ true
      → authority_pattern_matches parent v ≡ true
  within_wild parent shape narrow h = elim (Bool-cases (ends_with (text "**") parent)) [
    | inl t ↦
        let s = shape t in
        let starts : starts_with (static_prefix parent) (static_prefix child) ≡ true = rw t at h in
        subst (λ p. authority_pattern_matches p v ≡ true) (sym s.1)
          (within_subtree s.0 s.2 (subst (λ p. is_universal p ≡ false) s.1 narrow)
            (subst (λ p. starts_with (static_prefix p) (static_prefix child) ≡ true) s.1 starts))
    | inr f ↦ absurd (false≢true (rw f at h))
  ]

  within_plain :
      (parent : Text)
      → has_wild child ≡ false
      → authority_pattern_matches parent child ≡ true
      → authority_pattern_matches parent v ≡ true
  within_plain parent plain h = elim (matches-cases child v m) [
    | inl u ↦ absurd (false≢true (sym plain ∙ has_wild-universal child u))
    | inr g ↦
        subst (λ t. authority_pattern_matches parent t ≡ true) (sym (plain-accepts child v plain g))
          h
  ]

  -- A pattern that is within its parent matches no more than the parent, provided that a parent
  -- that ends with `**` has no other wildcard and that the value has no line terminator.
  pub within_sound :
      (parent : Text)
      → (ends_with (text "**") parent ≡ true → IsSubtree parent)
      → authority_pattern_is_within child parent ≡ true
      → authority_pattern_matches parent v ≡ true
  unfolding authority_pattern_is_within
  within_sound parent shape h = elim (Bool-cases (is_universal parent)) [
    | inl t ↦ matches_of_universal parent v t
    | inr narrow ↦ elim (Bool-cases (same child parent)) [
      | inl e ↦ subst (λ p. authority_pattern_matches p v ≡ true) ((same_iff child parent).0 e) m
      | inr other ↦ elim (Bool-cases (has_wild child)) [
        | inr plain ↦ within_plain parent plain (rw (narrow, other, plain) at h)
        | inl wild ↦ elim (Bool-cases (has_wild parent)) [
          | inl stars ↦ within_wild parent shape narrow (rw (narrow, other, wild, stars) at h)
          | inr fixed ↦ absurd (false≢true (rw (narrow, other, wild, fixed) at h))
        ]
      ]
    ]
  ]
