-- ===== src/Execution/Verification/Paths.antt =====
-- Paths of a verified effect: canonicalPotentialPath, pathWithin and pathBinding of
-- packages/core/src/execution/effect-verification.js. The functions of node:path and node:fs are
-- parameters. The climb to a parent that exists is on fuel.
use ruleoak.Common.{
  ℕ, zero, suc, ◌<◌, ◌≡◌, ◌≢◌, ◌⊎◌, Bool, true, false, not, ◌&&◌, ◌||◌, Option, none, some, [], ◌∷◌,
  ◌++◌, if◌then◌else◌, is_empty, length, arith, Bool-cases, inl, inr,
}
use ruleoak.Common.Texts.{Text, text, same, same_iff, starts_with}

pub record NodePath : Type 0 where
  pub resolve : Text → Text
  pub dirname : Text → Text
  -- relative(from, to)
  pub relative : Text → Text → Text
  -- resolve(base, rest)
  pub join : Text → Text → Text

pub record Disk : Type 0 where
  pub exists : Text → Bool
  -- `none` where it throws.
  pub realpath : Text → Option Text

pub data Climb : Type 0 where
  out_of_fuel no_parent : Climb
  reached : Text → Climb

unfoldable pub climb : NodePath → Disk → ℕ → Text → Climb
climb p d zero probe = out_of_fuel
climb p d (suc fuel) probe =
    let higher = climb p d fuel (p.dirname probe) in
    if d.exists probe
    then reached probe
    else if same (p.dirname probe) probe
    then no_parent
    else higher

abbrev pub rejoin : NodePath → Text → Text → Option Text → Option Text
rejoin p absolute probe none = none
rejoin p absolute probe (some real) = some (p.join real (p.relative probe absolute))

abbrev pub canonical_from : NodePath → Disk → Text → Climb → Option Text
canonical_from p d absolute out_of_fuel = none
canonical_from p d absolute no_parent = none
canonical_from p d absolute (reached probe) = rejoin p absolute probe (d.realpath probe)

-- canonicalPotentialPath
unfoldable pub canonical_potential_path : NodePath → Disk → Text → Option Text
canonical_potential_path p d value =
    if is_empty value
    then none
    else canonical_from p d (p.resolve value)
        (climb p d (suc (length (p.resolve value))) (p.resolve value))

-- pathWithin
unfoldable pub path_within : NodePath → Text → Text → Bool
path_within p root target =
    let r = p.relative (p.resolve root) (p.resolve target) in
    is_empty r
    || (not (starts_with (text "..") r)
        && not (starts_with (p.resolve root ++ text ".") (p.resolve target)))

-- The reason of a refusal, or the canonical path where one was computed.
pub data Binding : Type 0 where
  unbound not_canonical path_changed outside_root : Binding
  bound_to : Text → Binding

abbrev pub is_bound : Binding → Bool
is_bound unbound = true
is_bound (bound_to current) = true
is_bound _ = false

abbrev pub bind_current : NodePath → Text → Text → Text → Binding
bind_current p expected root current =
    if not (is_empty expected) && not (same (p.resolve current) (p.resolve expected))
    then path_changed
    else if not (is_empty root) && not (path_within p root current)
    then outside_root
    else bound_to current

abbrev pub bind_canonical : NodePath → Text → Text → Option Text → Binding
bind_canonical p expected root none = not_canonical
bind_canonical p expected root (some []) = not_canonical
bind_canonical p expected root (some (c ∷ s)) = bind_current p expected root (c ∷ s)

-- pathBinding
unfoldable pub path_binding : NodePath → Disk → Text → Text → Text → Binding
path_binding p d path expected root =
    if is_empty expected && is_empty root
    then unbound
    else bind_canonical p expected root (canonical_potential_path p d path)

-- What the loop looks for: the nearest existing ancestor of a path, itself included, or nothing
-- where the climb comes to a root that does not exist.
pub data Nearest (p : NodePath) (d : Disk) : Text → Climb → Type 0 where
  found : {s : Text} → d.exists s ≡ true → Nearest p d s (reached s)
  top : {s : Text} → d.exists s ≡ false → p.dirname s ≡ s → Nearest p d s no_parent
  up :
      {s : Text} {c : Climb}
      → d.exists s ≡ false
      → p.dirname s ≢ s
      → Nearest p d (p.dirname s) c
      → Nearest p d s c

module _ (p : NodePath) (d : Disk) (is_absolute : Text → Bool)
    (parent : (s : Text)
      → is_absolute s ≡ true
      → (is_absolute (p.dirname s) ≡ true)
        × ((p.dirname s ≡ s) ⊎ (length (p.dirname s) < length s))) where
  climb_fuelled :
      (fuel : ℕ) (s : Text)
      → is_absolute s ≡ true
      → length s < fuel
      → Nearest p d s (climb p d fuel s)
  unfolding climb
  climb_fuelled zero s a h = absurd (omega arith)
  climb_fuelled (suc fuel) s a h = elim (Bool-cases (d.exists s)) [
    | inl t ↦ rw t (found t)
    | inr f ↦ elim (Bool-cases (same (p.dirname s) s)) [
      | inl e ↦ rw (f, e) (top f ((same_iff _ _).0 e))
      | inr n ↦
          let other : p.dirname s ≢ s = λ q. cc ((same_iff _ _).1 q) in
          elim (parent s a).1 [
            | inl q ↦ absurd (other q)
            | inr less ↦
                rw (f, n)
                  (up f other (climb_fuelled fuel (p.dirname s) (parent s a).0 (omega arith)))
          ]
    ]
  ]

  -- Where resolve gives an absolute path, and the directory of an absolute path is absolute and is
  -- the path itself or shorter, the loop of canonicalPotentialPath ends at the nearest existing
  -- ancestor of the resolved path, or at a root that does not exist, and never runs out of fuel.
  pub climb-Nearest :
      ((s : Text) → is_absolute (p.resolve s) ≡ true)
      → (value : Text)
      → Nearest p d (p.resolve value) (climb p d (suc (length (p.resolve value))) (p.resolve value))
  climb-Nearest resolved value =
      climb_fuelled (suc (length (p.resolve value))) (p.resolve value) (resolved value)
        (omega arith)
