-- ===== src/Reliability/Counting.antt =====
-- How many elements of a list a selection keeps, and what a mapped list holds.
use ruleoak.Common.{
  suc, ◌≤◌, ◌<◌, Bool, true, ◌≡◌, refl, ap, List, [], ◌∷◌, inl, inr, arith, length, select, In,
  head, tail, map, Bool-cases,
}

module _ {ℓ} {A : Type ℓ} (p : A → Bool) where
  length-select : (xs : List A) → length (select p xs) ≤ length xs
  unfolding select
  length-select [] = omega arith
  length-select (x ∷ xs) = elim (Bool-cases (p x)) [
    | inl t ↦ rw t (omega (arith, length-select xs))
    | inr f ↦ rw f (omega (arith, length-select xs))
  ]

  -- A selection that keeps as many elements as there are keeps each.
  pub select_all : (xs : List A) {a : A} → length (select p xs) ≡ length xs → In a xs → p a ≡ true
  unfolding select
  select_all [] h i = elim i [ ]
  select_all (x ∷ xs) {a} h i = elim (Bool-cases (p x)) [
    | inl t ↦ kept t (select_all xs) (rw t at h) i
    | inr f ↦
        let short : length (select p xs) ≡ suc (length xs) = rw f at h in elim (too_short short) [ ]
  ]
    where
      too_short : length (select p xs) ≡ suc (length xs) → ⊥
      too_short short = omega (arith, length-select xs, short)

      kept :
          p x ≡ true
          → (length (select p xs) ≡ length xs → In a xs → p a ≡ true)
          → suc (length (select p xs)) ≡ suc (length xs)
          → In a (x ∷ xs)
          → p a ≡ true
      kept t ih e (head q) = rw q t
      kept t ih e (tail j) = ih (omega (arith, e)) j

  pub all_select :
      (xs : List A) → ((a : A) → In a xs → p a ≡ true) → length (select p xs) ≡ length xs
  unfolding select
  all_select [] h = refl
  all_select (x ∷ xs) h = rw (h x (head refl)) (ap suc (all_select xs (λ a i. h a (tail i))))

pub In-not_empty {ℓ} : {A : Type ℓ} {a : A} (xs : List A) → In a xs → 0 < length xs
In-not_empty [] i = elim i [ ]
In-not_empty (x ∷ xs) i = omega arith

pub not_empty-In {ℓ} : {A : Type ℓ} (xs : List A) → 0 < length xs → (a : A) × In a xs
not_empty-In [] h = elim (none_below h) [ ]
  where
    none_below : 0 < 0 → ⊥
    none_below l = omega (arith, l)
not_empty-In (x ∷ xs) h = (x, head refl)

module _ {ℓ κ} {A : Type ℓ} {B : Type κ} (f : A → B) where
  pub map_keeps : (xs : List A) {a : A} → In a xs → In (f a) (map f xs)
  map_keeps [] i = elim i [ ]
  map_keeps (x ∷ xs) (head e) = head (ap f e)
  map_keeps (x ∷ xs) (tail i) = tail (map_keeps xs i)

  pub map-In : (xs : List A) {b : B} → In b (map f xs) → (a : A) × In a xs × (b ≡ f a)
  map-In [] i = elim i [ ]
  map-In (x ∷ xs) (head e) = (x, head refl, e)
  map-In (x ∷ xs) (tail i) = let rest = map-In xs i in (rest.0, tail rest.1, rest.2)
