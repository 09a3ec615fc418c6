-- ===== src/Common/Lists.antt =====
-- Lists measured by native numbers, searches, and membership that keeps its witness.
use Prim.Native.Nat.{ℕ, suc, ◌+◌}
use mathlib.Core.Path.{◌≡◌, refl}
use mathlib.Core.Logic.{◌⊎◌, inl, inr}
use mathlib.Core.Bool.{Bool, true, false, ◌&&◌, ◌||◌}
use mathlib.Core.Option.{Option, none, some}
use mathlib.Core.List.{List, [], ◌∷◌, ◌++◌}
use native.Mathlib.Omega.{arith}
use ruleoak.Common.Tests.{if◌then◌else◌, Bool-cases, and-eq-true}

module _ {ℓ} {A : Type ℓ} where
  abbrev pub length : List A → ℕ
  length [] = 0
  length (x ∷ xs) = suc (length xs)

  pub length-append : (xs ys : List A) → length (xs ++ ys) ≡ length xs + length ys
  length-append [] ys = omega arith
  length-append (x ∷ xs) ys = omega (arith, length-append xs ys)

  abbrev pub is_empty : List A → Bool
  is_empty [] = true
  is_empty (_ ∷ _) = false

  unfoldable pub any : (A → Bool) → List A → Bool
  any p [] = false
  any p (x ∷ xs) = p x || any p xs

  unfoldable pub all : (A → Bool) → List A → Bool
  all p [] = true
  all p (x ∷ xs) = p x && all p xs

  unfoldable pub find : (A → Bool) → List A → Option A
  find p [] = none
  find p (x ∷ xs) = if p x then some x else find p xs

  unfoldable pub select : (A → Bool) → List A → List A
  select p [] = []
  select p (x ∷ xs) = let rest = select p xs in if p x then x ∷ rest else rest

  -- Membership with its position.
  pub data In (a : A) : List A → Type ℓ where
    head : {x : A} {xs : List A} → a ≡ x → In a (x ∷ xs)
    tail : {x : A} {xs : List A} → In a xs → In a (x ∷ xs)

  pub In_of_append : (xs ys : List A) {a : A} → In a (xs ++ ys) → In a xs ⊎ In a ys
  In_of_append [] ys i = inr i
  In_of_append (x ∷ xs) ys (head e) = inl (head e)
  In_of_append (x ∷ xs) ys (tail i) = elim (In_of_append xs ys i) [
    | inl j ↦ inl (tail j)
    | inr j ↦ inr j
  ]

  pub In-append_left : {a : A} {xs : List A} (ys : List A) → In a xs → In a (xs ++ ys)
  In-append_left ys (head e) = head e
  In-append_left ys (tail i) = tail (In-append_left ys i)

  pub In-append_right : (xs : List A) {ys : List A} {a : A} → In a ys → In a (xs ++ ys)
  In-append_right [] i = i
  In-append_right (x ∷ xs) i = tail (In-append_right xs i)

  pub find-In : (p : A → Bool) (xs : List A) {a : A} → find p xs ≡ some a → In a xs × (p a ≡ true)
  unfolding find
  find-In p [] h = cc
  find-In p (x ∷ xs) {a} h = elim (Bool-cases (p x)) [
    | inl t ↦ let e : some x ≡ some a = rw t at h in let e' : a ≡ x = cc in (head e', rw e' t)
    | inr f ↦ let rest = find-In p xs (rw f at h) in (tail rest.0, rest.1)
  ]

  pub find-none : (p : A → Bool) (xs : List A) {a : A} → find p xs ≡ none → In a xs → p a ≡ false
  unfolding find
  find-none p [] h i = elim i [ ]
  find-none p (x ∷ xs) h (head e) = ground arith
  find-none p (x ∷ xs) h (tail i) = find-none p xs (ground arith) i

  pub any-In : (p : A → Bool) (xs : List A) → any p xs ≡ true → (a : A) × In a xs × (p a ≡ true)
  unfolding any
  any-In p [] h = cc
  any-In p (x ∷ xs) h = elim (Bool-cases (p x)) [
    | inl t ↦ (x, head refl, t)
    | inr f ↦ let rest = any-In p xs (rw f at h) in (rest.0, tail rest.1, rest.2)
  ]

  pub any_of_In : (p : A → Bool) (xs : List A) {a : A} → In a xs → p a ≡ true → any p xs ≡ true
  unfolding any
  any_of_In p [] i h = elim i [ ]
  any_of_In p (x ∷ xs) (head e) h = ground arith
  any_of_In p (x ∷ xs) (tail i) h = ground (arith, any_of_In p xs i h)

  pub all-In : (p : A → Bool) (xs : List A) {a : A} → all p xs ≡ true → In a xs → p a ≡ true
  unfolding all
  all-In p [] h i = elim i [ ]
  all-In p (x ∷ xs) h (head e) = ground arith
  all-In p (x ∷ xs) h (tail i) = all-In p xs (and-eq-true _ _ h).1 i

  pub select-In : (p : A → Bool) (xs : List A) {a : A} → In a (select p xs) → In a xs × (p a ≡ true)
  unfolding select
  select-In p [] i = elim i [ ]
  select-In p (x ∷ xs) {a} i = elim (Bool-cases (p x)) [
    | inl t ↦ kept t (select-In p xs) (rw t at i)
    | inr f ↦ let rest = select-In p xs (rw f at i) in (tail rest.0, rest.1)
  ]
    where
      kept :
          p x ≡ true
          → (In a (select p xs) → In a xs × (p a ≡ true))
          → In a (x ∷ select p xs)
          → In a (x ∷ xs) × (p a ≡ true)
      kept t ih (head e) = (head e, rw e t)
      kept t ih (tail j) = let rest = ih j in (tail rest.0, rest.1)

  pub select_keeps :
      (p : A → Bool) (xs : List A) {a : A} → In a xs → p a ≡ true → In a (select p xs)
  unfolding select
  select_keeps p [] i h = elim i [ ]
  select_keeps p (x ∷ xs) (head e) h = let t : p x ≡ true = rw e at h in rw t (head e)
  select_keeps p (x ∷ xs) (tail i) h = elim (Bool-cases (p x)) [
    | inl t ↦ rw t (tail (select_keeps p xs i h))
    | inr f ↦ rw f (select_keeps p xs i h)
  ]
