-- ===== src/Common/Sort.antt =====
-- Array.prototype.sort, which is stable, and the two constructions of a comparator.
use Prim.Native.Nat.{Ordering}
use mathlib.Core.Path.{◌≡◌, refl}
use mathlib.Core.Logic.{◌⊎◌, inl, inr}
use mathlib.Core.Bool.{Bool, true, false}
use mathlib.Core.Option.{Option, none, some}
use mathlib.Core.List.{List, [], ◌∷◌}
use ruleoak.Common.Tests.{if◌then◌else◌, Bool-cases}
use ruleoak.Common.Lists.{In, head, tail, is_empty}

-- Whether the comparator is positive: the second goes first.
abbrev pub is_gt : Ordering → Bool
is_gt Ordering.gt = true
is_gt _ = false

-- `a || b` on the results of comparators.
abbrev pub then_by : Ordering → Ordering → Ordering
then_by Ordering.eq p = p
then_by o _ = o

module _ {ℓ} {A : Type ℓ} where
  abbrev pub first : List A → Option A
  first [] = none
  first (x ∷ xs) = some x

module _ {ℓ} {A : Type ℓ} (cmp : A → A → Ordering) where
  unfoldable pub insert : A → List A → List A
  insert x [] = x ∷ []
  insert x (y ∷ ys) = let later = insert x ys in if is_gt (cmp x y) then y ∷ later else x ∷ y ∷ ys

  unfoldable pub sort : List A → List A
  sort [] = []
  sort (x ∷ xs) = insert x (sort xs)

module _ {ℓ} {A : Type ℓ} (cmp : A → A → Ordering) where
  In-insert : (x : A) (ys : List A) {a : A} → In a (insert cmp x ys) → (a ≡ x) ⊎ In a ys
  unfolding insert
  In-insert x [] (head e) = inl e
  In-insert x [] (tail i) = inr i
  In-insert x (y ∷ ys) {a} i = elim (Bool-cases (is_gt (cmp x y))) [
    | inl t ↦ moved (In-insert x ys) (rw t at i)
    | inr f ↦ kept (rw f at i)
  ]
    where
      moved :
          (In a (insert cmp x ys) → (a ≡ x) ⊎ In a ys)
          → In a (y ∷ insert cmp x ys)
          → (a ≡ x) ⊎ In a (y ∷ ys)
      moved ih (head e) = inr (head e)
      moved ih (tail j) = elim (ih j) [ inl e ↦ inl e | inr k ↦ inr (tail k) ]

      kept : In a (x ∷ y ∷ ys) → (a ≡ x) ⊎ In a (y ∷ ys)
      kept (head e) = inl e
      kept (tail j) = inr j

  pub sort-In : (xs : List A) {a : A} → In a (sort cmp xs) → In a xs
  unfolding sort
  sort-In [] i = i
  sort-In (x ∷ xs) i = elim (In-insert x (sort cmp xs) i) [
    | inl e ↦ head e
    | inr j ↦ tail (sort-In xs j)
  ]

  insert_keeps : (x : A) (ys : List A) {a : A} → (a ≡ x) ⊎ In a ys → In a (insert cmp x ys)
  unfolding insert
  insert_keeps x [] (inl e) = head e
  insert_keeps x [] (inr i) = tail i
  insert_keeps x (y ∷ ys) {a} i = elim (Bool-cases (is_gt (cmp x y))) [
    | inl t ↦ rw t (moved (insert_keeps x ys) i)
    | inr f ↦ rw f (kept i)
  ]
    where
      moved :
          ((a ≡ x) ⊎ In a ys → In a (insert cmp x ys))
          → (a ≡ x) ⊎ In a (y ∷ ys)
          → In a (y ∷ insert cmp x ys)
      moved ih (inl e) = tail (ih (inl e))
      moved ih (inr (head e)) = head e
      moved ih (inr (tail j)) = tail (ih (inr j))

      kept : (a ≡ x) ⊎ In a (y ∷ ys) → In a (x ∷ y ∷ ys)
      kept (inl e) = head e
      kept (inr j) = tail j

  pub sort_keeps : (xs : List A) {a : A} → In a xs → In a (sort cmp xs)
  unfolding sort
  sort_keeps [] i = i
  sort_keeps (x ∷ xs) (head e) = insert_keeps x (sort cmp xs) (inl e)
  sort_keeps (x ∷ xs) (tail i) = insert_keeps x (sort cmp xs) (inr (sort_keeps xs i))

  insert-first : (x : A) (ys : List A) → (a : A) × (first (insert cmp x ys) ≡ some a)
  unfolding insert
  insert-first x [] = (x, refl)
  insert-first x (y ∷ ys) = elim (Bool-cases (is_gt (cmp x y))) [
    | inl t ↦ (y, rw t)
    | inr f ↦ (x, rw f)
  ]

  -- Sorting a list that is not empty leaves a first element.
  pub sort-first : (xs : List A) → is_empty xs ≡ false → (a : A) × (first (sort cmp xs) ≡ some a)
  unfolding sort
  sort-first [] h = cc
  sort-first (x ∷ xs) h = insert-first x (sort cmp xs)

pub first-In {ℓ} : {A : Type ℓ} (xs : List A) {a : A} → first xs ≡ some a → In a xs
first-In [] h = cc
first-In (x ∷ xs) h = head (cc)

-- Where the comparator follows a preorder, the first element is below all others.
module _ {ℓ κ} {A : Type ℓ} (cmp : A → A → Ordering) (R : A → A → Type κ) (refl_R : (a : A) → R a a)
    (trans_R : (a b c : A) → R a b → R b c → R a c)
    (before : (a b : A) → is_gt (cmp a b) ≡ false → R a b)
    (after : (a b : A) → is_gt (cmp a b) ≡ true → R b a) where
  abbrev Least : A → List A → Type (ℓ ⊔ κ)
  Least y xs = (z : A) → In z xs → R y z

  insert-Least :
      (x : A) (ys : List A)
      → ((y : A) → first ys ≡ some y → Least y ys)
      → (y : A) → first (insert cmp x ys) ≡ some y
      → Least y (insert cmp x ys)
  unfolding insert
  insert-Least x [] ih y e z i =
      let e' : y ≡ x = cc in
      elim (In-insert cmp x [] i) [ inl q ↦ rw (e', q) (refl_R x) | inr j ↦ elim j [ ] ]
  insert-Least x (v ∷ ys) ih y e z i = elim (Bool-cases (is_gt (cmp x v))) [
    | inl t ↦
        let e' : some v ≡ some y = rw t at e in
        let q : y ≡ v = cc in
        elim (In-insert cmp x (v ∷ ys) i) [
          | inl p ↦ rw (q, p) (after x v t)
          | inr j ↦ rw q (ih v refl z j)
        ]
    | inr t ↦
        let e' : some x ≡ some y = rw t at e in
        let q : y ≡ x = cc in
        elim (In-insert cmp x (v ∷ ys) i) [
          | inl p ↦ rw (q, p) (refl_R x)
          | inr j ↦ rw q (trans_R x v z (before x v t) (ih v refl z j))
        ]
  ]

  pub sort-Least : (xs : List A) (y : A) → first (sort cmp xs) ≡ some y → Least y xs
  unfolding sort
  sort-Least xs y e z i = sorted xs y e z (sort_keeps cmp xs i)
    where
      sorted : (ys : List A) (w : A) → first (sort cmp ys) ≡ some w → Least w (sort cmp ys)
      sorted [] w f = λ z i. elim i [ ]
      sorted (x ∷ ys) w f = insert-Least x (sort cmp ys) (sorted ys) w f
