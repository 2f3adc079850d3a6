-- ===== src/Prelude/Sorts.antt =====
-- Stable sorting by a Boolean test, as the standard library's `sort_by` and `sort_by_key` do, and what
-- the end of a sorted list depends on.
use Prim.Native.Nat.{ℕ, zero, suc, ◌+◌, ◌-◌, ◌≤◌}
use mathlib.Core.Path.{◌≡◌, refl, ap, ◌∙◌, sym}
use mathlib.Core.Logic.{inl, inr}
use mathlib.Core.Bool.{Bool, true, false}
use mathlib.Core.List.{List, [], ◌∷◌, ◌++◌}
use native.Mathlib.Omega.{arith}
use tryst_core_portfolio.Prelude.Tests.{if◌then◌else◌, Bool-cases, leb}
use tryst_core_portfolio.Prelude.Lists.{length, drop, All, length-drop}

module _ {A : Type 0} (leq : A → A → Bool) where
  -- The new element stands in front of those that it equals.
  unfoldable pub insert : A → List A → List A
  insert x [] = x ∷ []
  insert x (y ∷ ys) = if leq x y then x ∷ y ∷ ys else y ∷ insert x ys

  unfoldable pub sort : List A → List A
  unfolding insert
  sort [] = []
  sort (x ∷ xs) = insert x (sort xs)

  abbrev pub IsSorted : List A → Type 0
  IsSorted [] = Unit {0}
  IsSorted (x ∷ xs) = All (λ y. leq x y ≡ true) xs × IsSorted xs

-- A test that is a total order on keys, with ties.
pub record TotalTest {A : Type 0} (leq : A → A → Bool) : Type 0 where
  pub total : (a b : A) → leq a b ≡ false → leq b a ≡ true
  pub trans : (a b c : A) → leq a b ≡ true → leq b c ≡ true → leq a c ≡ true

module _ {A : Type 0} where
  -- The last `n` elements.
  abbrev pub last : ℕ → List A → List A
  last n xs = drop (length xs - n) xs

  pub length-last : (n : ℕ) (xs : List A) → n ≤ length xs → length (last n xs) ≡ n
  length-last n xs h = omega (arith, length-drop (length xs - n) xs)

  pub last-all : (n : ℕ) (xs : List A) → length xs ≤ n → last n xs ≡ xs
  last-all n xs h = let e : length xs - n ≡ 0 = omega arith in ap (λ k. drop k xs) e

  pub last-cons : (n : ℕ) (x : A) (xs : List A) → n ≤ length xs → last n (x ∷ xs) ≡ last n xs
  last-cons n x xs h =
      let e : suc (length xs) - n ≡ suc (length xs - n) = omega arith in ap (λ k. drop k (x ∷ xs)) e

module _ {A : Type 0} (leq : A → A → Bool) where
  length-insert : (x : A) (xs : List A) → length (insert leq x xs) ≡ suc (length xs)
  unfolding insert
  length-insert x [] = refl
  length-insert x (y ∷ ys) = ground (arith, length-insert x ys)

  pub length-sort : (xs : List A) → length (sort leq xs) ≡ length xs
  unfolding sort
  length-sort [] = refl
  length-sort (x ∷ xs) = omega (arith, length-insert x (sort leq xs), length-sort xs)

  -- How many elements stand behind `x` in the order.
  unfoldable pub above : A → List A → ℕ
  above x [] = 0
  above x (y ∷ ys) = if leq x y then suc (above x ys) else above x ys

  pub above-append : (x : A) (xs ys : List A) → above x (xs ++ ys) ≡ above x xs + above x ys
  unfolding above
  above-append x [] ys = omega arith
  above-append x (y ∷ xs) ys = ground (arith, above-append x xs ys)

  above-insert : (x y : A) (ys : List A) → above x (insert leq y ys) ≡ above x (y ∷ ys)
  unfolding above insert
  above-insert x y [] = refl
  above-insert x y (z ∷ ys) = ground (arith, above-insert x y ys)

  pub above-sort : (x : A) (xs : List A) → above x (sort leq xs) ≡ above x xs
  unfolding sort above
  above-sort x [] = refl
  above-sort x (y ∷ xs) = above-insert x y (sort leq xs) ∙ ground (arith, above-sort x xs)

  above-le : (x : A) (xs : List A) → above x xs ≤ length xs
  unfolding above
  above-le x [] = omega arith
  above-le x (y ∷ xs) = ground (arith, above-le x xs)

  pub above-All : (x : A) (xs : List A) → All (λ y. leq x y ≡ true) xs → above x xs ≡ length xs
  unfolding above
  above-All x [] h = refl
  above-All x (y ∷ xs) h = ground (arith, above-All x xs h.1)

  -- An element with `n` others behind it does not reach the last `n`.
  pub last-insert_above :
      (n : ℕ) (x : A) (xs : List A) → n ≤ above x xs → last n (insert leq x xs) ≡ last n xs
  unfolding insert above
  last-insert_above n x [] h = let e : n ≡ 0 = omega arith in rw e refl
  last-insert_above n x (y ∷ ys) h = elim (Bool-cases (leq x y)) [
    | inl below ↦ rw (below) (last-cons n x (y ∷ ys) (ground (arith, above-le x ys)))
    | inr past ↦
        let behind : n ≤ above x ys = ground arith in
        rw (past) (
          last-cons n y (insert leq x ys) (omega (arith, above-le x ys, length-insert x ys))
          ∙ last-insert_above n x ys behind
          ∙ sym (last-cons n y ys (omega (arith, above-le x ys))))
  ]

  All-trans :
      TotalTest leq
      → (x y : A) (ys : List A) → leq x y ≡ true
      → All (λ z. leq y z ≡ true) ys
      → All (λ z. leq x z ≡ true) ys
  All-trans t x y [] h a = tt
  All-trans t x y (z ∷ ys) h a = (t.trans x y z h a.0, All-trans t x y ys h a.1)

  insert-All :
      (x y : A) (ys : List A)
      → leq y x ≡ true
      → All (λ z. leq y z ≡ true) ys
      → All (λ z. leq y z ≡ true) (insert leq x ys)
  unfolding insert
  insert-All x y [] h a = (h, tt)
  insert-All x y (z ∷ ys) h a = ground (arith, insert-All x y ys h a.1)

  insert-IsSorted :
      TotalTest leq → (x : A) (xs : List A) → IsSorted leq xs → IsSorted leq (insert leq x xs)
  unfolding insert
  insert-IsSorted t x [] s = (tt, tt)
  insert-IsSorted t x (y ∷ ys) s = elim (Bool-cases (leq x y)) [
    | inl below ↦ rw (below) ((below, All-trans t x y ys below s.0), s)
    | inr past ↦ rw (past) (insert-All x y ys (t.total x y past) s.0, insert-IsSorted t x ys s.1)
  ]

  pub sort-IsSorted : TotalTest leq → (xs : List A) → IsSorted leq (sort leq xs)
  unfolding sort
  sort-IsSorted t [] = tt
  sort-IsSorted t (x ∷ xs) = insert-IsSorted t x (sort leq xs) (sort-IsSorted t xs)

  insert-front : (x : A) (xs : List A) → All (λ y. leq x y ≡ true) xs → insert leq x xs ≡ x ∷ xs
  unfolding insert
  insert-front x [] h = refl
  insert-front x (y ∷ ys) h = rw (h.0) refl

  All-drop :
      (x : A) (k : ℕ) (xs : List A)
      → All (λ y. leq x y ≡ true) xs
      → All (λ y. leq x y ≡ true) (drop k xs)
  All-drop x zero xs h = h
  All-drop x (suc k) [] h = tt
  All-drop x (suc k) (y ∷ xs) h = All-drop x k xs h.1

  -- What one more element makes of the end of a sorted list depends on that end only.
  pub last-insert :
      TotalTest leq
      → (n : ℕ) (x : A) (xs : List A) → IsSorted leq xs
      → last n (insert leq x xs) ≡ last n (insert leq x (last n xs))
  unfolding insert
  last-insert t n x [] s = ap (λ l. last n (insert leq x l)) (sym (last-all n [] (omega arith)))
  last-insert t n x (y ∷ ys) s = elim (Bool-cases (leb n (length ys))) [
    | inr few ↦ ap (λ l. last n (insert leq x l)) (sym (last-all n (y ∷ ys) (ground arith)))
    | inl many ↦
        let h : n ≤ length ys = ground arith in
        let e = last-cons n y ys h in
        rw (e) (elim (Bool-cases (leq x y)) [
          | inl below ↦
              let behind = All-drop x (length ys - n) ys (All-trans t x y ys below s.0) in
              rw (below, insert-front x (last n ys) behind)
                (last-cons n x (y ∷ ys) (omega arith)
                  ∙ e
                  ∙ sym (
                      last-cons n x (last n ys) (omega (arith, length-last n ys h))
                      ∙ last-all n (last n ys) (omega (arith, length-last n ys h))))
          | inr past ↦ rw (past) (
              last-cons n y (insert leq x ys) (omega (arith, length-insert x ys))
              ∙ last-insert t n x ys s.1)
        ])
  ]
