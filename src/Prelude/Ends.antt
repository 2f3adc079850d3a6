-- ===== src/Prelude/Ends.antt =====
-- The end of a sorted concatenation needs only the ends of its parts, if these are sorted.
use Prim.Native.Nat.{ℕ, ◌≤◌}
use mathlib.Core.Path.{◌≡◌, refl, ap, ◌∙◌, sym}
use mathlib.Core.Logic.{inl, inr}
use mathlib.Core.Bool.{Bool}
use mathlib.Core.List.{List, [], ◌∷◌, ◌++◌, map}
use native.Mathlib.Omega.{arith}
use tryst_core_portfolio.Prelude.Tests.{leb, Bool-cases}
use tryst_core_portfolio.Prelude.Lists.{length, All}
use tryst_core_portfolio.Prelude.Sorts.{
  insert, sort, IsSorted, TotalTest, last, last-all, last-cons, sort-IsSorted, last-insert,
  last-insert_above, above-append, above-sort, above-All,
}

abbrev pub flatten : {A : Type 0} → List (List A) → List A
flatten [] = []
flatten (xs ∷ xss) = xs ++ flatten xss

module _ {A : Type 0} (leq : A → A → Bool) (t : TotalTest leq) (n : ℕ) where
  -- Elements in front keep what the ends have in common.
  same-append :
      (xs us vs : List A)
      → last n (sort leq us) ≡ last n (sort leq vs)
      → last n (sort leq (xs ++ us)) ≡ last n (sort leq (xs ++ vs))
  unfolding sort
  same-append [] us vs h = h
  same-append (x ∷ xs) us vs h =
      last-insert leq t n x (sort leq (xs ++ us)) (sort-IsSorted leq t (xs ++ us))
      ∙ ap (λ l. last n (insert leq x l)) (same-append xs us vs h)
      ∙ sym (last-insert leq t n x (sort leq (xs ++ vs)) (sort-IsSorted leq t (xs ++ vs)))

  -- The front of a sorted part does not reach the end.
  last-part :
      (xs rest : List A)
      → IsSorted leq xs
      → last n (sort leq (last n xs ++ rest)) ≡ last n (sort leq (xs ++ rest))
  unfolding sort
  last-part [] rest s = ap (λ l. last n (sort leq (l ++ rest))) (last-all n [] (omega arith))
  last-part (x ∷ xs) rest s = elim (Bool-cases (leb n (length xs))) [
    | inr few ↦ ap (λ l. last n (sort leq (l ++ rest))) (last-all n (x ∷ xs) (ground arith))
    | inl many ↦
        let h : n ≤ length xs = ground arith in
        ap (λ l. last n (sort leq (l ++ rest))) (last-cons n x xs h)
        ∙ last-part xs rest s.1
        ∙ sym (
            last-insert_above leq n x (sort leq (xs ++ rest)) (
              omega (
                arith,
                above-sort leq x (xs ++ rest),
                above-append leq x xs rest,
                above-All leq x xs s.0,
              )))
  ]

  pub last-flatten :
      (xss : List (List A))
      → All (IsSorted leq) xss
      → last n (sort leq (flatten (map (last n) xss))) ≡ last n (sort leq (flatten xss))
  last-flatten [] s = refl
  last-flatten (xs ∷ xss) s =
      same-append (last n xs) (flatten (map (last n) xss)) (flatten xss) (last-flatten xss s.1)
      ∙ last-part xs (flatten xss) s.0
