-- ===== src/Prelude/Counts.antt =====
-- How many elements of a list pass a test.
use Prim.Native.Nat.{ℕ, ◌+◌, ◌≤◌}
use mathlib.Core.Path.{◌≡◌, refl, ◌∙◌}
use mathlib.Core.Bool.{Bool, true}
use mathlib.Core.List.{List, [], ◌∷◌, ◌++◌, reverse, reverse-append}
use native.Mathlib.Omega.{arith}
use piggy_engine.Prelude.Tests.{if◌then◌else◌}
use piggy_engine.Prelude.Lists.{length}

unfoldable pub count : {A : Type 0} → (A → Bool) → List A → ℕ
count q [] = 0
count q (x ∷ xs) = (if q x then 1 else 0) + count q xs

module _ {A : Type 0} where
  pub count-append : (q : A → Bool) (xs ys : List A) → count q (xs ++ ys) ≡ count q xs + count q ys
  unfolding count
  count-append q [] ys = omega arith
  count-append q (x ∷ xs) ys = omega (arith, count-append q xs ys)

  -- A test that passes less counts less.
  pub count_mono :
      (q r : A → Bool)
      → ((x : A) → q x ≡ true → r x ≡ true)
      → (xs : List A) → count q xs ≤ count r xs
  unfolding count
  count_mono q r less [] = omega arith
  count_mono q r less (x ∷ xs) = ground (arith, less x, count_mono q r less xs)

  pub count-all : (xs : List A) → count (λ x. true) xs ≡ length xs
  unfolding count
  count-all [] = refl
  count-all (x ∷ xs) = omega (arith, count-all xs)

  pub count-reverse : (q : A → Bool) (xs : List A) → count q (reverse xs) ≡ count q xs
  unfolding count
  count-reverse q [] = refl
  count-reverse q (x ∷ xs) =
      let e : count q (reverse (x ∷ xs)) ≡ count q (reverse xs ++ x ∷ []) =
        rw (reverse-append (x ∷ []) xs) refl in
      e ∙ count-append q (reverse xs) (x ∷ []) ∙ omega (arith, count-reverse q xs)
