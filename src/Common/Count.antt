-- ===== src/Common/Count.antt =====
-- How many elements of a list pass a test, and how a write or an append changes that.
use telegram_server.Common.Lists.{length, get_elem?, set}
use Prim.Native.Nat.{ℕ, zero, suc, ◌+◌, ◌≤◌}
use mathlib.Core.Path.{◌≡◌, refl}
use mathlib.Core.Bool.{Bool, true, false}
use mathlib.Core.List.{List, [], ◌∷◌, ◌++◌}
use mathlib.Core.Option.{some}
use native.Mathlib.Omega.{arith}

abbrev pub bit : Bool → ℕ
bit true = 1
bit false = 0

module _ {ℓ} {A : Type ℓ} (test : A → Bool) where
  unfoldable pub count_if : List A → ℕ
  count_if [] = 0
  count_if (x ∷ xs) = bit (test x) + count_if xs

  pub count_if-nil : count_if [] ≡ 0
  unfolding count_if
  count_if-nil = refl

  pub count_if-snoc : (xs : List A) (x : A) → count_if (xs ++ x ∷ []) ≡ count_if xs + bit (test x)
  unfolding count_if
  count_if-snoc [] x = omega arith
  count_if-snoc (y ∷ xs) x = omega (arith, count_if-snoc xs x)

  pub count_if-set :
      (xs : List A) (i : ℕ) (old new : A)
      → get_elem? xs i ≡ some old
      → count_if (set xs i new) + bit (test old) ≡ count_if xs + bit (test new)
  unfolding count_if
  count_if-set [] i old new e = cc
  count_if-set (x ∷ xs) zero old new e = ground arith
  count_if-set (x ∷ xs) (suc i) old new e = omega (arith, count_if-set xs i old new e)

  pub count_if-pos :
      (xs : List A) (i : ℕ) (x : A) → get_elem? xs i ≡ some x → bit (test x) ≤ count_if xs
  unfolding count_if
  count_if-pos [] i x e = cc
  count_if-pos (y ∷ xs) zero x e = ground arith
  count_if-pos (y ∷ xs) (suc i) x e = omega (arith, count_if-pos xs i x e)

  pub count_if-le : (xs : List A) → count_if xs ≤ length xs
  unfolding count_if
  count_if-le [] = omega arith
  count_if-le (x ∷ xs) = ground (arith, count_if-le xs)
