-- ===== src/Common/Index.antt =====
-- Positions in a list: Go's `for i := range xs` searches, forwards and by `slices.Backward`.
use telegram_server.Common.Lists.{length, get_elem?, All}
use telegram_server.Common.Tests.{if◌then◌else◌, Option-cases, Bool-cases}
use Prim.Native.Nat.{ℕ, zero, suc, ◌<◌}
use mathlib.Core.Path.{◌≡◌}
use mathlib.Core.Logic.{inl, inr}
use mathlib.Core.Bool.{Bool, true, false}
use mathlib.Core.List.{List, [], ◌∷◌, ◌++◌}
use mathlib.Core.Option
use mathlib.Core.Option.{Option, none, some, some-injective}
use native.Mathlib.Omega.{arith}

module _ {ℓ} {A : Type ℓ} (test : A → Bool) where
  -- The first position that passes the test.
  unfoldable pub find_index : List A → Option ℕ
  find_index [] = none
  find_index (x ∷ xs) = if test x then some 0 else Option.map (λ i. suc i) (find_index xs)

  -- The last one.
  unfoldable pub find_last_index : List A → Option ℕ
  find_last_index [] = none
  find_last_index (x ∷ xs) = elim (find_last_index xs) [
    | some i ↦ some (suc i)
    | none ↦ if test x then some 0 else none
  ]

  pub find_index-lt : (xs : List A) (i : ℕ) → find_index xs ≡ some i → i < length xs
  unfolding find_index
  find_index-lt [] i e = cc
  find_index-lt (x ∷ xs) i e = elim (Option-cases (find_index xs)) [
    | inl p ↦ ground arith
    | inr (j, p) ↦ ground (arith, find_index-lt xs j p)
  ]

  pub find_last_index-lt : (xs : List A) (i : ℕ) → find_last_index xs ≡ some i → i < length xs
  unfolding find_last_index
  find_last_index-lt [] i e = cc
  find_last_index-lt (x ∷ xs) i e = elim (Option-cases (find_last_index xs)) [
    | inl p ↦ ground arith
    | inr (j, p) ↦ ground (arith, find_last_index-lt xs j p)
  ]

  -- A value that only the new last element passes is found at the end.
  pub find_index_last :
      (xs : List A) (x : A)
      → All (λ y. test y ≡ false) xs
      → test x ≡ true
      → find_index (xs ++ x ∷ []) ≡ some (length xs)
  unfolding find_index
  find_index_last [] x h e = rw e
  find_index_last (y ∷ xs) x h e = rw (h.0, find_index_last xs x h.1 e)

  -- A search that some position passes finds one.
  pub find_index-some :
      (xs : List A) (i : ℕ) (x : A)
      → get_elem? xs i ≡ some x
      → test x ≡ true
      → (j : ℕ) × (find_index xs ≡ some j)
  unfolding find_index
  find_index-some [] i x e h = cc
  find_index-some (y ∷ xs) zero x e h = (0, ground (arith, some-injective e))
  find_index-some (y ∷ xs) (suc i) x e h = elim (Bool-cases (test y)) [
    | inl hit ↦ (0, rw hit)
    | inr miss ↦ let (j, found) = find_index-some xs i x e h in (suc j, rw (miss, found))
  ]
