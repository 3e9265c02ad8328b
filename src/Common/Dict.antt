-- ===== src/Common/Dict.antt =====
-- Go maps as association lists, and the counts that they hold.
use telegram_server.Common.Tests.{if◌then◌else◌, Eq}
use mathlib.Core.Path.{◌≡◌, refl}
use mathlib.Core.Bool.{true}
use mathlib.Core.List.{List, [], ◌∷◌}
use native.Mathlib.Omega.{arith}

module _ {ℓ κ} {K : Type κ} {V : Type ℓ} ⦃e : Eq K⦄ where
  -- `m[k]`, with `d` where the key is absent.
  unfoldable pub lookup_or : List (K × V) → K → V → V
  lookup_or [] k d = d
  lookup_or ((j, v) ∷ m) k d = if e.beq j k then v else lookup_or m k d

  -- `m[k] = v`.
  unfoldable pub insert : List (K × V) → K → V → List (K × V)
  insert [] k v = (k, v) ∷ []
  insert ((j, w) ∷ m) k v = if e.beq j k then (k, v) ∷ m else (j, w) ∷ insert m k v

  -- `delete(m, k)`.
  unfoldable pub delete : List (K × V) → K → List (K × V)
  delete [] k = []
  delete ((j, w) ∷ m) k = if e.beq j k then delete m k else (j, w) ∷ delete m k

  pub lookup_or-insert :
      (m : List (K × V)) (k j : K) (v d : V)
      → lookup_or (insert m k v) j d ≡ (if e.beq k j then v else lookup_or m j d)
  unfolding lookup_or insert
  lookup_or-insert [] k j v d = refl
  lookup_or-insert ((i, w) ∷ m) k j v d =
      ground (arith, e.beq_iff i k, e.beq_iff i j, e.beq_iff k j, lookup_or-insert m k j v d)

  pub lookup_or-delete :
      (m : List (K × V)) (k j : K) (d : V)
      → lookup_or (delete m k) j d ≡ (if e.beq k j then d else lookup_or m j d)
  unfolding lookup_or delete
  lookup_or-delete [] k j d = ground arith
  lookup_or-delete ((i, w) ∷ m) k j d =
      ground (arith, e.beq_iff i k, e.beq_iff i j, e.beq_iff k j, lookup_or-delete m k j d)

pub beq_refl {ℓ} : {A : Type ℓ} ⦃e : Eq A⦄ (a : A) → e.beq a a ≡ true
beq_refl ⦃e⦄ a = (e.beq_iff a a).1 refl
