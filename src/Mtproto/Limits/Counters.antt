-- ===== src/Mtproto/Limits/Counters.antt =====
-- internal/mtproto/preauth.go and internal/mtproto/unboundkey.go: a map of counters, ints, that keeps
-- an entry only while its count is positive.
use telegram_server.Common.{
  ℕ, ◌+◌, ◌-◌, ◌%◌, ◌^◌, ◌<◌, ◌≡◌, refl, List, [], ◌∷◌, if◌then◌else◌, is_pos, Eq, All, if_lem,
  arith,
}
use telegram_server.Common.Dict.{
  lookup_or, insert, delete, lookup_or-insert, lookup_or-delete, beq_refl,
}
use telegram_server.Common.Count.{bit}

module _ {κ} {K : Type κ} ⦃e : Eq K⦄ where
  -- `m[k]++`.
  unfoldable pub charge : List (K × ℕ) → K → List (K × ℕ)
  charge m k = insert m k ((lookup_or m k 0 + 1) % 2 ^ 64)

  -- `if n := m[k] - 1; n > 0 { m[k] = n } else { delete(m, k) }`.
  unfoldable pub discharge : List (K × ℕ) → K → List (K × ℕ)
  discharge m k =
      let n = (lookup_or m k 0 + (2 ^ 64 - 1)) % 2 ^ 64 in
      if is_pos n then insert m k n else delete m k

  pub lookup_or-charge :
      (m : List (K × ℕ)) (k j : K)
      → lookup_or m k 0 < 2 ^ 63
      → lookup_or (charge m k) j 0 ≡ lookup_or m j 0 + bit (e.beq k j)
  unfolding charge
  lookup_or-charge m k j h =
      ground (arith, lookup_or-insert m k j ((lookup_or m k 0 + 1) % 2 ^ 64) 0, e.beq_iff k j)

  pub lookup_or-discharge :
      (m : List (K × ℕ)) (k j : K)
      → 0 < lookup_or m k 0
      → lookup_or m k 0 < 2 ^ 63
      → lookup_or (discharge m k) j 0 + bit (e.beq k j) ≡ lookup_or m j 0
  unfolding discharge
  lookup_or-discharge m k j p h = ground (
    arith,
    lookup_or-insert m k j ((lookup_or m k 0 + (2 ^ 64 - 1)) % 2 ^ 64) 0,
    lookup_or-delete m k j 0,
    e.beq_iff k j,
  )

  -- Every entry counts something.
  abbrev pub IsPruned : List (K × ℕ) → Type 0
  IsPruned m = All (λ entry. 0 < entry.1) m

  insert-IsPruned :
      (m : List (K × ℕ)) (k : K) (n : ℕ) → 0 < n → IsPruned m → IsPruned (insert m k n)
  unfolding insert
  insert-IsPruned [] k n p h = (p, tt)
  insert-IsPruned ((j, v) ∷ m) k n p h =
      if_lem IsPruned (e.beq j k) (λ _. (p, h.1)) (λ _. (h.0, insert-IsPruned m k n p h.1))

  delete-IsPruned : (m : List (K × ℕ)) (k : K) → IsPruned m → IsPruned (delete m k)
  unfolding delete
  delete-IsPruned [] k h = h
  delete-IsPruned ((j, v) ∷ m) k h =
      if_lem IsPruned (e.beq j k) (λ _. delete-IsPruned m k h.1)
        (λ _. (h.0, delete-IsPruned m k h.1))

  pub charge-IsPruned :
      (m : List (K × ℕ)) (k : K) → lookup_or m k 0 < 2 ^ 63 → IsPruned m → IsPruned (charge m k)
  unfolding charge
  charge-IsPruned m k b h = insert-IsPruned m k _ (omega arith) h

  pub discharge-IsPruned : (m : List (K × ℕ)) (k : K) → IsPruned m → IsPruned (discharge m k)
  unfolding discharge
  discharge-IsPruned m k h =
      let n = (lookup_or m k 0 + (2 ^ 64 - 1)) % 2 ^ 64 in
      if_lem IsPruned (is_pos n) (λ q. insert-IsPruned m k n (ground arith) h)
        (λ _. delete-IsPruned m k h)

  -- A pruned map of counts that are all zero is empty.
  pub pruned_empty : (m : List (K × ℕ)) → IsPruned m → ((k : K) → lookup_or m k 0 ≡ 0) → m ≡ []
  unfolding lookup_or
  pruned_empty [] h z = refl
  pruned_empty ((k, n) ∷ m) h z = absurd (ground (arith, z k, beq_refl k, h.0))
