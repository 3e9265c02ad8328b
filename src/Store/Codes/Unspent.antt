-- ===== src/Store/Codes/Unspent.antt =====
-- internal/store/codes.go: what a statement does to the rows of one hash.
use telegram_server.Common.{
  ℕ, ◌+◌, ◌≤◌, ◌<◌, ◌≡◌, refl, sym, ◌∙◌, Bool, true, false, not, ◌&&◌, none, List, [], ◌∷◌, ◌++◌,
  ltb, if◌then◌else◌, Bool-cases, if_lem, All, arith, inl, inr,
}
use telegram_server.Common.Text.{Text, text_beq, text_beq_iff}
use telegram_server.Store.Codes.{
  PhoneCode, is_consumed, one_attempt, get_code, update_where, delete_expired,
}

-- An update that keeps the hash, and makes no row unconsumed.
abbrev pub Spends : (PhoneCode → PhoneCode) → Type 0
Spends change =
    (r : PhoneCode)
    → ((change r).code_hash ≡ r.code_hash)
      × (is_consumed (change r) ≡ false → is_consumed r ≡ false)

module _ (h : Text) where
  -- The rows of the hash that are not consumed.
  abbrev is_unspent : PhoneCode → Bool
  is_unspent r = text_beq r.code_hash h && not (is_consumed r)

  unfoldable pub unspent : List PhoneCode → ℕ
  unspent [] = 0
  unspent (r ∷ rows) = if is_unspent r then unspent rows + 1 else unspent rows

  abbrev pub HasWrong : ℕ → List PhoneCode → Type 0
  HasWrong n rows = All (λ r. r.code_hash ≡ h → r.attempts ≡ n) rows

  pub unspent-append : (xs ys : List PhoneCode) → unspent (xs ++ ys) ≡ unspent xs + unspent ys
  unfolding unspent
  unspent-append [] ys = omega arith
  unspent-append (x ∷ xs) ys = ground (arith, unspent-append xs ys)

  pub unspent-update :
      (test : PhoneCode → Bool) (change : PhoneCode → PhoneCode) (rows : List PhoneCode)
      → Spends change
      → unspent (update_where test change rows).0 ≤ unspent rows
  unfolding unspent update_where
  unspent-update test change [] s = omega arith
  unspent-update test change (r ∷ rows) s =
      ground (arith, unspent-update test change rows s, (s r).0, (s r).1)

  pub HasWrong-update :
      (n : ℕ) (test : PhoneCode → Bool) (change : PhoneCode → PhoneCode) (rows : List PhoneCode)
      → ((r : PhoneCode)
          → ((change r).code_hash ≡ r.code_hash) × ((change r).attempts ≡ r.attempts))
      → HasWrong n rows
      → HasWrong n (update_where test change rows).0
  unfolding update_where
  HasWrong-update n test change [] s w = w
  HasWrong-update n test change (r ∷ rows) s w =
      let rest = HasWrong-update n test change rows s w.1 in
      elim (Bool-cases (test r)) [
        | inl e ↦ rw e ((λ q. (s r).1 ∙ w.0 (sym (s r).0 ∙ q)), rest)
        | inr e ↦ rw e (w.0, rest)
      ]

  -- An update of rows of one hash that consumes each: what it affects was unspent.
  pub unspent-spend :
      (test : PhoneCode → Bool) (change : PhoneCode → PhoneCode) (hash : Text)
      (rows : List PhoneCode)
      → ((r : PhoneCode)
          → test r ≡ true
          → (text_beq r.code_hash hash ≡ true) × (is_consumed r ≡ false))
      → ((r : PhoneCode) → ((change r).code_hash ≡ r.code_hash) × (is_consumed (change r) ≡ true))
      → unspent (update_where test change rows).0
          + (if text_beq hash h then (update_where test change rows).1 else 0)
        ≡ unspent rows
  unfolding unspent update_where
  unspent-spend test change hash [] t c = ground arith
  unspent-spend test change hash (r ∷ rows) t c = ground (
    arith,
    unspent-spend test change hash rows t c,
    t r,
    (c r).0,
    (c r).1,
    text_beq_iff r.code_hash hash,
  )

  -- With three wrong guesses no row of the hash is consumable.
  pub spend_exhausted :
      (n : ℕ) (test : PhoneCode → Bool) (change : PhoneCode → PhoneCode) (hash : Text)
      (rows : List PhoneCode)
      → ((r : PhoneCode) → test r ≡ true → (text_beq r.code_hash hash ≡ true) × (r.attempts < 3))
      → text_beq hash h ≡ true
      → 3 ≤ n
      → HasWrong n rows
      → (update_where test change rows).1 ≡ 0
  unfolding update_where
  spend_exhausted n test change hash [] t e many w = refl
  spend_exhausted n test change hash (r ∷ rows) t e many w = elim (Bool-cases (test r)) [
    | inl p ↦
        let same : r.code_hash ≡ h =
          (text_beq_iff r.code_hash hash).0 (t r p).0 ∙ (text_beq_iff hash h).0 e in
        absurd (omega (arith, (t r p).1, w.0 same, many))
    | inr p ↦ rw p (spend_exhausted n test change hash rows t e many w.1)
  ]

  pub HasWrong-increment :
      (n : ℕ) (rows : List PhoneCode) (hash : Text)
      → HasWrong n rows
      → HasWrong
          (if text_beq hash h then n + 1 else n)
          (update_where (λ r. text_beq r.code_hash hash) one_attempt rows).0
  unfolding update_where
  HasWrong-increment n [] hash w = w
  HasWrong-increment n (r ∷ rows) hash w =
      let rest = HasWrong-increment n rows hash w.1 in
      elim (Bool-cases (text_beq r.code_hash hash)) [
        | inl e ↦
            let same : r.code_hash ≡ hash = (text_beq_iff r.code_hash hash).0 e in
            rw e ((λ q. ground (arith, w.0 q, text_beq_iff hash h, same)), rest)
        | inr e ↦
            rw e (
              (λ q. ground (arith, w.0 q, text_beq_iff hash h, text_beq_iff r.code_hash hash)),
              rest,
            )
      ]

  pub HasWrong-none : (n m : ℕ) (rows : List PhoneCode) → get_code rows h ≡ none → HasWrong m rows
  unfolding get_code
  HasWrong-none n m [] e = tt
  HasWrong-none n m (r ∷ rows) e = (
    (λ q. absurd (ground (arith, (text_beq_iff r.code_hash h).1 q, e))),
    HasWrong-none n m rows (ground (arith, e)),
  )

  pub HasWrong-delete :
      (n : ℕ) (rows : List PhoneCode) (now : ℕ)
      → HasWrong n rows
      → HasWrong n (delete_expired rows now)
  unfolding delete_expired
  HasWrong-delete n [] now w = w
  HasWrong-delete n (r ∷ rows) now w =
      if_lem (HasWrong n) (ltb r.expires_at now) (λ _. HasWrong-delete n rows now w.1)
        (λ _. (w.0, HasWrong-delete n rows now w.1))

  pub unspent-delete :
      (rows : List PhoneCode) (now : ℕ) → unspent (delete_expired rows now) ≤ unspent rows
  unfolding unspent delete_expired
  unspent-delete [] now = omega arith
  unspent-delete (r ∷ rows) now = ground (arith, unspent-delete rows now)
