-- ===== src/Mtproto/Registry/Counts.antt =====
-- internal/mtproto/sessions.go: the total, the per-user lists and the recovery list agree.
use telegram_server.Common.{
  ℕ, zero, suc, ◌-◌, ◌%◌, ◌^◌, ◌≤◌, ◌<◌, ◌≡◌, inl, inr, refl, ◌∙◌, sym, Bool, true, false, none,
  some, List, [], ◌∷◌, ◌++◌, length, length-append, length-remove_at, remove_at, is_empty, ◌==◌,
  ltb, leb, if◌then◌else◌, if_lem, nat_eq, Option-cases, arith,
}
use telegram_server.Common.Dict.{lookup_or, insert, lookup_or-insert, beq_refl}
use telegram_server.Common.Index.{find_index, find_index-lt}
use telegram_server.Mtproto.Registry.{
  Registry, new_registry, conns, add, remove, remove_user, remove_recovery, move_cursor, prune_user,
}
use telegram_server.Mtproto.Registry.Totals.{
  total, IsKeyed, IsFilled, nobody, total-insert, total-delete, insert-IsKeyed, delete-IsKeyed,
  insert-IsFilled, delete-IsFilled, delete-insert, lookup-IsFilled,
}
use native.Mathlib.Nat.{mod-lt}

abbrev pub is_listed : ℕ → List ℕ → Bool
is_listed c xs = elim (find_index (λ x. x == c) xs) [ some i ↦ true | none ↦ false ]

-- The serving loop of a connection adds it under one user, and removes it under that user: at a
-- removal the connection is in the list of the user exactly if it is in the recovery list.
pub data Step (r : Registry) : Registry → Type 0 where
  adds : (user c : ℕ) → Step r (add r user c).0
  removes :
      (user c : ℕ)
      → is_listed c (conns r user) ≡ is_listed c r.recovery_conns
      → Step r (remove r user c)

pub data Steps (r : Registry) : Registry → Type 0 where
  done : Steps r r
  and_then : (v u : Registry) → Steps r v → Step v u → Steps r u

-- The recovery list is as long as the lists of the users together, which is the total as an int64;
-- every entry has between one and twenty connections; and the cursor is in range.
pub record IsTally (r : Registry) : Type 0 where
  pub keyed : IsKeyed r.users
  pub filled : IsFilled r.users
  pub same : length r.recovery_conns ≡ total r.users
  pub exact : r.total_conns ≡ total r.users % 2 ^ 64
  pub ranged : r.recovery_cursor ≤ length r.recovery_conns - 1

add-IsTally : (r : Registry) (user c : ℕ) → IsTally r → IsTally (add r user c).0
unfolding add
add-IsTally r user c t =
    let cs = conns r user in
    if_lem (λ (x : Registry × Bool). IsTally x.0) (leb 20 (length cs)) (λ _. t)
      (λ room. record {
        keyed = insert-IsKeyed r.users user (cs ++ c ∷ []) t.keyed;
        filled =
            insert-IsFilled r.users user (cs ++ c ∷ []) (omega (arith, length-append cs (c ∷ [])))
              (ground (arith, length-append cs (c ∷ []), room)) t.filled;
        same = omega (
          arith,
          t.same,
          length-append cs (c ∷ []),
          length-append r.recovery_conns (c ∷ []),
          total-insert r.users user (cs ++ c ∷ []),
        );
        exact =
            omega
              (arith, t.exact, length-append cs (c ∷ []), total-insert r.users user (cs ++ c ∷ []));
        ranged = omega (arith, t.ranged, length-append r.recovery_conns (c ∷ []));
      })

move-range : (cursor i left : ℕ) → move_cursor cursor i left ≤ left - 1
unfolding move_cursor
move-range cursor i zero = omega arith
move-range cursor i (suc left) =
    let some_left : 0 < suc left = omega arith in
    omega (arith, mod-lt (if ltb i cursor then cursor - 1 else cursor) some_left)

no_length : (xs : List ℕ) → is_empty xs ≡ true → length xs ≡ 0
no_length [] e = refl
no_length (x ∷ xs) e = absurd (ground arith)

some_length : (xs : List ℕ) → is_empty xs ≡ false → 0 < length xs
some_length [] e = absurd (ground arith)
some_length (x ∷ xs) e = omega arith

-- A user whose list is empty has no connections to lose with its entry.
prune-IsTally : (r : Registry) (user : ℕ) → IsTally r → IsTally (prune_user r user)
unfolding prune_user
prune-IsTally r user t =
    if_lem IsTally (is_empty (conns r user))
      (λ e. record {
        keyed = delete-IsKeyed r.users user t.keyed;
        filled = delete-IsFilled r.users user t.filled;
        same =
            ground (arith, t.same, total-delete r.users user t.keyed, no_length (conns r user) e);
        exact =
            ground (arith, t.exact, total-delete r.users user t.keyed, no_length (conns r user) e);
        ranged = t.ranged;
      })
      (λ _. t)

drop_both : Registry → ℕ → ℕ → ℕ → Registry
unfolding remove_user remove_recovery
drop_both r user i j = remove_recovery (remove_user r user (some i)) (some j)

drop-IsTally :
    (r : Registry) (user i j : ℕ)
    → i < length (conns r user)
    → j < length r.recovery_conns
    → IsTally r
    → IsTally (prune_user (drop_both r user i j) user)
unfolding drop_both prune_user remove_user remove_recovery
drop-IsTally r user i j h b t =
    let cs = remove_at (conns r user) i in
    let shorter = length-remove_at (conns r user) i h in
    let fewer = length-remove_at r.recovery_conns j b in
    let sum = total-insert r.users user cs in
    let found : lookup_or (insert r.users user cs) user [] ≡ cs =
      lookup_or-insert r.users user user cs [] ∙ rw (beq_refl user) in
    rw found (
      if_lem IsTally (is_empty cs)
        (λ e. rw (delete-insert r.users user cs) (record {
          keyed = delete-IsKeyed r.users user t.keyed;
          filled = delete-IsFilled r.users user t.filled;
          same =
              omega
                (arith, t.same, shorter, fewer, no_length cs e, total-delete r.users user t.keyed);
          exact =
              omega (arith, t.exact, shorter, no_length cs e, total-delete r.users user t.keyed);
          ranged = move-range r.recovery_cursor j (length (remove_at r.recovery_conns j));
        }))
        (λ e. record {
          keyed = insert-IsKeyed r.users user cs t.keyed;
          filled =
              insert-IsFilled r.users user cs (some_length cs e)
                (omega (arith, shorter, lookup-IsFilled r.users user t.filled)) t.filled;
          same = omega (arith, t.same, shorter, fewer, sum);
          exact = omega (arith, t.exact, shorter, sum, h);
          ranged = move-range r.recovery_cursor j (length (remove_at r.recovery_conns j));
        }))

remove-IsTally :
    (r : Registry) (user c : ℕ)
    → is_listed c (conns r user) ≡ is_listed c r.recovery_conns
    → IsTally r
    → IsTally (remove r user c)
unfolding remove remove_user remove_recovery drop_both
remove-IsTally r user c e t =
    let here : ℕ → Bool = λ x. x == c in
    elim (Option-cases (find_index here (conns r user))) [
      | inl p ↦ elim (Option-cases (find_index here r.recovery_conns)) [
        | inl q ↦ rw (p, q) (prune-IsTally r user t)
        | inr (j, q) ↦ absurd (ground (arith, e, p, q))
      ]
      | inr (i, p) ↦ elim (Option-cases (find_index here r.recovery_conns)) [
        | inl q ↦ absurd (ground (arith, e, p, q))
        | inr (j, q) ↦
            rw (p, q)
              (drop-IsTally r user i j (find_index-lt here (conns r user) i p)
                (find_index-lt here r.recovery_conns j q) t)
      ]
    ]

-- However connections come and go, each removed under the user that it was added under, no user has
-- more than twenty or an entry with none, the recovery list has as many connections as all users
-- together, the total is that number as an int64, and the recovery cursor is a position of the list,
-- or 0.
pub Steps-IsTally : (r : Registry) → Steps new_registry r → IsTally r
unfolding new_registry
Steps-IsTally r done = record {
  keyed = nobody.0;
  filled = nobody.1;
  same = sym nobody.2;
  exact = ground (arith, nobody.2);
  ranged = omega arith;
}
Steps-IsTally r (and_then v u w (adds user c)) = add-IsTally v user c (Steps-IsTally v w)
Steps-IsTally r (and_then v u w (removes user c e)) = remove-IsTally v user c e (Steps-IsTally v w)
