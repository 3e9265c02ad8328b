-- ===== src/Mtproto/Registry/Totals.antt =====
-- internal/mtproto/sessions.go: how many connections the map of the users holds.
use telegram_server.Common.{
  ℕ, ◌+◌, ◌≤◌, ◌<◌, ◌≡◌, inl, inr, refl, false, List, [], ◌∷◌, length, ◌==◌, if_lem, nat_eq, All,
  Bool-cases, arith,
}
use telegram_server.Common.Dict.{lookup_or, insert, delete}

-- The connections of all users.
pub total : List (ℕ × List ℕ) → ℕ
total [] = 0
total ((user, cs) ∷ m) = length cs + total m

pub IsAbsent : ℕ → List (ℕ × List ℕ) → Type 0
IsAbsent user m = All (λ entry. (entry.0 == user) ≡ false) m

-- Each user has one entry at most.
pub IsKeyed : List (ℕ × List ℕ) → Type 0
IsKeyed [] = Unit
IsKeyed ((user, cs) ∷ m) = IsAbsent user m × IsKeyed m

pub IsFilled : List (ℕ × List ℕ) → Type 0
IsFilled m = All (λ entry. (0 < length entry.1) × (length entry.1 ≤ 20)) m

pub nobody : IsKeyed [] × IsFilled [] × (total [] ≡ 0)
unfolding IsKeyed IsFilled total
nobody = (tt, tt, refl)

pub total-insert :
    (m : List (ℕ × List ℕ)) (user : ℕ) (cs : List ℕ)
    → total (insert m user cs) + length (lookup_or m user []) ≡ total m + length cs
unfolding total insert lookup_or
total-insert [] user cs = omega arith
total-insert ((u, ds) ∷ m) user cs = ground (arith, total-insert m user cs)

insert-IsAbsent :
    (m : List (ℕ × List ℕ)) (other user : ℕ) (cs : List ℕ)
    → (user == other) ≡ false
    → IsAbsent other m
    → IsAbsent other (insert m user cs)
unfolding insert IsAbsent
insert-IsAbsent [] other user cs e a = (e, tt)
insert-IsAbsent ((u, ds) ∷ m) other user cs e a =
    if_lem (All (λ entry. (entry.0 == other) ≡ false)) (u == user) (λ _. (e, a.1))
      (λ _. (a.0, insert-IsAbsent m other user cs e a.1))

pub insert-IsKeyed :
    (m : List (ℕ × List ℕ)) (user : ℕ) (cs : List ℕ) → IsKeyed m → IsKeyed (insert m user cs)
unfolding insert IsKeyed
insert-IsKeyed [] user cs k = (unfold IsAbsent in tt, tt)
insert-IsKeyed ((u, ds) ∷ m) user cs k =
    if_lem IsKeyed (u == user) (λ e. let same : user ≡ u = ground (arith, e) in (rw same k.0, k.1))
      (λ e. (insert-IsAbsent m u user cs (ground (arith, e)) k.0, insert-IsKeyed m user cs k.1))

delete-IsAbsent :
    (m : List (ℕ × List ℕ)) (other user : ℕ) → IsAbsent other m → IsAbsent other (delete m user)
unfolding delete IsAbsent
delete-IsAbsent [] other user a = tt
delete-IsAbsent ((u, ds) ∷ m) other user a =
    if_lem (All (λ entry. (entry.0 == other) ≡ false)) (u == user)
      (λ _. delete-IsAbsent m other user a.1) (λ _. (a.0, delete-IsAbsent m other user a.1))

pub delete-IsKeyed : (m : List (ℕ × List ℕ)) (user : ℕ) → IsKeyed m → IsKeyed (delete m user)
unfolding delete IsKeyed
delete-IsKeyed [] user k = tt
delete-IsKeyed ((u, ds) ∷ m) user k =
    if_lem IsKeyed (u == user) (λ _. delete-IsKeyed m user k.1)
      (λ _. (delete-IsAbsent m u user k.0, delete-IsKeyed m user k.1))

delete_absent : (m : List (ℕ × List ℕ)) (user : ℕ) → IsAbsent user m → delete m user ≡ m
unfolding delete IsAbsent
delete_absent [] user a = refl
delete_absent ((u, ds) ∷ m) user a = rw (a.0, delete_absent m user a.1)

pub total-delete :
    (m : List (ℕ × List ℕ)) (user : ℕ)
    → IsKeyed m
    → total (delete m user) + length (lookup_or m user []) ≡ total m
unfolding total delete lookup_or IsKeyed
total-delete [] user k = refl
total-delete ((u, ds) ∷ m) user k = elim (Bool-cases (u == user)) [
  | inl e ↦
      let same : user ≡ u = ground (arith, e) in
      let gone : delete m user ≡ m = rw same (delete_absent m u k.0) in ground (arith, e, gone)
  | inr e ↦ ground (arith, e, total-delete m user k.1)
]

pub insert-IsFilled :
    (m : List (ℕ × List ℕ)) (user : ℕ) (cs : List ℕ)
    → 0 < length cs
    → length cs ≤ 20
    → IsFilled m
    → IsFilled (insert m user cs)
unfolding insert IsFilled
insert-IsFilled [] user cs p q f = ((p, q), tt)
insert-IsFilled ((u, ds) ∷ m) user cs p q f =
    if_lem (All (λ entry. (0 < length entry.1) × (length entry.1 ≤ 20))) (u == user)
      (λ _. ((p, q), f.1)) (λ _. (f.0, insert-IsFilled m user cs p q f.1))

pub delete-IsFilled : (m : List (ℕ × List ℕ)) (user : ℕ) → IsFilled m → IsFilled (delete m user)
unfolding delete IsFilled
delete-IsFilled [] user f = tt
delete-IsFilled ((u, ds) ∷ m) user f =
    if_lem (All (λ entry. (0 < length entry.1) × (length entry.1 ≤ 20))) (u == user)
      (λ _. delete-IsFilled m user f.1) (λ _. (f.0, delete-IsFilled m user f.1))

pub delete-insert :
    (m : List (ℕ × List ℕ)) (user : ℕ) (cs : List ℕ)
    → delete (insert m user cs) user ≡ delete m user
unfolding insert delete
delete-insert [] user cs = ground arith
delete-insert ((u, ds) ∷ m) user cs = ground (arith, delete-insert m user cs)

pub lookup-IsFilled :
    (m : List (ℕ × List ℕ)) (user : ℕ) → IsFilled m → length (lookup_or m user []) ≤ 20
unfolding lookup_or IsFilled
lookup-IsFilled [] user f = omega arith
lookup-IsFilled ((u, ds) ∷ m) user f = ground (arith, f.0.1, lookup-IsFilled m user f.1)
