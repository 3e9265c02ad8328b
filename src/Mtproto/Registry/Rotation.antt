-- ===== src/Mtproto/Registry/Rotation.antt =====
-- internal/mtproto/sessions.go: what leaves the registry does not disturb the order of the rest.
use telegram_server.Common.{
  ℕ, zero, suc, ◌+◌, ◌-◌, ◌≤◌, ◌<◌, ◌≡◌, inl, inr, refl, ap, ◌∙◌, sym, true, false, some, List, [],
  ◌∷◌, ◌++◌, length, get_elem?, remove_at, take, drop, ltb, Bool-cases, arith, length-remove_at,
}
use telegram_server.Mtproto.Registry.{Registry, move_cursor, remove_recovery}
use mathlib.Core.List.{append-nil}
use native.Mathlib.Nat.{mod-eq_of_lt, mod_self, zero-add, suc-add, add-zero}

-- The order in which the next snapshots take the connections.
-- A list from position `c` on, round to its start.
abbrev pub rotate : ℕ → List ℕ → List ℕ
rotate c xs = drop c xs ++ take c xs

abbrev pub rotation : Registry → List ℕ
rotation r = rotate r.recovery_cursor r.recovery_conns

drop_past : (n : ℕ) (xs : List ℕ) → length xs ≤ n → drop n xs ≡ []
drop_past zero [] h = refl
drop_past zero (x ∷ xs) h = absurd (omega (arith, h))
drop_past (suc n) [] h = refl
drop_past (suc n) (x ∷ xs) h = drop_past n xs (omega (arith, h))

take_past : (n : ℕ) (xs : List ℕ) → length xs ≤ n → take n xs ≡ xs
take_past zero [] h = refl
take_past zero (x ∷ xs) h = absurd (omega (arith, h))
take_past (suc n) [] h = refl
take_past (suc n) (x ∷ xs) h = ap (◌∷◌ x) (take_past n xs (omega (arith, h)))

-- What is removed before the cut.
drop_before : (c i : ℕ) (xs : List ℕ) → i ≤ c → drop c (remove_at xs i) ≡ drop (suc c) xs
drop_before zero zero [] h = refl
drop_before zero zero (x ∷ xs) h = refl
drop_before zero (suc i) xs h = absurd (omega (arith, h))
drop_before (suc c) i [] h = refl
drop_before (suc c) zero (x ∷ xs) h = refl
drop_before (suc c) (suc i) (x ∷ xs) h = drop_before c i xs (omega (arith, h))

take_before :
    (c i : ℕ) (xs : List ℕ) → i ≤ c → take c (remove_at xs i) ≡ remove_at (take (suc c) xs) i
take_before zero zero [] h = refl
take_before zero zero (x ∷ xs) h = refl
take_before zero (suc i) xs h = absurd (omega (arith, h))
take_before (suc c) i [] h = refl
take_before (suc c) zero (x ∷ xs) h = refl
take_before (suc c) (suc i) (x ∷ xs) h = ap (◌∷◌ x) (take_before c i xs (omega (arith, h)))

-- And what is removed after it.
drop_after : (c j : ℕ) (xs : List ℕ) → drop c (remove_at xs (c + j)) ≡ remove_at (drop c xs) j
drop_after zero j xs = rw (zero-add j)
drop_after (suc c) j [] = refl
drop_after (suc c) j (x ∷ xs) = rw (suc-add c j) (drop_after c j xs)

take_after : (c j : ℕ) (xs : List ℕ) → take c (remove_at xs (c + j)) ≡ take c xs
take_after zero j xs = refl
take_after (suc c) j [] = refl
take_after (suc c) j (x ∷ xs) = rw (suc-add c j, take_after c j xs)

get_elem?-drop : (c j : ℕ) (xs : List ℕ) → get_elem? (drop c xs) j ≡ get_elem? xs (c + j)
get_elem?-drop zero j xs = rw (zero-add j)
get_elem?-drop (suc c) j [] = refl
get_elem?-drop (suc c) j (x ∷ xs) = rw (suc-add c j) (get_elem?-drop c j xs)

get_elem?-take : (c i : ℕ) (xs : List ℕ) → i < c → get_elem? (take c xs) i ≡ get_elem? xs i
get_elem?-take zero i xs h = absurd (omega (arith, h))
get_elem?-take (suc c) i [] h = refl
get_elem?-take (suc c) zero (x ∷ xs) h = refl
get_elem?-take (suc c) (suc i) (x ∷ xs) h = get_elem?-take c i xs (omega (arith, h))

remove_at-append :
    (xs ys : List ℕ) (j : ℕ) → remove_at (xs ++ ys) (length xs + j) ≡ xs ++ remove_at ys j
remove_at-append [] ys j = rw (zero-add j)
remove_at-append (x ∷ xs) ys j = rw (suc-add (length xs) j, remove_at-append xs ys j)

get_elem?-append : (xs ys : List ℕ) (j : ℕ) → get_elem? (xs ++ ys) (length xs + j) ≡ get_elem? ys j
get_elem?-append [] ys j = rw (zero-add j)
get_elem?-append (x ∷ xs) ys j = rw (suc-add (length xs) j) (get_elem?-append xs ys j)

remove_at-append_left :
    (xs ys : List ℕ) (j : ℕ) → j < length xs → remove_at (xs ++ ys) j ≡ remove_at xs j ++ ys
remove_at-append_left [] ys j h = absurd (omega (arith, h))
remove_at-append_left (x ∷ xs) ys zero h = refl
remove_at-append_left (x ∷ xs) ys (suc j) h =
    ap (◌∷◌ x) (remove_at-append_left xs ys j (omega (arith, h)))

get_elem?-append_left :
    (xs ys : List ℕ) (j : ℕ) → j < length xs → get_elem? (xs ++ ys) j ≡ get_elem? xs j
get_elem?-append_left [] ys j h = absurd (omega (arith, h))
get_elem?-append_left (x ∷ xs) ys zero h = refl
get_elem?-append_left (x ∷ xs) ys (suc j) h = get_elem?-append_left xs ys j (omega (arith, h))

length-drop : (c : ℕ) (xs : List ℕ) → c ≤ length xs → length (drop c xs) + c ≡ length xs
length-drop zero xs h = rw (add-zero (length xs))
length-drop (suc c) [] h = absurd (omega (arith, h))
length-drop (suc c) (x ∷ xs) h = omega (arith, length-drop c xs (omega (arith, h)))

move_before :
    (cursor i left : ℕ) → i < cursor → cursor ≤ left → move_cursor cursor i left ≡ cursor - 1
unfolding move_cursor
move_before cursor i zero h b = absurd (omega (arith, h, b))
move_before cursor i (suc left) h b =
    let gone : ltb i cursor ≡ true = ground (arith, h) in
    let inside : cursor - 1 < suc left = omega (arith, h, b) in rw gone (mod-eq_of_lt inside)

move_after : (cursor i left : ℕ) → cursor ≤ i → cursor < left → move_cursor cursor i left ≡ cursor
unfolding move_cursor
move_after cursor i zero h b = absurd (omega (arith, b))
move_after cursor i (suc left) h b =
    let later : ltb i cursor ≡ false = ground (arith, h) in rw later (mod-eq_of_lt b)

move_last : (i left : ℕ) → left ≤ i → move_cursor left i left ≡ 0
unfolding move_cursor
move_last i zero h = refl
move_last i (suc left) h =
    let later : ltb i (suc left) ≡ false = ground (arith, h) in rw later (mod_self (suc left))

rotate_before :
    (c i : ℕ) (xs : List ℕ)
    → i ≤ c
    → suc c ≤ length xs
    → (k : ℕ) × (get_elem? (rotate (suc c) xs) k ≡ get_elem? xs i)
      × (rotate c (remove_at xs i) ≡ remove_at (rotate (suc c) xs) k)
rotate_before c i xs h b = (
  length (drop (suc c) xs) + i,
  get_elem?-append (drop (suc c) xs) (take (suc c) xs) i
      ∙ get_elem?-take (suc c) i xs (omega (arith, h)),
  rw (
    drop_before c i xs h,
    take_before c i xs h,
    remove_at-append (drop (suc c) xs) (take (suc c) xs) i,
  ),
)

rotate_after :
    (c j : ℕ) (xs : List ℕ)
    → c + j < length xs
    → (k : ℕ) × (get_elem? (rotate c xs) k ≡ get_elem? xs (c + j))
      × (rotate c (remove_at xs (c + j)) ≡ remove_at (rotate c xs) k)
rotate_after c j xs b =
    let near : j < length (drop c xs) = omega (arith, length-drop c xs (omega (arith, b)), b) in
    (
      j,
      get_elem?-append_left (drop c xs) (take c xs) j near ∙ get_elem?-drop c j xs,
      rw (
        drop_after c j xs,
        take_after c j xs,
        remove_at-append_left (drop c xs) (take c xs) j near,
      ),
    )

-- A cut at the end is one at the start.
rotate_end : (xs : List ℕ) → rotate 0 xs ≡ rotate (length xs) xs
rotate_end xs =
    rw (drop_past (length xs) xs (omega arith), take_past (length xs) xs (omega arith))
      (append-nil xs)

-- The cursor of `Remove` cuts what remains where the old one would.
same_cut :
    (c i : ℕ) (rest : List ℕ)
    → c ≤ i
    → c ≤ length rest
    → rotate (move_cursor c i (length rest)) rest ≡ rotate c rest
same_cut c i rest h b = elim (Bool-cases (ltb c (length rest))) [
  | inl inside ↦ rw (move_after c i (length rest) h (ground arith))
  | inr outside ↦
      let end : c ≡ length rest = ground (arith, b) in
      rw (end, move_last i (length rest) (omega (arith, end, h))) (rotate_end rest)
]

-- Removing the connection at position `i`, with the cursor in range, takes that connection out of the
-- round-robin order, leaves the others in theirs, and leaves the cursor in range.
remove_rotation :
    (r : Registry) (i : ℕ)
    → i < length r.recovery_conns
    → r.recovery_cursor < length r.recovery_conns
    → (k : ℕ) × (get_elem? (rotation r) k ≡ get_elem? r.recovery_conns i)
      × (rotation (remove_recovery r (some i)) ≡ remove_at (rotation r) k)
unfolding remove_recovery
remove_rotation r i h b =
    let c = r.recovery_cursor in
    let rest = remove_at r.recovery_conns i in
    let shorter : suc (length rest) ≡ length r.recovery_conns =
      length-remove_at r.recovery_conns i h in
    let left = length rest in
    elim (Bool-cases (ltb i c)) [
      | inl before ↦
          let moved : move_cursor c i left ≡ c - 1 =
            move_before c i left (ground arith) (omega (arith, shorter, b)) in
          let back : suc (c - 1) ≡ c = ground arith in
          let (k, taken, kept) =
            rotate_before (c - 1) i r.recovery_conns (ground arith) (ground arith) in
          (
            k,
            ap (λ x. get_elem? (rotate x r.recovery_conns) k) (sym back) ∙ taken,
            ap (λ x. rotate x rest) moved
                ∙ kept
                ∙ ap (λ x. remove_at (rotate x r.recovery_conns) k) back,
          )
      | inr later ↦
          let there : c + (i - c) ≡ i = ground arith in
          let (k, taken, kept) = rotate_after c (i - c) r.recovery_conns (rw there h) in
          (
            k,
            taken ∙ ap (get_elem? r.recovery_conns) there,
            same_cut c i rest (ground arith) (omega (arith, shorter, b))
                ∙ ap (λ x. rotate c (remove_at r.recovery_conns x)) (sym there)
                ∙ kept,
          )
    ]
