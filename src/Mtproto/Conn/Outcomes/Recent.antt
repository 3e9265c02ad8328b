-- ===== src/Mtproto/Conn/Outcomes/Recent.antt =====
-- internal/mtproto/send.go: the ring stands for the list of the last 64 outcomes, newest first.
use telegram_server.Common.{
  ℕ, zero, suc, ◌+◌, ◌-◌, ◌%◌, ◌≤◌, ◌<◌, ◌≡◌, ◌≢◌, refl, sym, ap, ◌∙◌, min, Bool, true, not, ◌||◌,
  Option, none, some, List, [], ◌∷◌, ltb, ◌!=◌, is_pos, signed_lt, if◌then◌else◌, get_or, set,
  length, take, arith, length-set, Bool-cases, inl, inr,
}
use telegram_server.Mtproto.Conn.Outcomes.{
  Outcome, Outcomes, no_outcome, reset, store, push, nth_back, is_match, search, dependency_outcome,
}

pub record IsView (o : Outcomes) (xs : List Outcome) : Type 0 where
  pub ring_length : length o.ring ≡ 64
  pub cursor_in : o.cursor < 64
  pub size_in : o.size ≤ 64
  pub count : length xs ≡ o.size
  pub entries : (i : ℕ) → i < o.size → get_or xs i no_outcome ≡ nth_back o i

reset-IsView : IsView reset []
unfolding reset
reset-IsView = record {
  ring_length = refl;
  cursor_in = omega arith;
  size_in = omega arith;
  count = refl;
  entries = λ i h. absurd (omega arith);
}

get_or-set_self {ℓ} :
    {A : Type ℓ} (xs : List A) (i : ℕ) (v d : A) → i < length xs → get_or (set xs i v) i d ≡ v
get_or-set_self [] i v d h = absurd (omega arith)
get_or-set_self (x ∷ xs) zero v d h = refl
get_or-set_self (x ∷ xs) (suc i) v d h = get_or-set_self xs i v d (omega arith)

get_or-set_ne {ℓ} :
    {A : Type ℓ} (xs : List A) (i j : ℕ) (v d : A) → i ≢ j → get_or (set xs i v) j d ≡ get_or xs j d
get_or-set_ne [] i j v d h = refl
get_or-set_ne (x ∷ xs) zero zero v d h = absurd (h refl)
get_or-set_ne (x ∷ xs) zero (suc j) v d h = refl
get_or-set_ne (x ∷ xs) (suc i) zero v d h = refl
get_or-set_ne (x ∷ xs) (suc i) (suc j) v d h = get_or-set_ne xs i j v d (λ e. h (ap suc e))

get_or-take {ℓ} :
    {A : Type ℓ} (n i : ℕ) (xs : List A) (d : A) → i < n → get_or (take n xs) i d ≡ get_or xs i d
get_or-take zero i xs d h = absurd (omega arith)
get_or-take (suc n) i [] d h = refl
get_or-take (suc n) zero (x ∷ xs) d h = refl
get_or-take (suc n) (suc i) (x ∷ xs) d h = get_or-take n i xs d (omega arith)

length-take {ℓ} : {A : Type ℓ} (n : ℕ) (xs : List A) → length (take n xs) ≡ min n (length xs)
length-take zero xs = omega arith
length-take (suc n) [] = omega arith
length-take (suc n) (x ∷ xs) = omega (arith, length-take n xs)

-- The list after one more outcome.
abbrev pub recent : Outcome → List Outcome → List Outcome
recent x xs = take 64 (x ∷ xs)

store_entries :
    (o : Outcomes) (x : Outcome) (xs : List Outcome)
    → IsView o xs
    → (i : ℕ) → i < (store o x).size
    → get_or (x ∷ take 63 xs) i no_outcome ≡ nth_back (store o x) i
unfolding store nth_back
store_entries o x xs v zero h =
    let e : ((o.cursor + 1) % 64 + 64 - 1 - 0) % 64 ≡ o.cursor = omega (arith, v.cursor_in) in
    rw e (
      sym
        (get_or-set_self o.ring o.cursor x no_outcome (omega (arith, v.ring_length, v.cursor_in))))
store_entries o x xs v (suc j) h =
    let old = (o.cursor + 64 - 1 - j) % 64 in
    let small : j < 63 = ground (arith, v.size_in) in
    let e : ((o.cursor + 1) % 64 + 64 - 1 - suc j) % 64 ≡ old = omega (arith, v.cursor_in) in
    let apart : o.cursor ≢ old = omega (arith, v.cursor_in) in
    rw e (
      get_or-take 63 j xs no_outcome small
      ∙ v.entries j (ground (arith, v.size_in))
      ∙ sym (get_or-set_ne o.ring o.cursor old x no_outcome apart))

next_size : (n k : ℕ) → n ≤ 64 → k ≡ n → suc (min 63 k) ≡ (if ltb n 64 then n + 1 else n)
next_size n k h e = elim (Bool-cases (ltb n 64)) [
  | inl small ↦ rw small (ground arith)
  | inr full ↦ rw full (ground arith)
]

store-IsView :
    (o : Outcomes) (x : Outcome) (xs : List Outcome)
    → IsView o xs
    → IsView (store o x) (recent x xs)
store-IsView o x xs v = record {
  ring_length = unfold store in length-set o.ring o.cursor x ∙ v.ring_length;
  cursor_in = unfold store in omega arith;
  size_in = unfold store in ground (arith, v.size_in);
  count =
      unfold store in (ap suc (length-take 63 xs) ∙ next_size o.size (length xs) v.size_in v.count);
  entries = store_entries o x xs v;
}

-- What the list answers.
pub find_recent : List Outcome → ℕ → ℕ → Option Bool
find_recent [] session dependency = none
find_recent (x ∷ xs) session dependency =
    if is_match session dependency x then some x.success else find_recent xs session dependency

search_view :
    (o : Outcomes) (session dependency : ℕ) (xs : List Outcome) (i : ℕ)
    → ((j : ℕ) → j < length xs → get_or xs j no_outcome ≡ nth_back o (i + j))
    → search o session dependency (length xs) i ≡ find_recent xs session dependency
unfolding search find_recent
search_view o session dependency [] i h = refl
search_view o session dependency (x ∷ xs) i h = ground (
  arith,
  here,
  search_view o session dependency xs (i + 1) (λ j lt. h (suc j) (omega arith) ∙ shifted j),
)
  where
    here : x ≡ nth_back o i
    here = let e : i + 0 ≡ i = omega arith in rw e at (h 0 (omega arith))

    shifted : (j : ℕ) → nth_back o (i + suc j) ≡ nth_back o (i + 1 + j)
    shifted j = let e : i + suc j ≡ i + 1 + j = omega arith in rw e

-- The outcomes that a connection of session `own` recorded, the newest first, and their last 64.
pub push_all : Outcomes → ℕ → List Outcome → Outcomes
push_all o own [] = o
push_all o own (x ∷ xs) = push (push_all o own xs) own x

pub last_64 : ℕ → List Outcome → List Outcome
last_64 own [] = []
last_64 own (x ∷ xs) =
    if not (is_pos x.msg_id) || (x.session != own)
    then last_64 own xs
    else recent x (last_64 own xs)

push_all-IsView : (own : ℕ) (xs : List Outcome) → IsView (push_all reset own xs) (last_64 own xs)
unfolding push_all last_64 push
push_all-IsView own [] = reset-IsView
push_all-IsView own (x ∷ xs) = elim (Bool-cases (not (is_pos x.msg_id) || (x.session != own))) [
  | inl skip ↦ rw skip (push_all-IsView own xs)
  | inr kept ↦ rw kept (store-IsView _ x _ (push_all-IsView own xs))
]

-- After any outcomes, a dependency that is an earlier positive message id of the connection's own
-- session is answered by the newest of the last 64 recorded outcomes with that id, and not found if
-- none of them has it.
pub dependency_outcome_recent :
    (own dependency current : ℕ) (xs : List Outcome)
    → is_pos dependency ≡ true
    → signed_lt dependency current ≡ true
    → dependency_outcome (push_all reset own xs) own own dependency current
      ≡ find_recent (last_64 own xs) own dependency
unfolding dependency_outcome
dependency_outcome_recent own dependency current xs hd hc =
    let o = push_all reset own xs in
    let v = push_all-IsView own xs in
    let found =
      search_view o own dependency (last_64 own xs) 0
        (λ j lt. v.entries j (omega (arith, v.count)) ∙ shift o j) in
    ground (arith, found, v.count)
  where
    shift : (o : Outcomes) (j : ℕ) → nth_back o j ≡ nth_back o (0 + j)
    shift o j = let e : 0 + j ≡ j = omega arith in rw e
