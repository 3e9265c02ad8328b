-- ===== src/Mtproto/Registry/Turns.antt =====
-- internal/mtproto/sessions.go: successive recovery snapshots go round all connections.
use telegram_server.Common.{
  ℕ, zero, suc, ◌+◌, ◌-◌, ◌*◌, ◌%◌, ◌≤◌, ◌<◌, min, ◌≡◌, inl, inr, refl, true, false, some, List, [],
  ◌++◌, length, get_elem?, get_or, leb, ◌==◌, is_pos, Bool-cases, arith,
}
use telegram_server.Mtproto.Registry.{Registry, window, candidates}
use native.Mathlib.Nat.{
  suc-mod, mod-mod, mod-lt, mod-eq_of_lt, add-mod_right, add-zero, zero-add, zero-mul, suc-mul,
  add_comm,
}

-- The candidates of `t` ticks in a row, one after the other.
pub turns : Registry → ℕ → ℕ → List ℕ
turns r limit zero = []
turns r limit (suc t) = (candidates r limit).1 ++ turns (candidates r limit).0 limit t

window_cong :
    (xs : List ℕ) (i j n : ℕ) → i % length xs ≡ j % length xs → window xs i n ≡ window xs j n
unfolding window
window_cong xs i j zero e = refl
window_cong xs i j (suc n) e =
    let next : suc i % length xs ≡ suc j % length xs =
      rw (suc-mod i (length xs), suc-mod j (length xs), e) in
    rw (e, window_cong xs (suc i) (suc j) n next)

window-append :
    (xs : List ℕ) (i m n : ℕ) → window xs i m ++ window xs (i + m) n ≡ window xs i (m + n)
unfolding window
window-append xs i zero n = rw (add-zero i, zero-add n)
window-append xs i (suc m) n =
    let shift : i + suc m ≡ suc i + m = omega arith in
    let longer : suc m + n ≡ suc (m + n) = omega arith in
    rw (shift, longer, window-append xs (suc i) m n)

get_elem?-window :
    (xs : List ℕ) (i n k : ℕ)
    → k < n
    → get_elem? (window xs i n) k ≡ some (get_or xs ((i + k) % length xs) 0)
unfolding window
get_elem?-window xs i zero k h = absurd (omega (arith, h))
get_elem?-window xs i (suc n) zero h = rw (add-zero i)
get_elem?-window xs i (suc n) (suc k) h =
    let shift : i + suc k ≡ suc i + k = omega arith in
    rw (shift, get_elem?-window xs (suc i) n k (omega (arith, h)))

candidates_lem :
    (r : Registry) (limit : ℕ)
    → is_pos limit ≡ true
    → 0 < length r.recovery_conns
    → let n = length r.recovery_conns in
      let from = r.recovery_cursor % n in
      candidates r limit ≡ (
        record r { recovery_cursor = (from + min limit n) % n },
        window r.recovery_conns from (min limit n),
      )
unfolding candidates
candidates_lem r limit p q =
    let some_left : (min limit (length r.recovery_conns) == 0) ≡ false = ground arith in
    rw (p, some_left)

turns-window :
    (r : Registry) (limit t : ℕ)
    → is_pos limit ≡ true
    → 0 < length r.recovery_conns
    → turns r limit t
      ≡ window r.recovery_conns
          (r.recovery_cursor % length r.recovery_conns)
          (t * min limit (length r.recovery_conns))
unfolding turns window
turns-window r limit zero p q = rw (zero-mul (min limit (length r.recovery_conns)))
turns-window r limit (suc t) p q =
    let n = length r.recovery_conns in
    let from = r.recovery_cursor % n in
    let count = min limit n in
    let later : Registry = record r { recovery_cursor = (from + count) % n } in
    let turned : (from + count) % n % n % n ≡ (from + count) % n =
      rw (mod-mod (from + count) n, mod-mod (from + count) n) in
    let sum : suc t * count ≡ count + t * count =
      rw (suc-mul t count, add_comm (t * count) count) in
    rw (
      candidates_lem r limit p q,
      turns-window later limit t p q,
      window_cong r.recovery_conns ((from + count) % n % n) (from + count) (t * count) turned,
      window-append r.recovery_conns from count (t * count),
      sum,
    )

-- How far position `k` is from the cursor, cyclically.
offset : (from k n : ℕ) → from < n → k < n → (d : ℕ) × (d < n) × ((from + d) % n ≡ k)
offset from k n f h = elim (Bool-cases (leb from k)) [
  | inl ahead ↦
      let on : from + (k - from) ≡ k = ground arith in
      (k - from, omega (arith, h), rw (on, mod-eq_of_lt h))
  | inr behind ↦
      let on : from + (k + n - from) ≡ k + n = omega (arith, f) in
      (k + n - from, ground (arith, f), rw (on, add-mod_right k n, mod-eq_of_lt h))
]

-- While connections neither come nor go, every one of them is among the candidates of the next ticks,
-- as soon as these have returned as many as there are: no connection starves.
pub turns_all :
    (r : Registry) (limit t k : ℕ)
    → is_pos limit ≡ true
    → k < length r.recovery_conns
    → length r.recovery_conns ≤ t * min limit (length r.recovery_conns)
    → (i : ℕ) × (i < length r.recovery_conns)
      × (get_elem? (turns r limit t) i ≡ some (get_or r.recovery_conns k 0))
turns_all r limit t k p h b =
    let n = length r.recovery_conns in
    let from = r.recovery_cursor % n in
    let some_conn : 0 < n = omega (arith, h) in
    let inside : from < n = mod-lt r.recovery_cursor some_conn in
    let (d, near, on) = offset from k n inside h in
    (
      d,
      near,
      rw (
        turns-window r limit t p some_conn,
        get_elem?-window r.recovery_conns from (t * min limit n) d (omega (arith, near, b)),
        on,
      ),
    )
