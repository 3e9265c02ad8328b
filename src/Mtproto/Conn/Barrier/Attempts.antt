-- ===== src/Mtproto/Conn/Barrier/Attempts.antt =====
-- internal/mtproto/send.go: one request's attempt, from its reservation to its release.
use telegram_server.Common.{
  ℕ, ◌≡◌, ◌≢◌, refl, inl, inr, Bool, true, false, not, ◌||◌, none, some, List, [], ◌∷◌, ◌++◌,
  is_pos, is_neg, is_empty, get_elem?, arith, ltb, ◌==◌, if◌then◌else◌, Option-cases,
}
use telegram_server.Common.Index.{find_index, find_index-some}
use telegram_server.Mtproto.Conn.Barrier.{
  Barriers, Reservation, bump_id, begin_attempt, known_pts, register, enter_queue, enter_overflow,
  saturate,
}
use telegram_server.Mtproto.Conn.Barrier.Shape.{IsValid, begin_attempt-IsValid}
use telegram_server.Mtproto.Conn.Barrier.Settle.{
  set_pts_attempt, set_overflow_pts, set_queued_pts, clear_attempt, clear_overflow_attempt,
  clear_queued_attempt, pending_update,
}

-- A reservation that owns nothing changes nothing: its release is refused, and a later pts for it
-- leaves the barriers as they are.
unowned_harmless :
    (b : Barriers) (r : Reservation) (pts : ℕ)
    → r.owned ≡ false
    → (clear_attempt b r ≡ (b, false)) × ((set_pts_attempt b r pts).0 ≡ b)
unfolding clear_attempt clear_overflow_attempt clear_queued_attempt set_pts_attempt set_overflow_pts
    set_queued_pts
unowned_harmless b r pts h = ground arith

known_pts-unowned :
    (b : Barriers) (owner key pts i : ℕ)
    → get_elem? b.pending_pts i ≡ some pts
    → (r : Reservation) × (known_pts b owner key pts ≡ some r) × (r.owned ≡ false)
unfolding known_pts
known_pts-unowned b owner key pts i e =
    let (j, found) = find_index-some (λ p. p == pts) b.pending_pts i pts e (ground arith) in
    rw (found, known_pts) (_, refl, refl)

-- A retry, by the connection's own binding, with a pts that already waits in the queue registers
-- nothing: the barriers stay as they are, it fits, and it does not own the reservation it gets.
begin_retry :
    (b : Barriers) (owner key pts i : ℕ)
    → is_pos owner ≡ true
    → key ≢ 0
    → is_pos pts ≡ true
    → b.owner ≡ owner
    → b.auth_key_id ≡ key
    → get_elem? b.pending_pts i ≡ some pts
    → ((begin_attempt b owner key pts).0 ≡ b)
      × ((begin_attempt b owner key pts).1.owned ≡ false)
      × ((begin_attempt b owner key pts).2 ≡ true)
unfolding begin_attempt
begin_retry b owner key pts i ho hk hp eo ek e =
    ground (arith, known_pts-unowned b owner key pts i e)

is_empty-snoc : {A : Type 0} (xs : List A) (x : A) → is_empty (xs ++ x ∷ []) ≡ false
is_empty-snoc [] x = refl
is_empty-snoc (y ∷ xs) x = refl

nonempty_of_find :
    {A : Type 0} (test : A → Bool) (xs : List A) (i : ℕ)
    → find_index test xs ≡ some i
    → is_empty xs ≡ false
nonempty_of_find test [] i e = unfold find_index in cc
nonempty_of_find test (x ∷ xs) i e = refl

abbrev has_barrier : Barriers → Bool
has_barrier b = not (is_empty b.pending_pts) || not (is_empty b.overflow) || b.saturated

pub holds_of_barrier :
    (b : Barriers) → IsValid b → has_barrier b ≡ true → (pending_update b b.owner).1 ≡ true
unfolding pending_update
holds_of_barrier b v h = ground (arith, v.own_queue)

register-barrier :
    (b : Barriers) (owner key pts : ℕ) → has_barrier (register b owner key pts).0 ≡ true
unfolding register enter_queue enter_overflow saturate
register-barrier b owner key pts =
    let id = bump_id b.next_id in
    ground (
      arith,
      is_empty-snoc b.pending_pts pts,
      is_empty-snoc b.overflow (record { id = id; pts = 0; ready = false }),
    )

register-owner : (b : Barriers) (owner key pts : ℕ) → (register b owner key pts).0.owner ≡ b.owner
unfolding register enter_queue enter_overflow saturate
register-owner b owner key pts = ground arith

known_pts-barrier :
    (b : Barriers) (owner key pts : ℕ) (r : Reservation)
    → known_pts b owner key pts ≡ some r
    → has_barrier b ≡ true
unfolding known_pts
known_pts-barrier b owner key pts r e =
    elim (Option-cases (find_index (λ p. p == pts) b.pending_pts)) [
      | inr (i, p) ↦ rw (nonempty_of_find (λ p. p == pts) b.pending_pts i p)
      | inl p ↦ elim (Option-cases (find_index (λ x. x.pts == pts) b.overflow)) [
        | inr (j, q) ↦ ground (arith, nonempty_of_find (λ x. x.pts == pts) b.overflow j q)
        | inl q ↦ ground arith
      ]
    ]

begin-barrier :
    (b : Barriers) (owner key pts : ℕ)
    → is_pos owner ≡ true
    → key ≢ 0
    → is_neg pts ≡ false
    → b.owner ≡ owner
    → b.auth_key_id ≡ key
    → (has_barrier (begin_attempt b owner key pts).0 ≡ true)
      × ((begin_attempt b owner key pts).0.owner ≡ owner)
unfolding begin_attempt
begin-barrier b owner key pts ho hk hp eo ek =
    elim (Option-cases (if ltb 0 pts then known_pts b owner key pts else none)) [
      | inl e ↦ ground (arith, register-barrier b owner key pts, register-owner b owner key pts)
      | inr (r, e) ↦ ground (arith, known_pts-barrier b owner key pts r)
    ]

-- After an attempt by the connection's own binding, with a pts that is not negative, generic delivery
-- to the owner is held back, whether the barrier entered the queue or the overflow, was already
-- there, or found both full.
begin_holds :
    (b : Barriers) (owner key pts : ℕ)
    → IsValid b
    → is_pos owner ≡ true
    → key ≢ 0
    → is_neg pts ≡ false
    → b.owner ≡ owner
    → b.auth_key_id ≡ key
    → (pending_update (begin_attempt b owner key pts).0 owner).1 ≡ true
begin_holds b owner key pts v ho hk hp eo ek =
    let (barrier, same) = begin-barrier b owner key pts ho hk hp eo ek in
    cc (
      same,
      holds_of_barrier (begin_attempt b owner key pts).0 (begin_attempt-IsValid b owner key pts v)
          barrier,
    )
