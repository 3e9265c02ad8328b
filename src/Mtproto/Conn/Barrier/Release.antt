-- ===== src/Mtproto/Conn/Barrier/Release.antt =====
-- internal/mtproto/send.go: releasing an attempt undoes its reservation.
use telegram_server.Common.{
  ℕ, ◌+◌, ◌-◌, ◌^◌, ◌≤◌, ◌<◌, ◌≡◌, refl, ◌⊎◌, inl, inr, Bool, true, false, none, some, List, [],
  ◌∷◌, ◌++◌, length, All, arith, ltb, ◌==◌, if◌then◌else◌, ==_refl, All-mono, remove_at_last,
  Option-cases,
}
use telegram_server.Common.Index.{find_index_last}
use telegram_server.Mtproto.Conn.Barrier.{
  Barriers, Reservation, OverflowEntry, bump_id, begin_attempt, overflow_reservation, known_pts,
  register, enter_queue, enter_overflow, saturate, has_id, remove_pending, remove_overflow,
}
use telegram_server.Mtproto.Conn.Barrier.Shape.{IsValid, bump_id_pos}
use telegram_server.Mtproto.Conn.Barrier.Kept.{empty_length}
use telegram_server.Mtproto.Conn.Barrier.Settle.{
  clear_attempt, clear_overflow_attempt, clear_queued_attempt,
}

-- The counter has not come round, so no entry has an id above it.
pub record IsFresh (b : Barriers) : Type 0 where
  pub room : b.next_id < 2 ^ 64 - 1
  pub queue_below : All (λ id. id ≤ b.next_id) b.pending_ids
  pub overflow_below : All (λ (e : OverflowEntry). e.id ≤ b.next_id) b.overflow

bump_fresh : (n : ℕ) → n < 2 ^ 64 - 1 → bump_id n ≡ n + 1
unfolding bump_id
bump_fresh n h = ground arith

-- Two states with the same barriers, whatever their counters.
pub record SameBarriers (b c : Barriers) : Type 0 where
  pub pts : b.pending_pts ≡ c.pending_pts
  pub ids : b.pending_ids ≡ c.pending_ids
  pub ready : b.pending_ready ≡ c.pending_ready
  pub overflow : b.overflow ≡ c.overflow
  pub watermark : b.last_pushed_pts ≡ c.last_pushed_pts

ids_differ : (n : ℕ) (ids : List ℕ) → All (λ id. id ≤ n) ids → All (λ id. (id == n + 1) ≡ false) ids
ids_differ n ids a = All-mono _ _ ids (λ id h. ground arith) a

entries_differ :
    (n : ℕ) (es : List OverflowEntry)
    → All (λ (e : OverflowEntry). e.id ≤ n) es
    → All (λ (e : OverflowEntry). has_id (n + 1) e ≡ false) es
entries_differ n es a = All-mono _ _ es (λ e h. ground arith) a

nil_of_length : {A : Type 0} (xs : List A) → length xs ≡ 0 → xs ≡ []
nil_of_length [] h = refl
nil_of_length (x ∷ xs) h = absurd (omega arith)

-- What `remove_pending` leaves of a queue to which one barrier was added.
remove_new :
    (b : Barriers) (owner key id pts : ℕ)
    → IsValid b
    → SameBarriers
        (remove_pending
          (record b {
            next_id = id;
            pending_owner = owner;
            pending_auth_key = key;
            pending_pts = b.pending_pts ++ pts ∷ [];
            pending_ids = b.pending_ids ++ id ∷ [];
            pending_ready = b.pending_ready ++ false ∷ [];
          })
          (length b.pending_ids))
        b
unfolding remove_pending
remove_new b owner key id pts v = ground (
  arith,
  remove_at_last b.pending_pts pts,
  remove_at_last b.pending_ids id,
  remove_at_last b.pending_ready false,
  nil_of_length b.pending_ids,
  nil_of_length b.pending_ready,
  empty_length b.pending_pts,
)

queue_roundtrip :
    (b : Barriers) (owner key pts : ℕ)
    → IsValid b
    → IsFresh b
    → b.owner ≡ owner
    → b.auth_key_id ≡ key
    → let (b', r, _) = enter_queue b owner key pts in
      ((clear_queued_attempt b' r).1 ≡ true) × SameBarriers (clear_queued_attempt b' r).0 b
unfolding enter_queue clear_queued_attempt
queue_roundtrip b owner key pts v f eo ek =
    let found =
      find_index_last (λ x. x == bump_id b.next_id) b.pending_ids (bump_id b.next_id)
        (rw (bump_fresh b.next_id f.room) (ids_differ b.next_id b.pending_ids f.queue_below))
        (==_refl _) in
    ground (arith, found, remove_new b owner key (bump_id b.next_id) pts v)

overflow_roundtrip :
    (b : Barriers) (owner key : ℕ)
    → IsFresh b
    → b.owner ≡ owner
    → b.auth_key_id ≡ key
    → let (b', r, _) = enter_overflow b owner key in
      ((clear_overflow_attempt b' r).1 ≡ true) × SameBarriers (clear_overflow_attempt b' r).0 b
unfolding enter_overflow clear_overflow_attempt remove_overflow
overflow_roundtrip b owner key f eo ek =
    let id = bump_id b.next_id in
    let e : OverflowEntry = record { id = id; pts = 0; ready = false } in
    let found =
      find_index_last (has_id id) b.overflow e
        (rw (bump_fresh b.next_id f.room) (entries_differ b.next_id b.overflow f.overflow_below))
        (==_refl _) in
    ground (arith, found, bump_id_pos b.next_id, remove_at_last b.overflow e)

known_pts-owned :
    (b : Barriers) (owner key pts : ℕ) (r : Reservation)
    → known_pts b owner key pts ≡ some r
    → r.owned ≡ false
unfolding known_pts
known_pts-owned b owner key pts r e = ground arith

-- The release of what an attempt returned gives back the state before it.
abbrev pub IsUndone : Barriers → Barriers × Reservation × Bool → Type 0
IsUndone b t = ((clear_attempt t.0 t.1).1 ≡ true) × SameBarriers (clear_attempt t.0 t.1).0 b

register_cases :
    (b : Barriers) (owner key pts : ℕ)
    → (register b owner key pts ≡ (b, overflow_reservation owner key 0 false, false))
      ⊎ (register b owner key pts ≡ saturate b owner key)
      ⊎ (register b owner key pts ≡ enter_overflow b owner key)
      ⊎ (register b owner key pts ≡ enter_queue b owner key pts)
unfolding register
register_cases b owner key pts = ground arith

register-IsUndone :
    (b : Barriers) (owner key pts : ℕ)
    → IsValid b
    → IsFresh b
    → b.owner ≡ owner
    → b.auth_key_id ≡ key
    → (register b owner key pts).1.owned ≡ true
    → IsUndone b (register b owner key pts)
register-IsUndone b owner key pts v f eo ek o = elim (register_cases b owner key pts) [
  | inl e ↦ cc
  | inr (inl e) ↦ unfold saturate in cc
  | inr (inr (inl e)) ↦
      rw e (unfold enter_overflow clear_attempt in overflow_roundtrip b owner key f eo ek)
  | inr (inr (inr e)) ↦
      rw e (unfold enter_queue clear_attempt in queue_roundtrip b owner key pts v f eo ek)
]

begin_cases :
    (b : Barriers) (owner key pts : ℕ)
    → ((begin_attempt b owner key pts).1.owned ≡ false)
      ⊎ ((b.owner ≡ owner)
          × (b.auth_key_id ≡ key)
          × (begin_attempt b owner key pts ≡ register b owner key pts))
unfolding begin_attempt
begin_cases b owner key pts =
    elim (Option-cases (if ltb 0 pts then known_pts b owner key pts else none)) [
      | inl e ↦ ground arith
      | inr (r, e) ↦ ground (arith, known_pts-owned b owner key pts r)
    ]

-- An attempt that owns its reservation, in the queue or in the overflow, releases exactly what it
-- registered: the barriers and the watermark are as they were before the attempt, provided that the
-- 64-bit counter of ids has not come round.
pub clear_attempt-begin_attempt :
    (b : Barriers) (owner key pts : ℕ)
    → IsValid b
    → IsFresh b
    → (begin_attempt b owner key pts).1.owned ≡ true
    → IsUndone b (begin_attempt b owner key pts)
clear_attempt-begin_attempt b owner key pts v f o = elim (begin_cases b owner key pts) [
  | inl e ↦ cc
  | inr (eo, ek, e) ↦ rw e (register-IsUndone b owner key pts v f eo ek (rw e at o))
]
