-- ===== src/Mtproto/Conn/Barrier/Kept.antt =====
-- internal/mtproto/send.go: the remaining operations keep the shape of the barriers.
use telegram_server.Common.{
  ℕ, zero, suc, ◌-◌, ◌^◌, ◌<◌, ◌≡◌, refl, inl, inr, true, false, List, [], ◌∷◌, length, is_empty,
  get_or, set, remove_at, All, arith, length-set, ◌==◌, length-remove_at, All-set, All-remove_at,
  Option-cases, Bool-cases,
}
use telegram_server.Common.Index.{find_index, find_last_index, find_index-lt}
use telegram_server.Mtproto.Conn.Barrier.{
  Barriers, Reservation, OverflowEntry, nil_entry, has_id, remove_pending, remove_overflow,
}
use telegram_server.Mtproto.Conn.Barrier.Shape.{IsValid}
use telegram_server.Mtproto.Conn.Barrier.Settle.{
  set_pts, set_overflow_pts, set_queued_pts, set_pts_attempt, clear, clear_overflow_attempt,
  clear_queued_attempt, clear_attempt, raise_watermark, mark,
}

pub nonempty_of_lt : {i : ℕ} {A : Type 0} (xs : List A) → i < length xs → is_empty xs ≡ false
nonempty_of_lt [] h = absurd (omega arith)
nonempty_of_lt (x ∷ xs) h = refl

pub empty_length : {A : Type 0} (xs : List A) → is_empty xs ≡ true → length xs ≡ 0
empty_length [] h = refl
empty_length (x ∷ xs) h = cc

pub length_pos : {A : Type 0} (xs : List A) → is_empty xs ≡ false → 0 < length xs
length_pos [] h = cc
length_pos (x ∷ xs) h = omega arith

pub own_of_lt :
    (b : Barriers) (i : ℕ)
    → IsValid b
    → i < length b.pending_pts
    → (b.pending_owner ≡ b.owner) × (b.pending_auth_key ≡ b.auth_key_id)
own_of_lt b i v h = ground (arith, nonempty_of_lt {i = i} b.pending_pts h, v.own_queue)

pub remove_pending-IsValid :
    (b : Barriers) (i : ℕ) → i < length b.pending_pts → IsValid b → IsValid (remove_pending b i)
unfolding remove_pending
remove_pending-IsValid b i h v = elim (Bool-cases (is_empty (remove_at b.pending_pts i))) [
  | inl e ↦
      rw (e, remove_pending)
        (ground
          (arith, length-remove_at b.pending_pts i h, empty_length (remove_at b.pending_pts i) e))
  | inr e ↦
      rw (e, remove_pending)
        (ground (
          arith,
          own_of_lt b i v h,
          length-remove_at b.pending_pts i h,
          length-remove_at b.pending_ids i,
          length-remove_at b.pending_ready i,
          All-remove_at (λ (id : ℕ). 0 < id) b.pending_ids i v.queue_ids,
        ))
]

pub remove_overflow-IsValid :
    (b : Barriers) (i : ℕ) → i < length b.overflow → IsValid b → IsValid (remove_overflow b i)
unfolding remove_overflow
remove_overflow-IsValid b i h v = ground (
  arith,
  length-remove_at b.overflow i h,
  All-remove_at (λ (e : OverflowEntry). 0 < e.id) b.overflow i v.overflow_ids,
)

pub raise_watermark-IsValid :
    (b : Barriers) (pts : ℕ) → pts < 2 ^ 63 → IsValid b → IsValid (raise_watermark b pts)
unfolding raise_watermark
raise_watermark-IsValid b pts h v = ground arith

is_empty-set : {A : Type 0} (xs : List A) (i : ℕ) (x : A) → is_empty (set xs i x) ≡ is_empty xs
is_empty-set [] i x = refl
is_empty-set (y ∷ xs) zero x = refl
is_empty-set (y ∷ xs) (suc i) x = refl

-- Writing the pts of one barrier.
pub write_pts-IsValid :
    (b : Barriers) (i pts : ℕ)
    → IsValid b
    → IsValid (record b { pending_pts = set b.pending_pts i pts })
write_pts-IsValid b i pts v =
    ground (arith, length-set b.pending_pts i pts, is_empty-set b.pending_pts i pts)

-- Raising the watermark leaves the lists alone.
pub raise_watermark-lists :
    (b : Barriers) (pts : ℕ)
    → ((raise_watermark b pts).pending_pts ≡ b.pending_pts)
      × ((raise_watermark b pts).overflow ≡ b.overflow)
unfolding raise_watermark
raise_watermark-lists b pts = ground arith

pub set_pts-IsValid :
    (b : Barriers) (owner key pts : ℕ) → IsValid b → IsValid (set_pts b owner key pts).0
unfolding set_pts
set_pts-IsValid b owner key pts v =
    elim (Option-cases (find_last_index (λ p. p == 0) b.pending_pts)) [
      | inl e ↦ ground arith
      | inr (i, e) ↦ ground (arith, write_pts-IsValid b i pts v)
    ]

pub write_entry-IsValid :
    (b : Barriers) (i : ℕ) (e : OverflowEntry)
    → 0 < e.id
    → IsValid b
    → IsValid (record b { overflow = set b.overflow i e })
write_entry-IsValid b i e h v = ground (
  arith,
  length-set b.overflow i e,
  All-set (λ (x : OverflowEntry). 0 < x.id) b.overflow i e v.overflow_ids h,
)

pub get_or-id_pos :
    (es : List OverflowEntry) (i : ℕ)
    → All (λ (e : OverflowEntry). 0 < e.id) es
    → i < length es
    → 0 < (get_or es i nil_entry).id
get_or-id_pos [] i a h = absurd (omega arith)
get_or-id_pos (e ∷ es) zero a h = a.0
get_or-id_pos (e ∷ es) (suc i) a h = get_or-id_pos es i a.1 (omega arith)

set_overflow_pts-IsValid :
    (b : Barriers) (r : Reservation) (pts : ℕ) → IsValid b → IsValid (set_overflow_pts b r pts).0
unfolding set_overflow_pts
set_overflow_pts-IsValid b r pts v = elim (Option-cases (find_index (has_id r.id) b.overflow)) [
  | inl e ↦ ground arith
  | inr (i, e) ↦ ground (
    arith,
    write_entry-IsValid b i (record (get_or b.overflow i nil_entry) { pts = pts })
        (get_or-id_pos b.overflow i v.overflow_ids (find_index-lt (has_id r.id) b.overflow i e)) v,
  )
]

set_queued_pts-IsValid :
    (b : Barriers) (r : Reservation) (pts : ℕ) → IsValid b → IsValid (set_queued_pts b r pts).0
unfolding set_queued_pts
set_queued_pts-IsValid b r pts v =
    elim (Option-cases (find_index (λ id. id == r.id) b.pending_ids)) [
      | inl e ↦ ground arith
      | inr (i, e) ↦ ground (arith, write_pts-IsValid b i pts v)
    ]

pub set_pts_attempt-IsValid :
    (b : Barriers) (r : Reservation) (pts : ℕ) → IsValid b → IsValid (set_pts_attempt b r pts).0
unfolding set_pts_attempt
set_pts_attempt-IsValid b r pts v =
    ground (arith, set_overflow_pts-IsValid b r pts v, set_queued_pts-IsValid b r pts v)

pub clear-IsValid : (b : Barriers) (owner key : ℕ) → IsValid b → IsValid (clear b owner key).0
unfolding clear
clear-IsValid b owner key v =
    ground (arith, remove_pending-IsValid b (length b.pending_pts - 1), length_pos b.pending_pts)

pub clear_attempt-IsValid :
    (b : Barriers) (r : Reservation) → IsValid b → IsValid (clear_attempt b r).0
unfolding clear_attempt clear_overflow_attempt clear_queued_attempt
clear_attempt-IsValid b r v = elim (Bool-cases r.overflow) [
  | inl o ↦ elim (Option-cases (find_index (has_id r.id) b.overflow)) [
    | inl e ↦ ground arith
    | inr (i, e) ↦
        ground (arith, remove_overflow-IsValid b i (find_index-lt (has_id r.id) b.overflow i e) v)
  ]
  | inr o ↦ elim (Option-cases (find_index (λ id. id == r.id) b.pending_ids)) [
    | inl e ↦ ground arith
    | inr (i, e) ↦
        ground
          (arith, find_index-lt (λ id. id == r.id) b.pending_ids i e, remove_pending-IsValid b i)
  ]
]

pub mark-IsValid : (b : Barriers) (owner key pts : ℕ) → IsValid b → IsValid (mark b owner key pts).0
unfolding mark
mark-IsValid b owner key pts v = ground (
  arith,
  raise_watermark-IsValid b pts,
  raise_watermark-lists b pts,
  remove_pending-IsValid (raise_watermark b pts) 0,
  remove_overflow-IsValid (raise_watermark b pts) 0,
  length_pos b.pending_pts,
  length_pos b.overflow,
)
