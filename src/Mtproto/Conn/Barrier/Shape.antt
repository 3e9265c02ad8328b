-- ===== src/Mtproto/Conn/Barrier/Shape.antt =====
-- internal/mtproto/send.go: what every operation on the barriers keeps. The three slices of the queue
-- stay parallel and, with the overflow, within their bounds; a queue belongs to the connection's
-- own binding; and the watermark is a pts.
use telegram_server.Common.{
  ℕ, ◌^◌, ◌≤◌, ◌<◌, ◌≡◌, sym, ◌⊎◌, inr, true, length, is_empty, All, arith, length-append,
  All-append,
}
use telegram_server.Mtproto.Conn.Barrier.{
  Barriers, OverflowEntry, new_barriers, bump_id, begin_attempt, register, enter_overflow,
  enter_queue, saturate,
}

-- The queue is empty and unbound, or bound to the connection's owner and key.
abbrev pub IsOwnQueue : Barriers → Type 0
IsOwnQueue b =
    ((is_empty b.pending_pts ≡ true) × (b.pending_owner ≡ 0) × (b.pending_auth_key ≡ 0))
    ⊎ ((b.pending_owner ≡ b.owner) × (b.pending_auth_key ≡ b.auth_key_id))

pub record IsValid (b : Barriers) : Type 0 where
  pub ids_parallel : length b.pending_ids ≡ length b.pending_pts
  pub ready_parallel : length b.pending_ready ≡ length b.pending_pts
  pub queue_bounded : length b.pending_pts ≤ 64
  pub overflow_bounded : length b.overflow ≤ 64
  pub own_queue : IsOwnQueue b
  pub queue_ids : All (λ id. 0 < id) b.pending_ids
  pub overflow_ids : All (λ (e : OverflowEntry). 0 < e.id) b.overflow
  pub watermark : b.last_pushed_pts < 2 ^ 63

pub new_barriers-IsValid : IsValid new_barriers
new_barriers-IsValid = ground arith

pub bump_id_pos : (n : ℕ) → 0 < bump_id n
unfolding bump_id
bump_id_pos n = ground arith

enter_queue-IsValid :
    (b : Barriers) (owner key pts : ℕ)
    → IsValid b
    → b.owner ≡ owner
    → b.auth_key_id ≡ key
    → length b.pending_pts < 64
    → IsValid (enter_queue b owner key pts).0
unfolding enter_queue
enter_queue-IsValid b owner key pts v ho hk h = record {
  ids_parallel =
      omega
        (arith, length-append {0} b.pending_ids, length-append {0} b.pending_pts, v.ids_parallel);
  ready_parallel =
      omega (
        arith,
        length-append {0} b.pending_ready,
        length-append {0} b.pending_pts,
        v.ready_parallel,
      );
  queue_bounded = omega (arith, length-append {0} b.pending_pts);
  overflow_bounded = v.overflow_bounded;
  own_queue = inr (sym ho, sym hk);
  queue_ids = All-append _ b.pending_ids _ v.queue_ids (bump_id_pos b.next_id, tt);
  overflow_ids = v.overflow_ids;
  watermark = v.watermark;
}

enter_overflow-IsValid :
    (b : Barriers) (owner key : ℕ)
    → IsValid b
    → length b.overflow < 64
    → IsValid (enter_overflow b owner key).0
unfolding enter_overflow
enter_overflow-IsValid b owner key v h = record {
  ids_parallel = v.ids_parallel;
  ready_parallel = v.ready_parallel;
  queue_bounded = v.queue_bounded;
  overflow_bounded = omega (arith, length-append {0} b.overflow);
  own_queue = v.own_queue;
  queue_ids = v.queue_ids;
  overflow_ids = All-append _ b.overflow _ v.overflow_ids (bump_id_pos b.next_id, tt);
  watermark = v.watermark;
}

saturate-IsValid : (b : Barriers) (owner key : ℕ) → IsValid b → IsValid (saturate b owner key).0
unfolding saturate
saturate-IsValid b owner key v = ground arith

register-IsValid :
    (b : Barriers) (owner key pts : ℕ)
    → IsValid b
    → b.owner ≡ owner
    → b.auth_key_id ≡ key
    → IsValid (register b owner key pts).0
unfolding register
register-IsValid b owner key pts v ho hk = ground (
  arith,
  enter_queue-IsValid b owner key pts v ho hk,
  enter_overflow-IsValid b owner key v,
  saturate-IsValid b owner key v,
)

pub begin_attempt-IsValid :
    (b : Barriers) (owner key pts : ℕ) → IsValid b → IsValid (begin_attempt b owner key pts).0
unfolding begin_attempt
begin_attempt-IsValid b owner key pts v = ground (arith, register-IsValid b owner key pts v)
