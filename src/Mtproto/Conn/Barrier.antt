-- ===== src/Mtproto/Conn/Barrier.antt =====
-- internal/mtproto/send.go: the sender-result barriers and the push watermark of a connection,
-- which `writeMu` guards. Each function here is one critical section.
pub mod Settle
pub mod Push
pub mod Shape
pub mod Kept
pub mod Calls
pub mod Attempts
pub mod Release
pub mod Watermark
pub mod Rebind
use telegram_server.Common.{
  ℕ, ◌+◌, ◌%◌, ◌^◌, Bool, true, false, not, ◌&&◌, ◌||◌, Option, none, some, List, [], ◌∷◌, ◌++◌,
  ltb, leb, ◌==◌, is_neg, is_pos, if◌then◌else◌, length, is_empty, get_or, remove_at,
}
use telegram_server.Common.Index.{find_index}

pub record OverflowEntry : Type 0 where
  pub id : ℕ
  pub pts : ℕ
  pub ready : Bool

pub record Reservation : Type 0 where
  pub owner : ℕ
  pub auth_key : ℕ
  pub id : ℕ
  pub owned : Bool
  pub overflow : Bool

-- The three slices of the queue are parallel, as in the source.
pub record Barriers : Type 0 where
  pub owner : ℕ
  pub auth_key_id : ℕ
  pub last_pushed_pts : ℕ
  pub pending_owner : ℕ
  pub pending_auth_key : ℕ
  pub pending_pts : List ℕ
  pub pending_ids : List ℕ
  pub pending_ready : List Bool
  pub next_id : ℕ
  pub overflow : List OverflowEntry
  pub saturated : Bool

-- `Reservation{}`.
abbrev pub no_reservation : Reservation
no_reservation = record { owner = 0; auth_key = 0; id = 0; owned = false; overflow = false }

abbrev pub max_pending : ℕ
max_pending = 64

abbrev pub max_overflow : ℕ
max_overflow = max_pending

-- A new connection, with no owner and no key.
abbrev pub new_barriers : Barriers
new_barriers = record {
  owner = 0;
  auth_key_id = 0;
  last_pushed_pts = 0;
  pending_owner = 0;
  pending_auth_key = 0;
  pending_pts = [];
  pending_ids = [];
  pending_ready = [];
  next_id = 0;
  overflow = [];
  saturated = false;
}

-- `c.nextPendingRPCID++`, a uint64 that skips 0 when it wraps.
unfoldable pub bump_id : ℕ → ℕ
bump_id n = let m = (n + 1) % 2 ^ 64 in if m == 0 then 1 else m

abbrev pub has_pts : ℕ → OverflowEntry → Bool
has_pts pts e = e.pts == pts

abbrev pub has_id : ℕ → OverflowEntry → Bool
has_id id e = e.id == id

abbrev pub nil_entry : OverflowEntry
nil_entry = record { id = 0; pts = 0; ready = false }

-- The reservation of a retry whose pts is already in the queue or in the overflow hold.
unfoldable pub known_pts : Barriers → ℕ → ℕ → ℕ → Option Reservation
known_pts b owner key pts = elim (find_index (λ p. p == pts) b.pending_pts) [
  | some i ↦ some (record {
    owner = owner;
    auth_key = key;
    id = get_or b.pending_ids i 0;
    owned = false;
    overflow = false;
  })
  | none ↦ elim (find_index (has_pts pts) b.overflow) [
    | some i ↦ some (record {
      owner = owner;
      auth_key = key;
      id = (get_or b.overflow i nil_entry).id;
      owned = false;
      overflow = true;
    })
    | none ↦ none
  ]
]

abbrev pub overflow_reservation : ℕ → ℕ → ℕ → Bool → Reservation
overflow_reservation owner key id owned = record {
  owner = owner;
  auth_key = key;
  id = id;
  owned = owned;
  overflow = true;
}

unfoldable pub enter_overflow : Barriers → ℕ → ℕ → Barriers × Reservation × Bool
enter_overflow b owner key =
    let id = bump_id b.next_id in
    (
      record b {
        next_id = id;
        overflow = b.overflow ++ (record { id = id; pts = 0; ready = false }) ∷ [];
      },
      overflow_reservation owner key id true,
      false,
    )

unfoldable pub enter_queue : Barriers → ℕ → ℕ → ℕ → Barriers × Reservation × Bool
enter_queue b owner key pts =
    let id = bump_id b.next_id in
    (
      record b {
        next_id = id;
        pending_owner = owner;
        pending_auth_key = key;
        pending_pts = b.pending_pts ++ pts ∷ [];
        pending_ids = b.pending_ids ++ id ∷ [];
        pending_ready = b.pending_ready ++ false ∷ [];
      },
      record { owner = owner; auth_key = key; id = id; owned = true; overflow = false },
      true,
    )

unfoldable pub saturate : Barriers → ℕ → ℕ → Barriers × Reservation × Bool
saturate b owner key =
    (record b { saturated = true }, overflow_reservation owner key 0 false, false)

-- A new barrier goes to the queue, or behind those that already overflowed it.
unfoldable pub register : Barriers → ℕ → ℕ → ℕ → Barriers × Reservation × Bool
register b owner key pts =
    if not (is_empty b.overflow) || b.saturated
    then (if b.saturated
        then (b, overflow_reservation owner key 0 false, false)
        else if leb max_overflow (length b.overflow)
        then saturate b owner key
        else enter_overflow b owner key)
    else if leb max_pending (length b.pending_pts)
    then enter_overflow b owner key
    else enter_queue b owner key pts

abbrev pub is_bound : Barriers → ℕ → ℕ → Bool
is_bound b owner key = (b.owner == owner) && (b.auth_key_id == key)

-- `BeginRPCUpdateAttempt`; `BeginRPCUpdate` drops the reservation.
unfoldable pub begin_attempt : Barriers → ℕ → ℕ → ℕ → Barriers × Reservation × Bool
begin_attempt b owner key pts =
    if not (is_pos owner) || key == 0 || is_neg pts || not (is_bound b owner key)
    then (b, no_reservation, false)
    else elim (if ltb 0 pts then known_pts b owner key pts else none) [
      | some r ↦ (b, r, true)
      | none ↦ register b owner key pts
    ]

unfoldable pub begin : Barriers → ℕ → ℕ → ℕ → Barriers × Bool
begin b owner key pts = let (b', _, fits) = begin_attempt b owner key pts in (b', fits)

-- `removePendingRPCAtLocked`, for an index in range.
unfoldable pub remove_pending : Barriers → ℕ → Barriers
remove_pending b i =
    let rest = remove_at b.pending_pts i in
    if is_empty rest
    then record b {
      pending_owner = 0;
      pending_auth_key = 0;
      pending_pts = rest;
      pending_ids = [];
      pending_ready = [];
    }
    else record b {
      pending_pts = rest;
      pending_ids = remove_at b.pending_ids i;
      pending_ready = remove_at b.pending_ready i;
    }

unfoldable pub remove_overflow : Barriers → ℕ → Barriers
remove_overflow b i = record b { overflow = remove_at b.overflow i }
