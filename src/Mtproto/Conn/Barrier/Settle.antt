-- ===== src/Mtproto/Conn/Barrier/Settle.antt =====
-- internal/mtproto/send.go: what happens to a barrier after it was registered: its pts is set, it is
-- cleared, it is read by delivery, or it is accounted for by a result or a keyed notification.
use telegram_server.Common.{
  ℕ, ◌+◌, ◌-◌, Bool, true, false, not, ◌&&◌, ◌||◌, Option, none, some, ltb, leb, ◌==◌, ◌!=◌, is_pos,
  if◌then◌else◌, length, is_empty, get_or, set,
}
use telegram_server.Common.Index.{find_index, find_last_index}
use telegram_server.Mtproto.Conn.Barrier.{
  Barriers, Reservation, nil_entry, has_pts, has_id, is_bound, remove_pending, remove_overflow,
}

abbrev pub is_queued : Barriers → ℕ → ℕ → Bool
is_queued b owner key = (b.pending_owner == owner) && (b.pending_auth_key == key)

-- `SetRPCUpdatePts`: the newest barrier that has no pts yet.
unfoldable pub set_pts : Barriers → ℕ → ℕ → ℕ → Barriers × Bool
set_pts b owner key pts =
    if not (is_pos owner) || key == 0 || not (is_pos pts)
    then (b, false)
    else if not (is_queued b owner key) || not (is_bound b owner key)
    then (b, false)
    else elim (find_last_index (λ p. p == 0) b.pending_pts) [
      | some i ↦ (record b { pending_pts = set b.pending_pts i pts }, true)
      | none ↦ (b, false)
    ]

-- `SetRPCUpdatePtsAttempt` on an overflow reservation.
unfoldable pub set_overflow_pts : Barriers → Reservation → ℕ → Barriers × Bool
set_overflow_pts b r pts =
    if r.id == 0 then (b, b.saturated) else elim (find_index (has_id r.id) b.overflow) [
      | none ↦ (b, false)
      | some i ↦
          let e = get_or b.overflow i nil_entry in
          if not r.owned
          then (b, e.pts == pts)
          else if e.pts == 0
          then (record b { overflow = set b.overflow i (record e { pts = pts }) }, true)
          else (b, e.pts == pts)
    ]

-- The same on a reservation in the queue.
unfoldable pub set_queued_pts : Barriers → Reservation → ℕ → Barriers × Bool
set_queued_pts b r pts =
    if not r.owned || not (is_queued b r.owner r.auth_key)
    then (b, false)
    else elim (find_index (λ id. id == r.id) b.pending_ids) [
      | none ↦ (b, false)
      | some i ↦
          if get_or b.pending_pts i 0 == 0
          then (record b { pending_pts = set b.pending_pts i pts }, true)
          else (b, get_or b.pending_pts i 0 == pts)
    ]

unfoldable pub set_pts_attempt : Barriers → Reservation → ℕ → Barriers × Bool
set_pts_attempt b r pts =
    if not (is_pos pts)
    then (b, false)
    else if not (is_bound b r.owner r.auth_key)
    then (b, false)
    else if r.overflow
    then set_overflow_pts b r pts
    else set_queued_pts b r pts

-- `ClearRPCUpdate`: the newest barrier of the queue.
unfoldable pub clear : Barriers → ℕ → ℕ → Barriers × Bool
clear b owner key =
    if not (is_pos owner) || key == 0
    then (b, false)
    else if not (is_queued b owner key) || is_empty b.pending_pts
    then (b, false)
    else (remove_pending b (length b.pending_pts - 1), true)

unfoldable pub clear_overflow_attempt : Barriers → Reservation → Barriers × Bool
clear_overflow_attempt b r =
    if r.id == 0 || not r.owned || not (is_bound b r.owner r.auth_key)
    then (b, false)
    else elim (find_index (has_id r.id) b.overflow) [
      | none ↦ (b, false)
      | some i ↦ (remove_overflow b i, true)
    ]

unfoldable pub clear_queued_attempt : Barriers → Reservation → Barriers × Bool
clear_queued_attempt b r =
    if not r.owned || not (is_queued b r.owner r.auth_key) || not (is_bound b r.owner r.auth_key)
    then (b, false)
    else elim (find_index (λ id. id == r.id) b.pending_ids) [
      | none ↦ (b, false)
      | some i ↦ (remove_pending b i, true)
    ]

-- `ClearRPCUpdateAttempt`.
unfoldable pub clear_attempt : Barriers → Reservation → Barriers × Bool
clear_attempt b r = if r.overflow then clear_overflow_attempt b r else clear_queued_attempt b r

-- `PendingRPCUpdate`: the pts of the first barrier for `owner`, and whether there is one.
unfoldable pub pending_update : Barriers → ℕ → ℕ × Bool
pending_update b owner =
    if b.pending_owner == owner && not (is_empty b.pending_pts)
    then (get_or b.pending_pts 0 0, true)
    else if b.owner == owner
    then (if not (is_empty b.overflow)
        then ((get_or b.overflow 0 nil_entry).pts, true)
        else (0, b.saturated))
    else (0, false)

-- `PendingRPCUpdateReady`.
unfoldable pub pending_update_ready : Barriers → ℕ → Bool
pending_update_ready b owner =
    if b.pending_owner == owner && not (is_empty b.pending_pts)
    then get_or b.pending_ready 0 false
    else if b.owner == owner && not (is_empty b.overflow)
    then (get_or b.overflow 0 nil_entry).ready
    else false

-- `if int64(pts) > current { c.lastPushedPts.Store(int64(pts)) }`
unfoldable pub raise_watermark : Barriers → ℕ → Barriers
raise_watermark b pts = if ltb b.last_pushed_pts pts then record b { last_pushed_pts = pts } else b

-- A notification may account for `pts` past a first barrier of pts `first` only if they agree.
abbrev mark_first : Barriers → ℕ → ℕ → Barriers → Barriers × Bool
mark_first b first pts released =
    if first == 0
    then (b, false)
    else if first != pts
    then (b, leb pts b.last_pushed_pts)
    else (released, true)

-- `markRPCUpdateLocked`; `MarkRPCUpdate` adds the lock and the same first test.
unfoldable pub mark : Barriers → ℕ → ℕ → ℕ → Barriers × Bool
mark b owner key pts =
    if key == 0 || not (is_pos pts) || not (is_bound b owner key)
    then (b, false)
    else if not (is_empty b.pending_pts)
    then mark_first b (get_or b.pending_pts 0 0) pts (remove_pending (raise_watermark b pts) 0)
    else if not (is_empty b.overflow)
    then mark_first b (get_or b.overflow 0 nil_entry).pts pts
        (remove_overflow (raise_watermark b pts) 0)
    else (raise_watermark b pts, true)

-- `c.pendingRPCReady[pendingIndex] = true` and the same of the overflow, where found.
unfoldable pub flag_ready : Barriers → Option ℕ → Option ℕ → Barriers
flag_ready b queued over = record b {
  pending_ready = elim queued [ some i ↦ set b.pending_ready i true | none ↦ b.pending_ready ];
  overflow = elim over [
    | some i ↦ set b.overflow i (record (get_or b.overflow i nil_entry) { ready = true })
    | none ↦ b.overflow
  ];
}

unfoldable pub release_found : Barriers → Option ℕ → Option ℕ → Barriers
release_found b queued over = elim queued [
  | some i ↦ remove_pending b i
  | none ↦ elim over [ some i ↦ remove_overflow b i | none ↦ b ]
]

-- The newest barrier of the queue with `pts`, if the queue belongs to the caller.
unfoldable pub find_queued : Barriers → ℕ → ℕ → ℕ → Option ℕ
find_queued b owner key pts =
    if is_queued b owner key then find_last_index (λ p. p == pts) b.pending_pts else none

unfoldable pub find_overflow : Barriers → ℕ → Option ℕ
find_overflow b pts = find_last_index (has_pts pts) b.overflow

-- The watermark moves only from `pts - 1` to `pts`; past a gap the barrier stays, and is ready.
unfoldable pub settle_result : Barriers → Option ℕ → Option ℕ → ℕ → Barriers
settle_result b queued over pts =
    let b' = flag_ready b queued over in
    if leb pts b.last_pushed_pts
    then release_found b' queued over
    else if pts == b.last_pushed_pts + 1
    then release_found (record b' { last_pushed_pts = pts }) queued over
    else b'

-- `markRPCResultLocked`, which runs when the result of a request has been written.
unfoldable pub mark_result : Barriers → ℕ → ℕ → ℕ → Barriers × Bool
mark_result b owner key pts =
    if key == 0 || not (is_pos pts) || not (is_bound b owner key)
    then (b, false)
    else (settle_result b (find_queued b owner key pts) (find_overflow b pts) pts, true)
