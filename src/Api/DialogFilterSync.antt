-- ===== src/Api/DialogFilterSync.antt =====
-- internal/api/dialog_filter_sync.go: the clock of folder invalidations of one replica, and what it
-- does to the recovery state of a connection. Callers pass a connection and a request that exist.
pub mod Queue
pub mod Fifo
pub mod Lost
use telegram_server.Common.{
  ℕ, ◌+◌, max, Bool, true, false, not, ◌&&◌, ◌||◌, Option, none, some, ltb, ◌==◌, ◌!=◌, is_pos,
  if◌then◌else◌,
}
use telegram_server.Mtproto.Conn.Recovery.{
  Recovery, ensure_binding, mark_recovery, snapshot, acknowledge_fetch, acknowledge_difference,
  attempt_pending,
}

pub record Clock : Type 0 where
  pub sequence : ℕ
  pub global_epoch : ℕ

unfoldable pub new_clock : Clock
new_clock = record { sequence = 0; global_epoch = 0 }

-- `next`: the clock after it carries the generation that it gives out.
unfoldable pub next : Clock → Clock
next k = record k { sequence = k.sequence + 1 }

-- `ListenerReconnected`.
unfoldable pub listener_reconnected : Clock → Clock
listener_reconnected k =
    let generation = k.sequence + 1 in record { sequence = generation; global_epoch = generation }

-- The parts of a request that this file reads; `expired` is `requestExpired`.
pub record Request : Type 0 where
  pub user_id : ℕ
  pub session_id : ℕ
  pub provisional : Bool
  pub expired : Bool

pub record Capture : Type 0 where
  pub owner : ℕ
  pub session : ℕ
  pub generation : ℕ
  pub first_difference : Bool
  pub pending : Bool

abbrev pub no_capture : Capture
no_capture = record {
  owner = 0;
  session = 0;
  generation = 0;
  first_difference = false;
  pending = false;
}

abbrev pub is_signed_in : Request → Bool
is_signed_in req = (req.user_id != 0) && not req.provisional

-- `EnsureBinding`.
unfoldable pub ensure : Clock → Recovery → Request → Recovery
ensure k c req =
    if is_signed_in req then ensure_binding c req.user_id req.session_id k.sequence else c

unfoldable pub capture_of : Clock → Request → Option (ℕ × ℕ × Bool × Bool) → Capture
capture_of k req none = no_capture
capture_of k req (some (_, _, first, pending)) = record {
  owner = req.user_id;
  session = req.session_id;
  generation = max k.sequence k.global_epoch;
  first_difference = first;
  pending = pending;
}

-- `Capture`, before an authoritative read.
unfoldable pub capture : Clock → Recovery → Request → Recovery × Capture
unfolding capture_of
capture k c req =
    if is_signed_in req
    then (let c' = ensure_binding c req.user_id req.session_id k.sequence in
        (c', capture_of k req (snapshot c' req.user_id req.session_id k.global_epoch)))
    else (c, no_capture)

abbrev pub is_current : Request → Capture → Bool
is_current req captured =
    not req.expired && (captured.owner == req.user_id) && (captured.session == req.session_id)

-- `AcknowledgeFetch`: the new state, and whether the connection is queued for a recovery push.
unfoldable pub acknowledge_read : Clock → Recovery → Request → Capture → Recovery × Bool
acknowledge_read k c req captured =
    if is_current req captured
    then (let r =
          acknowledge_fetch c req.user_id req.session_id captured.generation k.global_epoch in
        (r.0, r.1 && attempt_pending r.0 req.user_id req.session_id k.global_epoch))
    else (c, false)

-- `AcknowledgeDifference`.
unfoldable pub acknowledge_written : Clock → Recovery → Request → Capture → Bool → Recovery × Bool
acknowledge_written k c req captured included =
    if is_current req captured
    then (let r =
          acknowledge_difference c req.user_id req.session_id
            (included && captured.first_difference) in
        (r.0, r.1 && attempt_pending r.0 req.user_id req.session_id k.global_epoch))
    else (c, false)

-- `RequesterRepair`: the clock, the connection, and whether it is queued.
unfoldable pub requester_repair : Clock → Recovery → Request → Clock × Recovery × Bool
requester_repair k c req =
    if is_signed_in req
    then (let k' = next k in
        let r =
          mark_recovery (ensure k c req) req.user_id req.session_id k'.sequence k'.global_epoch in
        (k', r.0, r.1))
    else (k, c, false)

-- `OwnerInvalidation` on one of the owner's connections, bound to `bound` and `session`.
unfoldable pub invalidate_conn : Clock → Recovery → ℕ → ℕ → ℕ → Recovery × Bool
invalidate_conn k c owner bound session =
    if bound == owner then mark_recovery c owner session k.sequence k.global_epoch else (c, false)

-- The same with the clock that it advances first, for a registry that holds this connection. The two are
-- one step: no other call comes between the advance and the mark.
unfoldable pub owner_invalidation : Clock → Recovery → ℕ → ℕ → ℕ → Clock × Recovery × Bool
owner_invalidation k c owner bound session =
    if is_pos owner
    then (let k' = next k in let r = invalidate_conn k' c owner bound session in (k', r.0, r.1))
    else (k, c, false)
