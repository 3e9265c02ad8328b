-- ===== src/Mtproto/Conn/Barrier/Push.antt =====
-- internal/mtproto/send.go: pushes, which advance the watermark, and the changes of owner and key,
-- which drop every barrier. Encoding, the context and the transport are the arguments of a push.
use telegram_server.Common.{
  ℕ, Bool, true, false, not, ◌&&◌, [], ltb, ◌==◌, ◌!=◌, is_pos, if◌then◌else◌,
}
use telegram_server.Mtproto.Conn.Barrier.{Barriers}

-- What the encoder, the context and the transport do during one push.
pub record Weather : Type 0 where
  pub encodes : Bool
  pub cancelled : Bool
  pub sends : Bool

-- `written` is (true, nil) and `stale` is (false, true, nil); `foreign` is (false, nil).
pub data PushResult : Type 0 where
  written foreign stale encode_failed not_attempted write_failed : PushResult

-- A write that fails closes the transport: the last part of the result says so.
unfoldable pub push_to : Barriers → Weather → ℕ → ℕ → Barriers × PushResult × Bool
push_to b w owner pts =
    if not w.encodes
    then (b, PushResult.encode_failed, false)
    else if w.cancelled
    then (b, PushResult.not_attempted, false)
    else if b.owner != owner
    then (b, PushResult.foreign, false)
    else if not w.sends
    then (b, PushResult.write_failed, true)
    else if is_pos pts
    then (record b { last_pushed_pts = pts }, PushResult.written, false)
    else (b, PushResult.written, false)

unfoldable pub push_to_at_watermark : Barriers → Weather → ℕ → ℕ → ℕ → Barriers × PushResult × Bool
push_to_at_watermark b w owner expected pts =
    if not w.encodes
    then (b, PushResult.encode_failed, false)
    else if w.cancelled
    then (b, PushResult.not_attempted, false)
    else if b.owner != owner
    then (b, PushResult.foreign, false)
    else if b.last_pushed_pts != expected
    then (b, PushResult.stale, false)
    else if not w.sends
    then (b, PushResult.write_failed, true)
    else if is_pos pts && ltb b.last_pushed_pts pts
    then (record b { last_pushed_pts = pts }, PushResult.written, false)
    else (b, PushResult.written, false)

-- The barrier fields that `setOwner` and `setKey` clear.
unfoldable pub drop_barriers : Barriers → Barriers
drop_barriers b = record b {
  pending_owner = 0;
  pending_auth_key = 0;
  pending_pts = [];
  pending_ids = [];
  pending_ready = [];
  overflow = [];
  saturated = false;
}

-- The part of `setOwner` that concerns the barriers.
unfoldable pub rebind_owner : Barriers → ℕ → Barriers
rebind_owner b user =
    if b.owner == user then b else drop_barriers (record b { owner = user; last_pushed_pts = 0 })

-- That of `setKey`: the barriers go if the key changes, and `authKeyID` follows the unlock.
unfoldable pub rebind_key : Barriers → ℕ → Barriers
rebind_key b key = record (if b.auth_key_id != key then drop_barriers b else b) {
  auth_key_id = key;
}
