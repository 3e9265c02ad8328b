-- ===== src/Mtproto/Conn/Recovery/Coverage.antt =====
-- internal/mtproto/send.go: an invalidation stays pending until a folder read that saw it is
-- acknowledged.
use telegram_server.Common.{ℕ, ◌≤◌, ◌≡◌, true, false, max, arith}
use telegram_server.Mtproto.Conn.Recovery.{Recovery, acknowledge_fetch, attempt_pending}

-- A folder read that captured every generation and epoch known, acknowledged on a connection that is
-- bound, leaves nothing pending: the coverage is what it captured, if that is more than before, and
-- the retry cycle is over, with no attempt counted and no push in flight.
fetch_covers :
    (s : Recovery) (captured epoch : ℕ)
    → s.initialized ≡ true
    → s.generation ≤ captured
    → epoch ≤ captured
    → let s' = (acknowledge_fetch s s.owner s.session captured epoch).0 in
      (s'.covered ≡ max s.covered captured)
      × (s'.attempts ≡ 0)
      × (s'.in_flight ≡ false)
      × (attempt_pending s' s.owner s.session epoch ≡ false)
unfolding acknowledge_fetch attempt_pending
fetch_covers s captured epoch i hg he = ground arith
