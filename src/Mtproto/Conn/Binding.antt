-- ===== src/Mtproto/Conn/Binding.antt =====
-- internal/mtproto/send.go: a connection as a whole, and the three changes of its binding: the user
-- that its key belongs to, the key, and the client session.
use telegram_server.Common.{ℕ, ◌≡◌, ◌≢◌, true, false, none, ◌==◌, ◌!=◌, if◌then◌else◌, arith}
use telegram_server.Mtproto.Conn.Barrier.{Barriers, new_barriers}
use telegram_server.Mtproto.Conn.Barrier.Push.{rebind_owner, rebind_key, drop_barriers}
use telegram_server.Mtproto.Conn.Recovery.{Recovery, may_push, is_for}
use telegram_server.Mtproto.Conn.Recovery
use telegram_server.Mtproto.Conn.Outcomes.{Outcomes, dependency_outcome, search}
use telegram_server.Mtproto.Conn.Outcomes

-- `recoveryBinding` is the pair that listener callbacks read.
pub record Conn : Type 0 where
  pub barriers : Barriers
  pub session_id : ℕ
  pub bound_owner : ℕ
  pub bound_session : ℕ
  pub recovery : Recovery
  pub outcomes : Outcomes

-- `newConn`.
unfoldable pub new_conn : Conn
new_conn = record {
  barriers = new_barriers;
  session_id = 0;
  bound_owner = 0;
  bound_session = 0;
  recovery = Recovery.reset 0 0;
  outcomes = Outcomes.reset;
}

-- `setOwner`.
unfoldable pub set_owner : Conn → ℕ → Conn
set_owner c user = if c.barriers.owner == user then c else record c {
  barriers = rebind_owner c.barriers user;
  bound_owner = user;
  bound_session = c.session_id;
  recovery = Recovery.reset user c.session_id;
  outcomes = Outcomes.reset;
}

-- `setKey`.
unfoldable pub set_key : Conn → ℕ → Conn
set_key c key =
    let b = rebind_key c.barriers key in
    if c.barriers.auth_key_id != key
    then record c {
      barriers = b;
      recovery = Recovery.reset c.barriers.owner c.session_id;
      outcomes = Outcomes.reset;
    }
    else record c { barriers = b }

-- `setSession`.
unfoldable pub set_session : Conn → ℕ → Conn
set_session c id =
    let bound = record c { session_id = id; bound_owner = c.barriers.owner; bound_session = id } in
    if c.session_id != id
    then record bound { recovery = Recovery.reset c.barriers.owner id; outcomes = Outcomes.reset }
    else bound

pub data Change : Type 0 where
  new_owner new_key new_session : ℕ → Change

unfoldable pub change : Conn → Change → Conn
change c (Change.new_owner user) = set_owner c user
change c (Change.new_key id) = set_key c id
change c (Change.new_session id) = set_session c id

-- A change that names another owner, key or session than the connection has.
abbrev pub IsNew : Conn → Change → Type 0
IsNew c (Change.new_owner user) = c.barriers.owner ≢ user
IsNew c (Change.new_key id) = c.barriers.auth_key_id ≢ id
IsNew c (Change.new_session id) = c.session_id ≢ id

reset_answers_none :
    (own session dependency current : ℕ)
    → dependency_outcome Outcomes.reset own session dependency current ≡ none
unfolding dependency_outcome Outcomes.reset search
reset_answers_none own session dependency current = ground arith

-- A real change of owner, key or session revokes what the connection remembered: no recovery push
-- claimed before may be written, no earlier outcome answers a dependency, and the recovery state is
-- that of the connection's present owner and session.
pub change_revokes :
    (c : Conn) (x : Change) (owner session id s dependency current : ℕ)
    → IsNew c x
    → (may_push
          (change c x).recovery
          (change c x).barriers.owner
          (change c x).session_id
          owner
          session
          id
        ≡ false)
      × (dependency_outcome (change c x).outcomes (change c x).session_id s dependency current
          ≡ none)
      × (is_for (change c x).recovery (change c x).barriers.owner (change c x).session_id ≡ true)
unfolding change set_owner set_key set_session rebind_owner rebind_key drop_barriers may_push
    Recovery.reset
change_revokes c (Change.new_owner user) owner session id s dependency current n =
    ground (arith, reset_answers_none c.session_id s dependency current)
change_revokes c (Change.new_key key) owner session id s dependency current n =
    ground (arith, reset_answers_none c.session_id s dependency current)
change_revokes c (Change.new_session new) owner session id s dependency current n =
    ground (arith, reset_answers_none new s dependency current)
