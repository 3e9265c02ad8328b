-- ===== src/Mtproto/Conn/Outcomes.antt =====
-- internal/mtproto/send.go: the ring of the last 64 RPC outcomes of a connection, which
-- invokeAfterMsg consults.
pub mod Recent
use telegram_server.Common.{
  ℕ, zero, suc, ◌+◌, ◌-◌, ◌%◌, Bool, true, false, not, ◌&&◌, ◌||◌, Option, none, some, List, ltb,
  leb, ◌==◌, ◌!=◌, is_pos, signed_lt, if◌then◌else◌, get_or, set, replicate,
}

pub record Outcome : Type 0 where
  pub msg_id : ℕ
  pub session : ℕ
  pub success : Bool

abbrev pub no_outcome : Outcome
no_outcome = record { msg_id = 0; session = 0; success = false }

abbrev pub ring_size : ℕ
ring_size = 64

pub record Outcomes : Type 0 where
  pub ring : List Outcome
  pub cursor : ℕ
  pub size : ℕ

-- `resetRPCOutcomesLocked`, which is also how a connection starts.
unfoldable pub reset : Outcomes
reset = record { ring = replicate ring_size no_outcome; cursor = 0; size = 0 }

unfoldable pub store : Outcomes → Outcome → Outcomes
store o x = record {
  ring = set o.ring o.cursor x;
  cursor = (o.cursor + 1) % ring_size;
  size = if ltb o.size ring_size then o.size + 1 else o.size;
}

-- `recordRPCOutcome`, on a connection whose session is `own`.
unfoldable pub push : Outcomes → ℕ → Outcome → Outcomes
push o own x = if not (is_pos x.msg_id) || (x.session != own) then o else store o x

-- The entry that was written `i` calls before the newest one.
unfoldable pub nth_back : Outcomes → ℕ → Outcome
nth_back o i = get_or o.ring ((o.cursor + ring_size - 1 - i) % ring_size) no_outcome

abbrev pub is_match : ℕ → ℕ → Outcome → Bool
is_match session dependency x = (x.msg_id == dependency) && (x.session == session)

-- The loop: `left` entries remain, and the next one is `i`.
unfoldable pub search : Outcomes → ℕ → ℕ → ℕ → ℕ → Option Bool
search o session dependency zero i = none
search o session dependency (suc left) i =
    let rest = search o session dependency left (i + 1) in
    if is_match session dependency (nth_back o i) then some (nth_back o i).success else rest

-- `RPCDependencyOutcome`: `none` is "not found".
unfoldable pub dependency_outcome : Outcomes → ℕ → ℕ → ℕ → ℕ → Option Bool
dependency_outcome o own session dependency current =
    if not (is_pos dependency) || not (signed_lt dependency current) || (session != own)
    then none
    else search o session dependency o.size 0
