-- ===== src/Mtproto/Conn/Recovery.antt =====
-- internal/mtproto/send.go: the dialog-filter recovery state of a connection. The source replaces an
-- immutable snapshot by compare-and-swap and retries on a lost swap; each function here is the
-- iteration that wins. Times are nanoseconds, and 0 is `time.Time{}`.
pub mod Attempts
pub mod Coverage
use telegram_server.Common.{
  ℕ, ◌+◌, ◌-◌, ◌*◌, ◌%◌, ◌^◌, max, Bool, true, false, not, ◌&&◌, ◌||◌, Option, none, some, ltb, leb,
  ◌==◌, if◌then◌else◌,
}

pub record Recovery : Type 0 where
  pub owner : ℕ
  pub session : ℕ
  pub generation : ℕ
  pub covered : ℕ
  pub initialized : Bool
  pub first_difference : Bool
  pub push_eligible : Bool
  pub cycle : Bool
  pub attempts : ℕ
  pub next_attempt : ℕ
  pub in_flight : Bool
  pub claim_id : ℕ

-- A reset by `setOwner`, `setKey` or `setSession`.
unfoldable pub reset : ℕ → ℕ → Recovery
reset owner session = record {
  owner = owner;
  session = session;
  generation = 0;
  covered = 0;
  initialized = false;
  first_difference = true;
  push_eligible = false;
  cycle = false;
  attempts = 0;
  next_attempt = 0;
  in_flight = false;
  claim_id = 0;
}

abbrev pub is_for : Recovery → ℕ → ℕ → Bool
is_for s owner session = (s.owner == owner) && (s.session == session)

-- `max(state.generation, globalEpoch) > state.covered`.
abbrev pub is_pending : Recovery → ℕ → Bool
is_pending s epoch = ltb s.covered (max s.generation epoch)

-- A binding that starts covered through `coverage`.
unfoldable pub bind : ℕ → ℕ → ℕ → Recovery
bind owner session coverage = record (reset owner session) {
  covered = coverage;
  initialized = true;
}

-- `EnsureDialogFilterRecoveryBinding`.
unfoldable pub ensure_binding : Recovery → ℕ → ℕ → ℕ → Recovery
ensure_binding s owner session coverage =
    if is_for s owner session && s.initialized then s else bind owner session coverage

-- `generation - 1`, a uint64.
abbrev pub before_generation : ℕ → ℕ
before_generation generation = (generation + (2 ^ 64 - 1)) % 2 ^ 64

-- The end of a retry cycle: what is pending next starts with its own attempts.
abbrev pub close_cycle : Recovery → Recovery
close_cycle s = record s { cycle = false; attempts = 0; next_attempt = 0 }

unfoldable pub raise_generation : Recovery → ℕ → ℕ → Recovery
raise_generation s generation epoch =
    let raised = if ltb s.generation generation then record s { generation = generation } else s in
    if not (is_pending s epoch) && is_pending raised epoch then close_cycle raised else raised

-- `MarkDialogFilterRecovery`.
unfoldable pub mark_recovery : Recovery → ℕ → ℕ → ℕ → ℕ → Recovery × Bool
mark_recovery s owner session generation epoch =
    if not (is_for s owner session) then (s, false) else (
      raise_generation
          (if s.initialized
            then s
            else bind owner session (max (before_generation generation) epoch))
          generation epoch,
      true,
    )

-- `DialogFilterRecoverySnapshot`: generation, coverage, first difference and whether one is pending.
unfoldable pub snapshot : Recovery → ℕ → ℕ → ℕ → Option (ℕ × ℕ × Bool × Bool)
snapshot s owner session epoch =
    if not (is_for s owner session) || not s.initialized
    then none
    else some (s.generation, s.covered, s.first_difference, is_pending s epoch)

-- `DialogFilterRecoveryAttemptPending`.
unfoldable pub attempt_pending : Recovery → ℕ → ℕ → ℕ → Bool
attempt_pending s owner session epoch =
    is_for s owner session
    && s.initialized
    && s.push_eligible
    && ltb s.attempts 3
    && is_pending s epoch

-- `AcknowledgeDialogFilterFetch`.
unfoldable pub acknowledge_fetch : Recovery → ℕ → ℕ → ℕ → ℕ → Recovery × Bool
acknowledge_fetch s owner session captured epoch =
    if not (is_for s owner session) || not s.initialized
    then (s, false)
    else (let read = if ltb s.covered captured then record s { covered = captured } else s in
        let done =
          if not (is_pending read epoch)
          then record (close_cycle read) { in_flight = false; claim_id = 0 }
          else read in
        (record done { push_eligible = true }, true))

-- `AcknowledgeDialogFilterDifference`.
unfoldable pub acknowledge_difference : Recovery → ℕ → ℕ → Bool → Recovery × Bool
acknowledge_difference s owner session consume =
    if not consume || not (is_for s owner session) || not s.initialized || not s.first_difference
    then (s, false)
    else (record s { first_difference = false; push_eligible = true }, true)

abbrev pub second : ℕ
second = 1_000_000_000

-- When the attempt after number `n` may start.
abbrev pub retry_at : ℕ → ℕ → ℕ
retry_at n now = if n == 1 then now + 20 * second else if n == 2 then now + 40 * second else 0

-- `ClaimDialogFilterRecoveryAttempt`. `fresh` is the id that the claim counter gives out.
unfoldable pub claim : Recovery → ℕ → ℕ → ℕ → ℕ → ℕ → Recovery × Option ℕ
claim s owner session epoch now fresh =
    if not (is_for s owner session) || not s.initialized || not s.push_eligible || s.in_flight
    then (s, none)
    else if not (is_pending s epoch) || leb 3 s.attempts
    then (s, none)
    else if ltb 0 s.attempts && ltb now s.next_attempt
    then (s, none)
    else (
      record s {
        cycle = true;
        attempts = s.attempts + 1;
        in_flight = true;
        claim_id = fresh;
        next_attempt = retry_at (s.attempts + 1) now;
      },
      some fresh,
    )

-- `FinishDialogFilterRecoveryAttempt`.
unfoldable pub finish : Recovery → ℕ → ℕ → ℕ → Recovery
finish s owner session id =
    if not (is_for s owner session) || not s.in_flight || not (s.claim_id == id)
    then s
    else record s { in_flight = false; claim_id = 0 }

-- The test of `PushDialogFilterRecovery` before its write, at the connection's own binding.
unfoldable pub may_push : Recovery → ℕ → ℕ → ℕ → ℕ → ℕ → Bool
may_push s conn_owner conn_session owner session id =
    (conn_owner == owner)
    && (conn_session == session)
    && is_for s owner session
    && s.initialized
    && s.in_flight
    && (s.claim_id == id)
