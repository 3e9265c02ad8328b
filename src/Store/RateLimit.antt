-- ===== src/Store/RateLimit.antt =====
-- internal/store/rate_limits.go, with internal/store/queries/rate_limits.sql: the fixed-window counter
-- of one subject on one surface, which is one row of the table or none. The row's times and now() of
-- a statement are microseconds, the clock and the durations of the Go code nanoseconds.
pub mod Waits
pub mod Window
pub mod Rate
use telegram_server.Common.{
  ℕ, ◌+◌, ◌-◌, ◌*◌, ◌/◌, ◌%◌, ◌^◌, max, Bool, true, false, not, ◌&&◌, ◌||◌, Option, none, some, ltb,
  leb, ◌==◌, if◌then◌else◌, is_pos, signed_lt,
}

-- `RateLimitConfig`.
pub record Config : Type 0 where
  pub limit : ℕ
  pub window : ℕ

-- `Enabled`.
abbrev pub enabled : Config → Bool
enabled cfg = is_pos cfg.limit && is_pos cfg.window

-- A row of `rate_limits`.
pub record Row : Type 0 where
  pub token_count : ℕ
  pub window_start : ℕ
  pub expires_at : ℕ

-- What the checks answer: (nil, nil), a result with its wait, or an error.
pub data Answer : Type 0 where
  allowed : Answer
  denied : ℕ → Answer
  failed : Answer

-- What a statement that returns one row gives: the row, `pgx.ErrNoRows`, or an error.
pub data Returned : Type 0 where
  row : Row → Returned
  no_rows : Returned
  sql_error : Returned

-- int4 values as bit patterns below 2 ^ 32: `<=`, and a sum, which fails on overflow.
abbrev pub int4_le : ℕ → ℕ → Bool
int4_le a b = leb ((a + 2 ^ 31) % 2 ^ 32) ((b + 2 ^ 31) % 2 ^ 32)

abbrev pub int4_neg : ℕ → Bool
int4_neg a = leb (2 ^ 31) a

abbrev pub int4_add : ℕ → ℕ → Option ℕ
int4_add a b =
    let sum = (a + b) % 2 ^ 32 in
    if int4_neg a && int4_neg b && not (int4_neg sum)
    then none
    else if not (int4_neg a || int4_neg b) && int4_neg sum
    then none
    else some sum

-- `int32(n)` of a Go int.
abbrev pub int32 : ℕ → ℕ
int32 n = n % 2 ^ 32

-- A row whose window opens at `now`, its length `Window.Microseconds()`.
abbrev pub opened : ℕ → ℕ → Config → Row
opened now tokens cfg = record {
  token_count = tokens;
  window_start = now;
  expires_at = now + cfg.window / 1_000;
}

abbrev pub with_tokens : Row → ℕ → Row
with_tokens r tokens = record r { token_count = tokens }

-- `ON CONFLICT DO UPDATE` of a statement that adds `tokens` under the row condition `ok`.
unfoldable pub add_tokens : Row → Option ℕ → (ℕ → Bool) → Option Row × Returned
add_tokens r none ok = (some r, sql_error)
add_tokens r (some sum) ok =
    if ok sum then (some (with_tokens r sum), row (with_tokens r sum)) else (some r, no_rows)

unfoldable pub upsert : Option Row → ℕ → ℕ → Config → (ℕ → Bool) → Option Row × Returned
unfolding add_tokens
upsert none now tokens cfg ok = (some (opened now tokens cfg), row (opened now tokens cfg))
upsert (some r) now tokens cfg ok =
    if leb r.expires_at now
    then (some (opened now tokens cfg), row (opened now tokens cfg))
    else add_tokens r (int4_add r.token_count tokens) ok

-- `TryConsumeRateLimitCost`.
unfoldable pub try_consume_cost : Option Row → ℕ → ℕ → Config → Option Row × Returned
unfolding upsert
try_consume_cost r now cost cfg =
    if int4_le (int32 cost) (int32 cfg.limit)
    then upsert r now (int32 cost) cfg (λ sum. int4_le sum (int32 cfg.limit))
    else (r, no_rows)

-- `deadline.Sub(now)` in whole seconds, rounded up, at least one: `waitUntil`.
unfoldable pub wait_until : ℕ → ℕ → ℕ
wait_until now deadline =
    let wait = deadline - now in
    let secs = wait / 1_000_000_000 in
    max (if ltb 0 (wait % 1_000_000_000) then secs + 1 else secs) 1 * 1_000_000_000

-- `CheckRateLimitCost` up to its first statement, at the time `now` of that; no answer yet means
-- that it goes on with `check_denied`.
unfoldable pub check_first : Option Row → ℕ → ℕ → Config → Option Row × Option Answer
check_first r now cost cfg =
    if not (enabled cfg)
    then (r, some allowed)
    else if not (is_pos cost)
    then (r, some failed)
    else (let done = try_consume_cost r now cost cfg in
        (done.0, elim done.1 [ row o ↦ some allowed | no_rows ↦ none | sql_error ↦ some failed ]))

-- The rest of `CheckRateLimitCost`, over the row that its second statement reads and the Go clock.
unfoldable pub check_denied : Option Row → ℕ → ℕ → Config → Answer
check_denied none clock cost cfg =
    if signed_lt cfg.limit cost then denied (wait_until clock (clock + cfg.window)) else allowed
check_denied (some r) clock cost cfg = denied (wait_until clock (r.expires_at * 1_000))

-- `CheckRateLimitBudget`.
unfoldable pub check_budget : Option Row → ℕ → Config → Answer
check_budget none clock cfg = allowed
check_budget (some r) clock cfg =
    if not (enabled cfg)
    then allowed
    else if ltb clock (r.expires_at * 1_000) && int4_le (int32 cfg.limit) r.token_count
    then denied (wait_until clock (r.expires_at * 1_000))
    else allowed

-- `ChargeRateLimit`: the row, and whether the statement succeeds.
unfoldable pub charge : Option Row → ℕ → Config → Option Row × Returned
unfolding upsert
charge r now cfg = if not (enabled cfg) then (r, no_rows) else upsert r now 1 cfg (λ sum. true)

-- The first statement of `ReserveRateLimit`, `TryConsumeRateLimit`. The reservation is the start of
-- the window that has the token.
unfoldable pub reserve : Option Row → ℕ → Config → Option Row × Returned
unfolding upsert
reserve none now cfg =
    if not (enabled cfg) then (none, no_rows) else upsert none now 1 cfg (λ sum. true)
reserve (some r) now cfg =
    if not (enabled cfg)
    then (some r, no_rows)
    else if ltb now r.expires_at && int4_le (int32 cfg.limit) r.token_count
    then (some r, no_rows)
    else upsert (some r) now 1 cfg (λ sum. true)

-- The rest of `ReserveRateLimit`, over the row that its second statement reads and the Go clock.
unfoldable pub reserve_denied : Option Row → ℕ → Answer
reserve_denied none clock = allowed
reserve_denied (some r) clock = denied (wait_until clock (r.expires_at * 1_000))

-- `RefundRateLimit` of a reservation in the window that began at `window_start`.
unfoldable pub refund : Option Row → ℕ → Option Row
refund none window_start = none
refund (some r) window_start =
    if r.window_start == window_start
    then some (with_tokens r (if int4_neg r.token_count then 0 else r.token_count - 1))
    else some r

-- `SweepExpiredRateLimits` for this row.
unfoldable pub sweep : Option Row → ℕ → Option Row
sweep none now = none
sweep (some r) now = if ltb r.expires_at now then none else some r
