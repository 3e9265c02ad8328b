-- ===== src/Mtproto/Limits/Unimplemented.antt =====
-- internal/mtproto/unimplemented.go: the budgets of one connection on the calls of methods that the
-- server does not implement, and of the catalog's methods; and the lines that the former write. The serve
-- goroutine alone calls them. Times are nanoseconds, none of them zero.
pub mod Budget
pub mod Logged
use telegram_server.Common.{
  ℕ, ◌+◌, ◌%◌, ◌^◌, Bool, true, false, not, ◌&&◌, ◌||◌, Option, none, some, List, [], ◌∷◌, ◌++◌,
  length, ltb, leb, ◌==◌, if◌then◌else◌, is_pos,
}
use telegram_server.Common.Text.{Text, text_beq}
use telegram_server.Mtproto.Accept.Sampler.{
  Sampler, new_sampler, allow_test, take_dropped, flush_test,
}
use telegram_server.Mtproto.Limits.FixedWindow.{Window, no_window, refresh, one_call}

abbrev pub window_span : ℕ
window_span = 60_000_000_000

abbrev pub answer_budget : ℕ
answer_budget = 64

abbrev pub close_at : ℕ
close_at = 256

abbrev pub log_interval : ℕ
log_interval = 10_000_000_000

abbrev pub method_log_limit : ℕ
method_log_limit = 32

-- `UnimplementedVerdict`.
pub data Verdict : Type 0 where
  answer : Verdict
  flood_wait : Verdict
  close : Verdict

abbrev pub verdict_of : ℕ → Verdict
verdict_of calls =
    if leb close_at calls then close else if ltb answer_budget calls then flood_wait else answer

-- `chargeConnectionBudget`, of `unimplementedBudget` and of `langpackBudget`.
unfoldable pub charge : Window → ℕ → Window × Verdict
unfolding refresh
charge w now = let next = one_call (refresh w now window_span) in (next, verdict_of next.calls)

-- The part of `unimplementedBudget` that thins the lines.
pub record Lines : Type 0 where
  pub methods : List (Text × Sampler)
  pub log : Sampler
  pub close_line_written : Bool

abbrev pub no_lines : Lines
no_lines = record { methods = []; log = new_sampler; close_line_written = false }

-- `allow` of a sampler that no other goroutine uses: the suppressed lines of a line that comes out.
abbrev pub allow_alone : Sampler → ℕ → ℕ → Sampler × Option ℕ
allow_alone s now interval =
    let (t, out) = allow_test s s.last now interval in
    if out then (let done = take_dropped t in (done.0, some done.1)) else (t, none)

-- `flush` of such a sampler: its count, and whether a line is owed, for a positive int64.
abbrev pub flush_alone : Sampler → ℕ → Sampler × ℕ × Bool
flush_alone s now =
    let done = take_dropped (flush_test s s.last now).0 in (done.0, done.1, is_pos done.1)

-- `b.methods[method]`, and its sampler after a call.
unfoldable pub find_method : List (Text × Sampler) → Text → Option Sampler
find_method [] method = none
find_method ((m, s) ∷ methods) method =
    if text_beq m method then some s else find_method methods method

unfoldable pub put_method : List (Text × Sampler) → Text → Sampler → List (Text × Sampler)
put_method [] method s = (method, s) ∷ []
put_method ((m, t) ∷ methods) method s =
    if text_beq m method then (m, s) ∷ methods else (m, t) ∷ put_method methods method s

abbrev pub log_method : Lines → Text → Sampler × Option ℕ → Lines × Option ℕ
log_method b method done = (record b { methods = put_method b.methods method done.0 }, done.1)

-- `logAllow`.
unfoldable pub log_allow : Lines → Text → ℕ → Lines × Option ℕ
unfolding find_method put_method allow_test take_dropped
log_allow b method now = elim (find_method b.methods method) [
  | some s ↦ log_method b method (allow_alone s now log_interval)
  | none ↦
      if ltb (length b.methods) method_log_limit
      then log_method b method (allow_alone new_sampler now log_interval)
      else (let done = allow_alone b.log now log_interval in (record b { log = done.0 }, done.1))
]

-- The loop of `logFlush` over the methods, in any order: their samplers, the sum of their counts, and
-- whether one of them owes a line.
unfoldable pub flush_methods : List (Text × Sampler) → ℕ → List (Text × Sampler) × ℕ × Bool
unfolding flush_test take_dropped
flush_methods [] now = ([], 0, false)
flush_methods ((m, s) ∷ methods) now =
    let done = flush_alone s now in
    let rest = flush_methods methods now in
    ((m, done.0) ∷ rest.0, (done.1 + rest.1) % 2 ^ 64, done.2 || rest.2)

-- `logFlush`: the count, and whether a line is owed.
unfoldable pub log_flush : Lines → ℕ → Lines × ℕ × Bool
unfolding flush_methods flush_test take_dropped
log_flush b now =
    let done = flush_alone b.log now in
    let rest = flush_methods b.methods now in
    (record b { log = done.0; methods = rest.0 }, (done.1 + rest.1) % 2 ^ 64, done.2 || rest.2)

-- `FlushUnimplementedLog`: the count of the line that a connection writes when it drops, if it owes one.
unfoldable pub flush_line : Lines → ℕ → Lines × Option ℕ
unfolding log_flush
flush_line b now = let done = log_flush b now in (done.0, if done.2 then some done.1 else none)

-- `logClose`: the count of the line that ends the connection, if it is to be written. It ignores whether
-- the flush owes a line.
unfoldable pub log_close : Lines → ℕ → Lines × Option ℕ
unfolding log_flush
log_close b now =
    if b.close_line_written
    then (b, none)
    else (let done = log_flush b now in (record done.0 { close_line_written = true }, some done.1))
