-- ===== src/Mtproto/Accept/Sampler.antt =====
-- internal/mtproto/proxyproto.go: the sampler of log lines that anyone who reaches the port can provoke.
-- Its two atomics are read and written in separate instructions, which any goroutine may interleave.
pub mod Reports
use telegram_server.Common.{
  ℕ, ◌+◌, ◌-◌, ◌%◌, ◌^◌, Bool, true, false, not, ◌&&◌, ◌||◌, Option, none, some, ltb, ◌==◌,
  if◌then◌else◌, signed_lt,
}

-- `logSampler`.
pub record Sampler : Type 0 where
  pub last : ℕ
  pub dropped : ℕ

abbrev pub new_sampler : Sampler
new_sampler = record { last = 0; dropped = 0 }

-- `n - last`, an int64.
abbrev pub since : ℕ → ℕ → ℕ
since n last = (n + (2 ^ 64 - last % 2 ^ 64)) % 2 ^ 64

-- `s.dropped.Add(1)`.
abbrev pub drop_line : Sampler → Sampler
drop_line s = record s { dropped = (s.dropped + 1) % 2 ^ 64 }

-- `allow` from its test on, for the value of `last` that it has loaded: whether the line comes out.
unfoldable pub allow_test : Sampler → ℕ → ℕ → ℕ → Sampler × Bool
allow_test s last n interval =
    if signed_lt (since n last) interval || not (s.last == last)
    then (drop_line s, false)
    else (record s { last = n }, true)

-- `s.dropped.Swap(0)`, with which an `allow` or a `flush` that has won ends: what it reports.
unfoldable pub take_dropped : Sampler → Sampler × ℕ
take_dropped s = (record s { dropped = 0 }, s.dropped)

-- The swap of `flush`, for the value of `last` that it has loaded.
unfoldable pub flush_test : Sampler → ℕ → ℕ → Sampler × Bool
flush_test s last n = if s.last == last then (record s { last = n }, true) else (s, false)
