-- ===== src/Store/RateLimit/Waits.antt =====
-- internal/store/rate_limits.go and internal/store/send_code_ip.go: what a denied caller is told.
use telegram_server.Common.{
  ℕ, ◌+◌, ◌*◌, ◌%◌, ◌^◌, ◌≤◌, ◌<◌, ◌≡◌, ◌≢◌, ◌⊎◌, true, none, some, is_pos, arith,
}
use telegram_server.Store.RateLimit.{
  Config, Row, row, upsert, add_tokens, try_consume_cost, wait_until, check_first, check_denied,
  allowed, denied, reserve, refund,
}

-- A wait is whole seconds, at least one; it reaches the deadline, and passes it by less than a second
-- unless it is one second.
wait_until_lem :
    (now deadline : ℕ)
    → (wait_until now deadline % 1_000_000_000 ≡ 0)
      × (1_000_000_000 ≤ wait_until now deadline)
      × (deadline ≤ now + wait_until now deadline)
      × ((wait_until now deadline ≡ 1_000_000_000)
          ⊎ (now + wait_until now deadline < deadline + 1_000_000_000))
unfolding wait_until
wait_until_lem now deadline = ground arith

-- A request that is denied while its row stands, with a cost that the limit allows, is told a wait
-- after which the same request is allowed: at any later time of the database that the wait has
-- reached on the Go clock, if the row has not changed.
pub denied_then_allowed :
    (r : Row) (now clock later cost : ℕ) (cfg : Config) (wait : ℕ)
    → is_pos cost ≡ true
    → cost ≤ cfg.limit
    → cfg.limit < 2 ^ 31
    → (check_first (some r) now cost cfg).1 ≡ none
    → check_denied (some r) clock cost cfg ≡ denied wait
    → clock + wait ≤ later * 1_000
    → (check_first (some r) later cost cfg).1 ≡ some allowed
denied_then_allowed r now clock later cost cfg wait p q l d e h =
    let over : r.expires_at ≤ later =
      unfold check_denied in ground (arith, e, wait_until_lem clock (r.expires_at * 1_000), h) in
    unfold check_first try_consume_cost upsert in ground (arith, over, p, q, l, d)

-- A token that is reserved in an open window and refunded leaves the row as it was, the token stays
-- within the limit, and a refund into a row of another window changes nothing.
pub refund-reserve :
    (r newer taken : Row) (now : ℕ) (cfg : Config)
    → now < r.expires_at
    → r.token_count < 2 ^ 31
    → cfg.limit < 2 ^ 31
    → (reserve (some r) now cfg).1 ≡ row taken
    → newer.window_start ≢ taken.window_start
    → (refund (reserve (some r) now cfg).0 taken.window_start ≡ some r)
      × (taken.token_count ≡ r.token_count + 1)
      × (taken.token_count ≤ cfg.limit)
      × (refund (some newer) taken.window_start ≡ some newer)
unfolding reserve refund upsert add_tokens
refund-reserve r newer taken now cfg h b l e other = ground arith
