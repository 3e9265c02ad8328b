-- ===== src/Store/RateLimit/Window.antt =====
-- internal/store/rate_limits.go: what a fixed window has granted, counted over the windows that have
-- passed. The counters of internal/store/sign_in_fail.go have the same windows.
use telegram_server.Common.{ℕ, suc, ◌+◌, ◌*◌, ◌/◌, ◌≤◌, ◌≡◌, refl, Option, none, some, arith}
use telegram_server.Store.RateLimit.{Config, Row, opened, with_tokens}
use native.Mathlib.Nat.{suc-mul, zero-mul}

-- `closed` windows have ended since `from`, and what is granted beyond their limits is in the row.
pub HoldsRow : Config → ℕ → ℕ → ℕ → ℕ → Option Row → Type 0
HoldsRow cfg from closed time granted none =
    (granted ≤ closed * cfg.limit) × (from + closed * (cfg.window / 1_000) ≤ time)
HoldsRow cfg from closed time granted (some r) =
    (granted ≤ closed * cfg.limit + r.token_count)
    × (r.token_count ≤ cfg.limit)
    × (from + closed * (cfg.window / 1_000) ≤ r.window_start)
    × (r.window_start ≤ time)
    × (r.expires_at ≡ r.window_start + cfg.window / 1_000)

pub fresh : (cfg : Config) (from : ℕ) → HoldsRow cfg from 0 from 0 none
unfolding HoldsRow
fresh cfg from = (omega arith, omega (arith, zero-mul (cfg.window / 1_000)))

module _ (cfg : Config) (from closed time granted : ℕ) where
  pub wait-Holds :
      (entry : Option Row) (now : ℕ)
      → time ≤ now
      → HoldsRow cfg from closed time granted entry
      → HoldsRow cfg from closed now granted entry
  unfolding HoldsRow
  wait-Holds none now t h = (h.0, omega (arith, h.1, t))
  wait-Holds (some r) now t h = (h.0, h.1, h.2, omega (arith, h.3, t), h.4)

  pub open-holds :
      (cost : ℕ)
      → cost ≤ cfg.limit
      → HoldsRow cfg from closed time granted none
      → HoldsRow cfg from closed time (granted + cost) (some (opened time cost cfg))
  unfolding HoldsRow
  open-holds cost b h = (omega (arith, h.0), b, h.1, omega arith, refl)

  pub close-holds :
      (o : Row)
      → o.expires_at ≤ time
      → HoldsRow cfg from closed time granted (some o)
      → HoldsRow cfg from (suc closed) time granted none
  unfolding HoldsRow
  close-holds o gone h =
      let (sum, inside, began, past, ends) = h in
      (
        omega (arith, sum, inside, suc-mul closed cfg.limit),
        omega (arith, began, ends, gone, suc-mul closed (cfg.window / 1_000)),
      )

  pub add-holds :
      (o : Row) (cost : ℕ)
      → o.token_count + cost ≤ cfg.limit
      → HoldsRow cfg from closed time granted (some o)
      → HoldsRow cfg from closed time (granted + cost) (some (with_tokens o (o.token_count + cost)))
  unfolding HoldsRow
  add-holds o cost b h =
      let (sum, inside, began, past, ends) = h in (omega (arith, sum), b, began, past, ends)

  pub inside_lem :
      (o : Row) → HoldsRow cfg from closed time granted (some o) → o.token_count ≤ cfg.limit
  unfolding HoldsRow
  inside_lem o h = h.1

  pub bound :
      (entry : Option Row)
      → HoldsRow cfg from closed time granted entry
      → (granted ≤ suc closed * cfg.limit) × (from + closed * (cfg.window / 1_000) ≤ time)
  unfolding HoldsRow
  bound none h = (omega (arith, h.0, suc-mul closed cfg.limit), h.1)
  bound (some o) h =
      let (sum, inside, began, past, ends) = h in
      (omega (arith, sum, inside, suc-mul closed cfg.limit), omega (arith, began, past))
