-- ===== src/Store/RateLimit/Rate.antt =====
-- internal/store/rate_limits.go: how many tokens a subject can spend over time.
use telegram_server.Common.{
  ℕ, suc, ◌+◌, ◌*◌, ◌/◌, ◌^◌, ◌≤◌, ◌<◌, ◌≡◌, ◌⊎◌, inl, inr, true, Option, none, some, List, [], ◌∷◌,
  ltb, All, Bool-cases, arith,
}
use telegram_server.Store.RateLimit.{
  Config, Row, enabled, upsert, add_tokens, try_consume_cost, check_first, Answer, allowed, denied,
  failed, sweep, opened, with_tokens,
}
use telegram_server.Store.RateLimit.Window.{
  HoldsRow, fresh, wait-Holds, open-holds, close-holds, add-holds, inside_lem, bound,
}
use native.Mathlib.Nat.{add-zero}

-- A statement on the row: a check of some cost, or the sweep; each waits `after` the one before it.
pub data Event : Type 0 where
  checks : (after cost : ℕ) → Event
  sweeps : (after : ℕ) → Event

-- The row, the time, and the tokens granted so far.
pub record Ledger : Type 0 where
  pub entry : Option Row
  pub time : ℕ
  pub granted : ℕ

abbrev pub spent : Option Answer → ℕ → ℕ
spent (some allowed) cost = cost
spent (some (denied wait)) cost = 0
spent (some failed) cost = 0
spent none cost = 0

pub react : Config → Ledger → Event → Ledger
react cfg l (checks after cost) =
    let r = check_first l.entry (l.time + after) cost cfg in
    record { entry = r.0; time = l.time + after; granted = l.granted + spent r.1 cost }
react cfg l (sweeps after) = record {
  entry = sweep l.entry (l.time + after);
  time = l.time + after;
  granted = l.granted;
}

pub run : Config → Ledger → List Event → Ledger
run cfg l [] = l
run cfg l (e ∷ es) = run cfg (react cfg l e) es

abbrev pub IsAffordable : Event → Type 0
IsAffordable (checks after cost) = cost < 2 ^ 31
IsAffordable (sweeps after) = 0 ≤ after

module _ (cfg : Config) (on : enabled cfg ≡ true) (small : cfg.limit < 2 ^ 31) where
  check-none :
      (now cost : ℕ)
      → cost < 2 ^ 31
      → let r = check_first none now cost cfg in
        ((r.0 ≡ none) × (spent r.1 cost ≡ 0))
        ⊎ ((r.0 ≡ some (opened now cost cfg)) × (spent r.1 cost ≡ cost) × (cost ≤ cfg.limit))
  unfolding check_first try_consume_cost upsert
  check-none now cost c = ground (arith, on, small)

  check-some :
      (o : Row) (now cost : ℕ)
      → cost < 2 ^ 31
      → o.token_count ≤ cfg.limit
      → let r = check_first (some o) now cost cfg in
        ((r.0 ≡ some o) × (spent r.1 cost ≡ 0))
        ⊎ ((o.expires_at ≤ now)
            × (r.0 ≡ some (opened now cost cfg))
            × (spent r.1 cost ≡ cost)
            × (cost ≤ cfg.limit))
        ⊎ ((r.0 ≡ some (with_tokens o (o.token_count + cost)))
            × (spent r.1 cost ≡ cost)
            × (o.token_count + cost ≤ cfg.limit))
  unfolding check_first try_consume_cost upsert add_tokens
  check-some o now cost c b = ground (arith, on, small)

  check-none-holds :
      (from closed granted now cost : ℕ)
      → cost < 2 ^ 31
      → HoldsRow cfg from closed now granted none
      → let r = check_first none now cost cfg in
        (more : ℕ) × HoldsRow cfg from more now (granted + spent r.1 cost) r.0
  check-none-holds from closed granted now cost c h = elim (check-none now cost c) [
    | inl (e, f) ↦ (closed, rw (e, f, add-zero) h)
    | inr (e, f, b) ↦ (closed, rw (e, f) (open-holds cfg from closed now granted cost b h))
  ]

  check-some-holds :
      (from closed granted now cost : ℕ) (o : Row)
      → cost < 2 ^ 31
      → HoldsRow cfg from closed now granted (some o)
      → let r = check_first (some o) now cost cfg in
        (more : ℕ) × HoldsRow cfg from more now (granted + spent r.1 cost) r.0
  check-some-holds from closed granted now cost o c h =
      elim (check-some o now cost c (inside_lem cfg from closed now granted o h)) [
        | inl (e, f) ↦ (closed, rw (e, f, add-zero) h)
        | inr (inl (gone, e, f, b)) ↦
            let none_open = close-holds cfg from closed now granted o gone h in
            (suc closed, rw (e, f) (open-holds cfg from (suc closed) now granted cost b none_open))
        | inr (inr (e, f, b)) ↦
            (closed, rw (e, f) (add-holds cfg from closed now granted o cost b h))
      ]

  sweep-holds :
      (from closed granted now : ℕ) (entry : Option Row)
      → HoldsRow cfg from closed now granted entry
      → (more : ℕ) × HoldsRow cfg from more now granted (sweep entry now)
  unfolding sweep
  sweep-holds from closed granted now none h = (closed, h)
  sweep-holds from closed granted now (some o) h = elim (Bool-cases (ltb o.expires_at now)) [
    | inl gone ↦
        (suc closed, rw gone (close-holds cfg from closed now granted o (ground (arith, gone)) h))
    | inr stays ↦ (closed, rw stays h)
  ]

  react-holds :
      (from closed time granted : ℕ) (entry : Option Row) (e : Event)
      → IsAffordable e
      → HoldsRow cfg from closed time granted entry
      → let l = react cfg (record { entry = entry; time = time; granted = granted }) e in
        (more : ℕ) × HoldsRow cfg from more l.time l.granted l.entry
  unfolding react
  react-holds from closed time granted none (checks after cost) ok h =
      check-none-holds from closed granted (time + after) cost ok
        (wait-Holds cfg from closed time granted none (time + after) (omega arith) h)
  react-holds from closed time granted (some o) (checks after cost) ok h =
      check-some-holds from closed granted (time + after) cost o ok
        (wait-Holds cfg from closed time granted (some o) (time + after) (omega arith) h)
  react-holds from closed time granted entry (sweeps after) ok h =
      sweep-holds from closed granted (time + after) entry
        (wait-Holds cfg from closed time granted entry (time + after) (omega arith) h)

  run-holds :
      (from closed : ℕ) (l : Ledger) (es : List Event)
      → All IsAffordable es
      → HoldsRow cfg from closed l.time l.granted l.entry
      → (more : ℕ) × HoldsRow cfg from more
          (run cfg l es).time
          (run cfg l es).granted
          (run cfg l es).entry
  unfolding run
  run-holds from closed l [] ok h = (closed, h)
  run-holds from closed l (e ∷ es) ok h =
      let (more, next) = react-holds from closed l.time l.granted l.entry e ok.0 h in
      run-holds from more (react cfg l e) es ok.1 next

-- A subject with no row at the start spends at most one limit of tokens more than a limit for each
-- whole window that has passed, for all orders of checks, of costs below 2 ^ 31, and sweeps, at times
-- that do not go back, while the configuration stays, is enabled and has a limit below 2 ^ 31.
pub run_bounded :
    (cfg : Config) (from : ℕ) (es : List Event)
    → enabled cfg ≡ true
    → cfg.limit < 2 ^ 31
    → All IsAffordable es
    → let l = run cfg (record { entry = none; time = from; granted = 0 }) es in
      (windows : ℕ) × (l.granted ≤ suc windows * cfg.limit)
      × (from + windows * (cfg.window / 1_000) ≤ l.time)
run_bounded cfg from es on small ok =
    let start : Ledger = record { entry = none; time = from; granted = 0 } in
    let (windows, h) = run-holds cfg on small from 0 start es ok (fresh cfg from) in
    let l = run cfg start es in
    let (most, passed) = bound cfg from windows l.time l.granted l.entry h in
    (windows, most, passed)
