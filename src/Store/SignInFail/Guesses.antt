-- ===== src/Store/SignInFail/Guesses.antt =====
-- internal/store/sign_in_fail.go: how many wrong guesses a network gets over time.
use telegram_server.Common.{
  ℕ, suc, ◌+◌, ◌*◌, ◌/◌, ◌^◌, ◌≤◌, ◌<◌, ◌≡◌, ◌⊎◌, inl, inr, refl, Bool, true, Option, none, some,
  List, [], ◌∷◌, leb, Bool-cases, arith,
}
use telegram_server.Common.Text.{Text}
use telegram_server.Net.{Addr}
use telegram_server.Store.RateLimit.{Config, Row, enabled, opened, with_tokens}
use telegram_server.Store.RateLimit.Window.{
  HoldsRow, fresh, wait-Holds, open-holds, close-holds, add-holds, inside_lem, bound,
}
use telegram_server.Store.Codes.{PhoneCode, Verdict, verify_seen}
use telegram_server.Store.SignInFail.{
  SignIns, SignInResult, signed_in, flood_wait, refused, failed, charge_failure, phone_user_exists,
  Clocks, attempt_sign_in, sweep_failures,
}
use telegram_server.Store.SignInFail.Charging.{
  Outcome, charges, enters, waits, fails, attempt_sign_in-Outcome,
}
use native.Mathlib.Nat.{add-zero}

-- An attempt from the network, whose verification has read `seen`, the sweep, or what others do to the codes; each waits `after` the one
-- before it.
pub data Event : Type 0 where
  tries :
      (after : ℕ) (users : List Text) (addr : Addr) (seen : Option PhoneCode)
      (phone hash code : Text) (clock : Clocks) (commits : Bool)
      → Event
  sweeps : (after : ℕ) → Event
  others : (after : ℕ) (rows : List PhoneCode) → Event

-- The state, the time, and the guesses that were told to be wrong.
pub record Ledger : Type 0 where
  pub state : SignIns
  pub time : ℕ
  pub told : ℕ

abbrev pub telling : SignInResult → ℕ
telling (refused v) = 1
telling signed_in = 0
telling (flood_wait w) = 0
telling failed = 0

unfoldable pub react : Config → Ledger → Event → Ledger
react cfg l (tries after users addr seen phone hash code clock commits) =
    let now = l.time + after in
    let done = attempt_sign_in l.state users addr seen phone hash code now clock cfg commits in
    record { state = done.0; time = now; told = l.told + telling done.1 }
react cfg l (sweeps after) = record l {
  state = record { counter = sweep_failures l.state.counter (l.time + after); rows = l.state.rows };
  time = l.time + after;
}
react cfg l (others after rows) = record l {
  state = record { counter = l.state.counter; rows = rows };
  time = l.time + after;
}

unfoldable pub run : Config → Ledger → List Event → Ledger
run cfg l [] = l
run cfg l (e ∷ es) = run cfg (react cfg l e) es

module _ (cfg : Config) (on : enabled cfg ≡ true) (small : cfg.limit < 2 ^ 31) where
  charge-cases :
      (o : Row) (now : ℕ) (counter : Option Row)
      → o.token_count ≤ cfg.limit
      → charge_failure (some o) now cfg ≡ (counter, true)
      → ((o.expires_at ≤ now) × (counter ≡ some (opened now 1 cfg)))
        ⊎ ((o.token_count + 1 ≤ cfg.limit) × (counter ≡ some (with_tokens o (o.token_count + 1))))
  unfolding charge_failure
  charge-cases o now counter b e = ground (arith, on, small, e)

  charge_none :
      (now : ℕ) (counter : Option Row)
      → charge_failure none now cfg ≡ (counter, true)
      → (1 ≤ cfg.limit) × (counter ≡ some (opened now 1 cfg))
  unfolding charge_failure
  charge_none now counter e = ground (arith, on, e)

  charge-holds :
      (from closed now told : ℕ) (entry counter : Option Row)
      → charge_failure entry now cfg ≡ (counter, true)
      → HoldsRow cfg from closed now told entry
      → (more : ℕ) × HoldsRow cfg from more now (told + 1) counter
  charge-holds from closed now told none counter e h =
      let (b, same) = charge_none now counter e in
      (closed, rw same (open-holds cfg from closed now told 1 b h))
  charge-holds from closed now told (some o) counter e h =
      elim (charge-cases o now counter (inside_lem cfg from closed now told o h) e) [
        | inl (gone, same) ↦
            let none_open = close-holds cfg from closed now told o gone h in
            let b = (charge_none now (some (opened now 1 cfg)) (unfold charge_failure in refl)).0 in
            (suc closed, rw same (open-holds cfg from (suc closed) now told 1 b none_open))
        | inr (b, same) ↦ (closed, rw same (add-holds cfg from closed now told o 1 b h))
      ]

  outcome-holds :
      (s : SignIns) (check : List PhoneCode × Verdict) (registered : Bool)
      (from closed now told : ℕ) {t : SignIns} {r : SignInResult}
      → Outcome s check registered now cfg t r
      → HoldsRow cfg from closed now told s.counter
      → (more : ℕ) × HoldsRow cfg from more now (told + telling r) t.counter
  outcome-holds s check registered from closed now told (charges counter v e is) h =
      charge-holds from closed now told s.counter counter e h
  outcome-holds s check registered from closed now told (enters e f) h = (closed, rw add-zero h)
  outcome-holds s check registered from closed now told (waits w) h = (closed, rw add-zero h)
  outcome-holds s check registered from closed now told fails h = (closed, rw add-zero h)

  sweep-holds :
      (from closed now told : ℕ) (entry : Option Row)
      → HoldsRow cfg from closed now told entry
      → (more : ℕ) × HoldsRow cfg from more now told (sweep_failures entry now)
  unfolding sweep_failures
  sweep-holds from closed now told none h = (closed, h)
  sweep-holds from closed now told (some o) h = elim (Bool-cases (leb o.expires_at now)) [
    | inl gone ↦
        (suc closed, rw gone (close-holds cfg from closed now told o (ground (arith, gone)) h))
    | inr stays ↦ (closed, rw stays h)
  ]

  react-holds :
      (from closed : ℕ) (l : Ledger) (e : Event)
      → HoldsRow cfg from closed l.time l.told l.state.counter
      → let k = react cfg l e in (more : ℕ) × HoldsRow cfg from more k.time k.told k.state.counter
  unfolding react
  react-holds from closed l (tries after users addr seen phone hash code clock commits) h =
      let now = l.time + after in
      let later = wait-Holds cfg from closed l.time l.told l.state.counter now (omega arith) h in
      let out =
        attempt_sign_in-Outcome l.state users addr seen phone hash code now clock cfg commits on in
      outcome-holds l.state (verify_seen l.state.rows seen phone hash code clock.at_code now)
        (phone_user_exists users phone) from closed now l.told out later
  react-holds from closed l (sweeps after) h =
      let now = l.time + after in
      let later = wait-Holds cfg from closed l.time l.told l.state.counter now (omega arith) h in
      sweep-holds from closed now l.told l.state.counter later
  react-holds from closed l (others after rows) h = (
    closed,
    wait-Holds cfg from closed l.time l.told l.state.counter (l.time + after) (omega arith) h,
  )

  run-holds :
      (from closed : ℕ) (l : Ledger) (es : List Event)
      → HoldsRow cfg from closed l.time l.told l.state.counter
      → let k = run cfg l es in (more : ℕ) × HoldsRow cfg from more k.time k.told k.state.counter
  unfolding run
  run-holds from closed l [] h = (closed, h)
  run-holds from closed l (e ∷ es) h =
      let (more, next) = react-holds from closed l e h in
      run-holds from more (react cfg l e) es next

-- A network without a counter is told of at most one limit of wrong guesses more than a limit for each
-- whole window that has passed, over all numbers and codes together: for all orders of attempts,
-- sweeps and changes of the codes by others, whichever rows the verifications have read, at times that do
-- not go back, while the configuration stays, is enabled and has a limit below 2 ^ 31.
pub told_bounded :
    (cfg : Config) (from : ℕ) (rows : List PhoneCode) (es : List Event)
    → enabled cfg ≡ true
    → cfg.limit < 2 ^ 31
    → let l =
        run cfg
          (record { state = record { counter = none; rows = rows }; time = from; told = 0 })
          es in
      (windows : ℕ) × (l.told ≤ suc windows * cfg.limit)
      × (from + windows * (cfg.window / 1_000) ≤ l.time)
told_bounded cfg from rows es on small =
    let start : Ledger = record {
      state = record { counter = none; rows = rows };
      time = from;
      told = 0;
    } in
    let (windows, h) = run-holds cfg on small from 0 start es (fresh cfg from) in
    let l = run cfg start es in
    let (most, passed) = bound cfg from windows l.time l.told l.state.counter h in
    (windows, most, passed)
