-- ===== src/Store/SendCode.antt =====
-- internal/store/send_code_ip.go, with internal/store/queries/send_code_ip.sql: the two counters of one
-- client network. A call holds the advisory lock of its network from its first statement to its
-- commit, so it is one step; `now` is its transaction's time, and a phone number is one that
-- NormalizePhone gives, as a number.
pub mod Charged
use telegram_server.Common.{
  ℕ, ◌+◌, ◌*◌, ◌/◌, min, Bool, true, false, not, ◌||◌, Option, none, some, List, [], ◌∷◌, ◌++◌,
  length, ltb, leb, ◌==◌, if◌then◌else◌, signed_lt,
}
use telegram_server.Net.{Addr}
use telegram_server.Store.IpBucket.{ip_bucket_key}
use telegram_server.Store.RateLimit.{
  Config, Row, Answer, allowed, denied, failed, Returned, row, no_rows, sql_error, enabled, reserve,
  wait_until,
}

-- `SendCodeIPLimits`.
pub record SendCodeLimits : Type 0 where
  pub calls : Config
  pub phones : Config

-- The rows of one network: its counter, and its numbers with their expiry.
pub record Network : Type 0 where
  pub counter : Option Row
  pub numbers : List (ℕ × ℕ)

abbrev pub expiry : Option Row → ℕ
expiry none = 0
expiry (some r) = r.expires_at

call_answer : Option Row → ℕ → Returned → Answer
call_answer r clock (row o) = allowed
call_answer r clock no_rows = denied (wait_until clock (expiry r * 1_000))
call_answer r clock sql_error = failed

-- `chargeSendCodeIPCall`; its statement is that of a reservation on another table.
unfoldable pub charge_call : Option Row → ℕ → ℕ → Config → Option Row × Answer
unfolding call_answer
charge_call r now clock cfg =
    if not (enabled cfg)
    then (r, allowed)
    else (let done = reserve r now cfg in (done.0, call_answer done.0 clock done.1))

-- `DeleteExpiredSendCodeIPPhones`.
unfoldable pub prune : List (ℕ × ℕ) → ℕ → List (ℕ × ℕ)
prune [] now = []
prune ((phone, expires) ∷ numbers) now =
    let rest = prune numbers now in if leb expires now then rest else (phone, expires) ∷ rest

-- `counted` of `GetSendCodeIPPhoneUsage`.
unfoldable pub is_counted : List (ℕ × ℕ) → ℕ → Bool
is_counted [] phone = false
is_counted ((other, expires) ∷ numbers) phone =
    let rest = is_counted numbers phone in if other == phone then true else rest

-- `GetSendCodeIPPhoneNextExpiry`, for a network that has numbers.
unfoldable pub next_expiry : ℕ → List (ℕ × ℕ) → ℕ
next_expiry soonest [] = soonest
next_expiry soonest ((phone, expires) ∷ numbers) = next_expiry (min soonest expires) numbers

abbrev pub first_expiry : List (ℕ × ℕ) → ℕ
first_expiry [] = 0
first_expiry ((phone, expires) ∷ numbers) = next_expiry expires numbers

-- `chargeSendCodeIPPhone` after the pruning.
unfoldable pub charge_number : List (ℕ × ℕ) → ℕ → ℕ → ℕ → Config → List (ℕ × ℕ) × Answer
charge_number kept now clock phone cfg =
    if is_counted kept phone
    then (kept, allowed)
    else if not (signed_lt (length kept) cfg.limit)
    then (kept, denied (wait_until clock (first_expiry kept * 1_000)))
    else (kept ++ (phone, now + cfg.window / 1_000) ∷ [], allowed)

-- `chargeSendCodeIPPhone`.
unfoldable pub charge_phone : List (ℕ × ℕ) → ℕ → ℕ → ℕ → Config → List (ℕ × ℕ) × Answer
charge_phone numbers now clock phone cfg =
    if not (enabled cfg)
    then (numbers, allowed)
    else charge_number (prune numbers now) now clock phone cfg

-- The transaction: whatever is not allowed rolls it back, and so does a commit that fails.
unfoldable pub charge_both : Network → ℕ → ℕ → ℕ → SendCodeLimits → Bool → Network × Answer
charge_both s now clock phone cfg commits =
    let calls = charge_call s.counter now clock cfg.calls in
    let phones = charge_phone s.numbers now clock phone cfg.phones in
    elim calls.1 [
      | denied wait ↦ (s, denied wait)
      | failed ↦ (s, failed)
      | allowed ↦ elim phones.1 [
        | denied wait ↦ (s, denied wait)
        | failed ↦ (s, failed)
        | allowed ↦
            if commits
            then (record { counter = calls.0; numbers = phones.0 }, allowed)
            else (s, failed)
      ]
    ]

-- `CheckAndChargeSendCodeIP` for a network with the rows `s`; `failed` is also `ErrNoClientAddr`.
unfoldable pub check_and_charge :
    Network → Addr → ℕ → ℕ → ℕ → SendCodeLimits → Bool → Network × Answer
check_and_charge s addr now clock phone cfg commits =
    if not (enabled cfg.calls || enabled cfg.phones)
    then (s, allowed)
    else elim (ip_bucket_key addr) [
      | none ↦ (s, failed)
      | some key ↦ charge_both s now clock phone cfg commits
    ]

-- `SweepExpiredSendCodeIPLimits` for this network.
unfoldable pub sweep_network : Network → ℕ → Network
sweep_network s now = record {
  counter = if leb (expiry s.counter) now then none else s.counter;
  numbers = prune s.numbers now;
}
