-- ===== src/Store/SignInFail.antt =====
-- internal/store/sign_in_fail.go, with its statements of internal/store/db/sign_in_fail.sql.go: the
-- failed sign-ins of one client network. An attempt holds the advisory lock of its network from its
-- first statement to its commit, so it is one step over the network's counter. The codes are shared with
-- attempts of other networks: the row that its verification reads is an argument, and may have been
-- changed before its statement on the codes runs. `now` is its transaction's time in microseconds, and
-- the clocks that it reads are nanoseconds.
pub mod Charging
pub mod Guesses
use telegram_server.Common.{
  ℕ, ◌+◌, ◌*◌, ◌%◌, ◌^◌, Bool, true, false, not, ◌&&◌, ◌||◌, Option, none, some, List, [], ◌∷◌, ltb,
  leb, if◌then◌else◌,
}
use telegram_server.Common.Text.{Text, text_beq}
use telegram_server.Net.{Addr}
use telegram_server.Store.IpBucket.{ip_bucket_key}
use telegram_server.Store.RateLimit.{
  Config, Row, enabled, opened, with_tokens, int4_le, int32, wait_until,
}
use telegram_server.Store.Codes.{
  PhoneCode, Verdict, verified, code_invalid, code_expired, code_exhausted, internal, verify_seen,
  normalize_phone,
}

-- A network's row of `sign_in_fail_calls`, and the codes.
pub record SignIns : Type 0 where
  pub counter : Option Row
  pub rows : List PhoneCode

-- What `AttemptSignIn` returns: (nil, nil), a wait, one of the code errors, or another error.
pub data SignInResult : Type 0 where
  signed_in : SignInResult
  flood_wait : ℕ → SignInResult
  refused : Verdict → SignInResult
  failed : SignInResult

-- `ChargeSignInFailCall`: the row, and whether it was affected.
unfoldable pub charge_failure : Option Row → ℕ → Config → Option Row × Bool
charge_failure none now cfg = (some (opened now 1 cfg), true)
charge_failure (some r) now cfg =
    if leb r.expires_at now
    then (some (opened now 1 cfg), true)
    else if int4_le (int32 cfg.limit) r.token_count
    then (some r, false)
    else (some (with_tokens r ((r.token_count + 1) % 2 ^ 32)), true)

-- `phoneUserExists` over the numbers of the accounts.
unfoldable pub phone_user_exists : List Text → Text → Bool
phone_user_exists [] phone = false
phone_user_exists (user ∷ users) phone =
    text_beq user (normalize_phone phone) || phone_user_exists users phone

-- The budget that `CheckSignInFailBudget` reads.
unfoldable pub is_spent : Option Row → ℕ → Config → Bool
is_spent none clock cfg = false
is_spent (some r) clock cfg =
    ltb clock (r.expires_at * 1_000) && int4_le (int32 cfg.limit) r.token_count

abbrev pub deadline : Option Row → ℕ
deadline none = 0
deadline (some r) = r.expires_at * 1_000

-- A refusal that is charged and committed, or rolled back as a whole.
abbrev pub refuse :
    SignIns → Option Row × Bool → List PhoneCode → Verdict → Bool → SignIns × SignInResult
refuse s (counter, affected) rows v commits =
    if affected && commits
    then (record { counter = counter; rows = rows }, refused v)
    else (s, failed)

-- `AttemptSignIn` after its budget check, on what the verification answers; an error of a statement
-- has aborted the transaction.
unfoldable pub conclude :
    SignIns → List PhoneCode × Verdict → Bool → ℕ → Config → Bool → SignIns × SignInResult
unfolding charge_failure
conclude s (rows, internal) registered now cfg commits = (s, failed)
conclude s (rows, verified) registered now cfg commits =
    if not registered
    then refuse s (charge_failure s.counter now cfg) rows code_invalid commits
    else if commits
    then (record s { rows = rows }, signed_in)
    else (s, failed)
conclude s (rows, code_invalid) registered now cfg commits =
    refuse s (charge_failure s.counter now cfg) rows code_invalid commits
conclude s (rows, code_expired) registered now cfg commits =
    refuse s (charge_failure s.counter now cfg) rows code_expired commits
conclude s (rows, code_exhausted) registered now cfg commits =
    refuse s (charge_failure s.counter now cfg) rows code_exhausted commits

-- `AttemptSignIn` while the limit is not enabled: each statement commits itself.
unfoldable pub conclude_unlimited :
    SignIns → List PhoneCode × Verdict → Bool → SignIns × SignInResult
conclude_unlimited s (rows, verified) registered =
    (record s { rows = rows }, if registered then signed_in else refused code_invalid)
conclude_unlimited s (rows, internal) registered = (record s { rows = rows }, failed)
conclude_unlimited s (rows, v) registered = (record s { rows = rows }, refused v)

-- The clocks that an attempt reads: at the budget, for the wait, and at the code's expiry.
pub record Clocks : Type 0 where
  pub at_budget : ℕ
  pub at_wait : ℕ
  pub at_code : ℕ

-- `AttemptSignIn` for a network with the state `s` at its statement on the codes, where `seen` is the row
-- that the verification has read.
unfoldable pub attempt_sign_in :
    SignIns
    → List Text
    → Addr
    → Option PhoneCode
    → Text
    → Text
    → Text
    → ℕ
    → Clocks
    → Config
    → Bool
    → SignIns × SignInResult
unfolding is_spent conclude conclude_unlimited
attempt_sign_in s users addr seen phone hash code now clock cfg commits =
    let check = verify_seen s.rows seen phone hash code clock.at_code now in
    let registered = phone_user_exists users phone in
    if not (enabled cfg) then conclude_unlimited s check registered else elim (ip_bucket_key addr) [
      | none ↦ (s, flood_wait 1_000_000_000)
      | some key ↦
          if is_spent s.counter clock.at_budget cfg
          then (s, flood_wait (wait_until clock.at_wait (deadline s.counter)))
          else conclude s check registered now cfg commits
    ]

-- `SweepExpiredSignInFailCalls` for this network.
unfoldable pub sweep_failures : Option Row → ℕ → Option Row
sweep_failures none now = none
sweep_failures (some r) now = if leb r.expires_at now then none else some r
