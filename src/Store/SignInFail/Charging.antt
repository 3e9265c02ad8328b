-- ===== src/Store/SignInFail/Charging.antt =====
-- internal/store/sign_in_fail.go: what an attempt charges, on every branch.
use telegram_server.Common.{
  ℕ, ◌≡◌, inl, inr, refl, Bool, true, false, Option, List, Bool-cases, Option-cases, arith,
}
use telegram_server.Common.Text.{Text}
use telegram_server.Net.{Addr}
use telegram_server.Store.IpBucket.{ip_bucket_key}
use telegram_server.Store.RateLimit.{Config, Row, enabled}
use telegram_server.Store.Codes.{
  PhoneCode, Verdict, verified, code_invalid, code_expired, code_exhausted, internal, verify_seen,
}
use telegram_server.Store.SignInFail.{
  SignIns, SignInResult, signed_in, flood_wait, refused, failed, charge_failure, phone_user_exists,
  is_spent, conclude, refuse, Clocks, attempt_sign_in,
}

-- The verdict that the client of a refusal sees.
abbrev pub IsRefusal : Verdict → Verdict → Bool → Type 0
IsRefusal verified v registered = (v ≡ code_invalid) × (registered ≡ false)
IsRefusal internal v registered = ⊥
IsRefusal seen v registered = v ≡ seen

-- What an attempt means for the state: charged and kept, kept without a charge, or without effect.
pub data Outcome (s : SignIns) (check : List PhoneCode × Verdict) (registered : Bool) (now : ℕ)
    (cfg : Config) : SignIns → SignInResult → Type 0 where
  charges :
      (counter : Option Row) (v : Verdict)
      → charge_failure s.counter now cfg ≡ (counter, true)
      → IsRefusal check.1 v registered
      → Outcome s check registered now cfg
          (record { counter = counter; rows = check.0 })
          (refused v)
  enters :
      check.1 ≡ verified
      → registered ≡ true
      → Outcome s check registered now cfg (record s { rows = check.0 }) signed_in
  waits : (time : ℕ) → Outcome s check registered now cfg s (flood_wait time)
  fails : Outcome s check registered now cfg s failed

refuse-Outcome :
    (s : SignIns) (check : List PhoneCode × Verdict) (registered : Bool) (now : ℕ) (cfg : Config)
    (v : Verdict) (commits : Bool)
    → IsRefusal check.1 v registered
    → let done = refuse s (charge_failure s.counter now cfg) check.0 v commits in
      Outcome s check registered now cfg done.0 done.1
refuse-Outcome s check registered now cfg v true is =
    elim (Bool-cases (charge_failure s.counter now cfg).1) [
      | inl e ↦
          let charged : charge_failure s.counter now cfg
              ≡ ((charge_failure s.counter now cfg).0, true) =
            ground (arith, e) in
          rw e (charges (charge_failure s.counter now cfg).0 v charged is)
      | inr e ↦ rw e fails
    ]
refuse-Outcome s check registered now cfg v false is =
    elim (Bool-cases (charge_failure s.counter now cfg).1) [
      | inl e ↦ rw e fails
      | inr e ↦ rw e fails
    ]

conclude-Outcome :
    (s : SignIns) (rows : List PhoneCode) (v : Verdict) (registered : Bool) (now : ℕ) (cfg : Config)
    (commits : Bool)
    → let done = conclude s (rows, v) registered now cfg commits in
      Outcome s (rows, v) registered now cfg done.0 done.1
unfolding conclude
conclude-Outcome s rows internal registered now cfg commits = fails
conclude-Outcome s rows verified true now cfg true = enters refl refl
conclude-Outcome s rows verified true now cfg false = fails
conclude-Outcome s rows verified false now cfg commits =
    refuse-Outcome s (rows, verified) false now cfg code_invalid commits (refl, refl)
conclude-Outcome s rows code_invalid registered now cfg commits =
    refuse-Outcome s (rows, code_invalid) registered now cfg code_invalid commits refl
conclude-Outcome s rows code_expired registered now cfg commits =
    refuse-Outcome s (rows, code_expired) registered now cfg code_expired commits refl
conclude-Outcome s rows code_exhausted registered now cfg commits =
    refuse-Outcome s (rows, code_exhausted) registered now cfg code_exhausted commits refl

-- With the limit enabled, for every state, caller, time and fate of the commit, and whichever row its
-- verification has read before others changed the codes, an attempt has one of four outcomes. It refuses with the error of the code check, or with that of a wrong code if the code
-- is right and the number has no account, and then the counter has been charged and the check's rows
-- are kept; it signs in, only on a right code of a number with an account, keeps the check's rows and
-- charges nothing; or it answers a wait or fails, and has changed neither counter nor codes, so that a
-- guess is not told to be wrong unless it was charged.
pub attempt_sign_in-Outcome :
    (s : SignIns) (users : List Text) (addr : Addr) (seen : Option PhoneCode)
    (phone hash code : Text) (now : ℕ) (clock : Clocks) (cfg : Config) (commits : Bool)
    → enabled cfg ≡ true
    → let done = attempt_sign_in s users addr seen phone hash code now clock cfg commits in
      Outcome s
        (verify_seen s.rows seen phone hash code clock.at_code now)
        (phone_user_exists users phone)
        now
        cfg
        done.0
        done.1
unfolding attempt_sign_in
attempt_sign_in-Outcome s users addr seen phone hash code now clock cfg commits on =
    let check = verify_seen s.rows seen phone hash code clock.at_code now in
    elim (Option-cases (ip_bucket_key addr)) [
      | inl e ↦ rw (on, e) (waits 1_000_000_000)
      | inr (key, e) ↦ elim (Bool-cases (is_spent s.counter clock.at_budget cfg)) [
        | inl f ↦ rw (on, e, f) (waits _)
        | inr f ↦
            rw (on, e, f)
              (conclude-Outcome s check.0 check.1 (phone_user_exists users phone) now cfg commits)
      ]
    ]
