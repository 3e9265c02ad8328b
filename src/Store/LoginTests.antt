-- ===== src/Store/LoginTests.antt =====
-- Runs of the login codes and of the registration invites, and of the limits on failed sign-ins and on
-- lookups of names.
use telegram_server.Common.{
  ℕ, suc, ◌+◌, ◌*◌, ◌/◌, ◌≤◌, ◌≡◌, ◌≢◌, ◌↔◌, ◌⊎◌, ◌++◌, length, replicate, refl, true, none, some,
  List, [], ◌∷◌, arith,
}
use telegram_server.Common.Text.{Text, codes, text_beq}
use telegram_server.Net.{Addr, ip4}
use telegram_server.Store.IpBucket.{ip_bucket_key}
use telegram_server.Store.RateLimit.{Config}
use telegram_server.Store.Invites.{issue_invite, consume_invite, issued}
use telegram_server.Store.Invites.Live.{live_rows}
use telegram_server.Store.Invites.Single
use telegram_server.Store.Invites.Single.{run_new_single, no_invites}
use telegram_server.Store.UsernameLookups.{
  allowed, check_and_charge_lookup, count_lookups, lookup_window, burst_window,
}
use telegram_server.Store.UsernameLookups.Quota
use telegram_server.Store.UsernameLookups.Quota.{run_new_quota, no_searches, lookup_of}
use telegram_server.Store.Codes.{
  PhoneCode, verified, code_invalid, normalize_phone, issue_code, issued, verify_code, verify_seen,
  get_code, decide, settle, consume_code, update_where, digits5, hex_text,
}
use telegram_server.Store.Codes.Once
use telegram_server.Store.Codes.Once.{new_ledger, issues, verifies, run_new_granted}
use telegram_server.Store.Codes.IssueVerify.{IsUsable, verify_code_lem, issue-verify}
use telegram_server.Store.SignInFail.{SignIns, Clocks, refused, phone_user_exists, attempt_sign_in}
use telegram_server.Store.SignInFail.Charging.{Outcome, attempt_sign_in-Outcome}
use telegram_server.Store.SignInFail.Guesses
use telegram_server.Store.SignInFail.Guesses.{tries, sweeps, told_bounded}

-- The code 12345 with the hash "0a" for the number 4912.
abbrev row : PhoneCode
row = record {
  phone = codes "4912";
  code_hash = codes "0a";
  code = codes "12345";
  expires_at = 300_000_001;
  attempts = 0;
  consumed_at = none;
  created_at = 1;
}

issued_row :
    issue_code [] (codes "+4912") 1 1_000 1_500 (1 ∷ 2 ∷ 3 ∷ 4 ∷ 15 ∷ []) (10 ∷ []) true
    ≡ (row ∷ [], issued (codes "0a") (codes "12345"))
unfolding issue_code text_beq digits5 hex_text get_code
issued_row = refl

issue-verify_example :
    let done = verify_code (row ∷ []) (codes "4912") (codes "0a") (codes "12345") 2_000 2 in
    (done.1 ≡ verified)
    × (verify_code done.0 (codes "4912") (codes "0a") (codes "12345") 3_000 3
        ≡ (done.0, code_invalid))
    × ((verify_code
          (row ∷ [])
          (codes "4912")
          (codes "0a")
          (codes "12345")
          300_000_002_000
          300_000_002).1
        ≢ verified)
issue-verify_example =
    issue-verify [] (row ∷ []) (codes "+4912") (codes "4912") (codes "0a") (codes "12345") 1 1_000
      1_500 (1 ∷ 2 ∷ 3 ∷ 4 ∷ 15 ∷ []) (10 ∷ []) true 2_000 2 (codes "4912") (codes "12345") 3_000 3
      300_000_002_000 300_000_002 issued_row (unfold normalize_phone in refl) (omega arith)
      (omega arith) (omega arith)

verify_code_lem_example :
    ((verify_code (row ∷ []) (codes "4912") (codes "0a") (codes "12345") 2_000 2).1 ≡ verified)
    ↔ IsUsable row (codes "4912") (codes "12345") 2_000
verify_code_lem_example =
    verify_code_lem (row ∷ []) (codes "4912") (codes "0a") (codes "12345") 2_000 2 row
      (unfold get_code text_beq in refl) (omega arith)

-- Two callers have read the row before either of them writes.
abbrev racing : List Once.Event
racing =
    issues (codes "4912") 1 1_000 1_500 (1 ∷ 2 ∷ 3 ∷ 4 ∷ 5 ∷ []) (10 ∷ []) true
    ∷ verifies (some row) (codes "4912") (codes "0a") (codes "12345") 2_000 2
    ∷ verifies (some row) (codes "4912") (codes "0a") (codes "12345") 2_000 2
    ∷ []

run_new_granted_example :
    ((Once.run (codes "0a") new_ledger racing).grants
      ≤ (Once.run (codes "0a") new_ledger racing).issues_of)
    × ((Once.run (codes "0a") new_ledger racing).late ≡ 0)
run_new_granted_example = run_new_granted (codes "0a") racing

one_grant : (Once.run (codes "0a") new_ledger racing).grants ≡ 1
unfolding Once.run Once.react issue_code decide consume_code update_where text_beq digits5 hex_text
    get_code
one_grant = refl

abbrev two_failures : Config
two_failures = record { limit = 2; window = 60_000_000_000 }

abbrev host : Addr
host = ip4 0x7f000001

abbrev at_two : Clocks
at_two = record { at_budget = 2_000; at_wait = 2_000; at_code = 2_000 }

abbrev quiet : SignIns
quiet = record { counter = none; rows = row ∷ [] }

attempt_sign_in-Outcome_example :
    let done =
      attempt_sign_in quiet [] host
        (some row)
        (codes "4912")
        (codes "0a")
        (codes "12345")
        2
        at_two
        two_failures
        true in
    Outcome quiet
      (verify_seen (row ∷ []) (some row) (codes "4912") (codes "0a") (codes "12345") 2_000 2)
      (phone_user_exists [] (codes "4912"))
      2
      two_failures
      done.0
      done.1
attempt_sign_in-Outcome_example =
    attempt_sign_in-Outcome quiet [] host (some row) (codes "4912") (codes "0a") (codes "12345") 2
      at_two two_failures true refl

-- A right code without an account is refused as a wrong one.
no_account :
    (attempt_sign_in quiet [] host
      (some row)
      (codes "4912")
      (codes "0a")
      (codes "12345")
      2
      at_two
      two_failures
      true).1
    ≡ refused code_invalid
unfolding attempt_sign_in ip_bucket_key verify_seen decide settle consume_code update_where
    phone_user_exists text_beq
no_account = refl

abbrev guessing : List Guesses.Event
guessing =
    tries 2 [] host (some row) (codes "4912") (codes "0a") (codes "00000") at_two true
    ∷ sweeps 1
    ∷ tries 0 [] host (some row) (codes "4912") (codes "0a") (codes "00001") at_two true
    ∷ []

told_bounded_example :
    let l =
      Guesses.run two_failures
        (record { state = record { counter = none; rows = row ∷ [] }; time = 0; told = 0 })
        guessing in
    (windows : ℕ) × (l.told ≤ suc windows * two_failures.limit)
    × (0 + windows * (two_failures.window / 1_000) ≤ l.time)
told_bounded_example = told_bounded two_failures 0 (row ∷ []) guessing refl (omega arith)

-- A name twice, and another one more than a day later.
abbrev searches : List Quota.Event
searches =
    record { after = 5; handle = codes "alice"; commits = true }
    ∷ record { after = 7; handle = codes "alice"; commits = true }
    ∷ record { after = 90_000_000_000; handle = codes "bob"; commits = true }
    ∷ []

one_name_left :
    count_lookups (Quota.run (no_searches 1) searches).rows 90_000_000_013 lookup_window ≡ 1
unfolding Quota.run Quota.react check_and_charge_lookup text_beq
one_name_left = refl

run_new_quota_example :
    let l = Quota.run (no_searches 1) searches in
    let done = check_and_charge_lookup l.rows (codes "carol") 90_000_000_020 true in
    let granted = l.granted ++ lookup_of (codes "carol") 90_000_000_020 ∷ [] in
    ((done.1 ≡ allowed)
      × (count_lookups granted 90_000_000_020 lookup_window ≤ 100)
      × (count_lookups granted 90_000_000_020 burst_window ≤ 20))
    ⊎ ((done.1 ≢ allowed) × (done.0 ≡ l.rows))
run_new_quota_example =
    run_new_quota 1 searches (codes "carol") 90_000_000_020 true
      (unfold Quota.run Quota.react check_and_charge_lookup text_beq in omega arith)

-- A digest of 32 bytes that two secrets of one length share.
abbrev digest : Text → Text
digest secret = length secret ∷ replicate 31 0

abbrev secret : Text
secret = codes "00010203"

-- Two issues for one handle, and a secret that is tried under it twice.
abbrev invitations : List Single.Event
invitations =
    Single.issues (codes "Alice") [] (0 ∷ 1 ∷ 2 ∷ 3 ∷ []) 5 5 true
    ∷ Single.issues (codes "alice") [] (0 ∷ 1 ∷ 2 ∷ 3 ∷ []) 6 6 true
    ∷ Single.consumes (codes "ALICE") secret 7 7 true
    ∷ Single.consumes (codes "alice") secret 8 8 true
    ∷ []

used_once : (Single.run 1 digest no_invites invitations).uses ≡ 1
unfolding Single.run Single.react issue_invite consume_invite text_beq
used_once = refl

run_new_single_example :
    let l = Single.run 1 digest no_invites invitations in
    (l.uses ≤ l.issues_of) × (l.issues_of ≤ 1) × (live_rows (codes "alice") l.table.rows ≤ 1)
run_new_single_example = run_new_single digest 1 (codes "alice") invitations
