-- ===== src/Mtproto/Tests/BudgetTests.antt =====
-- Runs of the limits on discovery requests and on calls that the server does not implement.
use telegram_server.Common.{ℕ, suc, ◌+◌, ◌*◌, ◌≤◌, ◌≡◌, refl, none, some, List, [], ◌∷◌, arith}
use telegram_server.Common.Text.{codes, text_beq}
use telegram_server.Net.{ip4}
use telegram_server.Store.IpBucket.{ip_bucket_key}
use telegram_server.Mtproto.Limits.FixedWindow.{no_window}
use telegram_server.Mtproto.Limits.Discovery.{
  DiscoveryLimits, new_discovery_limiter, max_discovery_buckets, allow,
}
use telegram_server.Mtproto.Limits.Discovery.Bounded.{IsBounded}
use telegram_server.Mtproto.Limits.Discovery.Admitted
use telegram_server.Mtproto.Limits.Discovery.Admitted.{run_new-IsBounded}
use telegram_server.Mtproto.Limits.Unimplemented.{no_lines, log_allow, log_close, flush_line}
use telegram_server.Mtproto.Limits.Unimplemented.Budget
use telegram_server.Mtproto.Limits.Unimplemented.Budget.{run_answered}
use telegram_server.Mtproto.Limits.Unimplemented.Logged
use telegram_server.Mtproto.Limits.Unimplemented.Logged.{
  IsExact, run_new-IsExact, calls, closes, drops,
}

abbrev few : DiscoveryLimits
few = record { max_requests = 2; max_requests_per_net = 1; window = 100; per_net_window = 100 }

abbrev ledger : Admitted.Ledger
ledger = record { limiter = new_discovery_limiter few; time = 1; admitted = 0 }

abbrev requests : List Admitted.Event
requests =
    record { after = 5; addr = ip4 0x01020304 }
    ∷ record { after = 5; addr = ip4 0x01020304 }
    ∷ record { after = 5; addr = ip4 0x05060708 }
    ∷ record { after = 200; addr = ip4 0x09060708 }
    ∷ []

three_admitted : (Admitted.run ledger requests).admitted ≡ 3
unfolding Admitted.run Admitted.react allow ip_bucket_key
three_admitted = refl

run_new-IsBounded_example :
    let l = Admitted.run ledger requests in
    (windows : ℕ) × IsBounded l.limiter
    × (l.limiter.max_buckets ≡ max_discovery_buckets)
    × (l.admitted ≤ suc windows * 2)
    × (1 + windows * 100 ≤ l.time)
run_new-IsBounded_example = run_new-IsBounded few 1 requests refl

abbrev fresh : Budget.Ledger
fresh = record { budget = no_window; time = 1; answered = 0; survived = 0 }

run_answered_example :
    let l = Budget.run fresh (3 ∷ 4 ∷ 70_000_000_000 ∷ []) in
    ((minutes : ℕ) × (l.answered ≤ suc minutes * 64) × (1 + minutes * 60_000_000_000 ≤ l.time))
    × ((minutes : ℕ) × (l.survived ≤ suc minutes * 255) × (1 + minutes * 60_000_000_000 ≤ l.time))
run_answered_example = run_answered 1 (3 ∷ 4 ∷ 70_000_000_000 ∷ [])

abbrev no_calls : Logged.Ledger
no_calls = record { lines = no_lines; calls = 0; written = 0; counted = 0 }

abbrev burst : List Logged.Event
burst =
    calls (codes "a") 20_000_000_000
    ∷ calls (codes "a") 20_000_000_001
    ∷ calls (codes "b") 20_000_000_002
    ∷ closes 20_000_000_003
    ∷ drops 20_000_000_004
    ∷ []

burst_counted : (Logged.run no_calls burst).counted ≡ 1
unfolding Logged.run Logged.react log_allow text_beq log_close flush_line
burst_counted = refl

-- A drop owes a line for a held call, and none after that line.
abbrev held_back : List Logged.Event
held_back = calls (codes "a") 20_000_000_000 ∷ calls (codes "a") 20_000_000_001 ∷ []

drop_owes : (flush_line (Logged.run no_calls held_back).lines 20_000_000_002).1 ≡ some 1
unfolding Logged.run Logged.react log_allow text_beq flush_line
drop_owes = refl

drop_owes_none : (flush_line (Logged.run no_calls burst).lines 20_000_000_005).1 ≡ none
unfolding Logged.run Logged.react log_allow text_beq log_close flush_line
drop_owes_none = refl

run_new-IsExact_example : IsExact (Logged.run no_calls burst)
run_new-IsExact_example = run_new-IsExact burst (omega arith)
