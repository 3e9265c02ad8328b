-- ===== src/Store/Tests.antt =====
-- Runs of the limits that the database keeps.
use telegram_server.Common.{
  true, false, ℕ, suc, ◌+◌, ◌*◌, ◌/◌, ◌≤◌, ◌≡◌, ◌≢◌, ◌↔◌, refl, none, some, All, List, [], ◌∷◌,
  arith,
}
use telegram_server.Net.{Addr, ip6, net64}
use telegram_server.Store.IpBucket.{ip_bucket_key, ip_bucket_key_lem, SameNetwork}
use telegram_server.Store.RateLimit.{
  Config, Row, row, wait_until, check_first, check_denied, allowed, denied, reserve, refund,
  try_consume_cost, upsert, add_tokens,
}
use telegram_server.Store.RateLimit.Rate.{
  run, Event, checks, sweeps, Ledger, IsAffordable, run_bounded,
}
use telegram_server.Store.RateLimit.Waits.{denied_then_allowed, refund-reserve}
use telegram_server.Store.SendCode.{
  SendCodeLimits, Network, check_and_charge, charge_both, charge_call, charge_phone, charge_number,
  prune, is_counted, next_expiry,
}
use telegram_server.Store.SendCode.Charged
use telegram_server.Store.SendCode.Charged.{
  charges, IsCharged, run_new-IsCharged, refused_unchanged,
}

-- 2001:db8::1 and 2001:db8::2.
abbrev host_a : Addr
host_a = ip6 0x20010db8000000000000000000000001 0

abbrev host_b : Addr
host_b = ip6 0x20010db8000000000000000000000002 7

one_half : ip_bucket_key host_a ≡ some (net64 0x20010db800000000)
unfolding ip_bucket_key
one_half = refl

ip_bucket_key_example :
    ((ip_bucket_key host_a ≡ ip_bucket_key host_b) ↔ SameNetwork host_a host_b)
    × (ip_bucket_key host_a ≢ none)
ip_bucket_key_example = ip_bucket_key_lem host_a host_b (λ e. ground (arith, e))

-- Two tokens in a second.
abbrev two : Config
two = record { limit = 2; window = 1_000_000_000 }

abbrev spending : List Event
spending = checks 5 1 ∷ checks 1 1 ∷ checks 1 1 ∷ sweeps 2_000_000 ∷ checks 1 2 ∷ []

abbrev at_five : Ledger
at_five = record { entry = none; time = 5; granted = 0 }

spending-IsAffordable : All IsAffordable spending
spending-IsAffordable =
    (omega arith, (omega arith, (omega arith, (omega arith, (omega arith, tt)))))

run_bounded_example :
    (windows : ℕ) × ((run two at_five spending).granted ≤ suc windows * two.limit)
    × (5 + windows * (two.window / 1_000) ≤ (run two at_five spending).time)
run_bounded_example = run_bounded two 5 spending refl (omega arith) spending-IsAffordable

three_seconds : wait_until 1_500_000_000 4_000_000_000 ≡ 3_000_000_000
unfolding wait_until
three_seconds = refl

-- The row of a subject that has spent both tokens.
abbrev used_up : Row
used_up = record { token_count = 2; window_start = 5; expires_at = 1_000_005 }

used_up_denied : (check_first (some used_up) 9 1 two).1 ≡ none
unfolding check_first try_consume_cost upsert add_tokens
used_up_denied = refl

used_up_wait : check_denied (some used_up) 9_000 1 two ≡ denied 1_000_000_000
unfolding check_denied wait_until
used_up_wait = refl

denied_then_allowed_example : (check_first (some used_up) 1_000_009 1 two).1 ≡ some allowed
denied_then_allowed_example =
    denied_then_allowed used_up 9 9_000 1_000_009 1 two 1_000_000_000 refl (omega arith)
      (omega arith) used_up_denied used_up_wait (omega arith)

abbrev one_used : Row
one_used = record { token_count = 1; window_start = 5; expires_at = 1_000_005 }

abbrev newer : Row
newer = record { token_count = 1; window_start = 2_000_000; expires_at = 3_000_000 }

reserve_one : (reserve (some one_used) 9 two).1 ≡ row used_up
unfolding reserve upsert add_tokens
reserve_one = refl

refund-reserve_example :
    (refund (reserve (some one_used) 9 two).0 5 ≡ some one_used)
    × (2 ≡ 1 + 1)
    × (2 ≤ 2)
    × (refund (some newer) 5 ≡ some newer)
refund-reserve_example =
    refund-reserve one_used newer used_up 9 two (omega arith) (omega arith) (omega arith)
      reserve_one (λ e. absurd (omega (arith, e)))

-- Two calls and one number a minute for each network.
abbrev sending : SendCodeLimits
sending = record {
  calls = record { limit = 2; window = 60_000_000_000 };
  phones = record { limit = 1; window = 60_000_000_000 };
}

abbrev fresh_network : Network
fresh_network = record { counter = none; numbers = [] }

abbrev spray : List Charged.Event
spray =
    charges host_a 5 9_000 100 true
    ∷ charges host_b 6 9_500 101 true
    ∷ charges host_a 7 9_900 100 false
    ∷ []

run_new-IsCharged_example : IsCharged sending (Charged.run sending fresh_network spray)
run_new-IsCharged_example = run_new-IsCharged sending spray (omega arith) (omega arith)

-- The number 100 is charged already, so 101 is refused, though a call is left.
abbrev one_number : Network
one_number = record {
  counter = some (record { token_count = 1; window_start = 5; expires_at = 60_000_005 });
  numbers = (100, 60_000_005) ∷ [];
}

second_number :
    (check_and_charge one_number host_b 6 9_500 101 sending true).1 ≡ denied 60_000_000_000
unfolding check_and_charge charge_both charge_call charge_phone charge_number prune is_counted
    next_expiry wait_until reserve upsert add_tokens ip_bucket_key
second_number = refl

second_number_refused : (check_and_charge one_number host_b 6 9_500 101 sending true).1 ≢ allowed
second_number_refused e = cc (second_number, e)

refused_unchanged_example :
    (check_and_charge one_number host_b 6 9_500 101 sending true).0 ≡ one_number
refused_unchanged_example =
    refused_unchanged one_number host_b 6 9_500 101 sending true second_number_refused
