-- ===== src/Store/SendCode/Charged.antt =====
-- internal/store/send_code_ip.go: what a network is charged, and what it is not.
use telegram_server.Common.{
  ℕ, ◌+◌, ◌/◌, ◌^◌, ◌≤◌, ◌<◌, ◌≡◌, ◌≢◌, ◌⊎◌, inl, inr, refl, Bool, false, Option, none, some, List,
  [], ◌∷◌, ◌++◌, length, length-append, leb, ◌==◌, signed_lt, Bool-cases, if_lem, arith,
}
use telegram_server.Net.{Addr}
use telegram_server.Store.RateLimit.{Config, Row, allowed, enabled, reserve, upsert, add_tokens}
use telegram_server.Store.SendCode.{
  SendCodeLimits, Network, charge_call, prune, is_counted, charge_number, charge_phone, charge_both,
  check_and_charge, sweep_network,
}

-- A call that is not allowed, for whichever reason, has written nothing: neither counter is charged,
-- not even the first one when the second refuses.
pub refused_unchanged :
    (s : Network) (addr : Addr) (now clock phone : ℕ) (cfg : SendCodeLimits) (commits : Bool)
    → (check_and_charge s addr now clock phone cfg commits).1 ≢ allowed
    → (check_and_charge s addr now clock phone cfg commits).0 ≡ s
unfolding check_and_charge charge_both
refused_unchanged s addr now clock phone cfg commits n = ground arith

abbrev tokens : Option Row → ℕ
tokens none = 0
tokens (some r) = r.token_count

-- No number twice.
abbrev pub IsDistinct : List (ℕ × ℕ) → Type 0
IsDistinct [] = Unit
IsDistinct ((phone, expires) ∷ numbers) = (is_counted numbers phone ≡ false) × IsDistinct numbers

-- The rows are inside both limits.
pub record IsCharged (cfg : SendCodeLimits) (s : Network) : Type 0 where
  pub counted : tokens s.counter ≤ cfg.calls.limit
  pub listed : length s.numbers ≤ cfg.phones.limit
  pub distinct : IsDistinct s.numbers

length-prune : (numbers : List (ℕ × ℕ)) (now : ℕ) → length (prune numbers now) ≤ length numbers
unfolding prune
length-prune [] now = omega arith
length-prune ((phone, expires) ∷ numbers) now = ground (arith, length-prune numbers now)

is_counted-prune :
    (numbers : List (ℕ × ℕ)) (now phone : ℕ)
    → is_counted numbers phone ≡ false
    → is_counted (prune numbers now) phone ≡ false
unfolding prune is_counted
is_counted-prune [] now phone e = refl
is_counted-prune ((other, expires) ∷ numbers) now phone e =
    ground (arith, e, is_counted-prune numbers now phone)

prune-IsDistinct :
    (numbers : List (ℕ × ℕ)) (now : ℕ) → IsDistinct numbers → IsDistinct (prune numbers now)
unfolding prune
prune-IsDistinct [] now d = tt
prune-IsDistinct ((phone, expires) ∷ numbers) now d =
    if_lem IsDistinct (leb expires now) (λ _. prune-IsDistinct numbers now d.1)
      (λ _. (is_counted-prune numbers now phone d.0, prune-IsDistinct numbers now d.1))

is_counted-snoc :
    (numbers : List (ℕ × ℕ)) (phone expires other : ℕ)
    → is_counted numbers other ≡ false
    → (phone == other) ≡ false
    → is_counted (numbers ++ (phone, expires) ∷ []) other ≡ false
unfolding is_counted
is_counted-snoc [] phone expires other e d = ground (arith, d)
is_counted-snoc ((p, x) ∷ numbers) phone expires other e d =
    ground (arith, e, is_counted-snoc numbers phone expires other, d)

snoc-IsDistinct :
    (numbers : List (ℕ × ℕ)) (phone expires : ℕ)
    → IsDistinct numbers
    → is_counted numbers phone ≡ false
    → IsDistinct (numbers ++ (phone, expires) ∷ [])
unfolding is_counted
snoc-IsDistinct [] phone expires d e = (refl, tt)
snoc-IsDistinct ((p, x) ∷ numbers) phone expires d e = (
  is_counted-snoc numbers phone expires p d.0 (ground (arith, e)),
  snoc-IsDistinct numbers phone expires d.1 (ground (arith, e)),
)

charge_call-fits :
    (r : Option Row) (now clock : ℕ) (cfg : Config)
    → cfg.limit < 2 ^ 31
    → tokens r ≤ cfg.limit
    → tokens (charge_call r now clock cfg).0 ≤ cfg.limit
unfolding charge_call reserve upsert add_tokens
charge_call-fits none now clock cfg l b = ground arith
charge_call-fits (some r) now clock cfg l b = ground arith

charge_phone-fits :
    (numbers : List (ℕ × ℕ)) (now clock phone : ℕ) (cfg : Config)
    → cfg.limit < 2 ^ 31
    → length numbers ≤ cfg.limit
    → IsDistinct numbers
    → let kept = (charge_phone numbers now clock phone cfg).0 in
      (length kept ≤ cfg.limit) × IsDistinct kept
unfolding charge_phone charge_number
charge_phone-fits numbers now clock phone cfg l b d =
    let kept = prune numbers now in
    let fewer = length-prune numbers now in
    let still = prune-IsDistinct numbers now d in
    let x : ℕ × ℕ = (phone, now + cfg.window / 1_000) in
    elim (Bool-cases (enabled cfg)) [
      | inr off ↦ rw off (b, d)
      | inl on ↦ elim (Bool-cases (is_counted kept phone)) [
        | inl old ↦ rw (on, old) (omega (arith, fewer, b), still)
        | inr new ↦ elim (Bool-cases (signed_lt (length kept) cfg.limit)) [
          | inr full ↦ rw (on, new, full) (omega (arith, fewer, b), still)
          | inl room ↦
              rw (on, new, room)
                (
                  ground (arith, room, l, fewer, b, length-append kept (x ∷ [])),
                  snoc-IsDistinct kept phone x.1 still new,
                )
        ]
      ]
    ]

check_cases :
    (s : Network) (addr : Addr) (now clock phone : ℕ) (cfg : SendCodeLimits) (commits : Bool)
    → ((check_and_charge s addr now clock phone cfg commits).0 ≡ s)
      ⊎ ((check_and_charge s addr now clock phone cfg commits).0 ≡ record {
        counter = (charge_call s.counter now clock cfg.calls).0;
        numbers = (charge_phone s.numbers now clock phone cfg.phones).0;
      })
unfolding check_and_charge charge_both
check_cases s addr now clock phone cfg commits = ground arith

-- A call of the network, at any times and with any number, or the sweep.
pub data Event : Type 0 where
  charges : (addr : Addr) (now clock phone : ℕ) (commits : Bool) → Event
  sweeps : (now : ℕ) → Event

pub react : SendCodeLimits → Network → Event → Network
react cfg s (charges addr now clock phone commits) =
    (check_and_charge s addr now clock phone cfg commits).0
react cfg s (sweeps now) = sweep_network s now

pub run : SendCodeLimits → Network → List Event → Network
run cfg s [] = s
run cfg s (e ∷ es) = run cfg (react cfg s e) es

module _ (cfg : SendCodeLimits) (few : cfg.calls.limit < 2 ^ 31)
    (short : cfg.phones.limit < 2 ^ 31) where
  react-IsCharged : (s : Network) (e : Event) → IsCharged cfg s → IsCharged cfg (react cfg s e)
  unfolding react sweep_network
  react-IsCharged s (charges addr now clock phone commits) c =
      elim (check_cases s addr now clock phone cfg commits) [
        | inl kept ↦ rw kept c
        | inr charged ↦
            let (listed, distinct) =
              charge_phone-fits s.numbers now clock phone cfg.phones short c.listed c.distinct in
            rw charged (record {
              counted = charge_call-fits s.counter now clock cfg.calls few c.counted;
              listed = listed;
              distinct = distinct;
            })
      ]
  react-IsCharged s (sweeps now) c = record {
    counted = ground (arith, c.counted);
    listed = omega (arith, length-prune s.numbers now, c.listed);
    distinct = prune-IsDistinct s.numbers now c.distinct;
  }

  run-IsCharged : (s : Network) (es : List Event) → IsCharged cfg s → IsCharged cfg (run cfg s es)
  unfolding run
  run-IsCharged s [] c = c
  run-IsCharged s (e ∷ es) c = run-IsCharged (react cfg s e) es (react-IsCharged s e c)

-- With limits below 2 ^ 31, whatever the calls from one network, their times and their commits, and
-- whenever the sweep runs: a network that starts without rows never has a counter above the limit of
-- calls or more numbers than the limit of numbers, and no number twice.
pub run_new-IsCharged :
    (cfg : SendCodeLimits) (es : List Event)
    → cfg.calls.limit < 2 ^ 31
    → cfg.phones.limit < 2 ^ 31
    → IsCharged cfg (run cfg (record { counter = none; numbers = [] }) es)
run_new-IsCharged cfg es few short =
    run-IsCharged cfg few short (record { counter = none; numbers = [] }) es
      (record { counted = omega arith; listed = omega arith; distinct = tt })
