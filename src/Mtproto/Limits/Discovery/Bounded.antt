-- ===== src/Mtproto/Limits/Discovery/Bounded.antt =====
-- internal/mtproto/preflight.go: the memory that the limiter takes, and what one request changes.
use telegram_server.Common.{
  ℕ, ◌+◌, ◌≤◌, ◌<◌, ◌≡◌, refl, true, false, ◌&&◌, List, [], ◌∷◌, length, ltb, leb, if◌then◌else◌,
  All, Bool-cases, Option-cases, if_lem, inl, inr, arith,
}
use telegram_server.Common.Dict.{lookup_or, insert}
use telegram_server.Net.{Addr, Prefix, prefix_eq, prefix_beq}
use telegram_server.Store.IpBucket.{ip_bucket_key}
use telegram_server.Mtproto.Limits.FixedWindow.{Window, no_window, is_over, refresh, one_call}
use telegram_server.Mtproto.Limits.Discovery.{
  DiscoveryLimiter, prune, is_unset, global_at, charge_global, charge_net, allow_bucket, allow_net,
  allow,
}

-- The calls of a window that is not above the limit of a network.
abbrev pub IsWithin : ℕ → Prefix × Window → Type 0
IsWithin limit e = e.1.calls ≤ limit

-- The maps and windows are inside their bounds.
pub record IsBounded (l : DiscoveryLimiter) : Type 0 where
  pub buckets : length l.per_net ≤ l.max_buckets
  pub networks : All (IsWithin l.limits.max_requests_per_net) l.per_net
  pub process : l.global.calls ≤ l.limits.max_requests

length-insert :
    (m : List (Prefix × Window)) (k : Prefix) (w : Window) → length (insert m k w) ≤ length m + 1
unfolding insert
length-insert [] k w = omega arith
length-insert ((j, v) ∷ m) k w = ground (arith, length-insert m k w)

length-insert_set :
    (m : List (Prefix × Window)) (k : Prefix) (w : Window)
    → is_unset (lookup_or m k no_window).start ≡ false
    → length (insert m k w) ≡ length m
unfolding insert lookup_or
length-insert_set [] k w e = cc
length-insert_set ((j, v) ∷ m) k w e = ground (arith, length-insert_set m k w, e)

insert-All :
    (P : Prefix × Window → Type 0) (m : List (Prefix × Window)) (k : Prefix) (w : Window)
    → All P m
    → ((j : Prefix) → P (j, w))
    → All P (insert m k w)
unfolding insert
insert-All P [] k w h p = (p k, tt)
insert-All P ((j, v) ∷ m) k w h p =
    if_lem (All P) (prefix_beq j k) (λ _. (p k, h.1)) (λ _. (h.0, insert-All P m k w h.1 p))

prune-All :
    (P : Prefix × Window → Type 0) (m : List (Prefix × Window)) (now span : ℕ)
    → All P m
    → All P (prune m now span)
unfolding prune
prune-All P [] now span h = h
prune-All P ((j, v) ∷ m) now span h =
    if_lem (All P) (is_over v.start now span) (λ _. prune-All P m now span h.1)
      (λ _. (h.0, prune-All P m now span h.1))

length-prune : (m : List (Prefix × Window)) (now span : ℕ) → length (prune m now span) ≤ length m
unfolding prune
length-prune [] now span = omega arith
length-prune ((j, v) ∷ m) now span = ground (arith, length-prune m now span)

-- What the process's window becomes: unchanged without a limit, else one call more inside the limit.
charged-process :
    (l : DiscoveryLimiter) (now : ℕ)
    → (ltb 0 l.limits.max_requests && leb l.limits.max_requests (global_at l now).calls) ≡ false
    → l.global.calls ≤ l.limits.max_requests
    → (charge_global l now).global.calls ≤ l.limits.max_requests
charged-process l now room h = ground (arith, room, h)

charge_net-IsBounded :
    (l : DiscoveryLimiter) (now : ℕ) (per_net : List (Prefix × Window)) (bucket : Prefix)
    (w : Window)
    → w.calls < l.limits.max_requests_per_net
    → (charge_global l now).global.calls ≤ l.limits.max_requests
    → length (insert per_net bucket (one_call w)) ≤ l.max_buckets
    → All (IsWithin l.limits.max_requests_per_net) per_net
    → IsBounded (charge_net l now per_net bucket w)
charge_net-IsBounded l now per_net bucket w room p len all =
    let networks =
      insert-All (IsWithin l.limits.max_requests_per_net) per_net bucket (one_call w) all
        (λ j. omega (arith, room)) in
    elim (Bool-cases (ltb 0 l.limits.max_requests)) [
      | inl e ↦ rw e (record { buckets = len; networks = networks; process = rw e at p })
      | inr e ↦ rw e (record { buckets = len; networks = networks; process = rw e at p })
    ]

bucket-IsBounded :
    (l : DiscoveryLimiter) (now : ℕ) (bucket : Prefix) (w : Window)
    → w.calls < l.limits.max_requests_per_net
    → (charge_global l now).global.calls ≤ l.limits.max_requests
    → IsBounded l
    → IsBounded (allow_bucket l now bucket w).0
unfolding allow_bucket
bucket-IsBounded l now bucket w room p v =
    let pruned = prune l.per_net now l.limits.per_net_window in
    let kept =
      prune-All (IsWithin l.limits.max_requests_per_net) l.per_net now l.limits.per_net_window
        v.networks in
    let fewer = length-prune l.per_net now l.limits.per_net_window in
    elim (Bool-cases (
      leb l.max_buckets (length l.per_net)
      && is_unset (lookup_or l.per_net bucket no_window).start)) [
        | inl full ↦ elim (Bool-cases (leb l.max_buckets (length pruned))) [
          | inl still ↦
              rw (full, still, allow_bucket)
                (record {
                  buckets = omega (arith, fewer, v.buckets);
                  networks = kept;
                  process = v.process;
                })
          | inr free ↦
              rw (full, free, allow_bucket)
                (charge_net-IsBounded l now pruned bucket w room p
                  (ground (arith, free, length-insert pruned bucket (one_call w))) kept)
        ]
        | inr known ↦
            rw (known, allow_bucket)
              (charge_net-IsBounded l now l.per_net bucket w room p
                (ground (
                  arith,
                  known,
                  v.buckets,
                  length-insert l.per_net bucket (one_call w),
                  length-insert_set l.per_net bucket (one_call w),
                ))
                v.networks)
      ]

global-IsBounded :
    (l : DiscoveryLimiter) (now : ℕ)
    → (charge_global l now).global.calls ≤ l.limits.max_requests
    → IsBounded l
    → IsBounded (charge_global l now)
global-IsBounded l now p v = elim (Bool-cases (ltb 0 l.limits.max_requests)) [
  | inl e ↦ rw e (record { buckets = v.buckets; networks = v.networks; process = rw e at p })
  | inr e ↦ rw e v
]

pub allow-IsBounded :
    (l : DiscoveryLimiter) (addr : Addr) (now : ℕ) → IsBounded l → IsBounded (allow l addr now).0
unfolding allow allow_net
allow-IsBounded l addr now v =
    elim (Bool-cases
      (ltb 0 l.limits.max_requests && leb l.limits.max_requests (global_at l now).calls)) [
        | inl full ↦ rw (full, allow) v
        | inr room ↦
            let p = charged-process l now room v.process in
            elim (Bool-cases (ltb 0 l.limits.max_requests_per_net)) [
              | inr off ↦ rw (room, off, allow) (global-IsBounded l now p v)
              | inl on ↦ elim (Option-cases (ip_bucket_key addr)) [
                | inl n ↦ rw (room, on, n, allow) (global-IsBounded l now p v)
                | inr (bucket, b) ↦
                    let w =
                      refresh (lookup_or l.per_net bucket no_window) now l.limits.per_net_window in
                    elim (Bool-cases (leb l.limits.max_requests_per_net w.calls)) [
                      | inl spent ↦ rw (room, on, b, spent, allow, allow_net) v
                      | inr free ↦
                          rw (room, on, b, free, allow, allow_net)
                            (bucket-IsBounded l now bucket w (ground (arith, free)) p v)
                    ]
              ]
            ]
      ]

-- A refusal leaves the process's window and the limits; an admission is one call more in that window.
bucket-global :
    (l : DiscoveryLimiter) (now : ℕ) (bucket : Prefix) (w : Window)
    → let done = allow_bucket l now bucket w in
      (done.0.global ≡ (if done.1 then (charge_global l now).global else l.global))
      × (done.0.limits ≡ l.limits)
      × (done.0.max_buckets ≡ l.max_buckets)
unfolding allow_bucket
bucket-global l now bucket w = ground arith

pub allow-global :
    (l : DiscoveryLimiter) (addr : Addr) (now : ℕ)
    → let done = allow l addr now in
      (done.0.global ≡ (if done.1 then (charge_global l now).global else l.global))
      × (done.0.limits ≡ l.limits)
      × (done.0.max_buckets ≡ l.max_buckets)
unfolding allow allow_net
allow-global l addr now = ground (
  arith,
  λ (bucket : Prefix).
      bucket-global l now bucket
        (refresh (lookup_or l.per_net bucket no_window) now l.limits.per_net_window),
)

pub allow_room :
    (l : DiscoveryLimiter) (addr : Addr) (now : ℕ)
    → ltb 0 l.limits.max_requests ≡ true
    → (allow l addr now).1 ≡ true
    → (refresh l.global now l.limits.window).calls < l.limits.max_requests
unfolding allow
allow_room l addr now on e = ground (arith, on, e)

pub global_charged :
    (l : DiscoveryLimiter) (now : ℕ)
    → ltb 0 l.limits.max_requests ≡ true
    → (charge_global l now).global ≡ one_call (refresh l.global now l.limits.window)
global_charged l now on = rw on refl
