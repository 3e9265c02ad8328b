-- ===== src/Mtproto/Limits/Discovery.antt =====
-- internal/mtproto/preflight.go: the limits on discovery requests. The limiter's mutex makes each call one
-- step; its times are nanoseconds, none of them zero.
pub mod Bounded
pub mod Admitted
use telegram_server.Common.{
  ℕ, ◌+◌, Bool, true, false, not, ◌&&◌, ◌||◌, Option, none, some, List, [], ◌∷◌, length, ltb, leb,
  ◌==◌, if◌then◌else◌, is_neg,
}
use telegram_server.Common.Dict.{lookup_or, insert}
use telegram_server.Net.{Addr, Prefix, prefix_eq}
use telegram_server.Store.IpBucket.{ip_bucket_key}
use telegram_server.Mtproto.Limits.FixedWindow.{Window, no_window, is_over, refresh, one_call}

-- `DiscoveryLimits`, that `SetDiscoveryLimits` accepts.
pub record DiscoveryLimits : Type 0 where
  pub max_requests : ℕ
  pub max_requests_per_net : ℕ
  pub window : ℕ
  pub per_net_window : ℕ

-- `DefaultDiscoveryLimits`.
abbrev pub default_limits : DiscoveryLimits
default_limits = record {
  max_requests = 60;
  max_requests_per_net = 10;
  window = 60_000_000_000;
  per_net_window = 60_000_000_000;
}

-- `SetDiscoveryLimits`: whether the limits, four int64 values, are accepted.
unfoldable pub accepts_limits : DiscoveryLimits → Bool
accepts_limits l =
    if is_neg l.max_requests
    then false
    else if is_neg l.max_requests_per_net
    then false
    else if is_neg l.window || is_neg l.per_net_window
    then false
    else if ltb 0 l.max_requests && leb l.window 0
    then false
    else if ltb 0 l.max_requests_per_net && leb l.per_net_window 0
    then false
    else true

-- `discoveryLimiter`.
pub record DiscoveryLimiter : Type 0 where
  pub limits : DiscoveryLimits
  pub global : Window
  pub per_net : List (Prefix × Window)
  pub max_buckets : ℕ

abbrev pub max_discovery_buckets : ℕ
max_discovery_buckets = 4_096

-- `newDiscoveryLimiter`.
abbrev pub new_discovery_limiter : DiscoveryLimits → DiscoveryLimiter
new_discovery_limiter limits = record {
  limits = limits;
  global = no_window;
  per_net = [];
  max_buckets = max_discovery_buckets;
}

-- `prune`.
unfoldable pub prune : List (Prefix × Window) → ℕ → ℕ → List (Prefix × Window)
prune [] now span = []
prune ((bucket, w) ∷ per_net) now span =
    let rest = prune per_net now span in
    if is_over w.start now span then rest else (bucket, w) ∷ rest

abbrev pub is_unset : Option ℕ → Bool
is_unset none = true
is_unset (some start) = false

-- The process's window for a call at `now`.
abbrev pub global_at : DiscoveryLimiter → ℕ → Window
global_at l now =
    if ltb 0 l.limits.max_requests then refresh l.global now l.limits.window else l.global

-- `allow` once the process's window has room: the charge of it.
abbrev pub charge_global : DiscoveryLimiter → ℕ → DiscoveryLimiter
charge_global l now =
    if ltb 0 l.limits.max_requests then record l { global = one_call (global_at l now) } else l

-- The charge of a network too, over its networks `per_net`.
abbrev pub charge_net :
    DiscoveryLimiter → ℕ → List (Prefix × Window) → Prefix → Window → DiscoveryLimiter
charge_net l now per_net bucket w = record (charge_global l now) {
  per_net = insert per_net bucket (one_call w);
}

-- `allow` for a network with its window `w` at `now`, which has room.
unfoldable pub allow_bucket : DiscoveryLimiter → ℕ → Prefix → Window → DiscoveryLimiter × Bool
unfolding lookup_or insert prune
allow_bucket l now bucket w =
    let pruned = prune l.per_net now l.limits.per_net_window in
    if leb l.max_buckets (length l.per_net) && is_unset (lookup_or l.per_net bucket no_window).start
    then (if leb l.max_buckets (length pruned)
        then (record l { per_net = pruned }, false)
        else (charge_net l now pruned bucket w, true))
    else (charge_net l now l.per_net bucket w, true)

-- `allow` for a network.
unfoldable pub allow_net : DiscoveryLimiter → ℕ → Prefix → DiscoveryLimiter × Bool
unfolding lookup_or refresh allow_bucket
allow_net l now bucket =
    let w = refresh (lookup_or l.per_net bucket no_window) now l.limits.per_net_window in
    if leb l.limits.max_requests_per_net w.calls then (l, false) else allow_bucket l now bucket w

-- `allow`.
unfoldable pub allow : DiscoveryLimiter → Addr → ℕ → DiscoveryLimiter × Bool
unfolding refresh allow_net
allow l addr now =
    if ltb 0 l.limits.max_requests && leb l.limits.max_requests (global_at l now).calls
    then (l, false)
    else if not (ltb 0 l.limits.max_requests_per_net)
    then (charge_global l now, true)
    else elim (ip_bucket_key addr) [
      | none ↦ (charge_global l now, true)
      | some bucket ↦ allow_net l now bucket
    ]
