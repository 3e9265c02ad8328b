-- ===== src/Mtproto/Limits/PreAuth.antt =====
-- internal/mtproto/preauth.go: the bounds on connections that have not authenticated. Each function
-- of the limiter is one critical section; ints are bit patterns, and 0 disables a bound.
pub mod World
pub mod Counted
use telegram_server.Common.{
  ℕ, ◌+◌, ◌-◌, ◌%◌, ◌^◌, Bool, true, false, not, ◌&&◌, Option, none, some, List, [], if◌then◌else◌,
  is_pos, signed_lt,
}
use telegram_server.Common.Dict.{lookup_or}
use telegram_server.Net.{Addr, Prefix, prefix_eq}
use telegram_server.Store.IpBucket.{ip_bucket_key}
use telegram_server.Mtproto.Limits.Counters.{charge, discharge}

-- `PreAuthLimits`, the lifetime in nanoseconds.
pub record Limits : Type 0 where
  pub max_conns : ℕ
  pub max_conns_per_net : ℕ
  pub lifetime : ℕ

-- `DefaultPreAuthLimits`.
abbrev pub default_limits : Limits
default_limits = record { max_conns = 1024; max_conns_per_net = 64; lifetime = 120_000_000_000 }

-- `preAuthLimiter`.
pub record Limiter : Type 0 where
  pub limits : Limits
  pub conns : ℕ
  pub per_net : List (Prefix × ℕ)

unfoldable pub new_limiter : Limits → Limiter
new_limiter l = record { limits = l; conns = 0; per_net = [] }

-- `timer` of a slot: nil, running, or stopped.
pub data Timer : Type 0 where
  unset : Timer
  armed : Timer
  stopped : Timer

-- `preAuthSlot`; `cleared` is that `once` has run, and `bucket` is `none` for an invalid prefix.
pub record Slot : Type 0 where
  pub bucket : Option Prefix
  pub timer : Timer
  pub cleared : Bool

abbrev pub new_slot : Slot
new_slot = record { bucket = none; timer = unset; cleared = false }

-- `cap > 0 && n >= cap`.
abbrev pub at_cap : ℕ → ℕ → Bool
at_cap cap n = is_pos cap && not (signed_lt n cap)

-- `admit`: `none` is (nil, false).
unfoldable pub admit : Limiter → Limiter × Option Slot
admit l =
    if at_cap l.limits.max_conns l.conns
    then (l, none)
    else (record l { conns = (l.conns + 1) % 2 ^ 64 }, some new_slot)

-- `acquireNet`.
unfoldable pub acquire_net : Limiter → Prefix → Limiter × Bool
acquire_net l bucket =
    if at_cap l.limits.max_conns_per_net (lookup_or l.per_net bucket 0)
    then (l, false)
    else (record l { per_net = charge l.per_net bucket }, true)

-- `release`.
unfoldable pub release : Limiter → Option Prefix → Limiter
release l none = record l { conns = (l.conns + (2 ^ 64 - 1)) % 2 ^ 64 }
release l (some bucket) = record l {
  conns = (l.conns + (2 ^ 64 - 1)) % 2 ^ 64;
  per_net = discharge l.per_net bucket;
}

unfoldable pub key_bucket : Limiter → Slot → Option Prefix → Limiter × Slot × Bool
unfolding acquire_net
key_bucket l s none = (l, s, true)
key_bucket l s (some bucket) =
    let r = acquire_net l bucket in
    if r.1 then (r.0, record s { bucket = some bucket }, true) else (r.0, s, false)

-- `keyAddr`.
unfoldable pub key_addr : Limiter → Slot → Addr → Limiter × Slot × Bool
unfolding key_bucket
key_addr l s addr = key_bucket l s (ip_bucket_key addr)

-- `armLifetime`.
unfoldable pub arm_lifetime : Limiter → Slot → Slot
arm_lifetime l s = if is_pos l.limits.lifetime then record s { timer = armed } else s

abbrev pub stop : Timer → Timer
stop unset = unset
stop armed = stopped
stop stopped = stopped

-- `clear` of a slot.
unfoldable pub clear : Limiter → Slot → Limiter × Slot
clear l s =
    if s.cleared
    then (l, s)
    else (release l s.bucket, record s { timer = stop s.timer; cleared = true })
