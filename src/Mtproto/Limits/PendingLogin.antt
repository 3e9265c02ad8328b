-- ===== src/Mtproto/Limits/PendingLogin.antt =====
-- internal/mtproto/pendinglogin.go: the cap on connections that wait for a second factor. A claim is
-- two atomic instructions, the load and the compare-and-swap, and any connection may run between.
pub mod Capped
use telegram_server.Common.{
  ℕ, ◌+◌, ◌-◌, ◌%◌, ◌^◌, Bool, true, false, not, ◌&&◌, ◌||◌, Option, none, some, ◌==◌,
  if◌then◌else◌, is_pos, signed_lt,
}

-- `pendingLoginLimiter`, int64s as bit patterns.
pub record LoginLimiter : Type 0 where
  pub max_conns : ℕ
  pub count : ℕ

unfoldable pub new_login_limiter : ℕ → LoginLimiter
new_login_limiter max_conns = record { max_conns = max_conns; count = 0 }

-- Where a connection is in the loop of `acquire`: outside it, or with what it has loaded.
pub data Claim : Type 0 where
  idle : Claim
  loaded : ℕ → Claim

-- `pendingLoginHold`, with the place of its connection in the code.
pub record LoginHold : Type 0 where
  pub charged : Bool
  pub claim : Claim

abbrev pub new_login_hold : LoginHold
new_login_hold = record { charged = false; claim = idle }

-- The call of `acquire` up to its first load: a charged hold and a disabled cap need none. What it
-- answers, if it does already.
unfoldable pub begin_acquire : LoginLimiter → LoginHold → LoginHold × Option Bool
begin_acquire l h =
    if h.charged
    then (h, some true)
    else if not (is_pos l.max_conns)
    then (record h { charged = true }, some true)
    else (record h { claim = loaded l.count }, none)

-- The test of the value `seen` and the swap; a swap that is lost loads again.
unfoldable pub finish_acquire :
    LoginLimiter → LoginHold → ℕ → LoginLimiter × LoginHold × Option Bool
finish_acquire l h seen =
    if not (signed_lt seen l.max_conns)
    then (l, record h { claim = idle }, some false)
    else if l.count == seen
    then (
      record l { count = (seen + 1) % 2 ^ 64 },
      record h { charged = true; claim = idle },
      some true,
    )
    else (l, record h { claim = loaded l.count }, none)

-- `release` of the limiter.
unfoldable pub free_login : LoginLimiter → LoginLimiter
free_login l =
    if is_pos l.max_conns then record l { count = (l.count + (2 ^ 64 - 1)) % 2 ^ 64 } else l

-- `release` of a hold.
unfoldable pub release_login : LoginLimiter → LoginHold → LoginLimiter × LoginHold
release_login l h = if not h.charged then (l, h) else (free_login l, record h { charged = false })
