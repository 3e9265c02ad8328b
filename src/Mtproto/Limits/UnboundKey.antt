-- ===== src/Mtproto/Limits/UnboundKey.antt =====
-- internal/mtproto/unboundkey.go: the bound on the connections of one auth key with nobody signed in.
-- A key id is its 8 bytes as a number, and a user id of 0 is nobody.
pub mod Held
use telegram_server.Common.{
  ℕ, Bool, true, false, not, ◌&&◌, List, [], ◌==◌, if◌then◌else◌, is_pos, signed_lt, nat_eq,
}
use telegram_server.Common.Dict.{lookup_or}
use telegram_server.Mtproto.Limits.Counters
use telegram_server.Mtproto.Limits.Counters.{discharge}

-- `unboundKeyLimiter`.
pub record KeyLimiter : Type 0 where
  pub max_conns : ℕ
  pub conns : List (ℕ × ℕ)

unfoldable pub new_key_limiter : ℕ → KeyLimiter
new_key_limiter max_conns = record { max_conns = max_conns; conns = [] }

-- `max > 0 && n >= max`.
abbrev pub is_full : ℕ → ℕ → Bool
is_full cap n = is_pos cap && not (signed_lt n cap)

-- `acquire` of the limiter.
unfoldable pub acquire : KeyLimiter → ℕ → KeyLimiter × Bool
acquire l id =
    if is_full l.max_conns (lookup_or l.conns id 0)
    then (l, false)
    else (record l { conns = Counters.charge l.conns id }, true)

-- `release` of the limiter.
unfoldable pub give_back : KeyLimiter → ℕ → KeyLimiter
give_back l id = record l { conns = discharge l.conns id }

-- `unboundKeyHold`.
pub record Hold : Type 0 where
  pub key : ℕ
  pub charged : Bool
  pub signed_in : Bool

abbrev pub new_hold : Hold
new_hold = record { key = 0; charged = false; signed_in = false }

-- `release` of a hold.
unfoldable pub release : KeyLimiter → Hold → KeyLimiter × Hold
release l h = if not h.charged then (l, h) else (give_back l h.key, record h { charged = false })

-- The end of `charge`, for a key with nobody signed in.
unfoldable pub take_key : KeyLimiter → Hold → ℕ → KeyLimiter × Hold × Bool
take_key l h id =
    let r = acquire l id in
    if r.1 then (r.0, record h { key = id; charged = true }, true) else (r.0, h, false)

-- `charge`.
unfoldable pub charge : KeyLimiter → Hold → ℕ → ℕ → KeyLimiter × Hold × Bool
charge l h id user =
    if h.signed_in
    then (l, h, true)
    else if not (user == 0)
    then (let r = release l (record h { signed_in = true }) in (r.0, r.1, true))
    else if h.charged && (h.key == id)
    then (l, h, true)
    else (let r = release l h in take_key r.0 r.1 id)
