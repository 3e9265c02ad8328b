-- ===== src/Mtproto/Limits/PreAuth/World.antt =====
-- internal/mtproto/server.go and internal/mtproto/handle.go: how the accept loop and the serving
-- goroutines use the limiter and its slots, and what the counters should count.
use telegram_server.Common.{
  ℕ, ◌≡◌, sym, Bool, true, false, not, ◌&&◌, ◌||◌, leb, Option, none, some, List, [], ◌∷◌, ◌++◌,
  get_elem?, set, is_pos, arith,
}
use telegram_server.Common.Count.{count_if, count_if-nil}
use telegram_server.Common.Dict.{lookup_or}
use telegram_server.Net.{Addr, Prefix, prefix_eq, prefix_beq}
use telegram_server.Mtproto.Limits.Counters.{IsPruned}
use telegram_server.Mtproto.Limits.PreAuth.{
  Limits, Limiter, Slot, new_limiter, admit, key_addr, arm_lifetime, clear,
}

-- The limiter and every slot it has handed out.
pub record World : Type 0 where
  pub limiter : Limiter
  pub slots : List Slot

abbrev pub start : Limits → World
start l = record { limiter = new_limiter l; slots = [] }

-- `serveSocket` and `rpcHandle`: a socket is admitted or refused; the connection that owns a slot
-- charges it to a network once, before it clears it, and clears it any number of times.
pub data Step (w : World) : World → Type 0 where
  admits :
      (l : Limiter) (s : Slot)
      → admit w.limiter ≡ (l, some s)
      → Step w (record w { limiter = l; slots = w.slots ++ s ∷ [] })
  refuses : (l : Limiter) → admit w.limiter ≡ (l, none) → Step w (record w { limiter = l })
  keys :
      (i : ℕ) (s : Slot) (addr : Addr)
      → get_elem? w.slots i ≡ some s
      → s.bucket ≡ none
      → s.cleared ≡ false
      → Step w (record {
        limiter = (key_addr w.limiter s addr).0;
        slots = set w.slots i (key_addr w.limiter s addr).1;
      })
  arms :
      (i : ℕ) (s : Slot)
      → get_elem? w.slots i ≡ some s
      → Step w (record w { slots = set w.slots i (arm_lifetime w.limiter s) })
  clears :
      (i : ℕ) (s : Slot)
      → get_elem? w.slots i ≡ some s
      → Step w
          (record { limiter = (clear w.limiter s).0; slots = set w.slots i (clear w.limiter s).1 })

pub data Steps (w : World) : World → Type 0 where
  done : Steps w w
  and_then : (v u : World) → Steps w v → Step v u → Steps w u

abbrev pub is_live : Slot → Bool
is_live s = not s.cleared

abbrev pub is_charged_to : Option Prefix → Prefix → Bool
is_charged_to none b = false
is_charged_to (some a) b = prefix_beq a b

abbrev pub holds : Prefix → Slot → Bool
holds b s = not s.cleared && is_charged_to s.bucket b

abbrev pub live : World → ℕ
live w = count_if is_live w.slots

abbrev pub live_of : World → Prefix → ℕ
live_of w b = count_if (holds b) w.slots

-- `n` is inside a cap that is not disabled.
abbrev pub fits : ℕ → ℕ → Bool
fits cap n = not (is_pos cap) || leb n cap

-- The counters are the numbers of live connections, inside the caps, and no network without live
-- connections has an entry.
pub record IsCounted (w : World) : Type 0 where
  pub all : w.limiter.conns ≡ live w
  pub each : (b : Prefix) → lookup_or w.limiter.per_net b 0 ≡ live_of w b
  pub pruned : IsPruned w.limiter.per_net
  pub all_fit : fits w.limiter.limits.max_conns (live w) ≡ true
  pub each_fit : (b : Prefix) → fits w.limiter.limits.max_conns_per_net (live_of w b) ≡ true

pub start-IsCounted : (l : Limits) → IsCounted (start l)
unfolding new_limiter lookup_or
start-IsCounted l = record {
  all = sym (count_if-nil is_live);
  each = λ b. sym (count_if-nil (holds b));
  pruned = tt;
  all_fit = ground (arith, count_if-nil is_live);
  each_fit = λ b. ground (arith, count_if-nil (holds b));
}
