-- ===== src/Mtproto/Limits/PendingLogin/Capped.antt =====
-- internal/mtproto/pendinglogin.go: the cap holds in every interleaving of the connections.
use telegram_server.Common.{
  ℕ, zero, suc, ◌≤◌, ◌≡◌, refl, sym, All, All-set, All-get_elem?, All-replicate, Bool, true, false,
  not, ◌&&◌, some, List, get_elem?, set, is_pos, replicate, arith,
}
use telegram_server.Common.Count.{count_if, count_if-set, count_if-pos}
use telegram_server.Mtproto.Limits.PendingLogin.{
  LoginLimiter, LoginHold, Claim, idle, loaded, new_login_limiter, new_login_hold, begin_acquire,
  finish_acquire, free_login, release_login,
}

pub record Process : Type 0 where
  pub limiter : LoginLimiter
  pub held : List LoginHold

abbrev pub start : ℕ → ℕ → Process
start max_conns n = record {
  limiter = new_login_limiter max_conns;
  held = replicate n new_login_hold;
}

-- One instruction of one connection. The goroutine that owns a hold does one thing at a time, so it
-- starts no second call inside the loop of `acquire`.
pub data Step (w : Process) : Process → Type 0 where
  calls :
      (i : ℕ) (h : LoginHold)
      → get_elem? w.held i ≡ some h
      → h.claim ≡ idle
      → Step w (record w { held = set w.held i (begin_acquire w.limiter h).0 })
  swaps :
      (i : ℕ) (h : LoginHold) (seen : ℕ)
      → get_elem? w.held i ≡ some h
      → h.claim ≡ loaded seen
      → Step w (record {
        limiter = (finish_acquire w.limiter h seen).0;
        held = set w.held i (finish_acquire w.limiter h seen).1;
      })
  frees :
      (i : ℕ) (h : LoginHold)
      → get_elem? w.held i ≡ some h
      → h.claim ≡ idle
      → Step w (record {
        limiter = (release_login w.limiter h).0;
        held = set w.held i (release_login w.limiter h).1;
      })

pub data Steps (w : Process) : Process → Type 0 where
  done : Steps w w
  and_then : (v u : Process) → Steps w v → Step v u → Steps w u

abbrev pub is_charged : LoginHold → Bool
is_charged h = h.charged

abbrev pub is_claiming : Claim → Bool
is_claiming idle = false
is_claiming (loaded n) = true

-- A claim in the loop holds nothing yet.
abbrev pub is_sound : LoginHold → Bool
is_sound h = not (h.charged && is_claiming h.claim)

-- The count is the number of charged holds and inside the cap.
pub record IsCapped (max_conns : ℕ) (w : Process) : Type 0 where
  pub cap : w.limiter.max_conns ≡ max_conns
  pub exact : w.limiter.count ≡ count_if is_charged w.held
  pub inside : w.limiter.count ≤ max_conns
  pub sound : All (λ h. is_sound h ≡ true) w.held

module _ (max_conns : ℕ) (p : is_pos max_conns ≡ true) where
  call-IsCapped :
      (w : Process) (i : ℕ) (h : LoginHold)
      → get_elem? w.held i ≡ some h
      → h.claim ≡ idle
      → IsCapped max_conns w
      → IsCapped max_conns (record w { held = set w.held i (begin_acquire w.limiter h).0 })
  unfolding begin_acquire
  call-IsCapped w i h e q c = record {
    cap = c.cap;
    exact = ground (
      arith,
      c.exact,
      c.cap,
      p,
      count_if-set is_charged w.held i h (begin_acquire w.limiter h).0 e,
    );
    inside = c.inside;
    sound = All-set _ w.held i _ c.sound (ground (arith, c.cap, p, q));
  }

  swap-IsCapped :
      (w : Process) (i : ℕ) (h : LoginHold) (seen : ℕ)
      → get_elem? w.held i ≡ some h
      → h.claim ≡ loaded seen
      → IsCapped max_conns w
      → IsCapped max_conns (record {
        limiter = (finish_acquire w.limiter h seen).0;
        held = set w.held i (finish_acquire w.limiter h seen).1;
      })
  unfolding finish_acquire
  swap-IsCapped w i h seen e q c =
      let h' = (finish_acquire w.limiter h seen).1 in
      let o : is_sound h ≡ true = All-get_elem? _ w.held i h e c.sound in
      record {
        cap = ground (arith, c.cap);
        exact =
            ground
              (arith, c.exact, c.cap, c.inside, p, o, q, count_if-set is_charged w.held i h h' e);
        inside = ground (arith, c.inside, c.cap, p);
        sound = All-set _ w.held i h' c.sound (ground (arith, o, q));
      }

  free-IsCapped :
      (w : Process) (i : ℕ) (h : LoginHold)
      → get_elem? w.held i ≡ some h
      → h.claim ≡ idle
      → IsCapped max_conns w
      → IsCapped max_conns (record {
        limiter = (release_login w.limiter h).0;
        held = set w.held i (release_login w.limiter h).1;
      })
  unfolding release_login free_login
  free-IsCapped w i h e q c =
      let h' = (release_login w.limiter h).1 in
      let one = count_if-pos is_charged w.held i h e in
      record {
        cap = ground (arith, c.cap);
        exact =
            ground
              (arith, c.exact, c.cap, c.inside, p, one, count_if-set is_charged w.held i h h' e);
        inside = ground (arith, c.inside, c.exact, c.cap, p, one);
        sound = All-set _ w.held i h' c.sound (ground (arith, q));
      }

  step-IsCapped : {w v : Process} → Step w v → IsCapped max_conns w → IsCapped max_conns v
  step-IsCapped {w} (calls i h e q) c = call-IsCapped w i h e q c
  step-IsCapped {w} (swaps i h seen e q) c = swap-IsCapped w i h seen e q c
  step-IsCapped {w} (frees i h e q) c = free-IsCapped w i h e q c

  none_charged : (n : ℕ) → count_if is_charged (replicate n new_login_hold) ≡ 0
  unfolding count_if
  none_charged zero = refl
  none_charged (suc n) = ground (arith, none_charged n)

  -- With a cap that is not disabled, in every interleaving of the loads, swaps and releases of any
  -- number of connections, the count is the number of charged holds and never passes the cap.
  pub Steps-IsCapped : (n : ℕ) (w : Process) → Steps (start max_conns n) w → IsCapped max_conns w
  unfolding new_login_limiter
  Steps-IsCapped n w done = record {
    cap = refl;
    exact = sym (none_charged n);
    inside = omega arith;
    sound = All-replicate _ n new_login_hold refl;
  }
  Steps-IsCapped n w (and_then v u r st) = step-IsCapped st (Steps-IsCapped n v r)
