-- ===== src/Mtproto/Limits/Discovery/Admitted.antt =====
-- internal/mtproto/preflight.go: the requests that the limiter admits.
use telegram_server.Common.{
  ℕ, suc, ◌+◌, ◌*◌, ◌≤◌, ◌<◌, ◌≡◌, refl, ap, ◌∙◌, true, List, [], ◌∷◌, ltb, if◌then◌else◌,
  Bool-cases, inl, inr, arith,
}
use telegram_server.Net.{Addr, prefix_eq}
use telegram_server.Mtproto.Limits.FixedWindow.{
  Window, refresh, one_call, HoldsWindow, fresh, wait-Holds, refresh-holds, refresh_open,
  grant-Holds, bound,
}
use telegram_server.Mtproto.Limits.Discovery.{
  DiscoveryLimits, DiscoveryLimiter, new_discovery_limiter, allow, max_discovery_buckets,
}
use telegram_server.Mtproto.Limits.Discovery.Bounded.{
  IsBounded, allow-IsBounded, allow-global, allow_room, global_charged,
}

-- A request of an address, `after` the one before it.
pub record Event : Type 0 where
  pub after : ℕ
  pub addr : Addr

-- The limiter, the time, and the requests admitted.
pub record Ledger : Type 0 where
  pub limiter : DiscoveryLimiter
  pub time : ℕ
  pub admitted : ℕ

unfoldable pub react : Ledger → Event → Ledger
react l e =
    let now = l.time + e.after in
    let done = allow l.limiter e.addr now in
    record {
      limiter = done.0;
      time = now;
      admitted = if done.1 then l.admitted + 1 else l.admitted;
    }

unfoldable pub run : Ledger → List Event → Ledger
run l [] = l
run l (e ∷ es) = run (react l e) es

-- The limiter of a process that keeps its limits.
record IsCounted (limits : DiscoveryLimits) (from closed : ℕ) (l : Ledger) : Type 0 where
  pub same : l.limiter.limits ≡ limits
  pub bounded : IsBounded l.limiter
  pub size : l.limiter.max_buckets ≡ max_discovery_buckets
  pub rate :
      HoldsWindow limits.max_requests limits.window from closed l.time l.admitted l.limiter.global

module _ (limits : DiscoveryLimits) (on : ltb 0 limits.max_requests ≡ true) (from : ℕ) where
  admit-holds :
      (closed time admitted now : ℕ) (w : Window)
      → time ≤ now
      → (refresh w now limits.window).calls < limits.max_requests
      → HoldsWindow limits.max_requests limits.window from closed time admitted w
      → (more : ℕ) × HoldsWindow limits.max_requests limits.window from more now
          (admitted + 1)
          (one_call (refresh w now limits.window))
  admit-holds closed time admitted now w t room h =
      let (more, next) =
        refresh-holds limits.max_requests limits.window from closed time admitted now w t h in
      let (start, opened) = refresh_open w now limits.window in
      (
        more,
        rw opened (
            grant-Holds limits.max_requests limits.window from more now admitted start
              (refresh w now limits.window).calls room (rw opened at next)),
      )

  react-IsCounted :
      (closed : ℕ) (l : Ledger) (e : Event)
      → IsCounted limits from closed l
      → (more : ℕ) × IsCounted limits from more (react l e)
  unfolding react
  react-IsCounted closed l e v =
      let now = l.time + e.after in
      let (global, kept, size) = allow-global l.limiter e.addr now in
      let same = kept ∙ v.same in
      let fits = allow-IsBounded l.limiter e.addr now v.bounded in
      elim (Bool-cases (allow l.limiter e.addr now).1) [
        | inr denied ↦
            let still : (allow l.limiter e.addr now).0.global ≡ l.limiter.global =
              rw denied at global in
            let waited =
              wait-Holds limits.max_requests limits.window from closed l.time l.admitted now
                l.limiter.global.start l.limiter.global.calls (omega arith) v.rate in
            (
              closed,
              rw denied (record {
                same = same;
                bounded = fits;
                size = size ∙ v.size;
                rate = rw still waited;
              }),
            )
        | inl ok ↦
            let on' : ltb 0 l.limiter.limits.max_requests ≡ true = rw v.same on in
            let room = allow_room l.limiter e.addr now on' ok in
            let next : (allow l.limiter e.addr now).0.global
                ≡ one_call (refresh l.limiter.global now limits.window) =
              rw ok at global
              ∙ global_charged l.limiter now on'
              ∙ ap (λ (k : DiscoveryLimits). one_call (refresh l.limiter.global now k.window))
                  v.same in
            let (more, h) =
              admit-holds closed l.time l.admitted now l.limiter.global (omega arith)
                (simp (v.same) at room) v.rate in
            (
              more,
              rw ok
                  (record { same = same; bounded = fits; size = size ∙ v.size; rate = rw next h }),
            )
      ]

  run-IsCounted :
      (closed : ℕ) (l : Ledger) (es : List Event)
      → IsCounted limits from closed l
      → (more : ℕ) × IsCounted limits from more (run l es)
  unfolding run
  run-IsCounted closed l [] v = (closed, v)
  run-IsCounted closed l (e ∷ es) v =
      let (more, next) = react-IsCounted closed l e v in run-IsCounted more (react l e) es next

-- With a process-wide limit, whatever addresses send requests at whatever times that do not go back: the
-- limiter keeps at most 4,096 networks, none of which has more calls in its window than its limit; and
-- the process admits at most one limit of requests more than a limit for each whole window that has
-- passed.
pub run_new-IsBounded :
    (limits : DiscoveryLimits) (from : ℕ) (es : List Event)
    → ltb 0 limits.max_requests ≡ true
    → let l =
        run (record { limiter = new_discovery_limiter limits; time = from; admitted = 0 }) es in
      (windows : ℕ) × IsBounded l.limiter
      × (l.limiter.max_buckets ≡ max_discovery_buckets)
      × (l.admitted ≤ suc windows * limits.max_requests)
      × (from + windows * limits.window ≤ l.time)
run_new-IsBounded limits from es on =
    let start : Ledger = record {
      limiter = new_discovery_limiter limits;
      time = from;
      admitted = 0;
    } in
    let first : IsCounted limits from 0 start = record {
      same = refl;
      bounded = record { buckets = omega arith; networks = tt; process = omega arith };
      rate = fresh limits.max_requests limits.window from;
      size = refl;
    } in
    let (windows, v) = run-IsCounted limits on from 0 start es first in
    let l = run start es in
    let (most, past) =
      bound limits.max_requests limits.window from windows l.time l.admitted l.limiter.global.start
        l.limiter.global.calls v.rate in
    (windows, v.bounded, v.size, most, past)
