-- ===== src/Api/Tests.antt =====
-- Runs of the folder synchronisation of one replica.
use telegram_server.Common.{◌+◌, ◌≡◌, refl, true, false, List, [], ◌∷◌, arith}
use telegram_server.Mtproto.Conn.Recovery.{reset, bind, ensure_binding}
use telegram_server.Api.DialogFilterSync.{
  Request, Capture, new_clock, listener_reconnected, capture,
}
use telegram_server.Api.DialogFilterSync.Queue.{new_queue, contains}
use telegram_server.Api.DialogFilterSync.Fifo.{Op, enqueues, takes, serve, serve_fifo, serve_new}
use telegram_server.Api.DialogFilterSync.Lost.{
  Replica, Event, captures, reads, claims, invalidates, reconnects, react, run, new_replica,
  IsHistory, AllKeeping, IsWaitingFor, invalidation_kept,
}

abbrev asking : List Op
asking = enqueues 7 ∷ enqueues 8 ∷ enqueues 7 ∷ takes 1 ∷ enqueues 7 ∷ takes 5 ∷ takes 5 ∷ []

serve_new_example : serve new_queue asking ≡ serve_fifo [] asking
serve_new_example = serve_new asking

taken_twice : serve_fifo [] asking ≡ (7 ∷ []) ∷ (8 ∷ 7 ∷ []) ∷ [] ∷ []
unfolding serve_fifo contains
taken_twice = refl

-- User 5 in session 3 reads the folders, is invalidated, and acknowledges the read only then.
abbrev reader : Request
reader = record { user_id = 5; session_id = 3; provisional = false; expired = false }

abbrev seen : Capture
seen = record { owner = 5; session = 3; generation = 1; first_difference = true; pending = false }

abbrev before : List Event
before = reconnects ∷ captures reader ∷ []

abbrev after : List Event
after = reads reader seen ∷ claims 5 3 100 9 ∷ []

abbrev here : Replica
here = run (new_replica 5 3) before

before-IsHistory : IsHistory (new_replica 5 3) before
unfolding run react new_replica new_clock listener_reconnected reset
before-IsHistory = (omega arith, tt, (omega arith, tt, tt))

here-bound : (here.clock.sequence ≡ 1) × (here.conn.owner ≡ 5) × (here.conn.session ≡ 3)
unfolding run react new_replica new_clock listener_reconnected reset capture ensure_binding bind
here-bound = (refl, refl, refl)

after-IsKept : AllKeeping (here.clock.sequence + 1) (react here (invalidates 5 5 3)) after
unfolding run react new_replica new_clock listener_reconnected reset capture ensure_binding bind
after-IsKept = (omega arith, (tt, tt))

invalidation_kept_example :
    IsWaitingFor (here.clock.sequence + 1) (run (react here (invalidates 5 5 3)) after).conn
invalidation_kept_example =
    invalidation_kept 5 3 before after before-IsHistory (omega (arith, here-bound.0)) refl
      here-bound.1 here-bound.2 after-IsKept
