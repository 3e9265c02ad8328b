-- ===== src/Api/DialogFilterSync/Lost.antt =====
-- internal/api/dialog_filter_sync.go: no folder invalidation is lost between a read and its
-- acknowledgement.
use telegram_server.Common.{ℕ, ◌+◌, ◌^◌, ◌≤◌, ◌<◌, ◌≡◌, Bool, true, List, [], ◌∷◌, is_pos, arith}
use telegram_server.Mtproto.Conn.Recovery.{
  Recovery, reset, bind, ensure_binding, mark_recovery, raise_generation, acknowledge_fetch,
  acknowledge_difference, claim, finish,
}
use telegram_server.Api.DialogFilterSync.{
  Clock, Request, Capture, next, listener_reconnected, ensure, capture, acknowledge_read,
  acknowledge_written, requester_repair, invalidate_conn, owner_invalidation, new_clock,
}

-- A replica's clock and one connection's recovery state.
pub record Replica : Type 0 where
  pub clock : Clock
  pub conn : Recovery

pub data Event : Type 0 where
  reconnects : Event
  captures : Request → Event
  reads : Request → Capture → Event
  writes : Request → Capture → Bool → Event
  repairs : Request → Event
  invalidates : ℕ → ℕ → ℕ → Event
  claims : ℕ → ℕ → ℕ → ℕ → Event
  finishes : ℕ → ℕ → ℕ → Event
  resets : ℕ → ℕ → Event

abbrev with_conn : Replica → Recovery → Replica
with_conn s c = record s { conn = c }

unfoldable pub react : Replica → Event → Replica
react s reconnects = record s { clock = listener_reconnected s.clock }
react s (captures req) = with_conn s (capture s.clock s.conn req).0
react s (reads req captured) = with_conn s (acknowledge_read s.clock s.conn req captured).0
react s (writes req captured included) =
    with_conn s (acknowledge_written s.clock s.conn req captured included).0
react s (repairs req) =
    let r = requester_repair s.clock s.conn req in record { clock = r.0; conn = r.1 }
react s (invalidates owner bound session) =
    let r = owner_invalidation s.clock s.conn owner bound session in
    record { clock = r.0; conn = r.1 }
react s (claims owner session now fresh) =
    with_conn s (claim s.conn owner session s.clock.global_epoch now fresh).0
react s (finishes owner session id) = with_conn s (finish s.conn owner session id)
react s (resets owner session) = with_conn s (reset owner session)

unfoldable pub run : Replica → List Event → Replica
run s [] = s
run s (e ∷ es) = run (react s e) es

-- Every number stays at or below the clock.
pub record IsTimed (s : Replica) : Type 0 where
  pub epoch : s.clock.global_epoch ≤ s.clock.sequence
  pub marked : s.conn.generation ≤ s.clock.sequence
  pub covers : s.conn.covered ≤ s.clock.sequence

-- An acknowledgement names a capture, whose generation the clock had reached; and the 64-bit clock
-- does not come round.
abbrev pub IsPast : Replica → Event → Type 0
IsPast s (reads req captured) = captured.generation ≤ s.clock.sequence
IsPast s e = Unit {0}

abbrev pub IsHistory : Replica → List Event → Type 0
IsHistory s [] = Unit {0}
IsHistory s (e ∷ es) = (s.clock.sequence + 1 < 2 ^ 64) × IsPast s e × IsHistory (react s e) es

mark-bounds :
    (c : Recovery) (owner session generation epoch : ℕ)
    → generation < 2 ^ 64
    → 0 < generation
    → c.generation ≤ generation
    → c.covered ≤ generation
    → epoch ≤ generation
    → ((mark_recovery c owner session generation epoch).0.generation ≤ generation)
      × ((mark_recovery c owner session generation epoch).0.covered ≤ generation)
unfolding mark_recovery raise_generation bind reset
mark-bounds c owner session generation epoch room pos hg hc he = ground arith

ensure-bounds :
    (k : Clock) (c : Recovery) (req : Request)
    → c.generation ≤ k.sequence
    → c.covered ≤ k.sequence
    → ((ensure k c req).generation ≤ k.sequence) × ((ensure k c req).covered ≤ k.sequence)
unfolding ensure ensure_binding bind reset
ensure-bounds k c req hg hc = ground arith

react-IsTimed :
    (s : Replica) (e : Event)
    → s.clock.sequence + 1 < 2 ^ 64
    → IsPast s e
    → IsTimed s
    → IsTimed (react s e)
unfolding react
react-IsTimed s reconnects room p t = unfold listener_reconnected in ground arith
react-IsTimed s (captures req) room p t = unfold capture ensure_binding bind reset in ground arith
react-IsTimed s (reads req captured) room p t =
    unfold acknowledge_read acknowledge_fetch in ground arith
react-IsTimed s (writes req captured included) room p t =
    unfold acknowledge_written acknowledge_difference in ground arith
react-IsTimed s (repairs req) room p t =
    unfold requester_repair next in
    ground (
      arith,
      ensure-bounds s.clock s.conn req t.marked t.covers,
      mark-bounds (ensure s.clock s.conn req) req.user_id req.session_id (s.clock.sequence + 1)
          s.clock.global_epoch room,
    )
react-IsTimed s (invalidates owner bound session) room p t =
    unfold owner_invalidation next invalidate_conn in
    ground
      (arith, mark-bounds s.conn owner session (s.clock.sequence + 1) s.clock.global_epoch room)
react-IsTimed s (claims owner session now fresh) room p t = unfold claim in ground arith
react-IsTimed s (finishes owner session id) room p t = unfold finish in ground arith
react-IsTimed s (resets owner session) room p t = unfold reset in ground arith

unfoldable pub new_replica : ℕ → ℕ → Replica
new_replica owner session = record { clock = new_clock; conn = reset owner session }

new_replica-IsTimed : (owner session : ℕ) → IsTimed (new_replica owner session)
unfolding new_replica new_clock reset
new_replica-IsTimed owner session = ground arith

run-IsTimed : (s : Replica) (es : List Event) → IsHistory s es → IsTimed s → IsTimed (run s es)
unfolding run
run-IsTimed s [] h t = t
run-IsTimed s (e ∷ es) (room, p, h) t = run-IsTimed (react s e) es h (react-IsTimed s e room p t)

-- The invalidation of generation `g` waits.
pub record IsWaitingFor (g : ℕ) (c : Recovery) : Type 0 where
  pub bound : c.initialized ≡ true
  pub uncovered : c.covered < g
  pub known : g ≤ c.generation

-- Events that neither bind the connection anew nor acknowledge a read that saw generation `g`.
abbrev pub IsKeeping : ℕ → Replica → Event → Type 0
IsKeeping g s (captures req) = (req.user_id ≡ s.conn.owner) × (req.session_id ≡ s.conn.session)
IsKeeping g s (repairs req) = (req.user_id ≡ s.conn.owner) × (req.session_id ≡ s.conn.session)
IsKeeping g s (reads req captured) = captured.generation < g
IsKeeping g s (resets owner session) = ⊥
IsKeeping g s e = Unit {0}

abbrev pub AllKeeping : ℕ → Replica → List Event → Type 0
AllKeeping g s [] = Unit {0}
AllKeeping g s (e ∷ es) = IsKeeping g s e × AllKeeping g (react s e) es

react-IsWaitingFor :
    (g : ℕ) (s : Replica) (e : Event)
    → IsKeeping g s e
    → IsWaitingFor g s.conn
    → IsWaitingFor g (react s e).conn
unfolding react
react-IsWaitingFor g s reconnects k w = w
react-IsWaitingFor g s (captures req) k w = unfold capture ensure_binding in ground arith
react-IsWaitingFor g s (reads req captured) k w =
    unfold acknowledge_read acknowledge_fetch in ground arith
react-IsWaitingFor g s (writes req captured included) k w =
    unfold acknowledge_written acknowledge_difference in ground arith
react-IsWaitingFor g s (repairs req) k w =
    unfold requester_repair next ensure ensure_binding mark_recovery raise_generation in
    ground arith
react-IsWaitingFor g s (invalidates owner bound session) k w =
    unfold owner_invalidation next invalidate_conn mark_recovery raise_generation in ground arith
react-IsWaitingFor g s (claims owner session now fresh) k w = unfold claim in ground arith
react-IsWaitingFor g s (finishes owner session id) k w = unfold finish in ground arith
react-IsWaitingFor g s (resets owner session) k w = absurd k

run-IsWaitingFor :
    (g : ℕ) (s : Replica) (es : List Event)
    → AllKeeping g s es
    → IsWaitingFor g s.conn
    → IsWaitingFor g (run s es).conn
unfolding run
run-IsWaitingFor g s [] k w = w
run-IsWaitingFor g s (e ∷ es) (ke, kes) w =
    run-IsWaitingFor g (react s e) es kes (react-IsWaitingFor g s e ke w)

invalidated :
    (s : Replica) (owner session : ℕ)
    → IsTimed s
    → s.clock.sequence + 1 < 2 ^ 64
    → is_pos owner ≡ true
    → s.conn.owner ≡ owner
    → s.conn.session ≡ session
    → IsWaitingFor (s.clock.sequence + 1) (react s (invalidates owner owner session)).conn
unfolding react owner_invalidation next invalidate_conn mark_recovery raise_generation bind reset
invalidated s owner session t room pos eo es = ground arith

-- A committed invalidation of the owner's folders stays pending on the owner's connection, with
-- captures, reads of older generations, differences, pushes, reconnects and further invalidations
-- in any order, until a read that captured its generation is acknowledged or the connection is
-- bound anew. Before it the connection may have any state that a history can reach.
pub invalidation_kept :
    (owner session : ℕ) (before after : List Event)
    → let s = run (new_replica owner session) before in
      IsHistory (new_replica owner session) before
      → s.clock.sequence + 1 < 2 ^ 64
      → is_pos owner ≡ true
      → s.conn.owner ≡ owner
      → s.conn.session ≡ session
      → AllKeeping (s.clock.sequence + 1) (react s (invalidates owner owner session)) after
      → IsWaitingFor
          (s.clock.sequence + 1)
          (run (react s (invalidates owner owner session)) after).conn
invalidation_kept owner session before after h room pos eo es k =
    let s = run (new_replica owner session) before in
    run-IsWaitingFor _ (react s (invalidates owner owner session)) after k (
      invalidated s owner session
        (run-IsTimed (new_replica owner session) before h (new_replica-IsTimed owner session)) room
        pos eo es)
