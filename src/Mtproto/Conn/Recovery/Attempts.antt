-- ===== src/Mtproto/Conn/Recovery/Attempts.antt =====
-- internal/mtproto/send.go: how many recovery pushes one pending invalidation may cost, and when.
use telegram_server.Common.{
  ℕ, ◌+◌, ◌*◌, ◌≤◌, ◌<◌, ◌≡◌, ◌⊎◌, Bool, true, false, Option, none, some, List, [], ◌∷◌, arith,
}
use telegram_server.Mtproto.Conn.Recovery.{
  Recovery, second, mark_recovery, raise_generation, acknowledge_difference, claim, finish,
  may_push,
}

-- What may happen while an invalidation waits: more invalidations, differences, pushes and their
-- ends, by any caller and at any time.
pub data Event : Type 0 where
  marks : ℕ → ℕ → ℕ → ℕ → Event
  differs : ℕ → ℕ → Bool → Event
  claims : ℕ → ℕ → ℕ → ℕ → ℕ → Event
  finishes : ℕ → ℕ → ℕ → Event

abbrev granted : Option ℕ → ℕ
granted none = 0
granted (some id) = 1

-- The state after an event, and how many pushes it was granted.
react : Recovery → Event → Recovery × ℕ
react s (marks owner session generation epoch) =
    ((mark_recovery s owner session generation epoch).0, 0)
react s (differs owner session consume) = ((acknowledge_difference s owner session consume).0, 0)
react s (claims owner session epoch now fresh) =
    let r = claim s owner session epoch now fresh in (r.0, granted r.1)
react s (finishes owner session id) = (finish s owner session id, 0)

pub grants : Recovery → List Event → ℕ
grants s [] = 0
grants s (e ∷ es) = let r = react s e in r.1 + grants r.0 es

-- An invalidation waits whatever the replica's epoch is, within its budget of three.
pub record IsWaiting (s : Recovery) : Type 0 where
  pub bound : s.initialized ≡ true
  pub uncovered : s.covered < s.generation
  pub budget : s.attempts ≤ 3

react_budget :
    (s : Recovery) (e : Event)
    → IsWaiting s
    → IsWaiting (react s e).0 × ((react s e).0.attempts ≡ s.attempts + (react s e).1)
unfolding react
react_budget s (marks owner session generation epoch) w =
    unfold mark_recovery raise_generation in ground arith
react_budget s (differs owner session consume) w = unfold acknowledge_difference in ground arith
react_budget s (claims owner session epoch now fresh) w = unfold claim in ground arith
react_budget s (finishes owner session id) w = unfold finish in ground arith

-- While an invalidation waits for a folder fetch, at most three pushes are granted in all, less those
-- already made, however many further invalidations, differences and claims arrive.
pub grants_bounded : (s : Recovery) (es : List Event) → IsWaiting s → s.attempts + grants s es ≤ 3
unfolding grants
grants_bounded s [] w = omega (arith, w.budget)
grants_bounded s (e ∷ es) w =
    let (next, spent) = react_budget s e w in
    omega (arith, spent, grants_bounded (react s e).0 es next)

-- A second push is granted 20 seconds after the first at the earliest, and a third one 40 seconds
-- after the second; a fourth is not granted.
claim_spacing :
    (s : Recovery) (owner session epoch now fresh epoch' later fresh' : ℕ) (id id' : ℕ)
    → (claim s owner session epoch now fresh).1 ≡ some id
    → (claim
        (finish (claim s owner session epoch now fresh).0 owner session id)
        owner
        session
        epoch'
        later
        fresh').1
      ≡ some id'
    → ((s.attempts ≡ 0) × (now + 20 * second ≤ later))
      ⊎ ((s.attempts ≡ 1) × (now + 40 * second ≤ later))
unfolding claim finish
claim_spacing s owner session epoch now fresh epoch' later fresh' id id' e e' = ground arith

-- Between a grant and its end nothing else is granted, and only the push that holds the claim is
-- allowed to write.
claim_exclusive :
    (s : Recovery) (owner session epoch now fresh : ℕ) (a b c d e : ℕ) (id : ℕ)
    → (claim s owner session epoch now fresh).1 ≡ some id
    → ((claim (claim s owner session epoch now fresh).0 a b c d e).1 ≡ none)
      × (may_push (claim s owner session epoch now fresh).0 owner session owner session id ≡ true)
      × (may_push
            (finish (claim s owner session epoch now fresh).0 owner session id)
            owner
            session
            owner
            session
            id
          ≡ false)
unfolding claim finish may_push
claim_exclusive s owner session epoch now fresh a b c d e id h = ground arith
