-- ===== src/Mtproto/Registry.antt =====
-- internal/mtproto/sessions.go: the live connections of each user. A connection is its id, and each
-- function is one critical section.
pub mod Totals
pub mod Counts
pub mod Rotation
pub mod Turns
use telegram_server.Common.{
  ℕ, zero, suc, ◌+◌, ◌-◌, ◌%◌, ◌^◌, min, Bool, true, false, not, Option, none, some, List, [], ◌∷◌,
  ◌++◌, length, is_empty, get_or, remove_at, ltb, leb, ◌==◌, if◌then◌else◌, is_pos, nat_eq,
}
use telegram_server.Common.Dict.{lookup_or, insert, delete}
use telegram_server.Common.Index.{find_index}

-- `SessionRegistry`.
pub record Registry : Type 0 where
  pub users : List (ℕ × List ℕ)
  pub recovery_conns : List ℕ
  pub recovery_cursor : ℕ
  pub total_conns : ℕ

-- `NewSessionRegistry`.
unfoldable pub new_registry : Registry
new_registry = record { users = []; recovery_conns = []; recovery_cursor = 0; total_conns = 0 }

abbrev pub max_user_conns : ℕ
max_user_conns = 20

-- `Conns`.
abbrev pub conns : Registry → ℕ → List ℕ
conns r user = lookup_or r.users user []

-- `Add`.
unfoldable pub add : Registry → ℕ → ℕ → Registry × Bool
add r user c = if leb max_user_conns (length (conns r user)) then (r, false) else (
  record r {
    users = insert r.users user (conns r user ++ c ∷ []);
    recovery_conns = r.recovery_conns ++ c ∷ [];
    total_conns = (r.total_conns + 1) % 2 ^ 64;
  },
  true,
)

-- The first loop of `Remove`, over the position that it finds.
unfoldable pub remove_user : Registry → ℕ → Option ℕ → Registry
remove_user r user none = r
remove_user r user (some i) = record r {
  users = insert r.users user (remove_at (conns r user) i);
  total_conns = (r.total_conns + (2 ^ 64 - 1)) % 2 ^ 64;
}

-- The cursor after position `i` has gone and `left` connections remain.
unfoldable pub move_cursor : ℕ → ℕ → ℕ → ℕ
move_cursor cursor i zero = 0
move_cursor cursor i (suc left) = (if ltb i cursor then cursor - 1 else cursor) % suc left

-- The second loop of `Remove`.
unfoldable pub remove_recovery : Registry → Option ℕ → Registry
remove_recovery r none = r
remove_recovery r (some i) =
    let rest = remove_at r.recovery_conns i in
    record r {
      recovery_conns = rest;
      recovery_cursor = move_cursor r.recovery_cursor i (length rest);
    }

-- The end of `Remove`: a user with no connection has no entry.
unfoldable pub prune_user : Registry → ℕ → Registry
prune_user r user = if is_empty (conns r user) then record r { users = delete r.users user } else r

-- `Remove`.
unfoldable pub remove : Registry → ℕ → ℕ → Registry
remove r user c =
    let first = remove_user r user (find_index (λ x. x == c) (conns r user)) in
    let second = remove_recovery first (find_index (λ x. x == c) first.recovery_conns) in
    prune_user second user

-- The loop of `DialogFilterRecoveryCandidates`: `count` connections from position `i` on, cyclically.
unfoldable pub window : List ℕ → ℕ → ℕ → List ℕ
window xs i zero = []
window xs i (suc count) = get_or xs (i % length xs) 0 ∷ window xs (suc i) count

-- `DialogFilterRecoveryCandidates`.
unfoldable pub candidates : Registry → ℕ → Registry × List ℕ
candidates r limit =
    let n = length r.recovery_conns in
    let count = min limit n in
    let from = r.recovery_cursor % n in
    if not (is_pos limit)
    then (r, [])
    else if count == 0
    then (r, [])
    else (record r { recovery_cursor = (from + count) % n }, window r.recovery_conns from count)

-- `TotalSessions`.
abbrev pub total_sessions : Registry → ℕ
total_sessions r = length r.users
