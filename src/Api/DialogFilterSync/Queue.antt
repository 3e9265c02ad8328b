-- ===== src/Api/DialogFilterSync/Queue.antt =====
-- internal/api/dialog_filter_sync.go: the queue of connections that wait for a recovery push. The
-- slice keeps the entries that were taken, as nil, in front of `head` until it is compacted.
use telegram_server.Common.{
  ℕ, zero, suc, ◌+◌, ◌-◌, ◌*◌, min, Bool, true, false, ◌&&◌, Option, none, some, List, [], ◌∷◌,
  ◌++◌, leb, ◌==◌, if◌then◌else◌, length, get_or, set, drop,
}

pub record RecoveryQueue : Type 0 where
  pub entries : List (Option ℕ)
  pub head : ℕ
  pub queued : List ℕ

unfoldable pub new_queue : RecoveryQueue
new_queue = record { entries = []; head = 0; queued = [] }

unfoldable pub contains : List ℕ → ℕ → Bool
contains [] c = false
contains (x ∷ xs) c = if x == c then true else contains xs c

unfoldable pub remove : List ℕ → ℕ → List ℕ
remove [] c = []
remove (x ∷ xs) c = if x == c then remove xs c else x ∷ remove xs c

-- `enqueueRecovery`.
unfoldable pub enqueue : RecoveryQueue → ℕ → RecoveryQueue
enqueue q conn =
    if contains q.queued conn
    then q
    else record q { queued = conn ∷ q.queued; entries = q.entries ++ some conn ∷ [] }

-- `enqueueRecoveryBatch`.
unfoldable pub enqueue_batch : RecoveryQueue → List ℕ → RecoveryQueue
enqueue_batch q [] = q
enqueue_batch q (c ∷ cs) = enqueue_batch (enqueue q c) cs

-- One round of the loop of `takeRecoveryCandidates`.
unfoldable pub take_one : RecoveryQueue → RecoveryQueue × Option ℕ
take_one q =
    let conn = get_or q.entries q.head none in
    (
      record q {
        entries = set q.entries q.head none;
        head = q.head + 1;
        queued = elim conn [ some c ↦ remove q.queued c | none ↦ q.queued ];
      },
      conn,
    )

abbrev pub cons_some : Option ℕ → List ℕ → List ℕ
cons_some none out = out
cons_some (some c) out = c ∷ out

unfoldable pub take_loop : ℕ → RecoveryQueue → RecoveryQueue × List ℕ
take_loop zero q = (q, [])
take_loop (suc n) q =
    let (q', conn) = take_one q in let (q'', out) = take_loop n q' in (q'', cons_some conn out)

-- The slice is dropped when it is used up, and copied once at least 256 entries and at least half of
-- it are used.
unfoldable pub compact : RecoveryQueue → RecoveryQueue
compact q =
    if q.head == length q.entries
    then record q { entries = []; head = 0 }
    else if leb 256 q.head && leb (length q.entries) (q.head * 2)
    then record q { entries = drop q.head q.entries; head = 0 }
    else q

-- `takeRecoveryCandidates`; a limit at or below 0 takes none.
unfoldable pub take_candidates : RecoveryQueue → ℕ → RecoveryQueue × List ℕ
take_candidates q limit =
    let count = min limit (length q.entries - q.head) in
    let (q', out) = take_loop count q in if count == 0 then (q, []) else (compact q', out)

-- The connections that wait, in order.
abbrev pub waiting : RecoveryQueue → List (Option ℕ)
waiting q = drop q.head q.entries
