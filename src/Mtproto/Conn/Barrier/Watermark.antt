-- ===== src/Mtproto/Conn/Barrier/Watermark.antt =====
-- internal/mtproto/send.go: how the push watermark moves.
use telegram_server.Common.{
  ℕ, ◌+◌, ◌-◌, ◌≤◌, ◌<◌, ◌≡◌, ◌≢◌, refl, sym, ap, ◌∙◌, ◌⊎◌, Bool, true, false, Option, none, some,
  List, [], ◌∷◌, is_pos, length, get_or, set, All, arith, ◌==◌, ==_refl, if◌then◌else◌,
}
use telegram_server.Common.Index.{find_last_index}
use telegram_server.Mtproto.Conn.Barrier.{
  Barriers, Reservation, begin_attempt, register, enter_queue, enter_overflow, saturate,
  remove_pending, remove_overflow,
}
use telegram_server.Mtproto.Conn.Barrier.Settle.{
  set_pts, set_overflow_pts, set_queued_pts, set_pts_attempt, clear, clear_overflow_attempt,
  clear_queued_attempt, clear_attempt, raise_watermark, mark, flag_ready, release_found,
  find_queued, find_overflow, settle_result, mark_result, pending_update, pending_update_ready,
}
use telegram_server.Mtproto.Conn.Barrier.Push.{push_to_at_watermark, drop_barriers, rebind_key}
use telegram_server.Mtproto.Conn.Barrier.Shape.{IsValid}
use telegram_server.Mtproto.Conn.Barrier.Calls.{
  Call, begins, sets, clears, marks, marks_result, sets_attempt, clears_attempt, pushes, pushes_at,
  rebinds_owner, rebinds_key, step, run,
}

-- The calls by which the watermark may fall: a change of owner, and a push without an expected pts.
abbrev pub IsOrdered : Call → Type 0
IsOrdered (pushes w owner pts) = ⊥
IsOrdered (rebinds_owner user) = ⊥
IsOrdered c = Unit {0}

remove_pending-watermark :
    (b : Barriers) (i : ℕ) → (remove_pending b i).last_pushed_pts ≡ b.last_pushed_pts
unfolding remove_pending
remove_pending-watermark b i = ground arith

release_found-watermark :
    (b : Barriers) (queued over : Option ℕ)
    → (release_found b queued over).last_pushed_pts ≡ b.last_pushed_pts
unfolding release_found remove_overflow
release_found-watermark b (some i) over = remove_pending-watermark b i
release_found-watermark b none (some j) = refl
release_found-watermark b none none = refl

flag_ready-watermark :
    (b : Barriers) (queued over : Option ℕ)
    → (flag_ready b queued over).last_pushed_pts ≡ b.last_pushed_pts
unfolding flag_ready
flag_ready-watermark b queued over = refl

settle_result-watermark :
    (b : Barriers) (queued over : Option ℕ) (pts : ℕ)
    → (settle_result b queued over pts).last_pushed_pts
      ≡ (if pts == b.last_pushed_pts + 1 then pts else b.last_pushed_pts)
unfolding settle_result
settle_result-watermark b queued over pts =
    let flag = flag_ready b queued over in
    ground (
      arith,
      flag_ready-watermark b queued over,
      release_found-watermark flag queued over,
      release_found-watermark (record flag { last_pushed_pts = pts }) queued over,
    )

begin-watermark :
    (b : Barriers) (owner key pts : ℕ)
    → (begin_attempt b owner key pts).0.last_pushed_pts ≡ b.last_pushed_pts
unfolding begin_attempt register enter_queue enter_overflow saturate
begin-watermark b owner key pts = ground arith

set_pts-watermark :
    (b : Barriers) (owner key pts : ℕ)
    → (set_pts b owner key pts).0.last_pushed_pts ≡ b.last_pushed_pts
unfolding set_pts
set_pts-watermark b owner key pts = ground arith

set_pts_attempt-watermark :
    (b : Barriers) (r : Reservation) (pts : ℕ)
    → (set_pts_attempt b r pts).0.last_pushed_pts ≡ b.last_pushed_pts
unfolding set_pts_attempt set_overflow_pts set_queued_pts
set_pts_attempt-watermark b r pts = ground arith

clear-watermark :
    (b : Barriers) (owner key : ℕ) → (clear b owner key).0.last_pushed_pts ≡ b.last_pushed_pts
unfolding clear
clear-watermark b owner key = ground (arith, remove_pending-watermark b (length b.pending_pts - 1))

clear_attempt-watermark :
    (b : Barriers) (r : Reservation) → (clear_attempt b r).0.last_pushed_pts ≡ b.last_pushed_pts
unfolding clear_attempt clear_overflow_attempt clear_queued_attempt remove_overflow remove_pending
clear_attempt-watermark b r = ground arith

mark-watermark :
    (b : Barriers) (owner key pts : ℕ)
    → b.last_pushed_pts ≤ (mark b owner key pts).0.last_pushed_pts
unfolding mark raise_watermark remove_overflow remove_pending
mark-watermark b owner key pts = ground arith

-- Every call but a change of owner and an unordered push keeps the watermark or raises it.
pub step_monotone :
    (b : Barriers) (c : Call) → IsOrdered c → b.last_pushed_pts ≤ (step b c).last_pushed_pts
unfolding step
step_monotone b (begins owner key pts) o = omega (arith, begin-watermark b owner key pts)
step_monotone b (sets owner key pts) o = omega (arith, set_pts-watermark b owner key pts)
step_monotone b (clears owner key _) o = omega (arith, clear-watermark b owner key)
step_monotone b (marks owner key pts) o = mark-watermark b owner key pts
step_monotone b (marks_result owner key pts) o =
    unfold mark_result in
    ground
      (arith, settle_result-watermark b (find_queued b owner key pts) (find_overflow b pts) pts)
step_monotone b (sets_attempt r pts) o = omega (arith, set_pts_attempt-watermark b r pts)
step_monotone b (clears_attempt r) o = omega (arith, clear_attempt-watermark b r)
step_monotone b (pushes w owner pts) o = absurd o
step_monotone b (pushes_at w owner expected pts) o = unfold push_to_at_watermark in ground arith
step_monotone b (rebinds_owner user) o = absurd o
step_monotone b (rebinds_key key) o = unfold rebind_key drop_barriers in ground arith

-- In a run without a change of owner and without an unordered push, the watermark never falls.
pub run_monotone :
    (b : Barriers) (cs : List Call)
    → All IsOrdered cs
    → b.last_pushed_pts ≤ (run b cs).last_pushed_pts
unfolding run
run_monotone b [] o = omega arith
run_monotone b (c ∷ cs) (oc, ocs) =
    omega (arith, step_monotone b c oc, run_monotone (step b c) cs ocs)

-- The result of a request by the connection's own binding accounts for the next pts only: at
-- `last + 1` the watermark moves there, and at any other pts it stays.
mark_result_next :
    (b : Barriers) (owner key pts : ℕ)
    → key ≢ 0
    → is_pos pts ≡ true
    → b.owner ≡ owner
    → b.auth_key_id ≡ key
    → ((mark_result b owner key pts).0.last_pushed_pts
        ≡ (if pts == b.last_pushed_pts + 1 then pts else b.last_pushed_pts))
      × ((mark_result b owner key pts).1 ≡ true)
unfolding mark_result
mark_result_next b owner key pts hk hp eo ek =
    ground
      (arith, settle_result-watermark b (find_queued b owner key pts) (find_overflow b pts) pts)

find_last_head :
    (pts : ℕ) (rest : List ℕ)
    → All (λ p. p ≢ pts) rest
    → find_last_index (λ p. p == pts) (pts ∷ rest) ≡ some 0
unfolding find_last_index
find_last_head pts rest a = rw (none_of_all rest a, ==_refl pts)
  where
    none_of_all : (xs : List ℕ) → All (λ p. p ≢ pts) xs → find_last_index (λ p. p == pts) xs ≡ none
    none_of_all [] h = refl
    none_of_all (x ∷ xs) h = ground (arith, none_of_all xs h.1, h.0)

get_or-set_head : (xs : List Bool) → 0 < length xs → get_or (set xs 0 true) 0 false ≡ true
get_or-set_head [] h = absurd (omega arith)
get_or-set_head (x ∷ xs) h = refl

find_queued_head :
    (b : Barriers) (owner key pts : ℕ) (rest : List ℕ)
    → b.pending_owner ≡ owner
    → b.pending_auth_key ≡ key
    → b.pending_pts ≡ pts ∷ rest
    → All (λ p. p ≢ pts) rest
    → find_queued b owner key pts ≡ some 0
unfolding find_queued
find_queued_head b owner key pts rest qo qk e a =
    let found = find_last_head pts rest a in rw e (ground (arith, found))

-- Past a gap the result only flags what it finds.
gap_state :
    (b : Barriers) (owner key pts : ℕ)
    → key ≢ 0
    → is_pos pts ≡ true
    → b.owner ≡ owner
    → b.auth_key_id ≡ key
    → b.last_pushed_pts + 1 < pts
    → (mark_result b owner key pts).0
      ≡ flag_ready b (find_queued b owner key pts) (find_overflow b pts)
unfolding mark_result settle_result
gap_state b owner key pts hk hp eo ek gap = ground arith

flagged_head :
    (b : Barriers) (pts : ℕ) (rest : List ℕ) (over : Option ℕ)
    → IsValid b
    → b.pending_owner ≡ b.owner
    → b.pending_pts ≡ pts ∷ rest
    → (pending_update (flag_ready b (some 0) over) b.owner ≡ (pts, true))
      × (pending_update_ready (flag_ready b (some 0) over) b.owner ≡ true)
unfolding pending_update pending_update_ready flag_ready
flagged_head b pts rest over v qo e = ground (arith, get_or-set_head b.pending_ready, ap length e)

-- A result whose pts lies past a gap, and only first in the queue, keeps its barrier there and marks
-- it ready: the owner's delivery is held back at that pts, and the watermark stays.
mark_result_gap :
    (b : Barriers) (owner key pts : ℕ) (rest : List ℕ)
    → IsValid b
    → key ≢ 0
    → is_pos pts ≡ true
    → b.owner ≡ owner
    → b.auth_key_id ≡ key
    → b.pending_owner ≡ owner
    → b.pending_auth_key ≡ key
    → b.pending_pts ≡ pts ∷ rest
    → All (λ p. p ≢ pts) rest
    → b.last_pushed_pts + 1 < pts
    → (pending_update (mark_result b owner key pts).0 owner ≡ (pts, true))
      × (pending_update_ready (mark_result b owner key pts).0 owner ≡ true)
      × ((mark_result b owner key pts).0.last_pushed_pts ≡ b.last_pushed_pts)
mark_result_gap b owner key pts rest v hk hp eo ek qo qk e a gap =
    let state = gap_state b owner key pts hk hp eo ek gap in
    let found = find_queued_head b owner key pts rest qo qk e a in
    let (first, ready) = flagged_head b pts rest (find_overflow b pts) v (qo ∙ sym eo) e in
    rw (state, found) (rw (sym eo) first, rw (sym eo) ready, flag_ready-watermark b (some 0) _)

-- A keyed notification does not cross the first barrier: while the first entry of the queue has
-- another pts, or none yet, nothing changes, and the notification counts as accounted for only if
-- its pts was passed before.
mark_blocked :
    (b : Barriers) (owner key pts first : ℕ) (rest : List ℕ)
    → b.pending_pts ≡ first ∷ rest
    → first ≢ pts
    → ((mark b owner key pts).0 ≡ b)
      × (((mark b owner key pts).1 ≡ false) ⊎ (pts ≤ b.last_pushed_pts))
unfolding mark
mark_blocked b owner key pts first rest e d = ground arith
