-- ===== src/Mtproto/Conn/Barrier/Rebind.antt =====
-- internal/mtproto/send.go: what a change of owner or key does to barriers, and how long a saturated
-- hold lasts.
use telegram_server.Common.{
  ℕ, ◌-◌, ◌≡◌, ◌≢◌, refl, true, false, Option, List, [], ◌∷◌, All, arith, length,
}
use telegram_server.Mtproto.Conn.Barrier.{
  Barriers, Reservation, begin_attempt, register, enter_queue, enter_overflow, saturate,
  remove_pending, remove_overflow,
}
use telegram_server.Mtproto.Conn.Barrier.Settle.{
  set_pts, set_overflow_pts, set_queued_pts, set_pts_attempt, clear, clear_overflow_attempt,
  clear_queued_attempt, clear_attempt, raise_watermark, mark, flag_ready, release_found,
  find_queued, find_overflow, settle_result, mark_result, pending_update,
}
use telegram_server.Mtproto.Conn.Barrier.Push.{
  push_to, push_to_at_watermark, drop_barriers, rebind_owner,
}
use telegram_server.Mtproto.Conn.Barrier.Shape.{IsValid}
use telegram_server.Mtproto.Conn.Barrier.Attempts.{holds_of_barrier}
use telegram_server.Mtproto.Conn.Barrier.Calls.{
  Call, begins, sets, clears, marks, marks_result, sets_attempt, clears_attempt, pushes, pushes_at,
  rebinds_owner, rebinds_key, step, run, run-IsValid,
}

-- A new owner starts with no watermark and no barrier, and a reservation made for the old owner can
-- neither set a pts nor release anything any more.
rebind_owner_resets :
    (b : Barriers) (user other pts : ℕ) (r : Reservation)
    → b.owner ≢ user
    → r.owner ≡ b.owner
    → ((rebind_owner b user).last_pushed_pts ≡ 0)
      × ((pending_update (rebind_owner b user) other) ≡ (0, false))
      × (clear_attempt (rebind_owner b user) r ≡ (rebind_owner b user, false))
      × (set_pts_attempt (rebind_owner b user) r pts ≡ (rebind_owner b user, false))
unfolding rebind_owner drop_barriers pending_update clear_attempt clear_overflow_attempt
    clear_queued_attempt set_pts_attempt
rebind_owner_resets b user other pts r d e = ground arith

-- The calls that leave the binding alone.
abbrev pub IsBinding : Call → Type 0
IsBinding (rebinds_owner user) = ⊥
IsBinding (rebinds_key key) = ⊥
IsBinding c = Unit {0}

remove_pending-hold :
    (b : Barriers) (i : ℕ)
    → ((remove_pending b i).saturated ≡ b.saturated) × ((remove_pending b i).owner ≡ b.owner)
unfolding remove_pending
remove_pending-hold b i = ground arith

settle_result-hold :
    (b : Barriers) (queued over : Option ℕ) (pts : ℕ)
    → ((settle_result b queued over pts).saturated ≡ b.saturated)
      × ((settle_result b queued over pts).owner ≡ b.owner)
unfolding settle_result flag_ready release_found remove_overflow remove_pending
settle_result-hold b queued over pts = ground arith

abbrev Holds : Barriers → Barriers → Type 0
Holds b c = (c.saturated ≡ true) × (c.owner ≡ b.owner)

-- A saturated hold stays, with its owner, under every such call.
step_saturated : (b : Barriers) (c : Call) → IsBinding c → b.saturated ≡ true → Holds b (step b c)
unfolding step
step_saturated b (begins owner key pts) o s =
    unfold begin_attempt register enter_queue enter_overflow saturate in ground arith
step_saturated b (sets owner key pts) o s = unfold set_pts in ground arith
step_saturated b (clears owner key _) o s =
    unfold clear in ground (arith, remove_pending-hold b (length b.pending_pts - 1))
step_saturated b (marks owner key pts) o s =
    unfold mark raise_watermark remove_overflow remove_pending in ground arith
step_saturated b (marks_result owner key pts) o s =
    unfold mark_result in
    ground (arith, settle_result-hold b (find_queued b owner key pts) (find_overflow b pts) pts)
step_saturated b (sets_attempt r pts) o s =
    unfold set_pts_attempt set_overflow_pts set_queued_pts in ground arith
step_saturated b (clears_attempt r) o s =
    unfold clear_attempt clear_overflow_attempt clear_queued_attempt remove_overflow
      remove_pending in
    ground arith
step_saturated b (pushes w owner pts) o s = unfold push_to in ground arith
step_saturated b (pushes_at w owner expected pts) o s = unfold push_to_at_watermark in ground arith
step_saturated b (rebinds_owner user) o s = absurd o
step_saturated b (rebinds_key key) o s = absurd o

run-Holds :
    (b : Barriers) (cs : List Call) → All IsBinding cs → b.saturated ≡ true → Holds b (run b cs)
unfolding run
run-Holds b [] o s = (s, refl)
run-Holds b (c ∷ cs) (oc, ocs) s =
    let (kept, same) = step_saturated b c oc s in
    let (kept', same') = run-Holds (step b c) cs ocs kept in (kept', cc)

-- Once the overflow was full, delivery to this connection stays held back, whatever is released,
-- until the owner or the key changes.
saturated_holds :
    (b : Barriers) (cs : List Call)
    → IsValid b
    → b.saturated ≡ true
    → All IsBinding cs
    → ((run b cs).saturated ≡ true) × ((pending_update (run b cs) b.owner).1 ≡ true)
saturated_holds b cs v s o =
    let (kept, same) = run-Holds b cs o s in
    (kept, cc (same, holds_of_barrier (run b cs) (run-IsValid b cs v) (ground arith)))
