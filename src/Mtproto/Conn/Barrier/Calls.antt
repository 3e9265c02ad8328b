-- ===== src/Mtproto/Conn/Barrier/Calls.antt =====
-- internal/mtproto/send.go: a result that is written, pushes and rebinds keep the shape
-- of the barriers, and so does any sequence of calls.
use telegram_server.Common.{
  ℕ, ◌^◌, ◌<◌, ◌≡◌, refl, inl, inr, true, false, Option, none, some, List, [], ◌∷◌, length,
  is_empty, set, arith, length-set, ◌==◌, Bool-cases,
}
use telegram_server.Common.Index.{find_last_index-lt}
use telegram_server.Mtproto.Conn.Barrier.{
  new_barriers, begin_attempt, Barriers, Reservation, has_pts,
}
use telegram_server.Mtproto.Conn.Barrier.Kept.{
  remove_pending-IsValid, remove_overflow-IsValid, write_entry-IsValid, get_or-id_pos,
  set_pts-IsValid, set_pts_attempt-IsValid, clear-IsValid, clear_attempt-IsValid, mark-IsValid,
}
use telegram_server.Mtproto.Conn.Barrier.Shape.{
  IsValid, begin_attempt-IsValid, new_barriers-IsValid,
}
use telegram_server.Mtproto.Conn.Barrier.Settle.{
  is_queued, set_pts, set_pts_attempt, clear, clear_attempt, mark, flag_ready, release_found,
  find_queued, find_overflow, settle_result, mark_result,
}
use telegram_server.Mtproto.Conn.Barrier.Push.{
  Weather, push_to, push_to_at_watermark, drop_barriers, rebind_owner, rebind_key,
}

nonempty_of_lt : {i : ℕ} {A : Type 0} (xs : List A) → i < length xs → is_empty xs ≡ false
nonempty_of_lt [] h = absurd (omega arith)
nonempty_of_lt (x ∷ xs) h = refl

flag_queued-IsValid :
    (b : Barriers) (i : ℕ)
    → IsValid b
    → IsValid (record b { pending_ready = set b.pending_ready i true })
flag_queued-IsValid b i v = ground (arith, length-set b.pending_ready i true)

pub flag_ready-IsValid :
    (b : Barriers) (queued over : Option ℕ)
    → ((i : ℕ) → over ≡ some i → i < length b.overflow)
    → IsValid b
    → IsValid (flag_ready b queued over)
unfolding flag_ready
flag_ready-IsValid b none none h v = v
flag_ready-IsValid b (some i) none h v = flag_queued-IsValid b i v
flag_ready-IsValid b none (some j) h v =
    write_entry-IsValid b j _ (get_or-id_pos b.overflow j v.overflow_ids (h j refl)) v
flag_ready-IsValid b (some i) (some j) h v =
    write_entry-IsValid (record b { pending_ready = set b.pending_ready i true }) j _
      (get_or-id_pos b.overflow j v.overflow_ids (h j refl)) (flag_queued-IsValid b i v)

flag_ready-lists :
    (b : Barriers) (queued over : Option ℕ)
    → ((flag_ready b queued over).pending_pts ≡ b.pending_pts)
      × (length (flag_ready b queued over).overflow ≡ length b.overflow)
unfolding flag_ready
flag_ready-lists b queued none = (refl, refl)
flag_ready-lists b queued (some j) = (refl, length-set b.overflow j _)

release_found-IsValid :
    (b : Barriers) (queued over : Option ℕ)
    → ((i : ℕ) → queued ≡ some i → i < length b.pending_pts)
    → ((i : ℕ) → over ≡ some i → i < length b.overflow)
    → IsValid b
    → IsValid (release_found b queued over)
unfolding release_found
release_found-IsValid b none none hq ho v = v
release_found-IsValid b (some i) over hq ho v = remove_pending-IsValid b i (hq i refl) v
release_found-IsValid b none (some j) hq ho v = remove_overflow-IsValid b j (ho j refl) v

find_queued-lt :
    (b : Barriers) (owner key pts i : ℕ)
    → find_queued b owner key pts ≡ some i
    → i < length b.pending_pts
unfolding find_queued
find_queued-lt b owner key pts i e = elim (Bool-cases (is_queued b owner key)) [
  | inl q ↦ find_last_index-lt (λ p. p == pts) b.pending_pts i (rw q at e)
  | inr q ↦ cc
]

settle_result-IsValid :
    (b : Barriers) (queued over : Option ℕ) (pts : ℕ)
    → ((i : ℕ) → queued ≡ some i → i < length b.pending_pts)
    → ((i : ℕ) → over ≡ some i → i < length b.overflow)
    → pts < 2 ^ 63
    → IsValid b
    → IsValid (settle_result b queued over pts)
unfolding settle_result
settle_result-IsValid b queued over pts hq ho hp v = ground (
  arith,
  flagged,
  release_found-IsValid flag queued over hq' ho' flagged,
  release_found-IsValid (record flag { last_pushed_pts = pts }) queued over hq' ho' raised,
)
  where
    flag : Barriers
    flag = flag_ready b queued over

    flagged : IsValid flag
    flagged = flag_ready-IsValid b queued over ho v

    raised : IsValid (record flag { last_pushed_pts = pts })
    raised = record {
      ids_parallel = flagged.ids_parallel;
      ready_parallel = flagged.ready_parallel;
      queue_bounded = flagged.queue_bounded;
      overflow_bounded = flagged.overflow_bounded;
      own_queue = flagged.own_queue;
      queue_ids = flagged.queue_ids;
      overflow_ids = flagged.overflow_ids;
      watermark = hp;
    }

    hq' : (i : ℕ) → queued ≡ some i → i < length flag.pending_pts
    hq' i e = rw ((flag_ready-lists b queued over).0) (hq i e)

    ho' : (i : ℕ) → over ≡ some i → i < length flag.overflow
    ho' i e = rw ((flag_ready-lists b queued over).1) (ho i e)

mark_result-IsValid :
    (b : Barriers) (owner key pts : ℕ) → IsValid b → IsValid (mark_result b owner key pts).0
unfolding mark_result find_overflow
mark_result-IsValid b owner key pts v = ground (
  arith,
  settle_result-IsValid b (find_queued b owner key pts) (find_overflow b pts) pts
      (find_queued-lt b owner key pts) (find_last_index-lt (has_pts pts) b.overflow),
)

drop_barriers-IsValid : (b : Barriers) → b.last_pushed_pts < 2 ^ 63 → IsValid (drop_barriers b)
unfolding drop_barriers
drop_barriers-IsValid b h = ground arith

rebind_owner-IsValid : (b : Barriers) (user : ℕ) → IsValid b → IsValid (rebind_owner b user)
unfolding rebind_owner
rebind_owner-IsValid b user v =
    ground (arith, drop_barriers-IsValid (record b { owner = user; last_pushed_pts = 0 }))

rebind_key-IsValid : (b : Barriers) (key : ℕ) → IsValid b → IsValid (rebind_key b key)
unfolding rebind_key drop_barriers
rebind_key-IsValid b key v = ground arith

push_to-IsValid :
    (b : Barriers) (w : Weather) (owner pts : ℕ) → IsValid b → IsValid (push_to b w owner pts).0
unfolding push_to
push_to-IsValid b w owner pts v = ground arith

push_to_at_watermark-IsValid :
    (b : Barriers) (w : Weather) (owner expected pts : ℕ)
    → IsValid b
    → IsValid (push_to_at_watermark b w owner expected pts).0
unfolding push_to_at_watermark
push_to_at_watermark-IsValid b w owner expected pts v = ground arith

-- One call of an operation, whatever its arguments.
pub data Call : Type 0 where
  begins sets clears marks marks_result : ℕ → ℕ → ℕ → Call
  sets_attempt : Reservation → ℕ → Call
  clears_attempt : Reservation → Call
  pushes : Weather → ℕ → ℕ → Call
  pushes_at : Weather → ℕ → ℕ → ℕ → Call
  rebinds_owner rebinds_key : ℕ → Call

unfoldable pub step : Barriers → Call → Barriers
step b (begins owner key pts) = (begin_attempt b owner key pts).0
step b (sets owner key pts) = (set_pts b owner key pts).0
step b (clears owner key _) = (clear b owner key).0
step b (marks owner key pts) = (mark b owner key pts).0
step b (marks_result owner key pts) = (mark_result b owner key pts).0
step b (sets_attempt r pts) = (set_pts_attempt b r pts).0
step b (clears_attempt r) = (clear_attempt b r).0
step b (pushes w owner pts) = (push_to b w owner pts).0
step b (pushes_at w owner expected pts) = (push_to_at_watermark b w owner expected pts).0
step b (rebinds_owner user) = rebind_owner b user
step b (rebinds_key key) = rebind_key b key

unfoldable pub run : Barriers → List Call → Barriers
run b [] = b
run b (c ∷ cs) = run (step b c) cs

pub step-IsValid : (b : Barriers) (c : Call) → IsValid b → IsValid (step b c)
unfolding step
step-IsValid b (begins owner key pts) v = begin_attempt-IsValid b owner key pts v
step-IsValid b (sets owner key pts) v = set_pts-IsValid b owner key pts v
step-IsValid b (clears owner key _) v = clear-IsValid b owner key v
step-IsValid b (marks owner key pts) v = mark-IsValid b owner key pts v
step-IsValid b (marks_result owner key pts) v = mark_result-IsValid b owner key pts v
step-IsValid b (sets_attempt r pts) v = set_pts_attempt-IsValid b r pts v
step-IsValid b (clears_attempt r) v = clear_attempt-IsValid b r v
step-IsValid b (pushes w owner pts) v = push_to-IsValid b w owner pts v
step-IsValid b (pushes_at w owner expected pts) v =
    push_to_at_watermark-IsValid b w owner expected pts v
step-IsValid b (rebinds_owner user) v = rebind_owner-IsValid b user v
step-IsValid b (rebinds_key key) v = rebind_key-IsValid b key v

pub run-IsValid : (b : Barriers) (cs : List Call) → IsValid b → IsValid (run b cs)
unfolding run
run-IsValid b [] v = v
run-IsValid b (c ∷ cs) v = run-IsValid (step b c) cs (step-IsValid b c v)

-- After any calls on a new connection the three slices of the queue have one length, the queue and
-- the overflow hold at most 64 entries each with ids other than 0, a queue that is not empty carries
-- the connection's own owner and key, and the watermark is below 2 ^ 63.
pub run_new-IsValid : (cs : List Call) → IsValid (run new_barriers cs)
run_new-IsValid cs = run-IsValid new_barriers cs new_barriers-IsValid
