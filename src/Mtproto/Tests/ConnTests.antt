-- ===== src/Mtproto/Tests/ConnTests.antt =====
-- Runs of one connection: user 5 with key 9, whose watermark is 10.
use telegram_server.Common.{◌+◌, ◌*◌, ◌≤◌, ◌≡◌, refl, true, false, none, some, List, [], ◌∷◌, arith}
use telegram_server.Common.Index.{find_index}
use telegram_server.Mtproto.Conn.Barrier.{
  Barriers, new_barriers, begin_attempt, known_pts, register, enter_queue,
}
use telegram_server.Mtproto.Conn.Barrier.Shape.{IsValid}
use telegram_server.Mtproto.Conn.Barrier.Calls.{
  Call, begins, marks_result, rebinds_owner, rebinds_key, run, run_new-IsValid,
}
use telegram_server.Mtproto.Conn.Barrier.Release.{IsFresh, IsUndone, clear_attempt-begin_attempt}
use telegram_server.Mtproto.Conn.Barrier.Watermark.{run_monotone}
use telegram_server.Mtproto.Conn.Recovery.{Recovery, second, claim, finish, may_push, is_for}
use telegram_server.Mtproto.Conn.Recovery.Attempts.{
  Event, claims, finishes, IsWaiting, grants, grants_bounded,
}
use telegram_server.Mtproto.Conn.Outcomes.{Outcome, Outcomes, dependency_outcome}
use telegram_server.Mtproto.Conn.Outcomes
use telegram_server.Mtproto.Conn.Outcomes.Recent.{
  push_all, last_64, find_recent, dependency_outcome_recent,
}
use telegram_server.Mtproto.Conn.Binding.{Conn, Change, change, change_revokes}

abbrev idle : Barriers
idle = record new_barriers { owner = 5; auth_key_id = 9; last_pushed_pts = 10 }

-- Two results wait, of which the first belongs to pts 12.
abbrev busy : Barriers
busy = record idle {
  pending_owner = 5;
  pending_auth_key = 9;
  pending_pts = 12 ∷ 13 ∷ [];
  pending_ids = 1 ∷ 2 ∷ [];
  pending_ready = false ∷ false ∷ [];
  next_id = 2;
}

busy-IsValid : IsValid busy
busy-IsValid = ground arith

abbrev calls : List Call
calls = rebinds_owner 5 ∷ rebinds_key 9 ∷ begins 5 9 0 ∷ begins 5 9 11 ∷ marks_result 5 9 11 ∷ []

run_new-IsValid_example : IsValid (run new_barriers calls)
run_new-IsValid_example = run_new-IsValid calls

run_monotone_example : 10 ≤ (run busy (marks_result 5 9 11 ∷ begins 5 9 14 ∷ [])).last_pushed_pts
run_monotone_example = run_monotone busy (marks_result 5 9 11 ∷ begins 5 9 14 ∷ []) (tt, (tt, tt))

busy-IsFresh : IsFresh busy
busy-IsFresh = ground arith

busy-owns : (begin_attempt busy 5 9 14).1.owned ≡ true
unfolding begin_attempt known_pts register enter_queue find_index
busy-owns = refl

clear_attempt-begin_attempt_example : IsUndone busy (begin_attempt busy 5 9 14)
clear_attempt-begin_attempt_example =
    clear_attempt-begin_attempt busy 5 9 14 busy-IsValid busy-IsFresh busy-owns

-- Session 3 waits for the folders of generation 4.
abbrev waiting : Recovery
waiting = record {
  owner = 5;
  session = 3;
  generation = 4;
  covered = 2;
  initialized = true;
  first_difference = true;
  push_eligible = true;
  cycle = false;
  attempts = 0;
  next_attempt = 0;
  in_flight = false;
  claim_id = 0;
}

waiting-IsWaiting : IsWaiting waiting
waiting-IsWaiting = ground arith

abbrev pushing : List Event
pushing = claims 5 3 0 100 1 ∷ finishes 5 3 1 ∷ claims 5 3 0 101 2 ∷ []

grants_bounded_example : 0 + grants waiting pushing ≤ 3
grants_bounded_example = grants_bounded waiting pushing waiting-IsWaiting

granted_first : (claim waiting 5 3 0 100 1).1 ≡ some 1
unfolding claim
granted_first = refl

granted_second :
    (claim (finish (claim waiting 5 3 0 100 1).0 5 3 1) 5 3 0 (100 + 20 * second) 2).1 ≡ some 2
unfolding claim finish
granted_second = refl

abbrev failed : Outcome
failed = record { msg_id = 100; session = 3; success = false }

abbrev retried : Outcome
retried = record { msg_id = 100; session = 3; success = true }

dependency_outcome_example :
    dependency_outcome (push_all Outcomes.reset 3 (retried ∷ failed ∷ [])) 3 3 100 104
    ≡ find_recent (last_64 3 (retried ∷ failed ∷ [])) 3 100
dependency_outcome_example = dependency_outcome_recent 3 100 104 (retried ∷ failed ∷ []) refl refl

-- The owner's connection in session 3, which has claimed a push and remembers a failure.
abbrev served : Conn
served = record {
  barriers = idle;
  session_id = 3;
  bound_owner = 5;
  bound_session = 3;
  recovery = record waiting { in_flight = true; claim_id = 1 };
  outcomes = Outcomes.push Outcomes.reset 3 failed;
}

may_push_before : may_push served.recovery served.barriers.owner served.session_id 5 3 1 ≡ true
unfolding may_push
may_push_before = refl

answered_before : dependency_outcome served.outcomes 3 3 100 104 ≡ some false
unfolding dependency_outcome Outcomes.search Outcomes.push Outcomes.nth_back Outcomes.store
    Outcomes.reset
answered_before = refl

change_revokes_example :
    (may_push
        (change served (Change.new_session 4)).recovery
        (change served (Change.new_session 4)).barriers.owner
        (change served (Change.new_session 4)).session_id
        5
        3
        1
      ≡ false)
    × (dependency_outcome
          (change served (Change.new_session 4)).outcomes
          (change served (Change.new_session 4)).session_id
          3
          100
          104
        ≡ none)
    × (is_for
          (change served (Change.new_session 4)).recovery
          (change served (Change.new_session 4)).barriers.owner
          (change served (Change.new_session 4)).session_id
        ≡ true)
change_revokes_example =
    change_revokes served (Change.new_session 4) 5 3 1 3 100 104 (λ e. absurd (omega (arith, e)))
