-- ===== src/Mtproto/Limits/Unimplemented/Budget.antt =====
-- internal/mtproto/unimplemented.go: how many calls of such methods a connection gets answered.
use telegram_server.Common.{
  ℕ, suc, ◌+◌, ◌*◌, ◌≤◌, ◌<◌, ◌≡◌, some, List, [], ◌∷◌, ◌⊎◌, inl, inr, arith,
}
use telegram_server.Mtproto.Limits.FixedWindow.{
  Window, no_window, refresh, Holds, HoldsWindow, fresh, refresh-holds, refresh_open, grant-Holds,
  refuse-Holds, bound,
}
use telegram_server.Mtproto.Limits.Unimplemented.{
  Verdict, answer, flood_wait, close, verdict_of, charge, window_span, answer_budget,
}
use native.Mathlib.Nat.{add-zero}

-- The budget, the time, and the calls that were answered and that were not closed upon.
pub record Ledger : Type 0 where
  pub budget : Window
  pub time : ℕ
  pub answered : ℕ
  pub survived : ℕ

abbrev pub answering : Verdict → ℕ
answering answer = 1
answering flood_wait = 0
answering close = 0

abbrev pub surviving : Verdict → ℕ
surviving answer = 1
surviving flood_wait = 1
surviving close = 0

-- A call, `after` the one before it.
unfoldable pub react : Ledger → ℕ → Ledger
react l after =
    let now = l.time + after in
    let done = charge l.budget now in
    record {
      budget = done.0;
      time = now;
      answered = l.answered + answering done.1;
      survived = l.survived + surviving done.1;
    }

unfoldable pub run : Ledger → List ℕ → Ledger
run l [] = l
run l (after ∷ afters) = run (react l after) afters

-- What is counted holds for a weight of verdicts that a window has room for.
module _ (limit from : ℕ) (weight : Verdict → ℕ)
    (fits : (calls : ℕ)
      → (weight (verdict_of (calls + 1)) ≡ 0)
        ⊎ ((weight (verdict_of (calls + 1)) ≡ 1) × (calls < limit))) where
  spend-Holds :
      (closed now total start calls : ℕ)
      → Holds limit window_span from closed now total (some start) calls
      → Holds limit window_span from closed now
          (total + weight (verdict_of (calls + 1)))
          (some start)
          (calls + 1)
  spend-Holds closed now total start calls h = elim (fits calls) [
    | inl e ↦ rw (e, add-zero) (refuse-Holds limit window_span from closed now total start calls h)
    | inr (e, room) ↦ rw e (grant-Holds limit window_span from closed now total start calls room h)
  ]

  charge-holds :
      (closed time total now : ℕ) (w : Window)
      → time ≤ now
      → HoldsWindow limit window_span from closed time total w
      → let done = charge w now in
        (more : ℕ) × HoldsWindow limit window_span from more now (total + weight done.1) done.0
  unfolding charge
  charge-holds closed time total now w t h =
      let (more, next) = refresh-holds limit window_span from closed time total now w t h in
      let (start, opened) = refresh_open w now window_span in
      (
        more,
        rw opened (
            spend-Holds more now total start (refresh w now window_span).calls (rw opened at next)),
      )

module _ (from : ℕ) where
  answered_fits :
      (calls : ℕ)
      → (answering (verdict_of (calls + 1)) ≡ 0)
        ⊎ ((answering (verdict_of (calls + 1)) ≡ 1) × (calls < answer_budget))
  answered_fits calls = ground arith

  survived_fits :
      (calls : ℕ)
      → (surviving (verdict_of (calls + 1)) ≡ 0)
        ⊎ ((surviving (verdict_of (calls + 1)) ≡ 1) × (calls < 255))
  survived_fits calls = ground arith

  run-holds :
      (closed closed' : ℕ) (l : Ledger) (afters : List ℕ)
      → HoldsWindow answer_budget window_span from closed l.time l.answered l.budget
      → HoldsWindow 255 window_span from closed' l.time l.survived l.budget
      → let k = run l afters in
        ((more : ℕ) × HoldsWindow answer_budget window_span from more k.time k.answered k.budget)
        × ((more : ℕ) × HoldsWindow 255 window_span from more k.time k.survived k.budget)
  unfolding run react
  run-holds closed closed' l [] h h' = ((closed, h), (closed', h'))
  run-holds closed closed' l (after ∷ afters) h h' =
      let now = l.time + after in
      let (more, next) =
        charge-holds answer_budget from answering answered_fits closed l.time l.answered now
          l.budget (omega arith) h in
      let (more', next') =
        charge-holds 255 from surviving survived_fits closed' l.time l.survived now l.budget
          (omega arith) h' in
      run-holds more more' (react l after) afters next next'

-- A connection with a fresh budget, at whatever times that do not go back it makes its calls, gets at most
-- 64 of them answered, and 255 of them without being ended, more than for each whole minute that has
-- passed.
pub run_answered :
    (from : ℕ) (afters : List ℕ)
    → let l = run (record { budget = no_window; time = from; answered = 0; survived = 0 }) afters in
      ((minutes : ℕ) × (l.answered ≤ suc minutes * 64) × (from + minutes * 60_000_000_000 ≤ l.time))
      × ((minutes : ℕ) × (l.survived ≤ suc minutes * 255)
          × (from + minutes * 60_000_000_000 ≤ l.time))
run_answered from afters =
    let start : Ledger = record { budget = no_window; time = from; answered = 0; survived = 0 } in
    let l = run start afters in
    let ((a, answers), (s, survivors)) =
      run-holds from 0 0 start afters (fresh answer_budget window_span from)
        (fresh 255 window_span from) in
    let (most, past) =
      bound answer_budget window_span from a l.time l.answered l.budget.start l.budget.calls
        answers in
    let (most', past') =
      bound 255 window_span from s l.time l.survived l.budget.start l.budget.calls survivors in
    ((a, most, past), (s, most', past'))
