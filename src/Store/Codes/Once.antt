-- ===== src/Store/Codes/Once.antt =====
-- internal/store/codes.go: what one hash may give, in whatever order the statements of concurrent
-- callers run. A caller's read may be of any earlier rows, so `seen` is any row.
use telegram_server.Common.{
  ℕ, ◌+◌, ◌≤◌, ◌<◌, ◌≡◌, refl, Bool, true, false, not, ◌&&◌, Option, none, some, List, [], ◌∷◌,
  ◌++◌, ltb, ◌==◌, if◌then◌else◌, Bool-cases, if_lem, Option-cases, All-append, arith, inl, inr,
}
use telegram_server.Common.Text.{Text, text_beq, text_beq_iff}
use telegram_server.Store.Codes.{
  PhoneCode, Decision, answer, charge, consume, is_consumed, is_consumable, consumed, one_attempt,
  with_code, decide, normalize_phone, issue_code, issue_for_username, Issued, issued, inserted,
  insert_code, fresh_code, is_cooling, latest_code, get_code, update_where, increment_attempts,
  consume_code, consume_for_username, set_for_username, clear_code, delete_expired, max_attempts,
  is_at_limit, digits5, hex_text,
}
use telegram_server.Store.Codes.Unspent.{
  unspent-append, unspent-update, HasWrong-update, unspent-spend, spend_exhausted,
  HasWrong-increment, HasWrong-none, HasWrong-delete, unspent-delete, unspent, HasWrong,
}

-- A statement of a caller, with what it depends on.
pub data Event : Type 0 where
  issues : (phone : Text) (now gate clock : ℕ) (five sixteen : List ℕ) (commits : Bool) → Event
  issues_username : (username : Text) (now clock : ℕ) (five sixteen : List ℕ) → Event
  verifies : (seen : Option PhoneCode) (phone hash code : Text) (clock now : ℕ) → Event
  sets : (username hash code : Text) (now : ℕ) → Event
  admits : (phone hash : Text) (now : ℕ) → Event
  clears : (hash phone : Text) → Event
  sweeps : (now : ℕ) → Event

-- The rows with a record of what happened to one hash: how often it was issued and how often granted,
-- its wrong guesses since it was issued, and the grants after the third one.
pub record Ledger : Type 0 where
  pub rows : List PhoneCode
  pub issues_of : ℕ
  pub grants : ℕ
  pub wrong : ℕ
  pub late : ℕ

abbrev pub new_ledger : Ledger
new_ledger = record { rows = []; issues_of = 0; grants = 0; wrong = 0; late = 0 }

module _ (h : Text) where
  unfoldable pub note_issue : Ledger → List PhoneCode × Issued → Ledger
  note_issue l (rows, issued hash code) =
      if text_beq hash h
      then record l { rows = rows; issues_of = l.issues_of + 1; wrong = 0 }
      else record l { rows = rows }
  note_issue l (rows, other) = record l { rows = rows }

  abbrev pub note_grant : Ledger → List PhoneCode × ℕ → Text → Ledger
  note_grant l (rows, affected) hash =
      if text_beq hash h && not (affected == 0)
      then record l {
        rows = rows;
        grants = l.grants + 1;
        late = if ltb l.wrong max_attempts then l.late else l.late + 1;
      }
      else record l { rows = rows }

  abbrev pub note_charge : Ledger → Option (List PhoneCode) → Text → Ledger
  note_charge l none hash = l
  note_charge l (some rows) hash =
      if text_beq hash h
      then record l { rows = rows; wrong = l.wrong + 1 }
      else record l { rows = rows }

  -- `settle`, recorded.
  unfoldable pub attempt : Ledger → Decision → Text → Text → Text → ℕ → Ledger
  attempt l (answer v) phone hash code now = l
  attempt l charge phone hash code now = note_charge l (increment_attempts l.rows hash) hash
  attempt l consume phone hash code now =
      note_grant l (consume_code l.rows phone hash code now) hash

  unfoldable pub react : Ledger → Event → Ledger
  unfolding note_issue attempt
  react l (issues phone now gate clock five sixteen commits) =
      note_issue l (issue_code l.rows phone now gate clock five sixteen commits)
  react l (issues_username username now clock five sixteen) =
      note_issue l (issue_for_username l.rows username now clock five sixteen)
  react l (verifies seen phone hash code clock now) =
      let id = normalize_phone phone in attempt l (decide seen id hash code clock) id hash code now
  react l (sets username hash code now) = record l {
    rows = (set_for_username l.rows username hash code now).0;
  }
  react l (admits phone hash now) = note_grant l (consume_for_username l.rows phone hash now) hash
  react l (clears hash phone) = record l { rows = (clear_code l.rows hash phone).0 }
  react l (sweeps now) = record l { rows = delete_expired l.rows now }

  unfoldable pub run : Ledger → List Event → Ledger
  run l [] = l
  run l (e ∷ es) = run (react l e) es

  record IsLedger (l : Ledger) : Type 0 where
    pub once : l.grants + unspent h l.rows ≤ l.issues_of
    pub counted : HasWrong h l.wrong l.rows
    pub timely : l.late ≡ 0

  same_rows-IsLedger :
      (l : Ledger) (rows : List PhoneCode)
      → unspent h rows ≤ unspent h l.rows
      → HasWrong h l.wrong rows
      → IsLedger l
      → IsLedger (record l { rows = rows })
  same_rows-IsLedger l rows u w v = record {
    once = omega (arith, u, v.once);
    counted = w;
    timely = v.timely;
  }

  insert-IsLedger :
      (l : Ledger) (r : PhoneCode) (code : Text) (commits : Bool)
      → r.attempts ≡ 0
      → r.consumed_at ≡ none
      → IsLedger l
      → IsLedger (note_issue l (inserted l.rows (insert_code l.rows r) r.code_hash code commits))
  unfolding note_issue insert_code
  insert-IsLedger l r code commits a c v = elim (Option-cases (get_code l.rows r.code_hash)) [
    | inr (old, e) ↦ rw (e, insert_code) v
    | inl e ↦ elim (Bool-cases commits) [
      | inr n ↦ rw (e, n, insert_code) v
      | inl y ↦
          let one = unspent-append h l.rows (r ∷ []) in
          rw (e, y, insert_code)
            (if_lem IsLedger (text_beq r.code_hash h)
              (λ q.
                let same : r.code_hash ≡ h = (text_beq_iff r.code_hash h).0 q in
                record {
                  once = unfold unspent in ground (arith, one, v.once);
                  counted =
                      All-append (λ s. s.code_hash ≡ h → s.attempts ≡ 0) l.rows (r ∷ [])
                        (HasWrong-none h 0 0 l.rows (rw (← same) e)) ((λ _. a), tt);
                  timely = v.timely;
                })
              (λ q.
                same_rows-IsLedger l (l.rows ++ r ∷ []) (unfold unspent in ground (arith, one, q))
                  (All-append (λ s. s.code_hash ≡ h → s.attempts ≡ l.wrong) l.rows (r ∷ [])
                    v.counted
                    ((λ p. absurd (ground (arith, (text_beq_iff r.code_hash h).1 p, q))), tt))
                  v))
    ]
  ]

  grant-IsLedger :
      (l : Ledger) (test : PhoneCode → Bool) (change : PhoneCode → PhoneCode) (hash : Text)
      → ((r : PhoneCode)
          → test r ≡ true
          → (text_beq r.code_hash hash ≡ true) × (is_consumed r ≡ false) × (r.attempts < 3))
      → ((r : PhoneCode)
          → ((change r).code_hash ≡ r.code_hash)
            × (is_consumed (change r) ≡ true)
            × ((change r).attempts ≡ r.attempts))
      → IsLedger l
      → IsLedger (note_grant l (update_where test change l.rows) hash)
  grant-IsLedger l test change hash t c v =
      let spent =
        unspent-spend h test change hash l.rows (λ r e. ((t r e).0, (t r e).1))
          (λ r. ((c r).0, (c r).1)) in
      let kept = HasWrong-update h l.wrong test change l.rows (λ r. ((c r).0, (c r).2)) v.counted in
      let none_left =
        spend_exhausted h l.wrong test change hash l.rows (λ r e. ((t r e).0, (t r e).2)) in
      if_lem IsLedger (text_beq hash h && not ((update_where test change l.rows).1 == 0))
        (λ e. record {
          once = ground (arith, spent, v.once, e);
          counted = kept;
          timely = ground (arith, e, none_left, v.counted, v.timely);
        })
        (λ e. same_rows-IsLedger l _ (omega (arith, spent)) kept v)

  attempt-IsLedger :
      (l : Ledger) (d : Decision) (phone hash code : Text) (now : ℕ)
      → IsLedger l
      → IsLedger (attempt l d phone hash code now)
  unfolding attempt increment_attempts
  attempt-IsLedger l (answer a) phone hash code now v = v
  attempt-IsLedger l charge phone hash code now v =
      let test : PhoneCode → Bool = λ r. text_beq r.code_hash hash in
      let wrong = HasWrong-increment h l.wrong l.rows hash v.counted in
      let spent = unspent-update h test one_attempt l.rows (λ r. (refl, λ e. e)) in
      elim (Bool-cases (is_at_limit (get_code l.rows hash))) [
        | inl e ↦ rw e v
        | inr e ↦ elim (Bool-cases (text_beq hash h)) [
          | inl q ↦
              rw (e, q)
                (record {
                  once = omega (arith, spent, v.once);
                  counted = rw q at wrong;
                  timely = v.timely;
                })
          | inr q ↦ rw (e, q) (same_rows-IsLedger l _ spent (rw q at wrong) v)
        ]
      ]
  attempt-IsLedger l consume phone hash code now v =
      unfold consume_code in
      grant-IsLedger l (is_consumable phone hash code now) (consumed now) hash
        (λ r e. (ground (arith, e), ground (arith, e), ground (arith, e))) (λ r. (refl, refl, refl))
        v

  react-IsLedger : (l : Ledger) (e : Event) → IsLedger l → IsLedger (react l e)
  unfolding react
  react-IsLedger l (issues phone now gate clock five sixteen commits) v =
      let id = normalize_phone phone in
      let r = fresh_code id (hex_text sixteen) (digits5 five) clock now in
      elim (Bool-cases (is_cooling (latest_code l.rows id) gate)) [
        | inl e ↦ unfold issue_code note_issue in rw e v
        | inr e ↦ unfold issue_code in rw e (insert-IsLedger l r (digits5 five) commits refl refl v)
      ]
  react-IsLedger l (issues_username username now clock five sixteen) v =
      unfold issue_for_username in
      insert-IsLedger l (fresh_code username (hex_text sixteen) (digits5 five) clock now)
        (digits5 five) true refl refl v
  react-IsLedger l (verifies seen phone hash code clock now) v =
      let id = normalize_phone phone in
      attempt-IsLedger l (decide seen id hash code clock) id hash code now v
  react-IsLedger l (sets username hash code now) v =
      unfold set_for_username in
      same_rows-IsLedger l _ (unspent-update h _ (with_code code) l.rows (λ r. (refl, λ e. e)))
        (HasWrong-update h l.wrong _ (with_code code) l.rows (λ r. (refl, refl)) v.counted) v
  react-IsLedger l (admits phone hash now) v =
      unfold consume_for_username in
      grant-IsLedger l _ (λ r. with_code [] (consumed now r)) hash
        (λ r e. (ground (arith, e), ground (arith, e), ground (arith, e))) (λ r. (refl, refl, refl))
        v
  react-IsLedger l (clears hash phone) v =
      unfold clear_code in
      same_rows-IsLedger l _ (unspent-update h _ (with_code []) l.rows (λ r. (refl, λ e. e)))
        (HasWrong-update h l.wrong _ (with_code []) l.rows (λ r. (refl, refl)) v.counted) v
  react-IsLedger l (sweeps now) v =
      same_rows-IsLedger l (delete_expired l.rows now) (unspent-delete h l.rows now)
        (HasWrong-delete h l.wrong l.rows now v.counted) v

  run-IsLedger : (l : Ledger) (es : List Event) → IsLedger l → IsLedger (run l es)
  unfolding run
  run-IsLedger l [] v = v
  run-IsLedger l (e ∷ es) v = run-IsLedger (react l e) es (react-IsLedger l e v)

-- From an empty table, whatever statements run in whatever order and whatever rows the callers have
-- read before, for every hash: it is granted at most as often as it was issued, so one issued code is
-- used once at most, and never after three wrong guesses under it have been charged.
pub run_new_granted :
    (h : Text) (es : List Event)
    → ((run h new_ledger es).grants ≤ (run h new_ledger es).issues_of)
      × ((run h new_ledger es).late ≡ 0)
run_new_granted h es =
    let v =
      run-IsLedger h new_ledger es
        (record { once = unfold unspent in omega arith; counted = tt; timely = refl }) in
    (omega (arith, v.once), v.timely)
