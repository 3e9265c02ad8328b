-- ===== src/Store/UsernameLookups/Quota.antt =====
-- internal/store/username_lookups.go: how many names a caller can look up.
use telegram_server.Common.{
  ℕ, ◌+◌, ◌≤◌, ◌≡◌, ◌≢◌, refl, sym, ap, ◌∙◌, Bool, List, [], ◌∷◌, ◌++◌, Bool-cases, ◌⊎◌, inl, inr,
  arith,
}
use telegram_server.Common.Text.{Text}
use telegram_server.Store.UsernameLookups.{
  Lookup, Verdict, allowed, quota_exceeded, failed, delete_expired, has_row, insert_lookup,
  is_looked_up, count_lookups, conclude, check_and_charge_lookup, lookup_window, lookup_limit,
  burst_window, burst_limit,
}

-- A lookup, `after` the one before it.
pub record Event : Type 0 where
  pub after : ℕ
  pub handle : Text
  pub commits : Bool

-- The rows of a caller, the time, and every lookup that was allowed.
pub record Ledger : Type 0 where
  pub rows : List Lookup
  pub time : ℕ
  pub granted : List Lookup

abbrev pub lookup_of : Text → ℕ → Lookup
lookup_of handle now = record { handle = handle; looked_up_at = now }

abbrev pub note : Ledger → Text → ℕ → List Lookup × Verdict → Ledger
note l handle now (rows, allowed) = record {
  rows = rows;
  time = now;
  granted = l.granted ++ lookup_of handle now ∷ [];
}
note l handle now (rows, quota_exceeded) = record l { rows = rows; time = now }
note l handle now (rows, failed) = record l { rows = rows; time = now }

unfoldable pub react : Ledger → Event → Ledger
react l e =
    let now = l.time + e.after in
    note l e.handle now (check_and_charge_lookup l.rows e.handle now e.commits)

unfoldable pub run : Ledger → List Event → Ledger
run l [] = l
run l (e ∷ es) = run (react l e) es

-- Rows that are deleted are not counted, then or later.
delete_again :
    (rows : List Lookup) (before now : ℕ)
    → before ≤ now
    → delete_expired (delete_expired rows before) now ≡ delete_expired rows now
unfolding delete_expired
delete_again [] before now h = refl
delete_again (l ∷ rows) before now h = ground (arith, delete_again rows before now h, h)

delete_snoc :
    (rows : List Lookup) (handle : Text) (now : ℕ)
    → delete_expired (rows ++ lookup_of handle now ∷ []) now
      ≡ delete_expired rows now ++ lookup_of handle now ∷ []
unfolding delete_expired
delete_snoc [] handle now = ground arith
delete_snoc (l ∷ rows) handle now = ground (arith, delete_snoc rows handle now)

is_looked_up-delete :
    (rows : List Lookup) (now window : ℕ) (handle : Text)
    → window ≤ lookup_window
    → is_looked_up (delete_expired rows now) now window handle ≡ is_looked_up rows now window handle
unfolding is_looked_up delete_expired
is_looked_up-delete [] now window handle h = refl
is_looked_up-delete (l ∷ rows) now window handle h =
    ground (arith, is_looked_up-delete rows now window handle h, h)

count-delete :
    (rows : List Lookup) (now window : ℕ)
    → window ≤ lookup_window
    → count_lookups (delete_expired rows now) now window ≡ count_lookups rows now window
unfolding count_lookups delete_expired
count-delete [] now window h = refl
count-delete (l ∷ rows) now window h =
    ground
      (arith, count-delete rows now window h, is_looked_up-delete rows now window l.handle h, h)

-- What an allowed lookup leaves, and what it has counted.
record IsGranted (rows : List Lookup) (handle : Text) (now : ℕ) (after : List Lookup) : Type 0 where
  pub left : after ≡ delete_expired rows now ++ lookup_of handle now ∷ []
  pub day : count_lookups after now lookup_window ≤ lookup_limit
  pub minute : count_lookups after now burst_window ≤ burst_limit

conclude-inv :
    (rows next : List Lookup) (now : ℕ) (commits : Bool)
    → (conclude rows next now commits).1 ≡ allowed
    → ((conclude rows next now commits).0 ≡ next)
      × (count_lookups next now lookup_window ≤ lookup_limit)
      × (count_lookups next now burst_window ≤ burst_limit)
unfolding conclude
conclude-inv rows next now commits e = ground (arith, e)

allowed-IsGranted :
    (rows : List Lookup) (handle : Text) (now : ℕ) (commits : Bool)
    → (check_and_charge_lookup rows handle now commits).1 ≡ allowed
    → IsGranted rows handle now (check_and_charge_lookup rows handle now commits).0
unfolding check_and_charge_lookup insert_lookup
allowed-IsGranted rows handle now commits e =
    let kept = delete_expired rows now in
    elim (Bool-cases (has_row kept handle now)) [
      | inl h ↦ absurd (ground (arith, rw (h, check_and_charge_lookup) at e))
      | inr h ↦
          let next = kept ++ lookup_of handle now ∷ [] in
          let (same, day, minute) =
            conclude-inv rows next now commits (rw (h, check_and_charge_lookup) at e) in
          rw (h, check_and_charge_lookup)
            (record { left = same; day = rw same day; minute = rw same minute })
    ]

refused_same :
    (rows : List Lookup) (handle : Text) (now : ℕ) (commits : Bool)
    → (check_and_charge_lookup rows handle now commits).1 ≢ allowed
    → (check_and_charge_lookup rows handle now commits).0 ≡ rows
unfolding check_and_charge_lookup conclude
refused_same rows handle now commits n = ground arith

-- The rows are what is left of the allowed lookups at the time of the last one.
record IsKept (l : Ledger) : Type 0 where
  pub last : ℕ
  pub past : last ≤ l.time
  pub kept : l.rows ≡ delete_expired l.granted last

Verdict-cases : (v : Verdict) → (v ≡ allowed) ⊎ (v ≢ allowed)
Verdict-cases allowed = inl refl
Verdict-cases quota_exceeded = inr (λ e. cc)
Verdict-cases failed = inr (λ e. cc)

-- The allowed lookups with one more, at the time of that.
granted-left :
    (l : Ledger) (handle : Text) (now : ℕ)
    → IsKept l
    → l.time ≤ now
    → delete_expired l.rows now ++ lookup_of handle now ∷ []
      ≡ delete_expired (l.granted ++ lookup_of handle now ∷ []) now
granted-left l handle now v h =
    ap (λ t. delete_expired t now ++ lookup_of handle now ∷ []) v.kept
    ∙ ap (λ t. t ++ lookup_of handle now ∷ [])
        (delete_again l.granted v.last now (omega (arith, v.past, h)))
    ∙ sym (delete_snoc l.granted handle now)

note_refused :
    (l : Ledger) (handle : Text) (now : ℕ) (done : List Lookup × Verdict)
    → done.1 ≢ allowed
    → done.0 ≡ l.rows
    → note l handle now done ≡ record l { time = now }
note_refused l handle now (rows, allowed) n e = absurd (n refl)
note_refused l handle now (rows, quota_exceeded) n e = ap (λ t. record l { rows = t; time = now }) e
note_refused l handle now (rows, failed) n e = ap (λ t. record l { rows = t; time = now }) e

note_allowed :
    (l : Ledger) (handle : Text) (now : ℕ) (done : List Lookup × Verdict)
    → done.1 ≡ allowed
    → note l handle now done
      ≡ record { rows = done.0; time = now; granted = l.granted ++ lookup_of handle now ∷ [] }
note_allowed l handle now (rows, allowed) e = refl
note_allowed l handle now (rows, quota_exceeded) e = cc
note_allowed l handle now (rows, failed) e = cc

react-IsKept : (l : Ledger) (e : Event) → IsKept l → IsKept (react l e)
unfolding react
react-IsKept l e v =
    let now = l.time + e.after in
    let done = check_and_charge_lookup l.rows e.handle now e.commits in
    elim (Verdict-cases done.1) [
      | inr n ↦
          rw (note_refused l e.handle now done n (refused_same l.rows e.handle now e.commits n))
            (record { last = v.last; past = omega (arith, v.past); kept = v.kept })
      | inl a ↦
          let g = allowed-IsGranted l.rows e.handle now e.commits a in
          rw (note_allowed l e.handle now done a) (record {
            last = now;
            past = omega arith;
            kept = g.left ∙ granted-left l e.handle now v (omega arith);
          })
    ]

run-IsKept : (l : Ledger) (es : List Event) → IsKept l → IsKept (run l es)
unfolding run
run-IsKept l [] v = v
run-IsKept l (e ∷ es) v = run-IsKept (react l e) es (react-IsKept l e v)

abbrev pub no_searches : ℕ → Ledger
no_searches from = record { rows = []; time = from; granted = [] }

-- Over all lookups that a caller was ever allowed, at times that do not go back: a lookup that is allowed
-- is of at most 100 different names in the last 24 hours and of at most 20 in the last minute, itself
-- included, though rows are deleted meanwhile; and one that is refused or fails leaves the rows as they
-- were.
pub run_new_quota :
    (from : ℕ) (es : List Event) (handle : Text) (now : ℕ) (commits : Bool)
    → (run (no_searches from) es).time ≤ now
    → let l = run (no_searches from) es in
      let done = check_and_charge_lookup l.rows handle now commits in
      let granted = l.granted ++ lookup_of handle now ∷ [] in
      ((done.1 ≡ allowed)
        × (count_lookups granted now lookup_window ≤ 100)
        × (count_lookups granted now burst_window ≤ 20))
      ⊎ ((done.1 ≢ allowed) × (done.0 ≡ l.rows))
run_new_quota from es handle now commits h =
    let start : IsKept (no_searches from) =
      unfold delete_expired in record { last = from; past = omega arith; kept = refl } in
    let l = run (no_searches from) es in
    let v = run-IsKept (no_searches from) es start in
    let granted = l.granted ++ lookup_of handle now ∷ [] in
    elim (Verdict-cases (check_and_charge_lookup l.rows handle now commits).1) [
      | inr n ↦ inr (n, refused_same l.rows handle now commits n)
      | inl a ↦
          let g = allowed-IsGranted l.rows handle now commits a in
          let whole = g.left ∙ granted-left l handle now v h in
          let day = rw (whole, count-delete granted now lookup_window (omega arith)) at g.day in
          let minute =
            rw (whole, count-delete granted now burst_window (omega arith)) at g.minute in
          inl (a, day, minute)
    ]
