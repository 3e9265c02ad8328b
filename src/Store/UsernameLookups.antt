-- ===== src/Store/UsernameLookups.antt =====
-- CheckAndChargeUsernameLookup of internal/store/username_lookups.go, with its statements of
-- internal/store/db/username_lookups.sql.go, over the rows of one caller. A call holds the advisory lock of
-- its caller from before it reads the clock to its commit, so it is one step; `now` is that clock, in the
-- microseconds of the columns. A cutoff `now - window` is written as a sum on its other side.
pub mod Quota
use telegram_server.Common.{
  ℕ, suc, ◌+◌, Bool, true, false, not, ◌&&◌, ◌||◌, Option, none, some, List, [], ◌∷◌, ◌++◌, ltb,
  leb, ◌==◌, if◌then◌else◌,
}
use telegram_server.Common.Text.{Text, text_beq}

-- A row of `username_lookups`.
pub record Lookup : Type 0 where
  pub handle : Text
  pub looked_up_at : ℕ

abbrev pub lookup_window : ℕ
lookup_window = 86_400_000_000

abbrev pub lookup_limit : ℕ
lookup_limit = 100

abbrev pub burst_window : ℕ
burst_window = 60_000_000

abbrev pub burst_limit : ℕ
burst_limit = 20

-- nil, `ErrUsernameLookupQuotaExceeded`, or another error.
pub data Verdict : Type 0 where
  allowed : Verdict
  quota_exceeded : Verdict
  failed : Verdict

-- `looked_up_at >= $2`.
abbrev pub is_since : ℕ → ℕ → Lookup → Bool
is_since now window l = leb now (l.looked_up_at + window)

-- `DeleteExpiredUsernameLookups`.
unfoldable pub delete_expired : List Lookup → ℕ → List Lookup
delete_expired [] now = []
delete_expired (l ∷ rows) now =
    let rest = delete_expired rows now in if is_since now lookup_window l then l ∷ rest else rest

-- `InsertUsernameLookup`, which fails on the key of a row that is there.
unfoldable pub has_row : List Lookup → Text → ℕ → Bool
has_row [] handle now = false
has_row (l ∷ rows) handle now =
    text_beq l.handle handle && l.looked_up_at == now || has_row rows handle now

unfoldable pub insert_lookup : List Lookup → Text → ℕ → Option (List Lookup)
unfolding has_row
insert_lookup rows handle now =
    if has_row rows handle now
    then none
    else some (rows ++ record { handle = handle; looked_up_at = now } ∷ [])

-- `CountUsernameLookups`: a handle is counted at its last row.
unfoldable pub is_looked_up : List Lookup → ℕ → ℕ → Text → Bool
is_looked_up [] now window handle = false
is_looked_up (l ∷ rows) now window handle =
    is_since now window l && text_beq l.handle handle || is_looked_up rows now window handle

unfoldable pub count_lookups : List Lookup → ℕ → ℕ → ℕ
unfolding is_looked_up
count_lookups [] now window = 0
count_lookups (l ∷ rows) now window =
    let rest = count_lookups rows now window in
    if is_since now window l && not (is_looked_up rows now window l.handle) then suc rest else rest

-- From the counts on, over the rows with the attempt.
unfoldable pub conclude : List Lookup → List Lookup → ℕ → Bool → List Lookup × Verdict
unfolding count_lookups
conclude rows next now commits =
    if ltb lookup_limit (count_lookups next now lookup_window)
    then (rows, quota_exceeded)
    else if ltb burst_limit (count_lookups next now burst_window)
    then (rows, quota_exceeded)
    else if commits
    then (next, allowed)
    else (rows, failed)

-- `CheckAndChargeUsernameLookup`; `commits` says whether its other statements and the commit succeed.
unfoldable pub check_and_charge_lookup : List Lookup → Text → ℕ → Bool → List Lookup × Verdict
unfolding delete_expired insert_lookup conclude
check_and_charge_lookup rows handle now commits =
    elim (insert_lookup (delete_expired rows now) handle now) [
      | none ↦ (rows, failed)
      | some next ↦ conclude rows next now commits
    ]
