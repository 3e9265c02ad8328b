-- ===== src/Store/Invites/Single.antt =====
-- internal/store/registration_invites.go: how often one invite may be used.
use telegram_server.Common.{
  ℕ, ◌+◌, ◌≤◌, refl, Bool, false, ◌&&◌, Option, none, some, List, [], ◌∷◌, ◌++◌, ltb, ◌==◌,
  if◌then◌else◌, Bool-cases, Option-cases, inl, inr, arith, is_empty, replicate,
}
use telegram_server.Common.Text.{Text}
use telegram_server.Store.Codes.{hex_text}
use telegram_server.Store.Invites.{
  Invite, Invites, is_issued, update_invites, is_stale, to_expired, expire_invite, has_live,
  Issuing, issued, already_live, bad_argument, not_issued, find_live, is_consumable, to_consumed,
  is_revocable, to_revoked, revoke_invite, turned, new_invite, insert_invite, issue_invite,
  invite_lifetime, to_lower, secret_matches, consume_row, consume_invite,
}
use telegram_server.Store.Invites.Live.{live_rows, Spends, live-update, insert-live, consume-live}

-- What happens to the table.
pub data Event : Type 0 where
  issues : (handle : Text) (lifetimes random : List ℕ) (expiry now : ℕ) (commits : Bool) → Event
  consumes : (handle secret : Text) (locked now : ℕ) (commits : Bool) → Event
  revokes : (id now : ℕ) (commits : Bool) → Event

-- The table, how often one id was issued, and how often a consumption of it was committed.
pub record Ledger : Type 0 where
  pub table : Invites
  pub issues_of : ℕ
  pub uses : ℕ

module _ (id : ℕ) where
  abbrev pub note_issue : Ledger → Invites × Issuing → Ledger
  note_issue l (table, issued i secret) = record {
    table = table;
    issues_of = l.issues_of + (if i == id then 1 else 0);
    uses = l.uses;
  }
  note_issue l (table, already_live) = record l { table = table }
  note_issue l (table, bad_argument) = record l { table = table }
  note_issue l (table, not_issued) = record l { table = table }

  -- Whether the live invite of a handle is this one.
  abbrev pub is_of : Option Invite → Bool
  is_of none = false
  is_of (some r) = r.id == id

  -- The issued rows of an id.
  open_rows : List Invite → ℕ
  open_rows [] = 0
  open_rows (r ∷ rows) = if r.id == id && is_issued r then open_rows rows + 1 else open_rows rows

  open-update :
      (test : Invite → Bool) (change : Invite → Invite) (rows : List Invite)
      → Spends change
      → open_rows (update_invites test change rows).0 ≤ open_rows rows
  unfolding open_rows update_invites
  open-update test change [] s = omega arith
  open-update test change (r ∷ rows) s = ground (arith, open-update test change rows s, (s r).2)

  open-append :
      (rows : List Invite) (r : Invite)
      → open_rows (rows ++ r ∷ []) ≤ open_rows rows + (if r.id == id then 1 else 0)
  unfolding open_rows
  open-append [] r = ground arith
  open-append (q ∷ rows) r = ground (arith, open-append rows r)

  -- Rows that are consumed were issued.
  open-consume :
      (rid : ℕ) (digest : Text) (now : ℕ) (rows : List Invite)
      → let done = update_invites (is_consumable rid digest now) (to_consumed now) rows in
        open_rows done.0 + (if rid == id then done.1 else 0) ≤ open_rows rows
  unfolding open_rows update_invites
  open-consume rid digest now [] = ground arith
  open-consume rid digest now (r ∷ rows) = ground (arith, open-consume rid digest now rows)

  row-open :
      (sha256 : Text → Text) (rows : List Invite) (r : Invite) (secret : Text) (locked now : ℕ)
      → let done = consume_row sha256 rows r secret locked now in
        open_rows done.0 + (if done.1 && r.id == id then 1 else 0) ≤ open_rows rows
  unfolding consume_row
  row-open sha256 rows r secret locked now =
      let eligible = ltb locked r.expires_at && secret_matches sha256 secret r.secret_digest in
      let digest = if eligible then r.secret_digest else turned r.secret_digest in
      ground (arith, open-consume r.id digest now rows)

  consume-open :
      (sha256 : Text → Text) (rows : List Invite) (handle secret : Text) (locked now : ℕ)
      → let done = consume_invite sha256 rows handle secret locked now in
        open_rows done.0 + (if done.1 && is_of (find_live rows (to_lower handle)) then 1 else 0)
        ≤ open_rows rows
  unfolding consume_invite
  consume-open sha256 rows handle secret locked now =
      elim (Option-cases (find_live rows (to_lower handle))) [
        | inl e ↦
            let digest = turned (replicate 32 0) in
            let less =
              open-update (is_consumable 0 digest now) (to_consumed now) rows
                (λ r. (refl, refl, refl)) in
            rw (e, consume_invite) (omega (arith, less))
        | inr (r, e) ↦ rw (e, consume_invite) (row-open sha256 rows r secret locked now)
      ]

  module _ (sha256 : Text → Text) where
    unfoldable pub react : Ledger → Event → Ledger
    react l (issues handle lifetimes random expiry now commits) =
        note_issue l (issue_invite sha256 l.table handle lifetimes random expiry now commits)
    react l (consumes handle secret locked now commits) =
        let done = consume_invite sha256 l.table.rows handle secret locked now in
        if commits
        then record {
          table = record l.table { rows = done.0 };
          issues_of = l.issues_of;
          uses =
              l.uses
              + (if done.1 && is_of (find_live l.table.rows (to_lower handle)) then 1 else 0);
        }
        else l
    react l (revokes other now commits) = record l {
      table = revoke_invite l.table other now commits;
    }

    unfoldable pub run : Ledger → List Event → Ledger
    run l [] = l
    run l (e ∷ es) = run (react l e) es

  record IsSpent (l : Ledger) : Type 0 where
    pub once : l.uses + open_rows l.table.rows ≤ l.issues_of
    pub fresh : l.issues_of ≤ (if ltb id l.table.next_id then 1 else 0)
    pub unique : (handle : Text) → live_rows handle l.table.rows ≤ 1

  insert-IsSpent :
      (sha256 : Text → Text) (l : Ledger) (handle : Text) (lifetime : ℕ) (secret : Text)
      (expiry now : ℕ) (commits : Bool)
      → IsSpent l
      → IsSpent
          (note_issue l (insert_invite sha256 l.table handle lifetime secret expiry now commits))
  unfolding insert_invite expire_invite
  insert-IsSpent sha256 l handle lifetime secret expiry now commits v =
      let less =
        open-update (is_stale handle expiry) to_expired l.table.rows (λ r. (refl, refl, refl)) in
      let gone = λ (other : Text).
        live-update other (is_stale handle expiry) to_expired l.table.rows
          (λ r. (refl, refl, refl)) in
      let rows = (expire_invite l.table.rows handle expiry).0 in
      elim (Bool-cases (has_live rows handle)) [
        | inl e ↦
            rw (e, insert_invite)
              (record { once = v.once; fresh = ground (arith, v.fresh); unique = v.unique })
        | inr e ↦ elim (Bool-cases commits) [
          | inr c ↦
              rw (e, c, insert_invite)
                (record { once = v.once; fresh = ground (arith, v.fresh); unique = v.unique })
          | inl c ↦
              rw (e, c, insert_invite)
                (record {
                  once = ground (
                    arith,
                    less,
                    v.once,
                    open-append rows
                        (new_invite l.table.next_id handle (sha256 secret) now lifetime),
                  );
                  fresh = ground (arith, v.fresh);
                  unique =
                      insert-live rows handle
                        (new_invite l.table.next_id handle (sha256 secret) now lifetime) refl e
                        (λ other. omega (arith, v.unique other, gone other));
                })
        ]
      ]

  issue-IsSpent :
      (sha256 : Text → Text) (l : Ledger) (handle : Text) (lifetimes random : List ℕ)
      (expiry now : ℕ) (commits : Bool)
      → IsSpent l
      → IsSpent
          (note_issue l (issue_invite sha256 l.table handle lifetimes random expiry now commits))
  unfolding issue_invite
  issue-IsSpent sha256 l handle lifetimes random expiry now commits v =
      elim (Bool-cases (is_empty (to_lower handle))) [
        | inl e ↦ rw (e, issue_invite) v
        | inr e ↦ elim (Option-cases (invite_lifetime lifetimes)) [
          | inl n ↦ rw (e, n, issue_invite) v
          | inr (lifetime, n) ↦
              rw (e, n, issue_invite)
                (insert-IsSpent sha256 l (to_lower handle) lifetime (hex_text random) expiry now
                  commits v)
        ]
      ]

  react-IsSpent :
      (sha256 : Text → Text) (l : Ledger) (e : Event) → IsSpent l → IsSpent (react sha256 l e)
  unfolding react revoke_invite
  react-IsSpent sha256 l (issues handle lifetimes random expiry now commits) v =
      issue-IsSpent sha256 l handle lifetimes random expiry now commits v
  react-IsSpent sha256 l (consumes handle secret locked now commits) v =
      let less = consume-open sha256 l.table.rows handle secret locked now in
      elim (Bool-cases commits) [
        | inr c ↦ rw (c, react) v
        | inl c ↦
            rw (c, react)
              (record {
                once = omega (arith, less, v.once);
                fresh = v.fresh;
                unique = λ other. omega (
                  arith,
                  v.unique other,
                  consume-live sha256 l.table.rows handle secret locked now other,
                );
              })
      ]
  react-IsSpent sha256 l (revokes other now commits) v =
      let less =
        open-update (is_revocable other now) (to_revoked now) l.table.rows
          (λ r. (refl, refl, refl)) in
      let gone = λ (name : Text).
        live-update name (is_revocable other now) (to_revoked now) l.table.rows
          (λ r. (refl, refl, refl)) in
      elim (Bool-cases commits) [
        | inr c ↦ rw (c, revoke_invite) v
        | inl c ↦
            rw (c, revoke_invite)
              (record {
                once = omega (arith, less, v.once);
                fresh = v.fresh;
                unique = λ name. omega (arith, v.unique name, gone name);
              })
      ]

  run-IsSpent :
      (sha256 : Text → Text) (l : Ledger) (es : List Event) → IsSpent l → IsSpent (run sha256 l es)
  unfolding run
  run-IsSpent sha256 l [] v = v
  run-IsSpent sha256 l (e ∷ es) v =
      run-IsSpent sha256 (react sha256 l e) es (react-IsSpent sha256 l e v)

abbrev pub no_invites : Ledger
no_invites = record { table = record { rows = []; next_id = 1 }; issues_of = 0; uses = 0 }

-- From an empty table, for every hash function and every order of issues, consumptions, revocations and
-- roll backs at whatever clocks: an id is issued at most once, a consumption of it is committed at most
-- once, and never of an id that was not issued; and at every point a handle has at most one row that is
-- still issued.
pub run_new_single :
    (sha256 : Text → Text) (id : ℕ) (handle : Text) (es : List Event)
    → let l = run id sha256 no_invites es in
      (l.uses ≤ l.issues_of) × (l.issues_of ≤ 1) × (live_rows handle l.table.rows ≤ 1)
run_new_single sha256 id handle es =
    let v = run-IsSpent id sha256 no_invites es (
      unfold open_rows live_rows in
      record { once = omega arith; fresh = ground arith; unique = λ other. omega arith }) in
    (omega (arith, v.once), ground (arith, v.fresh), v.unique handle)
