-- ===== src/Store/Invites.antt =====
-- internal/store/registration_invites.go, with its statements of
-- internal/store/db/registration_invites.sql.go. Each call is one step: it holds the lock of the row that it
-- changes, and the unique index decides between two issues for one handle. The clocks of its statements, in
-- microseconds, are arguments. SHA-256 is a parameter, the random bytes of a secret are an argument, and
-- handles are ASCII.
pub mod Live
pub mod Single
use telegram_server.Common.{
  ℕ, suc, ◌+◌, ◌-◌, ◌/◌, Bool, true, false, not, ◌&&◌, ◌||◌, Option, none, some, List, [], ◌∷◌,
  ◌++◌, length, is_empty, take, replicate, ltb, leb, ◌==◌, if◌then◌else◌, signed_lt,
}
use telegram_server.Common.Text.{Text, codes, text_beq}
use telegram_server.Store.Codes.{hex_text}

-- `InviteState`.
pub data InviteState : Type 0 where
  live : InviteState
  consumed : InviteState
  revoked : InviteState
  expired : InviteState

-- A row of `registration_invites`.
pub record Invite : Type 0 where
  pub id : ℕ
  pub handle : Text
  pub secret_digest : Text
  pub issued_at : ℕ
  pub expires_at : ℕ
  pub state : InviteState
  pub consumed_at : Option ℕ
  pub revoked_at : Option ℕ

-- The table and the next number of its sequence, which no rollback gives back.
pub record Invites : Type 0 where
  pub rows : List Invite
  pub next_id : ℕ

abbrev pub is_issued : Invite → Bool
is_issued r = elim r.state [ live ↦ true | consumed ↦ false | revoked ↦ false | expired ↦ false ]

abbrev pub default_lifetime : ℕ
default_lifetime = 604_800_000_000_000

abbrev pub max_lifetime : ℕ
max_lifetime = 2_592_000_000_000_000

-- `inviteLifetime` of int64 nanoseconds.
unfoldable pub invite_lifetime : List ℕ → Option ℕ
invite_lifetime [] = some default_lifetime
invite_lifetime (l ∷ m ∷ more) = none
invite_lifetime (l ∷ []) =
    if l == 0
    then some default_lifetime
    else if signed_lt l 1_000 || signed_lt max_lifetime l
    then none
    else some l

-- `strings.ToLower` and `lower` of ASCII.
abbrev pub lower_byte : ℕ → ℕ
lower_byte c = if leb 65 c && leb c 90 then c + 32 else c

unfoldable pub to_lower : Text → Text
to_lower [] = []
to_lower (c ∷ s) = lower_byte c ∷ to_lower s

-- `UPDATE … SET` of the rows that pass a test: the table, and the rows affected.
unfoldable pub update_invites : (Invite → Bool) → (Invite → Invite) → List Invite → List Invite × ℕ
update_invites test change [] = ([], 0)
update_invites test change (r ∷ rows) =
    let rest = update_invites test change rows in
    if test r then (change r ∷ rest.0, rest.1 + 1) else (r ∷ rest.0, rest.1)

-- `ExpireRegistrationInvite`.
abbrev pub is_stale : Text → ℕ → Invite → Bool
is_stale handle now r = text_beq r.handle handle && is_issued r && leb r.expires_at now

abbrev pub to_expired : Invite → Invite
to_expired r = record r { state = expired }

unfoldable pub expire_invite : List Invite → Text → ℕ → List Invite × ℕ
expire_invite rows handle now = update_invites (is_stale handle now) to_expired rows

-- The partial unique index of the live handles.
unfoldable pub has_live : List Invite → Text → Bool
has_live [] handle = false
has_live (r ∷ rows) handle = is_issued r && text_beq r.handle handle || has_live rows handle

-- What `IssueInvite` returns: an id with its secret, `ErrInviteLive`, a refused argument, or another error.
pub data Issuing : Type 0 where
  issued : (id : ℕ) (secret : Text) → Issuing
  already_live : Issuing
  bad_argument : Issuing
  not_issued : Issuing

-- `LiveRegistrationInviteForUpdate`: the last issued row of a handle.
unfoldable pub find_live : List Invite → Text → Option Invite
find_live [] handle = none
find_live (r ∷ rows) handle = elim (find_live rows handle) [
  | some later ↦ some later
  | none ↦ if is_issued r && text_beq r.handle handle then some r else none
]

-- `ConsumeRegistrationInvite`.
abbrev pub is_consumable : ℕ → Text → ℕ → Invite → Bool
is_consumable id digest now r =
    r.id == id && text_beq r.secret_digest digest && is_issued r && ltb now r.expires_at

abbrev pub to_consumed : ℕ → Invite → Invite
to_consumed now r = record r { state = consumed; consumed_at = some now }

-- `RevokeRegistrationInvite`, for an id that may be absent.
abbrev pub is_revocable : ℕ → ℕ → Invite → Bool
is_revocable id now r = r.id == id && is_issued r && ltb now r.expires_at

abbrev pub to_revoked : ℕ → Invite → Invite
to_revoked now r = record r { state = revoked; revoked_at = some now }

-- `RevokeInvite`.
unfoldable pub revoke_invite : Invites → ℕ → ℕ → Bool → Invites
revoke_invite s id now commits =
    let done = update_invites (is_revocable id now) (to_revoked now) s.rows in
    if commits then record s { rows = done.0 } else s

-- `nonMatchingInviteDigest`, the first 32 bytes with the first one turned over.
abbrev pub turned : Text → Text
turned [] = 255 ∷ replicate 31 0
turned (c ∷ s) = (255 - c) ∷ take 31 (s ++ replicate 31 0)

-- `InsertRegistrationInvite`.
abbrev pub new_invite : ℕ → Text → Text → ℕ → ℕ → Invite
new_invite id handle digest now lifetime = record {
  id = id;
  handle = handle;
  secret_digest = digest;
  issued_at = now;
  expires_at = now + lifetime / 1_000;
  state = live;
  consumed_at = none;
  revoked_at = none;
}

module _ (sha256 : Text → Text) where
  -- `IssueInvite` from its transaction on: `expiry` is the clock of its first statement and `now` that of
  -- the insertion.
  unfoldable pub insert_invite : Invites → Text → ℕ → Text → ℕ → ℕ → Bool → Invites × Issuing
  unfolding expire_invite has_live
  insert_invite s handle lifetime secret expiry now commits =
      let rows = (expire_invite s.rows handle expiry).0 in
      let spent = record s { next_id = suc s.next_id } in
      if has_live rows handle
      then (spent, already_live)
      else if commits
      then (
        record {
          rows = rows ++ new_invite s.next_id handle (sha256 secret) now lifetime ∷ [];
          next_id = suc s.next_id;
        },
        issued s.next_id secret,
      )
      else (spent, not_issued)

  -- `IssueInvite` with the random bytes of its secret.
  unfoldable pub issue_invite : Invites → Text → List ℕ → List ℕ → ℕ → ℕ → Bool → Invites × Issuing
  unfolding to_lower invite_lifetime insert_invite hex_text
  issue_invite s handle lifetimes random expiry now commits =
      if is_empty (to_lower handle) then (s, bad_argument) else elim (invite_lifetime lifetimes) [
        | none ↦ (s, bad_argument)
        | some lifetime ↦
            insert_invite s (to_lower handle) lifetime (hex_text random) expiry now commits
      ]

  -- `inviteSecretMatches`; a digest that SHA-256 gives has 32 bytes.
  abbrev pub secret_matches : Text → Text → Bool
  secret_matches secret stored = length stored == 32 && text_beq (sha256 secret) stored

  -- `VerifyInvite`.
  unfoldable pub verify_invite : List Invite → Text → Text → ℕ → Bool
  unfolding find_live to_lower
  verify_invite rows handle secret now = elim (find_live rows (to_lower handle)) [
    | none ↦ false
    | some r ↦ ltb now r.expires_at && secret_matches secret r.secret_digest
  ]

  -- `ConsumeInvite` from the row that it has locked, with the clock at its lock and at its update.
  unfoldable pub consume_row : List Invite → Invite → Text → ℕ → ℕ → List Invite × Bool
  unfolding update_invites
  consume_row rows r secret locked now =
      let eligible = ltb locked r.expires_at && secret_matches secret r.secret_digest in
      let digest = if eligible then r.secret_digest else turned r.secret_digest in
      let done = update_invites (is_consumable r.id digest now) (to_consumed now) rows in
      (done.0, eligible && done.1 == 1)

  -- `ConsumeInvite`.
  unfoldable pub consume_invite : List Invite → Text → Text → ℕ → ℕ → List Invite × Bool
  unfolding find_live to_lower update_invites consume_row
  consume_invite rows handle secret locked now = elim (find_live rows (to_lower handle)) [
    | none ↦ (
      (update_invites (is_consumable 0 (turned (replicate 32 0)) now) (to_consumed now) rows).0,
      false,
    )
    | some r ↦ consume_row rows r secret locked now
  ]
