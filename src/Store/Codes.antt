-- ===== src/Store/Codes.antt =====
-- internal/store/codes.go, with internal/store/queries/codes.sql as internal/store/db/codes.sql.go has
-- them: the login codes. A statement is one step; now() of a transaction and the columns are
-- microseconds, the clock of the Go code nanoseconds. An int4 count of attempts starts at 0 and is a
-- number below 2 ^ 31. Random bytes are arguments.
pub mod Unspent
pub mod Once
pub mod IssueVerify
use telegram_server.Common.{
  ℕ, ◌+◌, ◌-◌, ◌*◌, ◌/◌, ◌%◌, ◌^◌, Bool, true, false, not, ◌&&◌, ◌||◌, Option, none, some, List, [],
  ◌∷◌, ◌++◌, map, length, ltb, leb, ◌==◌, if◌then◌else◌,
}
use telegram_server.Common.Text.{Text, codes, text_beq, cut_prefix, all_bytes}

-- `NormalizePhone` of internal/store/users.go.
unfoldable pub normalize_phone : Text → Text
unfolding cut_prefix
normalize_phone phone = elim (cut_prefix (b'+' ∷ []) phone) [ none ↦ phone | some rest ↦ rest ]

-- A row of `phone_codes`.
pub record PhoneCode : Type 0 where
  pub phone : Text
  pub code_hash : Text
  pub code : Text
  pub expires_at : ℕ
  pub attempts : ℕ
  pub consumed_at : Option ℕ
  pub created_at : ℕ

abbrev pub code_ttl : ℕ
code_ttl = 300_000_000_000

abbrev pub max_attempts : ℕ
max_attempts = 3

abbrev pub resend_cooldown : ℕ
resend_cooldown = 60_000_000_000

abbrev pub is_consumed : PhoneCode → Bool
is_consumed r = elim r.consumed_at [ none ↦ false | some at ↦ true ]

-- What a check answers: no error, the three errors of a refusal, or another error.
pub data Verdict : Type 0 where
  verified : Verdict
  code_invalid : Verdict
  code_expired : Verdict
  code_exhausted : Verdict
  internal : Verdict

-- `randDigits5` and `randHex` of the bytes that rand.Read gives.
unfoldable pub digits5 : List ℕ → Text
digits5 bytes = map (λ v. b'0' + v % 10) bytes

abbrev pub hex_digit : ℕ → ℕ
hex_digit n = if ltb n 10 then b'0' + n else b'a' + (n - 10)

unfoldable pub hex_text : List ℕ → Text
hex_text [] = []
hex_text (v ∷ bytes) = hex_digit (v / 16) ∷ hex_digit (v % 16) ∷ hex_text bytes

-- `GetCodeByHash`.
unfoldable pub get_code : List PhoneCode → Text → Option PhoneCode
get_code [] hash = none
get_code (r ∷ rows) hash = if text_beq r.code_hash hash then some r else get_code rows hash

-- `UPDATE … SET` of the rows that pass a test: the table, and the rows affected.
unfoldable pub update_where :
    (PhoneCode → Bool) → (PhoneCode → PhoneCode) → List PhoneCode → List PhoneCode × ℕ
update_where test change [] = ([], 0)
update_where test change (r ∷ rows) =
    let done = update_where test change rows in
    if test r then (change r ∷ done.0, done.1 + 1) else (r ∷ done.0, done.1)

-- `IncrementCodeAttempts`; an int4 that overflows fails the statement.
abbrev pub one_attempt : PhoneCode → PhoneCode
one_attempt r = record r { attempts = r.attempts + 1 }

abbrev pub is_at_limit : Option PhoneCode → Bool
is_at_limit none = false
is_at_limit (some r) = leb (2 ^ 31) (r.attempts + 1)

unfoldable pub increment_attempts : List PhoneCode → Text → Option (List PhoneCode)
increment_attempts rows hash =
    if is_at_limit (get_code rows hash)
    then none
    else some (update_where (λ r. text_beq r.code_hash hash) one_attempt rows).0

-- The row conditions of `ConsumeCode`, and of the two statements on a username's code.
abbrev pub is_live : ℕ → PhoneCode → Bool
is_live now r = not (is_consumed r) && leb now r.expires_at && ltb r.attempts max_attempts

abbrev pub is_consumable : Text → Text → Text → ℕ → PhoneCode → Bool
is_consumable phone hash code now r =
    is_live now r && text_beq r.phone phone && text_beq r.code_hash hash && text_beq r.code code

abbrev pub consumed : ℕ → PhoneCode → PhoneCode
consumed now r = record r { consumed_at = some now }

-- `ConsumeCode`.
unfoldable pub consume_code : List PhoneCode → Text → Text → Text → ℕ → List PhoneCode × ℕ
consume_code rows phone hash code now =
    update_where (is_consumable phone hash code now) (consumed now) rows

-- What `verifyCodeWith` does after it has read a row: answer, or one of its two statements.
pub data Decision : Type 0 where
  answer : Verdict → Decision
  charge : Decision
  consume : Decision

-- `verifyCodeWith` from its read to its statement, for a normalized identifier.
unfoldable pub decide : Option PhoneCode → Text → Text → Text → ℕ → Decision
decide none phone hash code clock = answer code_invalid
decide (some r) phone hash code clock =
    if not (text_beq phone r.phone)
    then answer code_invalid
    else if is_consumed r
    then answer code_invalid
    else if ltb (r.expires_at * 1_000) clock
    then answer code_expired
    else if leb max_attempts r.attempts
    then answer code_exhausted
    else if not (text_beq hash r.code_hash) || not (text_beq code r.code)
    then charge
    else consume

abbrev pub charged : List PhoneCode → Option (List PhoneCode) → List PhoneCode × Verdict
charged rows none = (rows, internal)
charged rows (some rows') = (rows', code_invalid)

abbrev pub swapped : List PhoneCode × ℕ → List PhoneCode × Verdict
swapped (rows, affected) = if affected == 0 then (rows, code_invalid) else (rows, verified)

-- `verifyCodeWith` from its statement to its return.
unfoldable pub settle :
    List PhoneCode → Decision → Text → Text → Text → ℕ → List PhoneCode × Verdict
settle rows (answer v) phone hash code now = (rows, v)
settle rows charge phone hash code now = charged rows (increment_attempts rows hash)
settle rows consume phone hash code now = swapped (consume_code rows phone hash code now)

-- `verifyCodeWith` over a row `seen` that it reads, and over the rows at its statement.
unfoldable pub verify_seen :
    List PhoneCode → Option PhoneCode → Text → Text → Text → ℕ → ℕ → List PhoneCode × Verdict
unfolding normalize_phone
verify_seen rows seen phone hash code clock now =
    let id = normalize_phone phone in settle rows (decide seen id hash code clock) id hash code now

-- `VerifyCode` that nothing interrupts.
unfoldable pub verify_code : List PhoneCode → Text → Text → Text → ℕ → ℕ → List PhoneCode × Verdict
unfolding get_code verify_seen
verify_code rows phone hash code clock now =
    verify_seen rows (get_code rows hash) phone hash code clock now

-- `InsertCode`, which fails on a hash that is there.
abbrev pub fresh_code : Text → Text → Text → ℕ → ℕ → PhoneCode
fresh_code phone hash code clock now = record {
  phone = phone;
  code_hash = hash;
  code = code;
  expires_at = (clock + code_ttl) / 1_000;
  attempts = 0;
  consumed_at = none;
  created_at = now;
}

unfoldable pub insert_code : List PhoneCode → PhoneCode → Option (List PhoneCode)
insert_code rows r = elim (get_code rows r.code_hash) [
  | none ↦ some (rows ++ r ∷ [])
  | some old ↦ none
]

-- `GetLatestCode`: of rows of one age, the first.
abbrev pub later : PhoneCode → Option PhoneCode → PhoneCode
later r none = r
later r (some s) = if leb s.created_at r.created_at then r else s

unfoldable pub latest_code : List PhoneCode → Text → Option PhoneCode
latest_code [] phone = none
latest_code (r ∷ rows) phone =
    let rest = latest_code rows phone in
    if text_beq r.phone phone then some (later r rest) else rest

-- What `IssueCode` returns: hash and code, `ErrResendTooSoon`, or another error.
pub data Issued : Type 0 where
  issued : (hash code : Text) → Issued
  too_soon : Issued
  not_issued : Issued

-- The gate of `IssueCode` at the clock that it reads.
unfoldable pub is_cooling : Option PhoneCode → ℕ → Bool
is_cooling none clock = false
is_cooling (some r) clock =
    not (is_consumed r) && ltb clock (r.created_at * 1_000 + resend_cooldown)

abbrev pub inserted :
    List PhoneCode → Option (List PhoneCode) → Text → Text → Bool → List PhoneCode × Issued
inserted rows none hash code commits = (rows, not_issued)
inserted rows (some rows') hash code commits =
    if commits then (rows', issued hash code) else (rows, not_issued)

-- `IssueCode`, under the lock of its identifier: `gate` is the clock at the gate, `clock` at the
-- insertion, and `commits` says whether the commit succeeds.
unfoldable pub issue_code :
    List PhoneCode → Text → ℕ → ℕ → ℕ → List ℕ → List ℕ → Bool → List PhoneCode × Issued
unfolding normalize_phone latest_code is_cooling insert_code
issue_code rows phone now gate clock five sixteen commits =
    let id = normalize_phone phone in
    let code = digits5 five in
    let hash = hex_text sixteen in
    if is_cooling (latest_code rows id) gate
    then (rows, too_soon)
    else inserted rows (insert_code rows (fresh_code id hash code clock now)) hash code commits

-- `IssueCodeForUsername`, whose one statement commits itself.
unfoldable pub issue_for_username :
    List PhoneCode → Text → ℕ → ℕ → List ℕ → List ℕ → List PhoneCode × Issued
unfolding insert_code
issue_for_username rows username now clock five sixteen =
    let code = digits5 five in
    let hash = hex_text sixteen in
    inserted rows (insert_code rows (fresh_code username hash code clock now)) hash code true

-- `^[0-9]{5}$`.
unfoldable pub is_digits5 : Text → Bool
unfolding all_bytes
is_digits5 code = length code == 5 && all_bytes (λ c. leb b'0' c && leb c b'9') code

abbrev pub with_code : Text → PhoneCode → PhoneCode
with_code code r = record r { code = code }

-- `SetCodeForUsername`.
unfoldable pub set_for_username : List PhoneCode → Text → Text → Text → ℕ → List PhoneCode × Verdict
unfolding normalize_phone is_digits5
set_for_username rows username hash code now =
    let id = normalize_phone username in
    let test : PhoneCode → Bool = λ r.
      is_live now r
      && text_beq r.code_hash hash
      && text_beq r.phone id
      && is_digits5 r.code
      && not (is_digits5 code) in
    let done = update_where test (with_code code) rows in
    (done.0, if done.1 == 1 then verified else code_invalid)

-- `GetCodeByHashAndPhone`.
unfoldable pub get_bound_code : List PhoneCode → Text → Text → Option PhoneCode
get_bound_code [] hash phone = none
get_bound_code (r ∷ rows) hash phone =
    if text_beq r.code_hash hash && text_beq r.phone phone
    then some r
    else get_bound_code rows hash phone

-- `validateCodeHash`.
unfoldable pub validate_code_hash : PhoneCode → ℕ → Verdict
validate_code_hash r clock =
    if is_consumed r
    then code_invalid
    else if text_beq r.code []
    then code_invalid
    else if ltb (r.expires_at * 1_000) clock
    then code_expired
    else if leb max_attempts r.attempts
    then code_exhausted
    else verified

-- `CheckCodeHash`.
unfoldable pub check_code_hash : List PhoneCode → Text → Text → ℕ → Verdict
unfolding normalize_phone get_bound_code validate_code_hash
check_code_hash rows phone hash clock = elim (get_bound_code rows hash (normalize_phone phone)) [
  | none ↦ code_invalid
  | some r ↦ validate_code_hash r clock
]

-- `ConsumeCodeForUsername` and `ClearCodeValue`.
unfoldable pub consume_for_username : List PhoneCode → Text → Text → ℕ → List PhoneCode × ℕ
consume_for_username rows phone hash now =
    let test : PhoneCode → Bool = λ r.
      is_live now r
      && text_beq r.phone phone
      && text_beq r.code_hash hash
      && not (text_beq r.code []) in
    update_where test (λ r. with_code [] (consumed now r)) rows

unfoldable pub clear_code : List PhoneCode → Text → Text → List PhoneCode × ℕ
clear_code rows hash phone =
    update_where (λ r. text_beq r.code_hash hash && text_beq r.phone phone) (with_code []) rows

-- `DeleteExpiredCodes`, without its count.
unfoldable pub delete_expired : List PhoneCode → ℕ → List PhoneCode
delete_expired [] now = []
delete_expired (r ∷ rows) now =
    let rest = delete_expired rows now in if ltb r.expires_at now then rest else r ∷ rest
