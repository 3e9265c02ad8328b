-- ===== src/Store/Codes/IssueVerify.antt =====
-- internal/store/codes.go: which code is verified, and that the issued one is, once.
use telegram_server.Common.{
  ℕ, ◌+◌, ◌*◌, ◌/◌, ◌≤◌, ◌<◌, ◌≡◌, ◌≢◌, refl, sym, Bool, true, false, none, some, List, [], ◌∷◌,
  ◌++◌, ◌==◌, if◌then◌else◌, arith, ◌↔◌,
}
use telegram_server.Common.Text.{Text, text_beq_iff}
use telegram_server.Store.Codes.{
  PhoneCode, verified, code_invalid, is_consumed, is_consumable, consumed, consume, decide, settle,
  swapped, normalize_phone, issue_code, issued, insert_code, fresh_code, get_code, update_where,
  consume_code, verify_code, code_ttl, digits5, hex_text,
}

-- A row that the caller may log in with, by the clock of the server.
pub record IsUsable (r : PhoneCode) (phone code : Text) (clock : ℕ) : Type 0 where
  pub bound : r.phone ≡ normalize_phone phone
  pub unspent : r.consumed_at ≡ none
  pub alive : clock ≤ r.expires_at * 1_000
  pub guarded : r.attempts < 3
  pub correct : r.code ≡ code

affected_pos :
    (test : PhoneCode → Bool) (change : PhoneCode → PhoneCode) (rows : List PhoneCode) (hash : Text)
    (r : PhoneCode)
    → get_code rows hash ≡ some r
    → test r ≡ true
    → ((update_where test change rows).1 == 0) ≡ false
unfolding get_code update_where
affected_pos test change [] hash r e t = cc
affected_pos test change (s ∷ rows) hash r e t =
    ground (arith, affected_pos test change rows hash r, e, t)

get_code-hash :
    (rows : List PhoneCode) (hash : Text) (r : PhoneCode)
    → get_code rows hash ≡ some r
    → r.code_hash ≡ hash
unfolding get_code
get_code-hash [] hash r e = cc
get_code-hash (s ∷ rows) hash r e =
    ground (arith, get_code-hash rows hash r, e, text_beq_iff s.code_hash hash)

unconsumed : (r : PhoneCode) → is_consumed r ≡ false → r.consumed_at ≡ none
unconsumed r e = ground (arith, e)

-- The code goes on to the swap with a usable row, and the swap takes that row.
usable-decide :
    (phone hash code : Text) (clock : ℕ) (r : PhoneCode)
    → r.code_hash ≡ hash
    → IsUsable r phone code clock
    → decide (some r) (normalize_phone phone) hash code clock ≡ consume
unfolding decide
usable-decide phone hash code clock r here u =
    let id = normalize_phone phone in
    ground (
      arith,
      (text_beq_iff id r.phone).1 (sym u.bound),
      (text_beq_iff hash r.code_hash).1 (sym here),
      (text_beq_iff code r.code).1 (sym u.correct),
      u.unspent,
      u.guarded,
      u.alive,
    )

usable-consumable :
    (phone hash code : Text) (clock now : ℕ) (r : PhoneCode)
    → r.code_hash ≡ hash
    → IsUsable r phone code clock
    → now ≤ r.expires_at
    → is_consumable (normalize_phone phone) hash code now r ≡ true
usable-consumable phone hash code clock now r here u fresh = ground (
  arith,
  (text_beq_iff r.phone (normalize_phone phone)).1 u.bound,
  (text_beq_iff r.code_hash hash).1 here,
  (text_beq_iff r.code code).1 u.correct,
  u.unspent,
  u.guarded,
  fresh,
)

usable-swapped :
    (rows : List PhoneCode) (phone hash code : Text) (clock now : ℕ) (r : PhoneCode)
    → get_code rows hash ≡ some r
    → IsUsable r phone code clock
    → verify_code rows phone hash code clock now
      ≡ swapped (consume_code rows (normalize_phone phone) hash code now)
unfolding verify_code settle
usable-swapped rows phone hash code clock now r e u =
    rw (e, usable-decide phone hash code clock r (get_code-hash rows hash r e) u)

usable-verified :
    (rows : List PhoneCode) (phone hash code : Text) (clock now : ℕ) (r : PhoneCode)
    → get_code rows hash ≡ some r
    → IsUsable r phone code clock
    → now ≤ r.expires_at
    → (verify_code rows phone hash code clock now).1 ≡ verified
unfolding consume_code
usable-verified rows phone hash code clock now r e u fresh =
    let test = is_consumable (normalize_phone phone) hash code now in
    let here = get_code-hash rows hash r e in
    let taken = usable-consumable phone hash code clock now r here u fresh in
    rw (usable-swapped rows phone hash code clock now r e u)
      (ground (arith, affected_pos test (consumed now) rows hash r e taken))

verified-IsUsable :
    (rows : List PhoneCode) (phone hash code : Text) (clock now : ℕ) (r : PhoneCode)
    → get_code rows hash ≡ some r
    → (verify_code rows phone hash code clock now).1 ≡ verified
    → IsUsable r phone code clock
unfolding verify_code decide settle
verified-IsUsable rows phone hash code clock now r e v =
    let id = normalize_phone phone in
    record {
      bound = ground (arith, e, v, text_beq_iff id r.phone);
      unspent = ground (arith, e, v);
      alive = ground (arith, e, v);
      guarded = ground (arith, e, v);
      correct = ground (arith, e, v, text_beq_iff code r.code);
    }

-- While the database's clock has not passed the expiry of the row that the hash names, a code is
-- verified exactly if the row is bound to the caller's identifier, not consumed, alive by the server's
-- clock, below three attempts, and has that code.
pub verify_code_lem :
    (rows : List PhoneCode) (phone hash code : Text) (clock now : ℕ) (r : PhoneCode)
    → get_code rows hash ≡ some r
    → now ≤ r.expires_at
    → ((verify_code rows phone hash code clock now).1 ≡ verified) ↔ IsUsable r phone code clock
verify_code_lem rows phone hash code clock now r e fresh = (
  verified-IsUsable rows phone hash code clock now r e,
  λ u. usable-verified rows phone hash code clock now r e u fresh,
)

get_code-snoc :
    (rows : List PhoneCode) (r : PhoneCode)
    → get_code rows r.code_hash ≡ none
    → get_code (rows ++ r ∷ []) r.code_hash ≡ some r
unfolding get_code
get_code-snoc [] r e = ground (arith, text_beq_iff r.code_hash r.code_hash)
get_code-snoc (s ∷ rows) r e = ground (arith, get_code-snoc rows r, e)

-- The row of a hash after the swap.
abbrev swap_row : Text → Text → Text → ℕ → PhoneCode → PhoneCode
swap_row phone hash code now r = if is_consumable phone hash code now r then consumed now r else r

get_code-consume :
    (rows : List PhoneCode) (phone hash code : Text) (now : ℕ) (r : PhoneCode)
    → get_code rows hash ≡ some r
    → get_code (consume_code rows phone hash code now).0 hash
      ≡ some (swap_row phone hash code now r)
unfolding get_code consume_code update_where
get_code-consume [] phone hash code now r e = cc
get_code-consume (s ∷ rows) phone hash code now r e =
    ground (arith, get_code-consume rows phone hash code now r, e)

consumed_refused :
    (rows : List PhoneCode) (phone hash code : Text) (clock now : ℕ) (r : PhoneCode)
    → get_code rows hash ≡ some r
    → is_consumed r ≡ true
    → verify_code rows phone hash code clock now ≡ (rows, code_invalid)
unfolding verify_code decide settle
consumed_refused rows phone hash code clock now r e c = ground (arith, e, c)

issue_inv :
    (rows rows' : List PhoneCode) (phone hash code : Text) (now gate clock : ℕ)
    (five sixteen : List ℕ) (commits : Bool)
    → issue_code rows phone now gate clock five sixteen commits ≡ (rows', issued hash code)
    → get_code rows' hash ≡ some (fresh_code (normalize_phone phone) hash code clock now)
unfolding issue_code insert_code
issue_inv rows rows' phone hash code now gate clock five sixteen commits e =
    let r = fresh_code (normalize_phone phone) (hex_text sixteen) (digits5 five) clock now in
    ground (arith, e, get_code-snoc rows r)

verified-consumed :
    (rows : List PhoneCode) (phone hash code : Text) (clock now : ℕ) (r : PhoneCode)
    → get_code rows hash ≡ some r
    → IsUsable r phone code clock
    → now ≤ r.expires_at
    → get_code (verify_code rows phone hash code clock now).0 hash ≡ some (consumed now r)
verified-consumed rows phone hash code clock now r e u fresh =
    let here = get_code-hash rows hash r e in
    let taken = usable-consumable phone hash code clock now r here u fresh in
    rw (usable-swapped rows phone hash code clock now r e u)
      (ground (arith, get_code-consume rows (normalize_phone phone) hash code now r e, taken))

expired_refused :
    (rows : List PhoneCode) (phone hash code : Text) (clock now : ℕ) (r : PhoneCode)
    → get_code rows hash ≡ some r
    → r.expires_at * 1_000 < clock
    → (verify_code rows phone hash code clock now).1 ≢ verified
expired_refused rows phone hash code clock now r e late v =
    let u = verified-IsUsable rows phone hash code clock now r e v in omega (arith, u.alive, late)

-- In the table that an issue leaves, whose code expires five minutes after it, in whole microseconds: the
-- code verifies under the issued hash, in whichever of its written forms the identifier is given, while
-- neither the server's clock nor the database's has passed the expiry; once it has verified so, no code
-- verifies under this hash at any time, and the rows stay as they are; and in the table that the issue
-- leaves no code verifies under this hash when the server's clock has passed the expiry.
pub issue-verify :
    (rows rows' : List PhoneCode) (phone phone' hash code : Text) (issued_at gate clock : ℕ)
    (five sixteen : List ℕ) (commits : Bool) (at now : ℕ) (other guess : Text)
    (at' now' late now'' : ℕ)
    → issue_code rows phone issued_at gate clock five sixteen commits ≡ (rows', issued hash code)
    → normalize_phone phone' ≡ normalize_phone phone
    → at ≤ (clock + code_ttl) / 1_000 * 1_000
    → now ≤ (clock + code_ttl) / 1_000
    → (clock + code_ttl) / 1_000 * 1_000 < late
    → let done = verify_code rows' phone' hash code at now in
      (done.1 ≡ verified)
      × (verify_code done.0 other hash guess at' now' ≡ (done.0, code_invalid))
      × ((verify_code rows' other hash guess late now'').1 ≢ verified)
issue-verify rows rows' phone phone' hash code issued_at gate clock five sixteen commits at now
      other guess at' now' late now'' e same soon fresh over =
    let r = fresh_code (normalize_phone phone) hash code clock issued_at in
    let row = issue_inv rows rows' phone hash code issued_at gate clock five sixteen commits e in
    let usable : IsUsable r phone' code at = record {
      bound = sym same;
      unspent = refl;
      alive = soon;
      guarded = omega arith;
      correct = refl;
    } in
    (
      usable-verified rows' phone' hash code at now r row usable fresh,
      consumed_refused _ other hash guess at' now' (consumed now r)
          (verified-consumed rows' phone' hash code at now r row usable fresh) refl,
      expired_refused rows' other hash guess late now'' r row over,
    )
