-- ===== src/Store/Invites/Live.antt =====
-- internal/store/registration_invites.go: the live invites of a handle.
use telegram_server.Common.{
  ℕ, ◌+◌, ◌≤◌, ◌≡◌, refl, sym, ◌∙◌, Bool, false, ◌&&◌, List, [], ◌∷◌, ◌++◌, ltb, if◌then◌else◌,
  Bool-cases, Option-cases, inl, inr, arith, replicate,
}
use telegram_server.Common.Text.{Text, text_beq, text_beq_iff}
use telegram_server.Store.Invites.{
  Invite, is_issued, update_invites, has_live, find_live, is_consumable, to_consumed, turned,
  to_lower, secret_matches, consume_row, consume_invite,
}

-- The number of issued rows of a handle.
unfoldable pub live_rows : Text → List Invite → ℕ
live_rows handle [] = 0
live_rows handle (r ∷ rows) =
    if is_issued r && text_beq r.handle handle
    then live_rows handle rows + 1
    else live_rows handle rows

abbrev pub Spends : (Invite → Invite) → Type 0
Spends change =
    (r : Invite)
    → ((change r).id ≡ r.id) × ((change r).handle ≡ r.handle) × (is_issued (change r) ≡ false)

pub live-update :
    (handle : Text) (test : Invite → Bool) (change : Invite → Invite) (rows : List Invite)
    → Spends change
    → live_rows handle (update_invites test change rows).0 ≤ live_rows handle rows
unfolding live_rows update_invites
live-update handle test change [] s = omega arith
live-update handle test change (r ∷ rows) s =
    ground (arith, live-update handle test change rows s, (s r).2)

live-append :
    (handle : Text) (rows : List Invite) (r : Invite)
    → live_rows handle (rows ++ r ∷ [])
      ≤ live_rows handle rows + (if text_beq r.handle handle then 1 else 0)
unfolding live_rows
live-append handle [] r = ground arith
live-append handle (q ∷ rows) r = ground (arith, live-append handle rows r)

no_live-rows :
    (handle : Text) (rows : List Invite) → has_live rows handle ≡ false → live_rows handle rows ≡ 0
unfolding live_rows has_live
no_live-rows handle [] e = refl
no_live-rows handle (r ∷ rows) e = ground (arith, no_live-rows handle rows, e)

-- A handle without a live row gets one.
pub insert-live :
    (rows : List Invite) (handle : Text) (r : Invite)
    → r.handle ≡ handle
    → has_live rows handle ≡ false
    → ((other : Text) → live_rows other rows ≤ 1)
    → (other : Text) → live_rows other (rows ++ r ∷ []) ≤ 1
insert-live rows handle r at e v other =
    let more = live-append other rows r in
    elim (Bool-cases (text_beq r.handle other)) [
      | inr q ↦ omega (arith, rw q at more, v other)
      | inl q ↦
          let same : handle ≡ other = sym at ∙ (text_beq_iff r.handle other).0 q in
          let empty : live_rows other rows ≡ 0 = rw (← same) (no_live-rows handle rows e) in
          omega (arith, rw q at more, empty)
    ]

pub consume-live :
    (sha256 : Text → Text) (rows : List Invite) (handle secret : Text) (locked now : ℕ)
    (other : Text)
    → live_rows other (consume_invite sha256 rows handle secret locked now).0 ≤ live_rows other rows
unfolding consume_invite consume_row
consume-live sha256 rows handle secret locked now other =
    elim (Option-cases (find_live rows (to_lower handle))) [
      | inl e ↦
          rw (e, consume_invite)
            (live-update other (is_consumable 0 (turned (replicate 32 0)) now) (to_consumed now)
              rows (λ r. (refl, refl, refl)))
      | inr (r, e) ↦
          let eligible = ltb locked r.expires_at && secret_matches sha256 secret r.secret_digest in
          let digest = if eligible then r.secret_digest else turned r.secret_digest in
          rw (e, consume_invite)
            (live-update other (is_consumable r.id digest now) (to_consumed now) rows
              (λ r. (refl, refl, refl)))
    ]
