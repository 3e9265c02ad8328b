-- ===== src/Mtproto/Limits/FixedWindow.antt =====
-- The fixed windows that internal/mtproto/preflight.go (discoveryWindow) and
-- internal/mtproto/unimplemented.go (started, calls) count calls in, with their times in nanoseconds.
use telegram_server.Common.{
  ℕ, suc, ◌+◌, ◌*◌, ◌≤◌, ◌<◌, ◌≡◌, refl, min, Bool, true, false, Option, none, some, leb,
  if◌then◌else◌, Bool-cases, inl, inr, arith,
}
use native.Mathlib.Nat.{suc-mul, zero-mul}

-- `discoveryWindow`; the zero time is `none`.
pub record Window : Type 0 where
  pub start : Option ℕ
  pub calls : ℕ

abbrev pub no_window : Window
no_window = record { start = none; calls = 0 }

-- Whether a window is to be opened at `now`.
abbrev pub is_over : Option ℕ → ℕ → ℕ → Bool
is_over none now span = true
is_over (some start) now span = leb (start + span) now

-- The window at `now`: a new one, or the one that is open.
unfoldable pub refresh : Window → ℕ → ℕ → Window
refresh w now span = if is_over w.start now span then record { start = some now; calls = 0 } else w

abbrev pub one_call : Window → Window
one_call w = record w { calls = w.calls + 1 }

-- `closed` windows have ended since `from`, and what is granted beyond their limits is in the open one.
pub Holds : ℕ → ℕ → ℕ → ℕ → ℕ → ℕ → Option ℕ → ℕ → Type 0
Holds limit span from closed time granted none calls =
    (granted ≤ closed * limit) × (from + closed * span ≤ time)
Holds limit span from closed time granted (some start) calls =
    (granted ≤ closed * limit + min calls limit) × (from + closed * span ≤ start) × (start ≤ time)

abbrev pub HoldsWindow : ℕ → ℕ → ℕ → ℕ → ℕ → ℕ → Window → Type 0
HoldsWindow limit span from closed time granted w =
    Holds limit span from closed time granted w.start w.calls

module _ (limit span from : ℕ) where
  pub fresh : HoldsWindow limit span from 0 from 0 no_window
  unfolding Holds
  fresh = (omega arith, omega (arith, zero-mul span))

  reopen-Holds :
      (closed time granted now : ℕ) (start : Option ℕ) (calls : ℕ)
      → time ≤ now
      → is_over start now span ≡ true
      → Holds limit span from closed time granted start calls
      → (more : ℕ) × Holds limit span from more now granted (some now) 0
  unfolding Holds
  reopen-Holds closed time granted now none calls t e h =
      (closed, (omega (arith, h.0), omega (arith, h.1, t), omega arith))
  reopen-Holds closed time granted now (some start) calls t e h =
      let (sum, began, past) = h in
      let gone : start + span ≤ now = ground (arith, e) in
      (
        suc closed,
        (
          omega (arith, sum, suc-mul closed limit),
          omega (arith, began, gone, suc-mul closed span),
          omega arith,
        ),
      )

  pub wait-Holds :
      (closed time granted now : ℕ) (start : Option ℕ) (calls : ℕ)
      → time ≤ now
      → Holds limit span from closed time granted start calls
      → Holds limit span from closed now granted start calls
  unfolding Holds
  wait-Holds closed time granted now none calls t h = (h.0, omega (arith, h.1, t))
  wait-Holds closed time granted now (some start) calls t h = (h.0, h.1, omega (arith, h.2, t))

  pub refresh-holds :
      (closed time granted now : ℕ) (w : Window)
      → time ≤ now
      → HoldsWindow limit span from closed time granted w
      → (more : ℕ) × HoldsWindow limit span from more now granted (refresh w now span)
  unfolding refresh
  refresh-holds closed time granted now w t h = elim (Bool-cases (is_over w.start now span)) [
    | inl e ↦ rw e (reopen-Holds closed time granted now w.start w.calls t e h)
    | inr e ↦ rw e (closed, wait-Holds closed time granted now w.start w.calls t h)
  ]

  -- A call that is granted, and one that is not.
  pub grant-Holds :
      (closed time granted start calls : ℕ)
      → calls < limit
      → Holds limit span from closed time granted (some start) calls
      → Holds limit span from closed time (granted + 1) (some start) (calls + 1)
  unfolding Holds
  grant-Holds closed time granted start calls room h = (omega (arith, h.0, room), h.1, h.2)

  pub refuse-Holds :
      (closed time granted start calls : ℕ)
      → Holds limit span from closed time granted (some start) calls
      → Holds limit span from closed time granted (some start) (calls + 1)
  unfolding Holds
  refuse-Holds closed time granted start calls h = (omega (arith, h.0), h.1, h.2)

  pub bound :
      (closed time granted : ℕ) (start : Option ℕ) (calls : ℕ)
      → Holds limit span from closed time granted start calls
      → (granted ≤ suc closed * limit) × (from + closed * span ≤ time)
  unfolding Holds
  bound closed time granted none calls h = (omega (arith, h.0, suc-mul closed limit), h.1)
  bound closed time granted (some start) calls h =
      (omega (arith, h.0, suc-mul closed limit), omega (arith, h.1, h.2))

open_or_over :
    (start : Option ℕ) (now span : ℕ) → is_over start now span ≡ false → (s : ℕ) × (start ≡ some s)
open_or_over none now span e = cc
open_or_over (some s) now span e = (s, refl)

pub refresh_open :
    (w : Window) (now span : ℕ) → (start : ℕ) × ((refresh w now span).start ≡ some start)
unfolding refresh
refresh_open w now span = elim (Bool-cases (is_over w.start now span)) [
  | inl e ↦ (now, rw e)
  | inr e ↦ rw e (open_or_over w.start now span e)
]
