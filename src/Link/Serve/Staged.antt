-- ===== src/Link/Serve/Staged.antt =====
-- internal/linkselector/selector.go: the bytes that are reserved for bodies, over requests that begin and
-- end in any order. The weighted semaphore of golang.org/x/sync is a parameter with what its
-- documentation says of TryAcquire and Release.
use telegram_server.Common.{
  ℕ, zero, suc, ◌+◌, ◌≤◌, ◌<◌, ◌≡◌, ◌≢◌, ◌⊎◌, refl, Option, none, some, List, [], ◌∷◌, ◌++◌, All,
  All-append, All-remove_at, length, get_elem?, remove_at, leb, Bool-cases, Option-cases, inl, inr,
  arith,
}
use telegram_server.Common.Text.{Text}
use telegram_server.Link.Serve.{
  Upstream, reservation, Begun, begin_web, answered, reserves, max_web_body, max_staged, is_head,
}

pub record Semaphore : Type 1 where
  pub State : Type 0
  pub size : ℕ
  pub held : State → ℕ
  pub new : State
  pub try_acquire : State → ℕ → Option State
  pub release : State → ℕ → State
  pub new_held : held new ≡ 0
  pub acquired :
      (s t : State) (n : ℕ) → try_acquire s n ≡ some t → (held t ≡ held s + n) × (held t ≤ size)
  pub refused : (s : State) (n : ℕ) → try_acquire s n ≡ none → size < held s + n
  pub released : (s : State) (n : ℕ) → n ≤ held s → held (release s n) + n ≡ held s

pub sum : List ℕ → ℕ
sum [] = 0
sum (n ∷ ns) = n + sum ns

sum-snoc : (ns : List ℕ) (n : ℕ) → sum (ns ++ n ∷ []) ≡ sum ns + n
unfolding sum
sum-snoc [] n = omega arith
sum-snoc (m ∷ ns) n = omega (arith, sum-snoc ns n)

sum-remove_at :
    (ns : List ℕ) (i n : ℕ) → get_elem? ns i ≡ some n → sum (remove_at ns i) + n ≡ sum ns
unfolding sum
sum-remove_at [] i n e = cc
sum-remove_at (m ∷ ns) zero n e = ground (arith, e)
sum-remove_at (m ∷ ns) (suc i) n e = omega (arith, sum-remove_at ns i n e)

reservation_fits : (u : Upstream) (n : ℕ) → reservation u ≡ some n → n ≤ max_web_body
unfolding reservation
reservation_fits u n e = ground (arith, e)

reserves_inj : (m n : ℕ) → reserves m ≡ reserves n → m ≡ n
reserves_inj m n e = ground (arith, e)

pub begin_fits :
    (method : Text) (u : Option Upstream) (n : ℕ)
    → begin_web method u ≡ reserves n
    → n ≤ max_web_body
unfolding begin_web
begin_fits method none n e = absurd (ground (arith, e))
begin_fits method (some u) n e = elim (Bool-cases (leb 500 u.status)) [
  | inl s ↦ absurd (ground (arith, rw s at e))
  | inr s ↦ elim (Bool-cases (is_head method)) [
    | inl h ↦ absurd (ground (arith, rw (s, h) at e))
    | inr h ↦ elim (Option-cases (reservation u)) [
      | inl r ↦ absurd (ground (arith, rw (s, h, r) at e))
      | inr (m, r) ↦ omega (arith, reservation_fits u m r, reserves_inj m n (rw (s, h, r) at e))
    ]
  ]
]

one_more :
    (active : List ℕ) (n : ℕ)
    → length active ≤ 1
    → n ≤ max_web_body
    → All (λ m. m ≤ max_web_body) active
    → sum active + n ≤ max_staged
unfolding sum max_web_body max_staged
one_more [] n few b all = omega arith
one_more (m ∷ []) n few b all = omega (arith, all.0)
one_more (m ∷ k ∷ active) n few b all = absurd (omega arith)

-- A request comes to its reservation, or one that has a reservation returns.
pub data Event : Type 0 where
  begins : (method : Text) (u : Option Upstream) → Event
  ends : (i : ℕ) → Event

module _ (sem : Semaphore) where
  open sem use {State, size, held, new, try_acquire, release, new_held, acquired, refused, released}

  -- The semaphore, and the reservations of the requests that hold one.
  pub record World : Type 0 where
    pub state : State
    pub active : List ℕ

  pub grant : World → ℕ → World
  grant w n = elim (try_acquire w.state n) [
    | none ↦ w
    | some t ↦ record { state = t; active = w.active ++ n ∷ [] }
  ]

  abbrev reserve : World → Begun → World
  reserve w (answered r) = w
  reserve w (reserves n) = grant w n

  abbrev give_back : World → ℕ → Option ℕ → World
  give_back w i none = w
  give_back w i (some n) = record { state = release w.state n; active = remove_at w.active i }

  pub react : World → Event → World
  react w (begins method u) = reserve w (begin_web method u)
  react w (ends i) = give_back w i (get_elem? w.active i)

  pub run : World → List Event → World
  run w [] = w
  run w (e ∷ es) = run (react w e) es

  -- The semaphore holds what the requests hold, within its size, and each holds a body's bound at most.
  pub record IsStaged (w : World) : Type 0 where
    pub exact : held w.state ≡ sum w.active
    pub within : held w.state ≤ size
    pub bounded : All (λ n. n ≤ max_web_body) w.active

  grant-IsStaged : (w : World) (n : ℕ) → n ≤ max_web_body → IsStaged w → IsStaged (grant w n)
  unfolding grant
  grant-IsStaged w n b v = elim (Option-cases (try_acquire w.state n)) [
    | inl e ↦ rw (e, grant) v
    | inr (t, e) ↦
        let (more, fits) = acquired w.state t n e in
        rw (e, grant)
          (record {
            exact = omega (arith, more, v.exact, sum-snoc w.active n);
            within = fits;
            bounded = All-append (λ m. m ≤ max_web_body) w.active (n ∷ []) v.bounded (b, tt);
          })
  ]

  reserve-IsStaged :
      (w : World) (b : Begun)
      → ((n : ℕ) → b ≡ reserves n → n ≤ max_web_body)
      → IsStaged w
      → IsStaged (reserve w b)
  reserve-IsStaged w (answered r) f v = v
  reserve-IsStaged w (reserves n) f v = grant-IsStaged w n (f n refl) v

  react-IsStaged : (w : World) (e : Event) → IsStaged w → IsStaged (react w e)
  unfolding react
  react-IsStaged w (begins method u) v =
      reserve-IsStaged w (begin_web method u) (begin_fits method u) v
  react-IsStaged w (ends i) v = elim (Option-cases (get_elem? w.active i)) [
    | inl e ↦ rw e v
    | inr (n, e) ↦
        let less = sum-remove_at w.active i n e in
        let back = released w.state n (omega (arith, v.exact, less)) in
        rw e (record {
          exact = omega (arith, back, v.exact, less);
          within = omega (arith, back, v.within);
          bounded = All-remove_at (λ m. m ≤ max_web_body) w.active i v.bounded;
        })
  ]

  run-IsStaged : (w : World) (es : List Event) → IsStaged w → IsStaged (run w es)
  unfolding run
  run-IsStaged w [] v = v
  run-IsStaged w (e ∷ es) v = run-IsStaged (react w e) es (react-IsStaged w e v)

  -- With a semaphore of `maxStagedWebBodyBytes` that behaves as documented, whatever requests begin and
  -- end in whatever order: the bytes that it holds are exactly those of the requests under way, at most
  -- its size, and at most 32 MiB for each; and a body's reservation of up to 32 MiB is refused only
  -- while two requests or more hold one.
  pub run_new-IsStaged :
      (es : List Event) (n : ℕ)
      → size ≡ max_staged
      → n ≤ max_web_body
      → let w = run (record { state = new; active = [] }) es in
        IsStaged w × ((try_acquire w.state n ≢ none) ⊎ (2 ≤ length w.active))
  run_new-IsStaged es n s b =
      let w = run (record { state = new; active = [] }) es in
      let v =
        run-IsStaged (record { state = new; active = [] }) es
          (unfold sum in
            record { exact = new_held; within = omega (arith, new_held); bounded = tt }) in
      (
        v,
        elim (Bool-cases (leb (length w.active) 1)) [
          | inl few ↦ inl (λ full. omega (
            arith,
            refused w.state n full,
            v.exact,
            s,
            one_more w.active n (ground (arith, few)) b v.bounded,
          ))
          | inr many ↦ inr (ground (arith, many))
        ],
      )
