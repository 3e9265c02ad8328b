-- ===== src/Mtproto/Limits/Unimplemented/Logged.antt =====
-- internal/mtproto/unimplemented.go: each call is in one line, or counted in one.
use telegram_server.Common.{
  ◌∙◌, ℕ, ◌+◌, ◌^◌, ◌≤◌, ◌<◌, ◌≡◌, refl, Option, none, some, List, [], ◌∷◌, length, ltb, Bool-cases,
  Option-cases, inl, inr, arith,
}
use telegram_server.Common.Text.{Text}
use telegram_server.Mtproto.Accept.Sampler.{
  Sampler, new_sampler, allow_test, take_dropped, flush_test,
}
use telegram_server.Mtproto.Limits.Unimplemented.{
  Lines, no_lines, allow_alone, flush_alone, find_method, put_method, log_allow, log_flush,
  flush_line, flush_methods, log_close, log_interval, method_log_limit,
}

-- What a sampler holds back.
pub held : List (Text × Sampler) → ℕ
held [] = 0
held ((m, s) ∷ methods) = s.dropped + held methods

abbrev pub held_by : Lines → ℕ
held_by b = b.log.dropped + held b.methods

-- The calls, the lines, and the sum of the counts that the lines have.
pub record Ledger : Type 0 where
  pub lines : Lines
  pub calls : ℕ
  pub written : ℕ
  pub counted : ℕ

-- A call, the end of the connection with its line, or the last line of a connection that drops.
pub data Event : Type 0 where
  calls : (method : Text) (now : ℕ) → Event
  closes : (now : ℕ) → Event
  drops : (now : ℕ) → Event

abbrev pub line_of : Option ℕ → ℕ
line_of none = 0
line_of (some n) = 1

abbrev pub count_of : Option ℕ → ℕ
count_of none = 0
count_of (some n) = n

unfoldable pub react : Ledger → Event → Ledger
react l (calls method now) =
    let done = log_allow l.lines method now in
    record {
      lines = done.0;
      calls = l.calls + 1;
      written = l.written + line_of done.1;
      counted = l.counted + count_of done.1;
    }
react l (closes now) =
    let done = log_close l.lines now in
    record l { lines = done.0; counted = l.counted + count_of done.1 }
react l (drops now) =
    let done = flush_line l.lines now in
    record l { lines = done.0; counted = l.counted + count_of done.1 }

unfoldable pub run : Ledger → List Event → Ledger
run l [] = l
run l (e ∷ es) = run (react l e) es

-- A call of a sampler comes out with what was held, or is held.
allow_sum :
    (s : Sampler) (now interval : ℕ)
    → s.dropped + 1 < 2 ^ 64
    → let done = allow_alone s now interval in
      line_of done.1 + count_of done.1 + done.0.dropped ≡ s.dropped + 1
unfolding allow_test take_dropped
allow_sum s now interval b = ground arith

flush_sum :
    (s : Sampler) (now : ℕ)
    → s.dropped < 2 ^ 63
    → let done = flush_alone s now in
      (done.1 ≡ s.dropped) × (done.0.dropped ≡ 0) × (done.2 ≡ ltb 0 s.dropped)
unfolding take_dropped flush_test
flush_sum s now b = ground (arith, b)

held-put :
    (methods : List (Text × Sampler)) (method : Text) (s t : Sampler)
    → find_method methods method ≡ some s
    → held (put_method methods method t) + s.dropped ≡ held methods + t.dropped
unfolding held put_method find_method
held-put [] method s t e = cc
held-put ((m, r) ∷ methods) method s t e = ground (arith, held-put methods method s t, e)

held-put_new :
    (methods : List (Text × Sampler)) (method : Text) (t : Sampler)
    → find_method methods method ≡ none
    → held (put_method methods method t) ≡ held methods + t.dropped
unfolding held put_method find_method
held-put_new [] method t e = omega arith
held-put_new ((m, r) ∷ methods) method t e = ground (arith, held-put_new methods method t, e)

length-put :
    (methods : List (Text × Sampler)) (method : Text) (s t : Sampler)
    → find_method methods method ≡ some s
    → length (put_method methods method t) ≡ length methods
unfolding put_method find_method
length-put [] method s t e = cc
length-put ((m, r) ∷ methods) method s t e = ground (arith, length-put methods method s t, e)

length-put_new :
    (methods : List (Text × Sampler)) (method : Text) (t : Sampler)
    → length (put_method methods method t) ≤ length methods + 1
unfolding put_method
length-put_new [] method t = omega arith
length-put_new ((m, r) ∷ methods) method t = ground (arith, length-put_new methods method t)

find-le-held :
    (methods : List (Text × Sampler)) (method : Text) (s : Sampler)
    → find_method methods method ≡ some s
    → s.dropped ≤ held methods
unfolding held find_method
find-le-held [] method s e = cc
find-le-held ((m, r) ∷ methods) method s e = ground (arith, find-le-held methods method s, e)

flush_methods_sum :
    (methods : List (Text × Sampler)) (now : ℕ)
    → held methods < 2 ^ 63
    → let done = flush_methods methods now in
      (done.1 ≡ held methods)
      × (held done.0 ≡ 0)
      × (length done.0 ≡ length methods)
      × (done.2 ≡ ltb 0 (held methods))
unfolding held flush_methods
flush_methods_sum [] now b = (refl, refl, refl, refl)
flush_methods_sum ((m, s) ∷ methods) now b =
    let (sum, empty, same, owed) = flush_methods_sum methods now (omega (arith, b)) in
    let (all, gone, owes) = flush_sum s now (omega (arith, b)) in
    (
      ground (arith, sum, all, b),
      omega (arith, empty, gone),
      omega (arith, same),
      ground (arith, owed, owes),
    )

-- Every call is in a line of its own, in the count of a line, or held back; and few methods are tracked.
pub record IsExact (l : Ledger) : Type 0 where
  pub exact : l.written + l.counted + held_by l.lines ≡ l.calls
  pub few : length l.lines.methods ≤ 32

-- What `log_allow` does to the lines, whichever sampler it uses.
allow_lem :
    (b : Lines) (method : Text) (now : ℕ)
    → held_by b + 1 < 2 ^ 64
    → length b.methods ≤ 32
    → let done = log_allow b method now in
      (line_of done.1 + count_of done.1 + held_by done.0 ≡ held_by b + 1)
      × (length done.0.methods ≤ 32)
unfolding log_allow
allow_lem b method now small few = elim (Option-cases (find_method b.methods method)) [
  | inr (s, e) ↦
      let t = (allow_alone s now log_interval).0 in
      let le = find-le-held b.methods method s e in
      let sum = allow_sum s now log_interval (omega (arith, small, le)) in
      let put = held-put b.methods method s t e in
      rw (e, log_allow)
        (omega (arith, sum, put), omega (arith, few, length-put b.methods method s t e))
  | inl e ↦ elim (Bool-cases (ltb (length b.methods) method_log_limit)) [
    | inl room ↦
        let t = (allow_alone new_sampler now log_interval).0 in
        let sum = allow_sum new_sampler now log_interval (omega arith) in
        let put = held-put_new b.methods method t e in
        let more = length-put_new b.methods method t in
        rw (e, room, log_allow) (omega (arith, sum, put), ground (arith, room, more))
    | inr full ↦
        let sum = allow_sum b.log now log_interval (omega (arith, small)) in
        rw (e, full, log_allow) (omega (arith, sum), few)
  ]
]

flush_lem :
    (b : Lines) (now : ℕ)
    → held_by b < 2 ^ 63
    → let done = log_flush b now in
      (done.1 ≡ held_by b)
      × (held_by done.0 ≡ 0)
      × (length done.0.methods ≡ length b.methods)
      × (done.2 ≡ ltb 0 (held_by b))
unfolding log_flush
flush_lem b now small =
    let (sum, empty, same, owed) = flush_methods_sum b.methods now (omega (arith, small)) in
    let (all, gone, owes) = flush_sum b.log now (omega (arith, small)) in
    (ground (arith, sum, all, small), omega (arith, empty, gone), same, ground (arith, owed, owes))

-- The line of a drop has the whole count, and none is written if nothing is held.
flush_line_sum :
    (b : Lines) (now : ℕ)
    → held_by b < 2 ^ 63
    → let done = flush_line b now in
      (count_of done.1 ≡ held_by b)
      × (held_by done.0 ≡ 0)
      × (length done.0.methods ≡ length b.methods)
unfolding flush_line
flush_line_sum b now small =
    let (sum, empty, same, owed) = flush_lem b now small in
    elim (Bool-cases (ltb 0 (held_by b))) [
      | inl e ↦ (rw (owed ∙ e) sum, empty, same)
      | inr e ↦ (rw (owed ∙ e) (ground (arith, e)), empty, same)
    ]

react-IsExact :
    (l : Ledger) (e : Event)
    → l.calls + 1 < 2 ^ 63
    → IsExact l
    → IsExact (react l e) × ((react l e).calls ≤ l.calls + 1)
unfolding react log_close
react-IsExact l (calls method now) small v =
    let (sum, few) = allow_lem l.lines method now (omega (arith, small, v.exact)) v.few in
    (record { exact = omega (arith, sum, v.exact); few = few }, omega arith)
react-IsExact l (closes now) small v =
    let (sum, empty, same, owed) = flush_lem l.lines now (omega (arith, small, v.exact)) in
    elim (Bool-cases l.lines.close_line_written) [
      | inl w ↦
          rw (w, log_close) (record { exact = omega (arith, v.exact); few = v.few }, omega arith)
      | inr w ↦
          rw (w, log_close)
            (
              record {
                exact = omega (arith, sum, empty, v.exact);
                few = omega (arith, same, v.few);
              },
              omega arith,
            )
    ]
react-IsExact l (drops now) small v =
    let (sum, empty, same) = flush_line_sum l.lines now (omega (arith, small, v.exact)) in
    (
      record { exact = omega (arith, sum, empty, v.exact); few = omega (arith, same, v.few) },
      omega arith,
    )

run-IsExact :
    (l : Ledger) (es : List Event)
    → l.calls + length es + 1 < 2 ^ 63
    → IsExact l
    → IsExact (run l es)
unfolding run
run-IsExact l [] b v = v
run-IsExact l (e ∷ es) b v =
    let (next, grown) = react-IsExact l e (omega (arith, b)) v in
    run-IsExact (react l e) es (omega (arith, b, grown)) next

-- For fewer than 2 ^ 63 - 1 calls and endings of a connection, in whatever order, at whatever times and of
-- whatever methods: the number of calls is that of the lines written for calls, and the counts that all
-- written lines have, those at an ending included, and what the samplers hold back, so no call is lost or
-- counted twice; and at most 32 methods have a sampler of their own.
pub run_new-IsExact :
    (es : List Event)
    → length es + 1 < 2 ^ 63
    → IsExact (run (record { lines = no_lines; calls = 0; written = 0; counted = 0 }) es)
run_new-IsExact es b =
    run-IsExact (record { lines = no_lines; calls = 0; written = 0; counted = 0 }) es
      (omega (arith, b)) (unfold held in record { exact = refl; few = omega arith })
