-- ===== src/Mtproto/Accept/Sampler/Reports.antt =====
-- internal/mtproto/proxyproto.go: no suppressed line is lost or reported twice.
use telegram_server.Common.{
  ℕ, suc, ◌+◌, ◌^◌, ◌≤◌, ◌<◌, ◌≡◌, refl, true, false, not, List, [], ◌∷◌, length, arith, ◌==◌,
}
use telegram_server.Common.Count.{bit}
use telegram_server.Mtproto.Accept.Sampler.{
  Sampler, new_sampler, allow_test, take_dropped, flush_test,
}

-- One instruction of some goroutine: the test and swap of an `allow` or a `flush` that loaded `last`
-- earlier, or the final swap of one that won.
pub data Event : Type 0 where
  allows : (last n interval : ℕ) → Event
  flushes : (last n : ℕ) → Event
  takes : Event

-- The sampler, the lines that did not come out, and the sum of the counts reported so far.
pub record Log : Type 0 where
  pub sampler : Sampler
  pub hidden : ℕ
  pub reported : ℕ

abbrev pub new_log : Log
new_log = record { sampler = new_sampler; hidden = 0; reported = 0 }

pub react : Log → Event → Log
react l (allows last n interval) =
    let r = allow_test l.sampler last n interval in
    record l { sampler = r.0; hidden = l.hidden + bit (not r.1) }
react l (flushes last n) = record l { sampler = (flush_test l.sampler last n).0 }
react l takes =
    let r = take_dropped l.sampler in record l { sampler = r.0; reported = l.reported + r.1 }

pub run : Log → List Event → Log
run l [] = l
run l (e ∷ es) = run (react l e) es

react_sum :
    (l : Log) (e : Event)
    → suc l.hidden < 2 ^ 63
    → l.reported + l.sampler.dropped ≡ l.hidden
    → ((react l e).reported + (react l e).sampler.dropped ≡ (react l e).hidden)
      × ((react l e).hidden ≤ suc l.hidden)
unfolding react allow_test flush_test take_dropped
react_sum l (allows last n interval) b h = ground arith
react_sum l (flushes last n) b h = ground arith
react_sum l takes b h = ground arith

run_sum :
    (l : Log) (es : List Event)
    → l.hidden + length es < 2 ^ 63
    → l.reported + l.sampler.dropped ≡ l.hidden
    → (run l es).reported + (run l es).sampler.dropped ≡ (run l es).hidden
unfolding run
run_sum l [] b h = h
run_sum l (e ∷ es) b h =
    let (sum, grown) = react_sum l e (omega (arith, b)) h in
    run_sum (react l e) es (omega (arith, b, grown)) sum

-- In every interleaving of fewer than 2 ^ 63 instructions, the counts reported and the count still
-- held add up to the lines that did not come out: none is lost, and none is reported twice.
pub reports_exact :
    (es : List Event)
    → length es < 2 ^ 63
    → (run new_log es).reported + (run new_log es).sampler.dropped ≡ (run new_log es).hidden
reports_exact es b = run_sum new_log es (omega (arith, b)) refl

-- Of the goroutines that have loaded the same value, at most one wins: once a line has come out, an
-- `allow` with the value before it hides its line, unless the clock has not moved.
allow_once :
    (s : Sampler) (last n interval n' interval' : ℕ)
    → (allow_test s last n interval).1 ≡ true
    → (n == last) ≡ false
    → (allow_test (allow_test s last n interval).0 last n' interval').1 ≡ false
unfolding allow_test
allow_once s last n interval n' interval' h e = ground arith
