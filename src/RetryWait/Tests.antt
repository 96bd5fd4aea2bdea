-- ===== src/RetryWait/Tests.antt =====
-- Waits on a clock that counts milliseconds, for a device that is ready from a given time on.
use fnc.Prelude.{ℕ, ◌+◌, ◌≡◌, refl, ◌≢◌, pos, leb, Bool, arith}
use fnc.Exceptions.{ok, throw, stuck, M, timeout}
use fnc.RetryWait.{Clock, wait_for, retry_for}
use fnc.RetryWait.Retries.{RetryEnds, retry_for-Ends}
use fnc.RetryWait.Laws.{Ends, wait_for-Ends, Ticks, wait_for_ends}

abbrev watch : Clock ℕ
watch = record { now = λ s. s; sleep_for = λ d s. s + d }

abbrev ready_at : ℕ → M ℕ Bool
ready_at n s = (ok (leb n (s + 1)), s + 1)

ready_in_time : wait_for watch 12 500 "late" (ready_at 100) 50 7 ≡ (ok tt, 110)
unfolding wait_for
ready_in_time = refl

too_late : wait_for watch 12 500 "late" (ready_at 9000) 50 7 ≡ (throw (timeout "late"), 518)
unfolding wait_for
too_late = refl

five_tries : retry_for watch (pos 5) "late" (ready_at 9000) 50 0 ≡ (throw (timeout "late"), 205)
unfolding retry_for
five_tries = refl

wait_for-Ends_example :
    let r = wait_for watch 12 500 "late" (ready_at 100) 50 7 in
    Ends watch 500 "late" (ready_at 100) 7 r.0 r.1
wait_for-Ends_example = wait_for-Ends watch 500 "late" (ready_at 100) 12 50 7

ready_at-Ticks : Ticks watch 500 "late" (ready_at 100) (λ _. Unit {0}) 50
ready_at-Ticks = record {
  sleeps = λ s p. omega arith;
  slept = λ s p. tt;
  runs = λ s p. omega arith;
  ran = λ s p. tt;
  ends = λ s p h. cc;
}

wait_for_ends_example : (wait_for watch 12 500 "late" (ready_at 100) 50 7).0 ≢ stuck
wait_for_ends_example =
    wait_for_ends watch 500 "late" (ready_at 100) (λ _. Unit {0}) 50 ready_at-Ticks 11 7 tt
      (omega arith)

abbrev never : M ℕ Bool
never s = (ok Bool.false, s + 1)

retry_for-Ends_example :
    let r = retry_for watch (pos 5) "late" (ready_at 100) 50 0 in
    RetryEnds watch "late" (ready_at 100) 50 4 0 r.0 r.1
retry_for-Ends_example = retry_for-Ends watch "late" (ready_at 100) 50 (pos 5) 0
