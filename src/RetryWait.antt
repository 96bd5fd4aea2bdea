-- ===== src/RetryWait.antt =====
-- util/retry_wait.hpp: `WaitFor` and `RetryFor`. Time is in milliseconds, on a clock that is read
-- and slept on through `Clock`. `WaitFor` loops on fuel.
pub mod Laws
pub mod Retries
mod Tests
use fnc.Prelude.{ℕ, zero, suc, ◌-◌, ℤ, pos, negsuc, String, Bool, true, false, ltb}
use fnc.Prelude.{if◌then◌else◌}
use fnc.Exceptions.{Outcome, ok, stuck, M, pure, raise, timeout, ◌>>=◌, ◌>>◌}

-- std::chrono::system_clock::now and std::this_thread::sleep_for, which are not of this repository.
pub record Clock (S : Type 0) : Type 0 where
  pub now : S → ℕ
  pub sleep_for : ℕ → S → S

module _ {S : Type 0} (clock : Clock S) where
  abbrev pub sleep : ℕ → M S (Unit {0})
  sleep d s = (ok tt, clock.sleep_for d s)

  -- The loop of `WaitFor`, from its `start_time` on. The difference is cut off at 0, where the source
  -- has a negative duration, which is not above the timeout either.
  unfoldable pub wait_loop : ℕ → ℕ → ℕ → String → M S Bool → ℕ → M S (Unit {0})
  wait_loop zero start_time limit message condition wait s = (stuck, s)
  wait_loop (suc fuel) start_time limit message condition wait s =
      let again = wait_loop fuel start_time limit message condition wait in
      let failed : M S (Unit {0}) = λ t.
        if ltb limit (clock.now t - start_time)
        then raise (timeout message) t
        else (sleep wait >> again) t in
      (condition >>= λ passed. if passed then pure tt else failed) s

  unfoldable pub wait_for : ℕ → ℕ → String → M S Bool → ℕ → M S (Unit {0})
  unfolding wait_loop
  wait_for fuel limit message condition wait s =
      wait_loop fuel (clock.now s) limit message condition wait s

  -- The loop of `RetryFor` with `left` more tries after this one.
  unfoldable pub retry_loop : ℕ → String → M S Bool → ℕ → M S (Unit {0})
  retry_loop zero message condition wait s =
      (condition >>= λ passed. if passed then pure tt else raise (timeout message)) s
  retry_loop (suc left) message condition wait s =
      let again = sleep wait >> retry_loop left message condition wait in
      (condition >>= λ passed. if passed then pure tt else again) s

  -- The count is tested after it is decremented, so a count of 1 or less gives one try.
  unfoldable pub retry_for : ℤ → String → M S Bool → ℕ → M S (Unit {0})
  unfolding retry_loop
  retry_for (negsuc n) = retry_loop 0
  retry_for (pos n) = retry_loop (n - 1)
