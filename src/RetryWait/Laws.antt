-- ===== src/RetryWait/Laws.antt =====
-- What `WaitFor` promises.
use fnc.Prelude.{ℕ, zero, suc, ◌+◌, ◌-◌, ◌*◌, ◌≤◌, ◌<◌, ◌≡◌, refl, ◌≢◌, ◌⊎◌, inl, inr, arith}
use fnc.Prelude.{String, Bool, true, false, ltb, Bool-cases, ltb→lt}
use fnc.Exceptions.{Outcome, ok, throw, stuck, M, timeout}
use fnc.RetryWait.{Clock, wait_loop, wait_for}

module _ {S : Type 0} (clock : Clock S) (limit : ℕ) (message : String) (condition : M S Bool) where
  -- Why a wait that began at `start` ends as it does: the condition has just passed, has itself
  -- thrown, or has just failed when the time was up.
  abbrev pub Ends : ℕ → Outcome (Unit {0}) → S → Type 0
  Ends start (ok _) s' = (t : S) × (condition t ≡ (ok true, s'))
  Ends start (throw e) s' =
      ((t : S) × (condition t ≡ (throw e, s')))
      ⊎ ((t : S) × (condition t ≡ (ok false, s'))
          × (limit < clock.now s' - start)
          × (e ≡ timeout message))
  Ends start stuck s' = Unit

  wait_loop-Ends :
      (fuel start wait : ℕ) (s : S)
      → let r = wait_loop clock fuel start limit message condition wait s in Ends start r.0 r.1
  unfolding wait_loop
  wait_loop-Ends zero start wait s = tt
  wait_loop-Ends (suc fuel) start wait s =
      go (λ t. wait_loop-Ends fuel start wait t) (condition s).0 (condition s).1 refl
    where
      go :
          ((t : S)
            → let q = wait_loop clock fuel start limit message condition wait t in
              Ends start q.0 q.1)
          → (r : Outcome Bool) (t : S) → condition s ≡ (r, t)
          → let q = wait_loop clock (suc fuel) start limit message condition wait s in
            Ends start q.0 q.1
      go again (ok true) t e = rw e (s, e)
      go again (ok false) t e = rw e (elim (Bool-cases (ltb limit (clock.now t - start))) [
        | inl late ↦ rw late (inr (s, e, ltb→lt _ _ late, refl))
        | inr early ↦ rw early (again (clock.sleep_for wait t))
      ])
      go again (throw x) t e = rw e (inl (s, e))
      go again stuck t e = rw e tt

  -- When `WaitFor` returns, the condition has just passed. When it throws, the condition has just
  -- thrown the same, or it is the timeout and the condition has just failed, with more than the
  -- limit gone since the start.
  pub wait_for-Ends :
      (fuel wait : ℕ) (s : S)
      → let r = wait_for clock fuel limit message condition wait s in Ends (clock.now s) r.0 r.1
  unfolding wait_for
  wait_for-Ends fuel wait s = wait_loop-Ends fuel (clock.now s) wait s

  -- The clock does not go back, a sleep lasts at least as long as it is asked to, and in the states
  -- of `P`, which the condition and the sleeps do not leave, the condition ends.
  pub record Ticks (P : S → Type 0) (wait : ℕ) : Type 0 where
    pub sleeps : (s : S) → P s → clock.now s + wait ≤ clock.now (clock.sleep_for wait s)
    pub slept : (s : S) → P s → P (clock.sleep_for wait s)
    pub runs : (s : S) → P s → clock.now s ≤ clock.now (condition s).1
    pub ran : (s : S) → P s → P (condition s).1
    pub ends : (s : S) → P s → (condition s).0 ≢ stuck

  -- One round ends if the rounds after it do.
  wait_round :
      (P : S → Type 0) (wait : ℕ) (ticks : Ticks P wait) (fuel start : ℕ) (s : S)
      → P s
      → start ≤ clock.now s
      → ((u : S)
          → P u
          → clock.now s + wait ≤ clock.now u
          → clock.now s ≤ start + limit
          → (wait_loop clock fuel start limit message condition wait u).0 ≢ stuck)
      → (wait_loop clock (suc fuel) start limit message condition wait s).0 ≢ stuck
  unfolding wait_loop
  wait_round P wait ticks fuel start s p h again = go (condition s).0 (condition s).1 refl
    where
      go :
          (r : Outcome Bool) (t : S)
          → condition s ≡ (r, t)
          → (wait_loop clock (suc fuel) start limit message condition wait s).0 ≢ stuck
      go (ok true) t e = rw e (λ h. cc)
      go (ok false) t e =
          let later : clock.now s ≤ clock.now t = rw e at (ticks.runs s p) in
          let safe : P t = rw e at (ticks.ran s p) in
          rw e (elim (Bool-cases (ltb limit (clock.now t - start))) [
            | inl late ↦ rw late (λ h. cc)
            | inr early ↦ rw early (
                again (clock.sleep_for wait t) (ticks.slept t safe)
                  (omega (arith, ticks.sleeps t safe)) (ground arith))
          ])
      go (throw x) t e = rw e (λ h. cc)
      go stuck t e = absurd (ticks.ends s p (rw e))

  wait_loop_ends :
      (P : S → Type 0) (wait : ℕ) (ticks : Ticks P wait) (fuel start : ℕ) (s : S)
      → P s
      → start ≤ clock.now s
      → start + limit < clock.now s + fuel * wait
      → (wait_loop clock (suc fuel) start limit message condition wait s).0 ≢ stuck
  wait_loop_ends P wait ticks zero start s p h k =
      wait_round P wait ticks zero start s p h (λ u q a b. absurd (omega arith))
  wait_loop_ends P wait ticks (suc fuel) start s p h k =
      wait_round P wait ticks (suc fuel) start s p h
        (λ u q a b. wait_loop_ends P wait ticks fuel start u q (omega arith) (omega arith))

  -- `WaitFor` ends, on a fuel that times the wait is above the limit, if the condition always
  -- ends, the clock does not go back while it runs, and a sleep lasts at least the wait.
  pub wait_for_ends :
      (P : S → Type 0) (wait : ℕ) (ticks : Ticks P wait) (fuel : ℕ) (s : S)
      → P s
      → limit < fuel * wait
      → (wait_for clock (suc fuel) limit message condition wait s).0 ≢ stuck
  unfolding wait_for
  wait_for_ends P wait ticks fuel s p k =
      wait_loop_ends P wait ticks fuel (clock.now s) s p (omega arith) (omega arith)
