-- ===== src/RetryWait/Retries.antt =====
-- What `RetryFor` promises.
use fnc.Prelude.{
  ℕ, zero, suc, ◌-◌, ◌≤◌, ◌≡◌, refl, ◌⊎◌, inl, inr, arith, ℤ, pos, negsuc, String, Bool, true,
  false, pos_part,
}
use fnc.Exceptions.{Outcome, ok, throw, stuck, M, timeout}
use fnc.RetryWait.{Clock, retry_loop, retry_for}

module _ {S : Type 0} (clock : Clock S) (message : String) (condition : M S Bool) (wait : ℕ) where
  -- From the first state to the second one, this many tries have failed, with a sleep behind each.
  pub data Tried : ℕ → S → S → Type 0 where
    none_yet : {s : S} → Tried zero s s
    failed_once :
        {s t u : S} {n : ℕ}
        → condition s ≡ (ok false, t)
        → Tried n (clock.sleep_for wait t) u
        → Tried (suc n) s u

  -- How a call with `left` more tries behind the first one ends, which began in `s`.
  abbrev pub RetryEnds : ℕ → S → Outcome (Unit {0}) → S → Type 0
  RetryEnds left s (ok _) s' =
      (n : ℕ) × (t : S) × Tried n s t × (n ≤ left) × (condition t ≡ (ok true, s'))
  RetryEnds left s (throw e) s' =
      ((n : ℕ) × (t : S) × Tried n s t × (n ≤ left) × (condition t ≡ (throw e, s')))
      ⊎ ((t : S) × Tried left s t × (condition t ≡ (ok false, s')) × (e ≡ timeout message))
  RetryEnds left s stuck s' =
      (n : ℕ) × (t : S) × Tried n s t × (n ≤ left) × (condition t ≡ (stuck, s'))

  -- One more try before the others.
  one_more :
      (left : ℕ) (s t : S) (r : Outcome (Unit {0})) (s' : S)
      → condition s ≡ (ok false, t)
      → RetryEnds left (clock.sleep_for wait t) r s'
      → RetryEnds (suc left) s r s'
  one_more left s t (ok _) s' e (n, u, tried, few, passes) =
      (suc n, u, failed_once e tried, omega arith, passes)
  one_more left s t (throw x) s' e (inl (n, u, tried, few, throws)) =
      inl (suc n, u, failed_once e tried, omega arith, throws)
  one_more left s t (throw x) s' e (inr (u, tried, fails, is)) =
      inr (u, failed_once e tried, fails, is)
  one_more left s t stuck s' e (n, u, tried, few, stops) =
      (suc n, u, failed_once e tried, omega arith, stops)

  retry_loop-Ends :
      (left : ℕ) (s : S)
      → let r = retry_loop clock left message condition wait s in RetryEnds left s r.0 r.1
  unfolding retry_loop
  retry_loop-Ends zero s = last (condition s).0 (condition s).1 refl
    where
      last :
          (c : Outcome Bool) (t : S)
          → condition s ≡ (c, t)
          → let r = retry_loop clock zero message condition wait s in RetryEnds zero s r.0 r.1
      last (ok true) t e = rw e (zero, s, none_yet, omega arith, e)
      last (ok false) t e = rw e (inr (s, none_yet, e, refl))
      last (throw x) t e = rw e (inl (zero, s, none_yet, omega arith, e))
      last stuck t e = rw e (zero, s, none_yet, omega arith, e)
  retry_loop-Ends (suc left) s =
      go (λ t. retry_loop-Ends left t) (condition s).0 (condition s).1 refl
    where
      go :
          ((t : S)
            → let q = retry_loop clock left message condition wait t in RetryEnds left t q.0 q.1)
          → (c : Outcome Bool) (t : S) → condition s ≡ (c, t)
          → let r = retry_loop clock (suc left) message condition wait s in
            RetryEnds (suc left) s r.0 r.1
      go again (ok true) t e = rw e (zero, s, none_yet, omega arith, e)
      go again (ok false) t e = rw e (one_more left s t _ _ e (again (clock.sleep_for wait t)))
      go again (throw x) t e = rw e (inl (zero, s, none_yet, omega arith, e))
      go again stuck t e = rw e (zero, s, none_yet, omega arith, e)

  -- `RetryFor` tries as often as its count says, once at least, with a sleep behind each try that fails
  -- but the last: it returns behind the first try that passes, lets out what a try throws, and throws
  -- the timeout behind the last try, if that fails too.
  pub retry_for-Ends :
      (count : ℤ) (s : S)
      → let r = retry_for clock count message condition wait s in
        RetryEnds (pos_part count - 1) s r.0 r.1
  unfolding retry_for
  retry_for-Ends (pos n) s = retry_loop-Ends (n - 1) s
  retry_for-Ends (negsuc n) s = retry_loop-Ends (0 - 1) s

  -- Of tries that all fail, `left` more than one are made, with a sleep between two of them.
  abbrev pub tries : (S → S) → ℕ → S → S
  tries f zero s = f s
  tries f (suc left) s = tries f left (clock.sleep_for wait (f s))

  retry_loop-fails :
      (f : S → S)
      → ((s : S) → condition s ≡ (ok false, f s))
      → (left : ℕ) (s : S)
      → retry_loop clock left message condition wait s ≡ (throw (timeout message), tries f left s)
  unfolding retry_loop
  retry_loop-fails f fails zero s = rw (fails s)
  retry_loop-fails f fails (suc left) s =
      rw (fails s) (retry_loop-fails f fails left (clock.sleep_for wait (f s)))

  -- `RetryFor` of a condition that always fails tries it as often as it is told, once at least, and
  -- throws the timeout.
  pub retry_for-fails :
      (f : S → S)
      → ((s : S) → condition s ≡ (ok false, f s))
      → (count : ℤ) (s : S)
      → retry_for clock count message condition wait s
        ≡ (throw (timeout message), tries f (pos_part count - 1) s)
  unfolding retry_for
  retry_for-fails f fails (pos n) s = retry_loop-fails f fails (n - 1) s
  retry_for-fails f fails (negsuc n) s = retry_loop-fails f fails (0 - 1) s
