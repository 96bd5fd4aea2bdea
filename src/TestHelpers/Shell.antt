-- ===== src/TestHelpers/Shell.antt =====
-- What shell_exec returns.
use fnc.Prelude.{
  ℕ, zero, suc, ◌+◌, ◌<◌, ◌≡◌, refl, sym, ap, subst, ◌∙◌, arith, true, false, Bool-cases, inl, inr,
  Option, none, some, List, [], ◌∷◌, ◌++◌, ◌==◌, All, length, length-append, append-nil,
  append_assoc, Text,
}
use fnc.Exceptions.{ok}
use fnc.Netiface.Callbacks.{c_string}
use fnc.TestHelpers.{Stdio, buffer_size, append_buffer, read_all, with_pipe, shell_exec}

-- A line that fgets has read, with the NUL that ends it and what the buffer holds behind that.
pub record Line (left left' buffer : List ℕ) : Type 0 where
  pub line : List ℕ
  pub junk : List ℕ
  pub some_bytes : 0 < length line
  pub terminated : buffer ≡ line ++ (0 ∷ junk)
  pub taken : left ≡ line ++ left'

-- What <cstdio> documents of a stream on which no read fails, `to_come` being the bytes that it will
-- still give: fgets reads some of them, or finds the end, which feof then reports.
pub record IsStdio {S Pipe : Type 0} (stdio : Stdio S Pipe) : Type 0 where
  pub to_come : Pipe → S → List ℕ
  pub at_end : (p : Pipe) (s : S) → stdio.feof p s ≡ true → to_come p s ≡ []
  pub reads :
      (p : Pipe) (s s' : S) (buffer : List ℕ)
      → stdio.fgets p buffer_size s ≡ (some buffer, s')
      → Line (to_come p s) (to_come p s') buffer
  pub ends :
      (p : Pipe) (s s' : S)
      → stdio.fgets p buffer_size s ≡ (none, s')
      → (to_come p s ≡ []) × (stdio.feof p s' ≡ true)

c_string-line :
    (line junk : List ℕ) → All (λ b. (b == 0) ≡ false) line → c_string (line ++ (0 ∷ junk)) ≡ line
c_string-line [] junk clean = refl
c_string-line (b ∷ line) junk (h, clean) = rw (h, c_string-line line junk clean) refl

All-parts :
    (xs ys : List ℕ)
    → All (λ b. (b == 0) ≡ false) (xs ++ ys)
    → All (λ b. (b == 0) ≡ false) xs × All (λ b. (b == 0) ≡ false) ys
All-parts [] ys h = (tt, h)
All-parts (x ∷ xs) ys (h, hs) = let (a, b) = All-parts xs ys hs in ((h, a), b)

module _ {S Pipe : Type 0} (stdio : Stdio S Pipe) (law : IsStdio stdio) (pipe : Pipe) where
  open law use {to_come}

  ended :
      (fuel : ℕ) (result : Text) (s : S)
      → stdio.feof pipe s ≡ true
      → read_all stdio (suc fuel) pipe result s ≡ (ok result, s)
  unfolding read_all
  ended fuel result s e = rw e refl

  goes_on :
      (fuel : ℕ) (result : Text) (s s' : S) (buffer : Option (List ℕ))
      → stdio.feof pipe s ≡ false
      → stdio.fgets pipe buffer_size s ≡ (buffer, s')
      → read_all stdio (suc fuel) pipe result s
        ≡ read_all stdio fuel pipe (append_buffer result buffer) s'
  unfolding read_all
  goes_on fuel result s s' buffer e g =
      rw e (ap (λ q. read_all stdio fuel pipe (append_buffer result q.0) q.1) g)

  read_all_lem :
      (fuel : ℕ) (result : Text) (s : S)
      → All (λ b. (b == 0) ≡ false) (to_come pipe s)
      → length (to_come pipe s) + 1 < fuel
      → (s' : S) × (read_all stdio fuel pipe result s ≡ (ok (result ++ to_come pipe s), s'))
  read_all_lem zero result s clean enough = absurd (omega arith)
  read_all_lem (suc fuel) result s clean enough = elim (Bool-cases (stdio.feof pipe s)) [
    | inl e ↦ (
      s,
      ended fuel result s e
          ∙ ap (λ t. (ok t, s))
              (sym (ap (λ t. result ++ t) (law.at_end pipe s e) ∙ append-nil result)),
    )
    | inr e ↦
        go fuel enough e (λ r t. read_all_lem fuel r t) (stdio.fgets pipe buffer_size s).0
          (stdio.fgets pipe buffer_size s).1 refl
  ]
    where
      go :
          (fuel : ℕ)
          → length (to_come pipe s) + 1 < suc fuel
          → stdio.feof pipe s ≡ false
          → ((r : Text) (t : S)
              → All (λ b. (b == 0) ≡ false) (to_come pipe t)
              → length (to_come pipe t) + 1 < fuel
              → (s' : S) × (read_all stdio fuel pipe r t ≡ (ok (r ++ to_come pipe t), s')))
          → (buffer : Option (List ℕ)) (t : S) → stdio.fgets pipe buffer_size s ≡ (buffer, t)
          → (s' : S) × (read_all stdio (suc fuel) pipe result s
              ≡ (ok (result ++ to_come pipe s), s'))
      go zero k e again none t g = absurd (omega arith)
      go (suc fuel) k e again none t g =
          let (nothing, over) = law.ends pipe s t g in
          (
            t,
            goes_on (suc fuel) result s t none e g
                ∙ ended fuel result t over
                ∙ ap (λ x. (ok x, t)) (sym (ap (λ x. result ++ x) nothing ∙ append-nil result)),
          )
      go fuel k e again (some buffer) t g =
          let l : Line (to_come pipe s) (to_come pipe t) buffer = law.reads pipe s t buffer g in
          let (clean_line, clean_left) =
            All-parts l.line (to_come pipe t) (subst (All (λ b. (b == 0) ≡ false)) l.taken clean) in
          let text : append_buffer result (some buffer) ≡ result ++ l.line =
            ap (λ x. result ++ c_string x) l.terminated
            ∙ ap (λ x. result ++ x) (c_string-line l.line l.junk clean_line) in
          let size : length (to_come pipe s) ≡ length l.line + length (to_come pipe t) =
            ap length l.taken ∙ length-append l.line (to_come pipe t) in
          let (s', run) =
            again (append_buffer result (some buffer)) t clean_left (omega (arith, l.some_bytes)) in
          (
            s',
            goes_on fuel result s t (some buffer) e g
                ∙ run
                ∙ ap (λ x. (ok x, s'))
                    (ap (λ x. x ++ to_come pipe t) text
                      ∙ append_assoc result l.line (to_come pipe t)
                      ∙ ap (λ x. result ++ x) (sym l.taken)),
          )

  -- Where <cstdio> is as documented: for a command that starts, and whose output holds no NUL byte,
  -- shell_exec ends, on more rounds than the output has bytes and one, and returns the whole output; it
  -- has closed the pipe then.
  pub shell_exec_output :
      (fuel : ℕ) (cmd : Text) (s s1 : S)
      → stdio.popen cmd s ≡ (some pipe, s1)
      → All (λ b. (b == 0) ≡ false) (to_come pipe s1)
      → length (to_come pipe s1) + 1 < fuel
      → (s2 : S) × (shell_exec stdio fuel cmd s
          ≡ (ok (to_come pipe s1), stdio.pclose (some pipe) s2))
  unfolding shell_exec
  shell_exec_output fuel cmd s s1 opens clean enough =
      let (s2, run) = read_all_lem fuel [] s1 clean enough in
      (s2, ap (with_pipe stdio fuel) opens ∙ ap (λ q. (q.0, stdio.pclose (some pipe) q.1)) run)
