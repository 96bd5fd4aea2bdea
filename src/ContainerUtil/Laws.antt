-- ===== src/ContainerUtil/Laws.antt =====
-- `contains` finds what is there, and what `join` writes can be split again.
use fnc.Prelude.{
  ℕ, ◌≡◌, refl, ◌∙◌, ==_refl, ◌↔◌, Bool, true, false, ◌||◌, List, [], ◌∷◌, ◌++◌, arith, ap,
}
use fnc.Prelude.{
  Text, All, any, ◌==◌, if◌then◌else◌, append-nil, append_assoc, Bool-cases, inl, inr,
}
use fnc.Exceptions.{Outcome, ok}
use fnc.ContainerUtil.{contains, contains_if, join, join_rest}

module _ {ℓ} {A : Type ℓ} where
  -- The list holds an item that passes the test, between `front` and `back`.
  pub record Holds (test : A → Bool) (xs : List A) : Type ℓ where
    pub front : List A
    pub item : A
    pub back : List A
    pub split : xs ≡ front ++ (item ∷ back)
    pub passes : test item ≡ true

  any→Holds : (test : A → Bool) (xs : List A) → any test xs ≡ true → Holds test xs
  any→Holds test [] h = cc
  any→Holds test (x ∷ xs) h = elim (Bool-cases (test x)) [
    | inl here ↦ record { front = []; item = x; back = xs; split = refl; passes = here }
    | inr there ↦
        let r : Holds test xs = any→Holds test xs (ground arith) in
        record {
          front = x ∷ r.front;
          item = r.item;
          back = r.back;
          split = ap (λ t. x ∷ t) r.split;
          passes = r.passes;
        }
  ]

  pub any_at :
      (test : A → Bool) (front : List A) (x : A) (back : List A)
      → test x ≡ true
      → any test (front ++ (x ∷ back)) ≡ true
  any_at test [] x back h = ground arith
  any_at test (y ∷ front) x back h = ground (arith, any_at test front x back h)

  -- `contains` is true exactly when the container holds an item that is equal to the one asked for.
  pub contains_iff :
      (eq : A → A → Bool) (xs : List A) (a : A) → (contains eq xs a ≡ true) ↔ Holds (λ x. eq x a) xs
  contains_iff eq xs a =
      (any→Holds _ xs, λ r. rw r.split (any_at (λ x. eq x a) r.front r.item r.back r.passes))

  -- With a predicate that does not throw on the items, the overload finds what `any` finds.
  pub contains_if-any :
      (xs : List A) (item : A) (pred : A → Outcome Bool) (test : A → Bool)
      → ((x : A) → pred x ≡ ok (test x))
      → contains_if xs item pred ≡ ok (any test xs)
  unfolding contains_if
  contains_if-any [] item pred test e = refl
  contains_if-any (x ∷ xs) item pred test e =
      rw (e x, contains_if-any xs item pred test e) (pick (test x))
    where
      pick : (b : Bool) → (if b then ok true else ok (any test xs)) ≡ ok (b || any test xs)
      pick true = refl
      pick false = refl

-- Splits a text at every byte `sep`; `word` is what has been read of the current part.
split_from : ℕ → Text → Text → List Text
split_from sep word [] = word ∷ []
split_from sep word (c ∷ s) =
    let here = split_from sep [] s in
    let on = split_from sep (word ++ (c ∷ [])) s in if c == sep then word ∷ here else on

unfoldable pub split : ℕ → Text → List Text
unfolding split_from
split sep s = split_from sep [] s

split_word :
    (sep : ℕ) (word w rest : Text)
    → All (λ c. (c == sep) ≡ false) w
    → split_from sep word (w ++ rest) ≡ split_from sep (word ++ w) rest
unfolding split_from
split_word sep word [] rest h = rw append-nil
split_word sep word (c ∷ w) rest (hc, hw) =
    rw hc (split_word sep (word ++ (c ∷ [])) w rest hw ∙ rw append_assoc)

split_rest :
    (sep : ℕ) (word : Text) (ws : List Text)
    → All (All (λ c. (c == sep) ≡ false)) ws
    → split_from sep word (join_rest (λ w. w) ws (sep ∷ [])) ≡ word ∷ ws
unfolding split_from join_rest
split_rest sep word [] h = refl
split_rest sep word (w ∷ ws) (hw, hws) =
    rw (==_refl sep, split_word sep [] w (join_rest (λ w. w) ws (sep ∷ [])) hw)
      (ap (λ t. word ∷ t) (split_rest sep w ws hws))

-- The texts of a list that is not empty come back from their `join`, if none of them holds the
-- separator, by splitting it at every separator.
pub split-join :
    (sep : ℕ) (w : Text) (ws : List Text)
    → All (All (λ c. (c == sep) ≡ false)) (w ∷ ws)
    → split sep (join (λ s. s) (w ∷ ws) (sep ∷ []) []) ≡ w ∷ ws
unfolding split join
split-join sep w ws (hw, hws) =
    rw (append-nil, split_word sep [] w (join_rest (λ s. s) ws (sep ∷ [])) hw)
      (split_rest sep w ws hws)
