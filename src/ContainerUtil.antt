-- ===== src/ContainerUtil.antt =====
-- util/container_util.hpp: `contains` and `join`. Equality of the items and their `operator<<` are
-- arguments, as they are in the templates.
pub mod Laws
mod Tests
use fnc.Prelude.{Bool, true, false, if◌then◌else◌, List, [], ◌∷◌, ◌++◌, Text, any}
use fnc.Exceptions.{Outcome, ok, then_do}

module _ {ℓ} {A : Type ℓ} where
  -- std::find from begin() to end(), compared with end().
  abbrev pub contains : (A → A → Bool) → List A → A → Bool
  contains eq container item = any (λ x. eq x item) container

  -- The overload with a predicate: std::find_if up to the first item that passes, or until the
  -- predicate throws. It does not look at `item`.
  unfoldable pub contains_if : List A → A → (A → Outcome Bool) → Outcome Bool
  contains_if [] item pred = ok false
  contains_if (x ∷ xs) item pred =
      let on = contains_if xs item pred in then_do (pred x) (λ found. if found then ok true else on)

  join_rest : (A → Text) → List A → Text → Text
  join_rest show [] separator = []
  join_rest show (x ∷ xs) separator = separator ++ (show x ++ join_rest show xs separator)

  unfoldable pub join : (A → Text) → List A → Text → Text → Text
  unfolding join_rest
  join show [] separator suffix = suffix
  join show (x ∷ xs) separator suffix = show x ++ (join_rest show xs separator ++ suffix)
