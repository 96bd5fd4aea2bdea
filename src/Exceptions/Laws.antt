-- ===== src/Exceptions/Laws.antt =====
-- Which handlers take which exceptions, how a bind goes on, and inversion of a computation that
-- returned.
use fnc.Prelude.{ap, ◌∙◌, ◌≡◌, refl, ◌≢◌, ◌↔◌, false, arith}
use fnc.Exceptions.{
  Exception, Outcome, ok, throw, stuck, M, then_do, continue, ◌>>=◌, Kind, catches,
}
use fnc.Exceptions.{catch_std_exception, permission_denied}

-- A call that returns goes on with the next one.
pub >>=-ok :
    {S A B : Type 0} (m : M S A) (f : A → M S B) (a : A) (s s1 : S) (r : Outcome B × S)
    → m s ≡ (ok a, s1)
    → f a s1 ≡ r
    → (m >>= f) s ≡ r
>>=-ok m f a s s1 r e h = ap (λ p. continue p.0 f p.1) e ∙ h

-- A call that throws ends what it stands in.
pub >>=-throw :
    {S A B : Type 0} (m : M S A) (f : A → M S B) (e : Exception) (s s1 : S)
    → m s ≡ (throw e, s1)
    → (m >>= f) s ≡ (throw e, s1)
>>=-throw m f e s s1 h = ap (λ p. continue p.0 f p.1) h

-- A bind that returned ran its first part to a value, and then the rest.
pub >>=-eq-ok :
    {S A B : Type 0} (m : M S A) (f : A → M S B) {s s' : S} {b : B}
    → (m >>= f) s ≡ (ok b, s')
    → (a : A) × (t : S) × (m s ≡ (ok a, t)) × (f a t ≡ (ok b, s'))
>>=-eq-ok m f {s} {s'} {b} h = go (m s).0 (m s).1 refl h
  where
    go :
        (r : Outcome _) (t : _)
        → m s ≡ (r, t)
        → continue r f t ≡ (ok b, s')
        → (a : _) × (t : _) × (m s ≡ (ok a, t)) × (f a t ≡ (ok b, s'))
    go (ok a) t e k = (a, t, e, k)
    go (throw x) t e k = cc
    go stuck t e k = cc

pub continue-eq-ok :
    {S A B : Type 0} (r : Outcome A) (f : A → M S B) {s s' : S} {b : B}
    → continue r f s ≡ (ok b, s')
    → (a : A) × (r ≡ ok a) × (f a s ≡ (ok b, s'))
continue-eq-ok (ok a) f h = (a, refl, h)
continue-eq-ok (throw x) f h = cc
continue-eq-ok stuck f h = cc

-- `catch (const std::exception&)` takes every exception of the program but `permission_denied`.
pub catches_std_iff : (k : Kind) → (catches catch_std_exception k ≡ false) ↔ (k ≡ permission_denied)
unfolding catches
catches_std_iff k = ground arith

pub then_do_cong :
    {A B : Type 0} (r : Outcome A) {f g : A → Outcome B}
    → ((a : A) → f a ≡ g a)
    → then_do r f ≡ then_do r g
then_do_cong (ok a) e = e a
then_do_cong (throw x) e = refl
then_do_cong stuck e = refl

pub then_do_assoc :
    {A B C : Type 0} (r : Outcome A) (f : A → Outcome B) (g : B → Outcome C)
    → then_do (then_do r f) g ≡ then_do r (λ a. then_do (f a) g)
then_do_assoc (ok a) f g = refl
then_do_assoc (throw x) f g = refl
then_do_assoc stuck f g = refl

pub then_do-eq-ok :
    {A B : Type 0} (r : Outcome A) (f : A → Outcome B) {b : B}
    → then_do r f ≡ ok b
    → (a : A) × (r ≡ ok a) × (f a ≡ ok b)
then_do-eq-ok (ok a) f h = (a, refl, h)
then_do-eq-ok (throw e) f h = cc
then_do-eq-ok stuck f h = cc

pub then_do-ne-stuck :
    {A B : Type 0} (r : Outcome A) (f : A → Outcome B)
    → r ≢ stuck
    → ((a : A) → f a ≢ stuck)
    → then_do r f ≢ stuck
then_do-ne-stuck (ok a) f p q = q a
then_do-ne-stuck (throw e) f p q = λ h. cc
then_do-ne-stuck stuck f p q = absurd (p refl)
