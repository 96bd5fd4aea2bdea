-- ===== src/Netlink/Sockets/Tidy.antt =====
-- What a computation leaves open on every way out: nothing, but for the socket of a constructor that
-- throws, after which it fails.
use fnc.Prelude.{
  arith, ◌≡◌, ◌⊎◌, refl, sym, ap, subst, ◌∙◌, ℤ, pos, negsuc, is_neg, int_eq, int_eq_iff, Bool,
  true, false, Bool-cases, inl, inr, List, ◌∷◌, if◌then◌else◌,
}
use fnc.Exceptions.{Outcome, ok, throw, stuck, M, continue, ◌>>=◌}
use fnc.Netlink.Kernel.{System, State}
use fnc.Netlink.{Netlink, construct, with_netlink}
use fnc.Netlink.Sockets.{
  is_open, removed, removed_none, Descriptors, construct-socket, construct-nl_sock,
}

abbrev pub Failed : {A : Type 0} → Outcome A → Type 0
Failed (ok a) = ⊥
Failed (throw e) = Unit {0}
Failed stuck = Unit {0}

int_eq-apart : (a b : ℤ) → int_eq a b ≡ false → int_eq b a ≡ false
int_eq-apart (pos a) (pos b) h = ground arith
int_eq-apart (negsuc a) (negsuc b) h = ground arith
int_eq-apart (pos a) (negsuc b) h = refl
int_eq-apart (negsuc a) (pos b) h = refl

module _ {World : Type 0} (sys : System World) (d : Descriptors sys) where
  -- One more is open, a new one, which a constructor has opened that did not return.
  abbrev pub Leaks : List ℤ → List ℤ → Type 0
  Leaks before after =
      (t : State World) × Failed (construct sys t).0
      × (is_open (sys.socket t.world).0 before ≡ false)
      × (after ≡ (sys.socket t.world).0 ∷ before)

  -- The same are open, or one more after a failure.
  abbrev pub Left : {A : Type 0} → Outcome A → List ℤ → List ℤ → Type 0
  Left r before after = (after ≡ before) ⊎ (Leaks before after × Failed r)

  abbrev pub IsTidy : {A : Type 0} → M (State World) A → Type 0
  IsTidy m =
      (s : State World) → Left (m s).0 (d.open_sockets s.world) (d.open_sockets (m s).1.world)

  pub >>=-IsTidy :
      {A B : Type 0} (m : M (State World) A) (f : A → M (State World) B)
      → IsTidy m
      → ((a : A) → IsTidy (f a))
      → IsTidy (m >>= f)
  >>=-IsTidy {A} {B} m f tidy_m tidy_f s = go (m s).0 (m s).1 (tidy_m s)
    where
      go :
          (r : Outcome A) (t : State World)
          → Left r (d.open_sockets s.world) (d.open_sockets t.world)
          → Left
              (continue r f t).0
              (d.open_sockets s.world)
              (d.open_sockets (continue r f t).1.world)
      go (ok a) t (inl e) =
          subst (λ o. Left (f a t).0 o (d.open_sockets (f a t).1.world)) e (tidy_f a t)
      go (ok a) t (inr (_, bad)) = absurd bad
      go (throw x) t (inl e) = inl e
      go (throw x) t (inr l) = inr l
      go stuck t (inl e) = inl e
      go stuck t (inr l) = inr l

  pub elim-IsTidy :
      {A : Type 0} (b : Bool) (m k : M (State World) A)
      → IsTidy m
      → IsTidy k
      → IsTidy (if b then m else k)
  elim-IsTidy true m k tidy_m tidy_k = tidy_m
  elim-IsTidy false m k tidy_m tidy_k = tidy_k

  -- A socket is closed that was opened before the rest.
  closes :
      {A : Type 0} (r : Outcome A) (fd : ℤ) (o : List ℤ) (w : World)
      → is_neg fd ≡ false
      → is_open fd o ≡ false
      → Left r (fd ∷ o) (d.open_sockets w)
      → Left r o (d.open_sockets (sys.close fd w))
  closes r fd o w h new (inl e) = inl (
      d.close_removes fd w h
      ∙ ap (removed fd) e
      ∙ rw ((int_eq_iff fd fd).1 refl) (removed_none fd o new))
  closes r fd o w h new (inr ((t, threw, apart, e), failed)) =
      let x = (sys.socket t.world).0 in
      let other : is_open x o ≡ false = ground arith in
      let differ : int_eq x fd ≡ false = int_eq-apart fd x (ground arith) in
      inr (
        (
          t,
          threw,
          other,
          d.close_removes fd w h
              ∙ ap (removed fd) e
              ∙ rw (differ, (int_eq_iff fd fd).1 refl) (ap (λ t. x ∷ t) (removed_none fd o new)),
        ),
        failed,
      )

  -- A constructor that does not return leaves what it has opened.
  remaining :
      {A : Type 0} (r : Outcome A) (s : State World)
      → Failed (construct sys s).0
      → Failed r
      → Left r (d.open_sockets s.world) (d.open_sockets (construct sys s).1.world)
  remaining r s threw failed = elim (Bool-cases (is_neg (sys.socket s.world).0)) [
    | inl none ↦ inl (construct-socket sys d s ∙ d.socket_fails s.world none)
    | inr some ↦ inr (
      (s, threw, d.socket_new s.world some, construct-socket sys d s ∙ d.socket_opens s.world some),
      failed,
    )
  ]

  -- What one that returns has opened is closed behind the scope.
  closed :
      {A : Type 0} (r : Outcome A) (s : State World) (w : World)
      → Left r (d.open_sockets (construct sys s).1.world) (d.open_sockets w)
      → Left r (d.open_sockets s.world) (d.open_sockets (sys.close (sys.socket s.world).0 w))
  closed r s w left = elim (Bool-cases (is_neg (sys.socket s.world).0)) [
    | inl none ↦
        subst (λ o. Left r o (d.open_sockets (sys.close (sys.socket s.world).0 w)))
          (construct-socket sys d s ∙ d.socket_fails s.world none)
          (subst (λ o. Left r (d.open_sockets (construct sys s).1.world) o)
            (sym (d.close_negative (sys.socket s.world).0 w none)) left)
    | inr some ↦
        closes r (sys.socket s.world).0 (d.open_sockets s.world) w some (d.socket_new s.world some)
          (subst (λ o. Left r o (d.open_sockets w))
            (construct-socket sys d s ∙ d.socket_opens s.world some) left)
  ]

  pub with_netlink-IsTidy :
      {A : Type 0} (body : Netlink → M (State World) A)
      → ((nl : Netlink) → IsTidy (body nl))
      → IsTidy (with_netlink sys body)
  unfolding with_netlink
  with_netlink-IsTidy {A} body tidy s = go (construct sys s).0 refl
    where
      go :
          (r : Outcome Netlink)
          → (construct sys s).0 ≡ r
          → Left
              (with_netlink sys body s).0
              (d.open_sockets s.world)
              (d.open_sockets (with_netlink sys body s).1.world)
      go (ok nl) made =
          let t = (construct sys s).1 in
          rw made (
            subst
              (λ fd.
                Left (body nl t).0 (d.open_sockets s.world)
                  (d.open_sockets (sys.close fd (body nl t).1.world)))
              (sym (construct-nl_sock sys d s nl made))
              (closed (body nl t).0 s (body nl t).1.world (tidy nl t)))
      go (throw e) made = rw made (remaining {A = A} (throw e) s (rw made tt) tt)
      go stuck made = rw made (remaining {A = A} stuck s (rw made tt) tt)
