-- ===== src/Main/Grown.antt =====
-- What becomes of the addresses of a host when `main` sets one.
use fnc.Prelude.{ℕ, ◌≡◌, sym, ap, subst, ◌∙◌, arith, true, false, inl, inr, List, [], ◌∷◌, ◌++◌}
use fnc.IpAddress.{Asio}
use fnc.Netiface.{Env}
use fnc.Netiface.Addresses.{Assigned}
use fnc.Netiface.Callbacks.{to_u32}
use fnc.Netiface.Host.{Link, Host, holds, has}
use fnc.Netiface.Host.Assigning.{WithAddress, assigned_to}
use fnc.Netiface.Host.Once.{Once, Once-insert, Once-assigned, none-insert}
use fnc.Netiface.Host.Holds.{has-holds}
use fnc.Netiface.Host.Untouched.{Untouched, WithAddress-Untouched}

-- What the one host has, the other one has too.
abbrev pub Keeps : {Address : Type 0} → Asio Address → Host Address → Host Address → Type 0
Keeps {Address} asio h h' =
    (index n : ℕ) (x : Address)
    → holds asio h.assigned index n x ≡ true
    → holds asio h'.assigned index n x ≡ true

holds-insert :
    {Address : Type 0} (asio : Asio Address) (before after : List (Assigned × Address))
    (e : Assigned × Address) (index n : ℕ) (x : Address)
    → holds asio (before ++ after) index n x ≡ true
    → holds asio (before ++ (e ∷ after)) index n x ≡ true
holds-insert asio [] after (a, y) index n x h = ground (arith, h)
holds-insert asio ((b, y) ∷ before) after e index n x h =
    ground (arith, h, holds-insert asio before after e index n x)

true≢false : true ≡ false → ⊥
true≢false e = cc

module _ {World Address : Type 0} (env : Env World Address) where
  open env use {asio}

  -- What has become of the addresses when this one has been set: the others are as often there as before,
  -- as far as it matters for an address that the interface has at most once.
  pub record Grown (l : Link) (ip : Address) (h h' : Host Address) : Type 0 where
    pub keeps : Keeps asio h h'
    pub elsewhere : Untouched env l (ip ∷ []) h h'
    pub others :
        (x : Address) → asio.equal ip x ≡ false → Once env l x h.assigned → Once env l x h'.assigned
    pub still_none :
        (x : Address)
        → asio.equal ip x ≡ false
        → has asio h.assigned (to_u32 l.index) x ≡ false
        → has asio h'.assigned (to_u32 l.index) x ≡ false
    pub itself : has asio h.assigned (to_u32 l.index) ip ≡ false → Once env l ip h'.assigned

  pub WithAddress-Keeps :
      (h h' : Host Address) (a : Assigned) (ip : Address)
      → WithAddress env h a ip h'
      → Keeps asio h h'
  WithAddress-Keeps h h' a ip (inl (there, same)) index n x e =
      ap (λ (y : Host Address). holds asio y.assigned index n x) same ∙ e
  WithAddress-Keeps h h' a ip (inr (absent, links, (before, after, old, new))) index n x e =
      ap (λ es. holds asio es index n x) new
      ∙ holds-insert asio before after (a, ip) index n x
          (ap (λ es. holds asio es index n x) (sym old) ∙ e)

  pub WithAddress-Grown :
      (h h' : Host Address) (l : Link) (n : ℕ) (ip : Address)
      → WithAddress env h (assigned_to env l n ip) ip h'
      → Grown l ip h h'
  WithAddress-Grown h h' l n ip (inl (there, same)) = record {
    elsewhere = WithAddress-Untouched env l h h' n ip (inl (there, same));
    keeps = WithAddress-Keeps h h' (assigned_to env l n ip) ip (inl (there, same));
    others = λ x other once. subst (λ (y : Host Address). Once env l x y.assigned) (sym same) once;
    still_none = λ x other none.
        ap (λ (y : Host Address). has asio y.assigned (to_u32 l.index) x) same ∙ none;
    itself = λ none.
        absurd (true≢false (sym there ∙ has-holds asio h.assigned (to_u32 l.index) n ip none));
  }
  WithAddress-Grown h h' l n ip (inr (absent, links, (before, after, old, new))) = record {
    elsewhere =
        WithAddress-Untouched env l h h' n ip (inr (absent, links, (before, after, old, new)));
    keeps =
        WithAddress-Keeps h h' (assigned_to env l n ip) ip
          (inr (absent, links, (before, after, old, new)));
    others = λ x other once. subst (Once env l x) (sym new) (
        Once-insert env l x before after (assigned_to env l n ip) ip other
          (subst (Once env l x) old once));
    still_none = λ x other none.
        ap (λ es. has asio es (to_u32 l.index) x) new
        ∙ none-insert env l x before after (assigned_to env l n ip) ip other
            (ap (λ es. has asio es (to_u32 l.index) x) (sym old) ∙ none);
    itself = λ none. subst (Once env l ip) (sym new) (
        Once-assigned env l ip before after n
          (ap (λ es. has asio es (to_u32 l.index) ip) (sym old) ∙ none));
  }
