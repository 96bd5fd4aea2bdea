-- ===== src/Netiface/Host/Untouched.antt =====
-- Which addresses of a host a change of some addresses of one link leaves alone.
use fnc.Prelude.{
  ℕ, ◌≡◌, sym, ap, ◌∙◌, ◌&&◌, ◌||◌, arith, Bool, false, inl, inr, List, [], ◌∷◌, ◌++◌, ◌==◌, any,
}
use fnc.IpAddress.{Asio}
use fnc.Netiface.{Env}
use fnc.Netiface.Addresses.{Assigned}
use fnc.Netiface.Callbacks.{to_u32}
use fnc.Netiface.Host.{Link, Host, holds}
use fnc.Netiface.Host.Assigning.{WithAddress, assigned_to}

-- An entry for another address, or on another link, does not matter.
pub holds-insert_other :
    {Address : Type 0} (asio : Asio Address) (before after : List (Assigned × Address))
    (a : Assigned) (y : Address) (index n : ℕ) (x : Address)
    → (a.index == index && asio.equal y x) ≡ false
    → holds asio (before ++ ((a, y) ∷ after)) index n x ≡ holds asio (before ++ after) index n x
holds-insert_other asio [] after a y index n x other = ground (arith, other)
holds-insert_other asio ((b, z) ∷ before) after a y index n x other =
    ap (λ r. (b.index == index && (b.prefixlen == n && asio.equal z x)) || r)
      (holds-insert_other asio before after a y index n x other)

module _ {World Address : Type 0} (env : Env World Address) (l : Link) where
  open env use {asio}

  -- The address is one of these, on the link.
  abbrev pub is_one : List Address → ℕ → Address → Bool
  is_one ips index x = to_u32 l.index == index && any (λ ip. asio.equal ip x) ips

  -- Every other address is on the second host as it is on the first one, with the same prefix lengths.
  abbrev pub Untouched : List Address → Host Address → Host Address → Type 0
  Untouched ips h h' =
      (index n : ℕ) (x : Address)
      → is_one ips index x ≡ false
      → holds asio h'.assigned index n x ≡ holds asio h.assigned index n x

  pub WithAddress-Untouched :
      (h h' : Host Address) (n : ℕ) (ip : Address)
      → WithAddress env h (assigned_to env l n ip) ip h'
      → Untouched (ip ∷ []) h h'
  WithAddress-Untouched h h' n ip (inl (there, same)) index m x other =
      ap (λ (y : Host Address). holds asio y.assigned index m x) same
  WithAddress-Untouched h h' n ip (inr (absent, links, (before, after, old, new))) index m x other =
      ap (λ es. holds asio es index m x) new
      ∙ holds-insert_other asio before after (assigned_to env l n ip) ip index m x
          (ground (arith, other))
      ∙ ap (λ es. holds asio es index m x) (sym old)
