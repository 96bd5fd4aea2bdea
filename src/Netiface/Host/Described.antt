-- ===== src/Netiface/Host/Described.antt =====
-- The messages that describe links, as the operations look for them.
use fnc.Prelude.{
  ℕ, zero, suc, ◌≡◌, refl, ap, ◌∙◌, arith, ℤ, int_eq, false, some, List, [], ◌∷◌, ◌++◌, All, map,
  length, take, Text, text_eq,
}
use fnc.Netlink.Kernel.{Headers, Attribute}
use fnc.Netiface.{Env}
use fnc.Netiface.Callbacks.{c_string}
use fnc.Netiface.Host.{Link, At}
use fnc.Netiface.Host.Kernel.{Reporting}
use fnc.Netiface.Index.{attributes_name, names_link}
use fnc.Netiface.Link.{find_attribute, is_link}

pub map-append :
    {A B : Type 0} (f : A → B) (xs ys : List A) → map f (xs ++ ys) ≡ map f xs ++ map f ys
map-append f [] ys = refl
map-append f (x ∷ xs) ys = ap (λ t. f x ∷ t) (map-append f xs ys)

pub take_all : (xs : List ℕ) (n : ℕ) → length xs ≡ n → take n xs ≡ xs
take_all [] zero e = refl
take_all [] (suc n) e = refl
take_all (x ∷ xs) zero e = absurd (omega arith)
take_all (x ∷ xs) (suc n) e = ap (λ t. x ∷ t) (take_all xs n (omega arith))

module _ (h : Headers) where
  pub attributes_name-find :
      (name : Text) (attrs : List Attribute) (data_bytes : List ℕ)
      → find_attribute h h.ifla_ifname attrs ≡ some data_bytes
      → attributes_name h name attrs ≡ text_eq name (c_string data_bytes)
  attributes_name-find name [] data_bytes e = cc
  attributes_name-find name (a ∷ attrs) data_bytes e =
      ground (arith, attributes_name-find name attrs data_bytes)

module _ {World Address : Type 0} (env : Env World Address) (k : Reporting env) where
  open env use {headers, inet, asio, sys}

  pub names_link-describe :
      (name : Text) (l : Link) → names_link headers name (k.describe l) ≡ text_eq name l.name
  names_link-describe name l =
      let d = k.describes l in
      rw
        (
          d.is_newlink,
          attributes_name-find headers name (k.describe l).attributes d.ifname d.has_ifname,
          d.same_name,
        )
        refl

  pub is_link-describe :
      (idx : ℤ) (l : Link) → is_link headers idx (k.describe l) ≡ int_eq l.index idx
  is_link-describe idx l = let d = k.describes l in rw (d.is_newlink, d.same_index) refl

  pub others_named :
      (l : Link) (links : List Link)
      → All (λ x. (text_eq l.name x.name ≡ false) × (int_eq x.index l.index ≡ false)) links
      → All (λ x. names_link headers l.name x ≡ false) (map k.describe links)
  others_named l [] d = tt
  others_named l (x ∷ links) ((p, q), ds) =
      (names_link-describe l.name x ∙ p, others_named l links ds)

  pub others_indexed :
      (l : Link) (links : List Link)
      → All (λ x. (text_eq l.name x.name ≡ false) × (int_eq x.index l.index ≡ false)) links
      → All (λ x. is_link headers l.index x ≡ false) (map k.describe links)
  others_indexed l [] d = tt
  others_indexed l (x ∷ links) ((p, q), ds) =
      (is_link-describe l.index x ∙ q, others_indexed l links ds)

  pub described :
      {l : Link} {links : List Link} (at : At l links)
      → map k.describe links ≡ map k.describe at.before ++ (k.describe l ∷ map k.describe at.after)
  described {l} at = ap (map k.describe) at.split ∙ map-append k.describe at.before (l ∷ at.after)
