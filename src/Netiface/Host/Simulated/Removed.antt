-- ===== src/Netiface/Host/Simulated/Removed.antt =====
-- What the kernel has after an address has been deleted.
use fnc.Prelude.{
  if◌then◌else◌, ◌==◌, ◌&&◌, Bool-cases, inl, inr, ==_iff, ℕ, ◌≡◌, refl, sym, ap, ◌∙◌, true, false,
  List, [], ◌∷◌, ◌++◌, map,
}
use fnc.IpAddress.Simulated.{asio-IsAsio, Ip, asio}
use fnc.Netiface.Addresses.{Assigned}
use fnc.Netiface.Host.{has}
use fnc.Netiface.Host.Simulated.{removed_from, Entry, entry}

abbrev pub without : ℕ → Ip → List (Assigned × Ip) → List (Assigned × Ip)
without index ip [] = []
without index ip ((a, x) ∷ es) =
    let rest = without index ip es in
    if a.index == index && asio.equal x ip then rest else (a, x) ∷ rest

pub map-removed_from :
    (index : ℕ) (ip : Ip) (es : List Entry)
    → map entry (removed_from index ip es) ≡ without index ip (map entry es)
map-removed_from index ip [] = refl
map-removed_from index ip (e ∷ es) = elim (Bool-cases (e.index == index && asio.equal e.ip ip)) [
  | inl y ↦ rw y (map-removed_from index ip es)
  | inr n ↦ rw n (ap (λ t. entry e ∷ t) (map-removed_from index ip es))
]

without_none :
    (index : ℕ) (ip : Ip) (es : List (Assigned × Ip))
    → has asio es index ip ≡ false
    → without index ip es ≡ es
without_none index ip [] h = refl
without_none index ip ((a, x) ∷ es) h = elim (Bool-cases (a.index == index && asio.equal x ip)) [
  | inl y ↦ absurd (true-false (sym (rw y at h)))
  | inr n ↦ rw n (ap (λ t. (a, x) ∷ t) (without_none index ip es (rw n at h)))
]
  where
    true-false : false ≡ true → ⊥
    true-false e = cc

without-append :
    (index : ℕ) (ip : Ip) (xs ys : List (Assigned × Ip))
    → without index ip (xs ++ ys) ≡ without index ip xs ++ without index ip ys
without-append index ip [] ys = refl
without-append index ip ((a, x) ∷ xs) ys = elim (Bool-cases (a.index == index && asio.equal x ip)) [
  | inl y ↦ rw y (without-append index ip xs ys)
  | inr n ↦ rw n (ap (λ t. (a, x) ∷ t) (without-append index ip xs ys))
]

pub without-sole :
    (a : Assigned) (ip : Ip) (before after : List (Assigned × Ip))
    → has asio before a.index ip ≡ false
    → has asio after a.index ip ≡ false
    → without a.index ip (before ++ ((a, ip) ∷ after)) ≡ before ++ after
without-sole a ip before after none_before none_after =
    without-append a.index ip before ((a, ip) ∷ after)
    ∙ rw
        (
          (==_iff a.index a.index).1 refl,
          (asio-IsAsio.equal_iff ip ip).1 refl,
          without_none a.index ip before none_before,
          without_none a.index ip after none_after,
        )
        refl
