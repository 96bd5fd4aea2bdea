-- ===== src/ContainerUtil/Tests.antt =====
-- `contains` and `join` on interface names.
use fnc.Prelude.{◌≡◌, refl, true, List, [], ◌∷◌, codes, Text, text_eq}
use fnc.ContainerUtil.{contains, join}

abbrev names : List Text
names = codes "lo" ∷ codes "eth0" ∷ []

joined : join (λ s. s) names (codes ",") [] ≡ codes "lo,eth0"
unfolding join
joined = refl

found : contains text_eq names (codes "eth0") ≡ true
found = refl
