-- ===== src/Netiface/Tests.antt =====
-- What the operations read of the interface eth0, the second of two links of a scripted kernel.
use fnc.Prelude.{◌≡◌, refl, negsuc, [], codes}
use fnc.Exceptions.{ok}
use fnc.Netlink.Simulated.{start}
use fnc.Netiface.{get_index, get_mtu}
use fnc.Netiface.Index.{get_index_missing}
use fnc.Netiface.Link.{get_mtu_missing}
use fnc.Netiface.Simulated.{env, dumped, links, links_Dumps}

index_of_none :
    get_index env (codes "eth1") (start 0 (dumped (dumped [])))
    ≡ (ok (negsuc 0), start 1 (dumped []))
index_of_none =
    get_index_missing env (codes "eth1") (start 0 (dumped (dumped []))) (start 1 (dumped [])) links
      (links_Dumps 0 (dumped [])) (refl, (refl, tt)) (refl, (refl, tt))

get_mtu_missing_example :
    get_mtu env (codes "eth1") (start 0 (dumped (dumped []))) ≡ (ok 32767, start 2 [])
get_mtu_missing_example =
    get_mtu_missing env (codes "eth1") (start 0 (dumped (dumped []))) (start 1 (dumped []))
      (start 2 []) (negsuc 0) links index_of_none (links_Dumps 1 []) (refl, (refl, tt))
