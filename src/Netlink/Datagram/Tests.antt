-- ===== src/Netlink/Datagram/Tests.antt =====
-- The loop over the answers, on the bytes of a datagram with one link and DONE.
use fnc.Prelude.{ℕ, ◌≡◌, refl, ℤ, pos, List, [], ◌∷◌, ◌++◌, some}
use fnc.Exceptions.{ok}
use fnc.Netlink.{Netlink, Callback, handle_response_async, settle}
use fnc.Netlink.Datagram.{
  Filled, filled, list_messages, walk_bytes, handle_response_bytes, handle_response_bytes-async,
}
use fnc.Netlink.Datagram.Simulated.{macros, macros-IsMacros}
use fnc.Netlink.Simulated.{Machine, sys, headers, start}

abbrev nl : Netlink
nl = record { pid = 4242; nl_sock = pos 3; seq = 1 }

abbrev collect : Callback (List ℤ)
collect = some (λ m l. ok (l ++ (m.ifi_index ∷ [])))

-- 18 bytes, which are aligned to 20, and 16 bytes.
abbrev bytes : List ℕ
bytes =
    18 ∷ 0 ∷ 0 ∷ 0 ∷ 16 ∷ 0 ∷ 0 ∷ 0 ∷ 0 ∷ 0 ∷ 0 ∷ 0 ∷ 0 ∷ 0 ∷ 0 ∷ 0 ∷ 7 ∷ 0 ∷ 0 ∷ 0 ∷ 16 ∷ 0 ∷ 0 ∷ 0
    ∷ 3 ∷ 0 ∷ 0 ∷ 0 ∷ 0 ∷ 0 ∷ 0 ∷ 0 ∷ 0 ∷ 0 ∷ 0 ∷ 0 ∷ []

abbrev recvmsg : ℤ → ℕ → Machine → Filled × Machine
recvmsg fd n w = (filled 36 bytes, w)

collected :
    handle_response_bytes macros headers collect sys recvmsg 5 nl [] (start 1 [])
    ≡ (ok (pos 7 ∷ []), start 1 [])
unfolding handle_response_bytes walk_bytes settle
collected = refl

handle_response_bytes-async_example :
    handle_response_bytes macros headers collect sys recvmsg 5 nl [] (start 1 [])
    ≡ handle_response_async (list_messages macros sys recvmsg) headers collect 5 nl [] (start 1 [])
handle_response_bytes-async_example =
    handle_response_bytes-async macros macros-IsMacros headers collect sys recvmsg 5 nl []
      (start 1 [])
