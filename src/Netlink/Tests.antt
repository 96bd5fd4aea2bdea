-- ===== src/Netlink/Tests.antt =====
-- The loop over the answers, on a script of datagrams and with a callback that collects the indices
-- of the links.
use fnc.Prelude.{◌≡◌, ◌≢◌, refl, arith, ℤ, pos, negsuc, some, List, [], ◌∷◌, ◌++◌}
use fnc.Exceptions.{ok, throw, stuck, denied}
use fnc.Netlink.Kernel.{Reply}
use fnc.Netlink.{Netlink, Callback, handle_response_async, init_message}
use fnc.Netlink.Requests.{Makes, init_message-Makes}
use fnc.Netlink.Response.Endings.{
  Incoming, handle_response_async-done, handle_response_async-error, handle_response_async_ends,
}
use fnc.Netlink.Simulated.{sys, headers, start, control, link, drains}

abbrev nl : Netlink
nl = record { pid = 4242; nl_sock = pos 3; seq = 1 }

abbrev collect : Callback (List ℤ)
collect = some (λ m l. ok (l ++ (m.ifi_index ∷ [])))

abbrev lo : Reply
lo = link (pos 1) []

abbrev eth : Reply
eth = link (pos 2) []

abbrev incoming :
    (last : List Reply) → Incoming sys headers collect nl (start 1 ((lo ∷ []) ∷ last ∷ [])) []
incoming last = record {
  front = (lo ∷ []) ∷ [];
  last = last;
  between = record { script = last ∷ []; sockets = 0; time = 0 };
  after = record { script = []; sockets = 0; time = 0 };
  value = pos 1 ∷ [];
  fed = (record { script = last ∷ []; sockets = 0; time = 0 }, refl, refl);
  arrives = refl;
  no_control = (((refl, refl), tt), tt);
  called = refl;
}

handle_response_async-done_example :
    handle_response_async sys headers collect 5 nl []
      (start 1 ((lo ∷ []) ∷ (eth ∷ control 3 (pos 0) ∷ []) ∷ []))
    ≡ (ok (pos 1 ∷ pos 2 ∷ []), start 1 [])
handle_response_async-done_example =
    handle_response_async-done sys headers collect 5 nl
      (start 1 ((lo ∷ []) ∷ (eth ∷ control 3 (pos 0) ∷ []) ∷ [])) [] (pos 1 ∷ pos 2 ∷ [])
      (incoming (eth ∷ control 3 (pos 0) ∷ [])) (eth ∷ []) [] (control 3 (pos 0)) (omega arith) refl
      ((refl, refl), tt) tt refl refl

handle_response_async-error_example :
    handle_response_async sys headers collect 5 nl []
      (start 1 ((lo ∷ []) ∷ (control 2 (negsuc 12) ∷ []) ∷ []))
    ≡ (throw (denied "Permission Denied"), start 1 [])
handle_response_async-error_example =
    handle_response_async-error sys headers collect 5 nl
      (start 1 ((lo ∷ []) ∷ (control 2 (negsuc 12) ∷ []) ∷ [])) [] (pos 1 ∷ [])
      (incoming (control 2 (negsuc 12) ∷ [])) [] [] (control 2 (negsuc 12)) (omega arith)
      (λ e. omega arith) refl tt refl refl

handle_response_async_ends_example :
    (handle_response_async sys headers collect 2 nl [] (start 1 ((lo ∷ []) ∷ []))).0 ≢ stuck
unfolding drains
handle_response_async_ends_example =
    handle_response_async_ends sys headers collect drains (λ m l c. cc) 2 nl []
      (start 1 ((lo ∷ []) ∷ [])) (omega arith)

init_message-Makes_example :
    Makes headers nl 18 769 (init_message headers nl 18 769).0
    × ((init_message headers nl 18 769).1 ≡ record nl { seq = 2 })
init_message-Makes_example = init_message-Makes headers nl 18 769
