-- ===== src/Netlink/Class.antt =====
-- netlink.hpp: the operations of `class netlink` as its clients take them, over a way to read the open
-- sockets that its functions keep, and netlink.cpp, which keeps them.
use fnc.Prelude.{ℕ}
use fnc.Exceptions.{Outcome, M}
use fnc.Netlink
use fnc.Netlink.{Netlink, Callback}
use fnc.Netlink.Kernel.{Headers, System, State, NlMsg}
use fnc.Netlink.Sockets.{
  Descriptors, Keeps, send_message_async-Keeps, handle_response_async-Keeps,
  send_message_sync-Keeps,
}

-- `send_message_sync` and `handle_response_async` are on fuel, the constructor and the destructor are of
-- the scope of a local object too.
pub record NetlinkClass {World : Type 0} (sys : System World) (d : Descriptors sys) : Type 1 where
  pub construct : M (State World) Netlink
  pub destroy : Netlink → State World → State World
  pub init_message : Netlink → ℕ → ℕ → Outcome NlMsg × Netlink
  pub send_message_sync : {L : Type 0} → Callback L → ℕ → Netlink → NlMsg → L → M (State World) L
  pub send_message_async : Netlink → NlMsg → M (State World) (Unit {0})
  pub handle_response_async : {L : Type 0} → Callback L → ℕ → Netlink → L → M (State World) L
  pub sync_keeps :
      {L : Type 0} (callback : Callback L) (fuel : ℕ) (nl : Netlink) (msg : NlMsg) (l : L)
      → Keeps sys d (send_message_sync callback fuel nl msg l)
  pub async_keeps : (nl : Netlink) (msg : NlMsg) → Keeps sys d (send_message_async nl msg)
  pub response_keeps :
      {L : Type 0} (callback : Callback L) (fuel : ℕ) (nl : Netlink) (l : L)
      → Keeps sys d (handle_response_async callback fuel nl l)

unfoldable pub netlink :
    {World : Type 0} (sys : System World) → Headers → (d : Descriptors sys) → NetlinkClass sys d
netlink sys h d = record {
  construct = Netlink.construct sys;
  destroy = Netlink.destroy sys;
  init_message = Netlink.init_message h;
  send_message_sync = λ callback. Netlink.send_message_sync sys h callback;
  send_message_async = Netlink.send_message_async sys;
  handle_response_async = λ callback. Netlink.handle_response_async sys h callback;
  sync_keeps = λ callback. send_message_sync-Keeps sys d h callback;
  async_keeps = send_message_async-Keeps sys d;
  response_keeps = λ callback. handle_response_async-Keeps sys d h callback;
}
