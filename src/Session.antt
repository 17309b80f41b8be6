-- ===== src/Session.antt =====
-- pkg/adapter.go: a client's session (`handleWebSocketConnection`, `handleClientRequests`), with
-- `generateEVMAccount` of pkg/evm.go. The amount of a message is one `big.Int`, which the message, the
-- session and the answer share.
pub mod Heap
pub mod Records
pub mod Orders
pub mod Refusals
pub mod Sent
pub mod Complete
use party_bridge.Base.{
  ℕ, zero, suc, ◌/◌, ◌*◌, String, Bool, true, false, not, Option, none, some, List, [], ◌∷◌, ◌++◌,
  ◌&&◌, keep_if, length, get_elem?, if◌then◌else◌,
}
use party_bridge.Base.Int.{ℤ, pos, negsuc, ◌+ℤ◌, geb_ℤ}
use party_bridge.Base.Text.{str_eq}
use party_bridge.Types.{Time, zero_time, AccountWatchRequest, BridgeRequest}
use party_bridge.Messages.{WsMessage, RequestBridgeMsg}
use party_bridge.Platform.{Platform, Result, ok, err, drew_uuid, read_clock, generated_key, wrote}
use party_bridge.Server.{ExchangeServer}
use party_bridge.Exec.{
  Outcome, World, Exec, Pointer, WebSocketClient, Crash, pure, gets, lift, deref, emit, or_return,
  ◌>>=◌, ◌>>◌,
}
use party_bridge.Units.{Number, to_wei}
use party_bridge.Session.Heap.{place_amount, read, write, read_amount}
use party_bridge.Session.Records.{shared, watch_request, fresh}
use party_bridge.Store.Requests.{update_account_watch_request_in_db}
use party_bridge.Notify.{send_status_msg}

-- Whether the session has ended when the messages are used up.
pub data Standing : Type 0 where
  listening left : Standing

-- The deferred end runs where the session panics, but not where the process exits or its stack
-- is full.
unfoldable pub unwinds : Crash → Bool
unwinds Crash.nil_dereference = true
unwinds Crash.out_of_range = true
unwinds Crash.panicked = true
unwinds Crash.stack_overflow = false
unwinds Crash.exit = false

module _ {p : Platform} where
  -- `log.Fatal` on an error
  abbrev pub or_exit : Result ℕ → Exec p ℕ
  or_exit (ok key) w = (Outcome.ret key, w)
  or_exit (err e) w = (Outcome.crash Crash.exit, w)

  -- `crypto.GenerateKey()`; an error ends the process
  unfoldable pub generate_evm_account : Exec p ℕ
  generate_evm_account = do
    key ← gets (λ w. p.generate_key w.trace)
    emit generated_key
    or_exit key

  -- `if client.acc == nil { … }`
  unfoldable pub account_of : Option ℕ → Exec p ℕ
  unfolding generate_evm_account
  account_of none = generate_evm_account
  account_of (some acc) = pure acc

  -- encode and write; `false` is an encoding that fails
  unfoldable pub write_json : String → WsMessage → Exec p Bool
  write_json sid m =
      or_return false (do text ← lift (p.marshal_message m); emit (wrote sid text); pure true)

  module _ (e : ExchangeServer) (client : WebSocketClient) where
    -- The address to pay to and the amount with the fee, which is added to the shared amount;
    -- `none` ends the session.
    unfoldable pub answer : BridgeRequest Pointer → Pointer → ℤ → Exec p (Option WebSocketClient)
    unfolding account_of write write_json to_wei
    answer asks at asked = do
      acc ← account_of client.acc
      write at (asked +ℤ to_wei p (Number.int e.fee) (pos 18))
      sent ← write_json client.sid (
          WsMessage.response (record {
            kind = "requestBridgeResponse";
            amount = some (asked +ℤ to_wei p (Number.int e.fee) (pos 18));
            address = p.address_of acc;
          }))
      pure (if sent then some (record client { acc = some acc; request = asks }) else none)

    -- a message of the type `requestBridge`
    unfoldable pub request_bridge : BridgeRequest Pointer → Exec p (Option WebSocketClient)
    unfolding read answer to_wei
    request_bridge asks = do
      at ← deref asks.amount
      asked ← read at
      if not (geb_ℤ asked (to_wei p (Number.int e.minimum_amount) (pos 18))) && not e.dev
          then (do
            send_status_msg client.sid "error" "amount value is less than minimum"
            pure none)
          else answer asks at asked

    -- a message of the type `confirmBridge`
    unfoldable pub confirm_bridge : Exec p (Option WebSocketClient)
    unfolding read_amount watch_request
    confirm_bridge = or_return none (do
      id ← gets (λ w. p.new_uuid w.trace)
      emit drew_uuid
      awrid ← gets (λ w. p.new_uuid w.trace)
      emit drew_uuid
      acc ← deref client.acc
      deadline ← gets (λ w. p.now w.trace)
      emit read_clock
      time ← gets (λ w. p.now w.trace)
      emit read_clock
      amount ← read_amount client.request.amount
      update_account_watch_request_in_db
          (watch_request p e client id awrid acc amount deadline time)
      pure (some client))

    -- one message; its amount is decoded into a new `big.Int`
    unfoldable pub handle_message : RequestBridgeMsg → Exec p (Option WebSocketClient)
    unfolding place_amount request_bridge confirm_bridge
    handle_message req = do
      at ← place_amount req.request.amount
      if str_eq req.kind "requestBridge"
          then request_bridge (shared req.request at)
          else if str_eq req.kind "confirmBridge"
          then confirm_bridge
          else pure (some client)

  -- the deferred end of the session
  unfoldable pub leave : String → Exec p (Unit {0})
  leave sid w =
      (Outcome.ret tt, record w { ws_clients = keep_if (λ c. not (str_eq c.0 sid)) w.ws_clients })

  -- what is left of the session when the part `m` of it returns or dies
  abbrev pub unwind : {A : Type 0} → String → Outcome A → Exec p A
  unwind sid (Outcome.ret a) w = (Outcome.ret a, w)
  unwind sid (Outcome.fail error) w = (Outcome.fail error, (leave sid w).1)
  unwind sid (Outcome.crash c) w = (Outcome.crash c, if unwinds c then (leave sid w).1 else w)

  abbrev pub deferring : {A : Type 0} → String → Exec p A → Exec p A
  deferring sid m w = let (o, w') = m w in unwind sid o w'

  -- the rest of the session, unless it has ended
  abbrev pub proceed :
      String → Option WebSocketClient → (WebSocketClient → Exec p Standing) → Exec p Standing
  proceed sid none rest = do leave sid; pure Standing.left
  proceed sid (some client) rest = rest client

  -- `ReadMessage` in a loop: a text, or `none` for an error
  unfoldable pub handle_client_requests :
      ExchangeServer → WebSocketClient → List (Option String) → Exec p Standing
  unfolding handle_message leave unwinds
  handle_client_requests e client [] = pure Standing.listening
  handle_client_requests e client (none ∷ rest) = do leave client.sid; pure Standing.left
  handle_client_requests e client (some text ∷ rest) = do
    next ← deferring client.sid (handle_message e client (p.unmarshal_request text))
    proceed client.sid next (λ client'. handle_client_requests e client' rest)

  -- `e.wsClients[sid] = client`
  unfoldable pub enter : WebSocketClient → Exec p (Unit {0})
  enter client w = (
    Outcome.ret tt,
    record w {
      ws_clients = (client.sid, client) ∷ keep_if (λ c. not (str_eq c.0 client.sid)) w.ws_clients;
    },
  )

  -- The start of a session, with the error of the upgrade: what goes on to `handleClientRequests`,
  -- if anything does. A greeting that cannot be encoded leaves the client in the map.
  unfoldable pub handle_web_socket_connection :
      ExchangeServer → Option String → Exec p (Option WebSocketClient)
  unfolding write_json enter fresh
  handle_web_socket_connection e (some bad) = pure none
  handle_web_socket_connection e none = do
    sid ← gets (λ w. p.new_uuid w.trace)
    emit drew_uuid
    enter (fresh sid)
    sent ← write_json sid (
        WsMessage.hello
          (record { kind = "hello"; sid = sid; fee = e.fee; minimum_amount = e.minimum_amount }))
    pure (if sent then some (fresh sid) else none)
