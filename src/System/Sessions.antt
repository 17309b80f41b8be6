-- ===== src/System/Sessions.antt =====
-- pkg/adapter.go: whole sessions, new connections and the shutdown as steps of the program, whatever
-- the messages are and however they end.
use party_bridge.Base.{
  String, true, false, ◌≡◌, Option, none, some, List, [], ◌∷◌, refl, if◌then◌else◌,
}
use party_bridge.Base.Text.{str_eq}
use party_bridge.Messages.{WsMessage, RequestBridgeMsg}
use party_bridge.Platform.{Platform, drew_uuid}
use party_bridge.Server.{ExchangeServer}
use party_bridge.Exec.{World, Exec, Outcome, ret, fail, crash, WebSocketClient, Crash}
use party_bridge.Session.{
  Standing, handle_message, proceed, handle_client_requests, enter, handle_web_socket_connection,
  leave, unwinds, unwind, deferring,
}
use party_bridge.Session.Heap.{place_amount}
use party_bridge.Session.Records.{shared, fresh}
use party_bridge.Lifecycle.{panic_on, shutdown}
use party_bridge.System.{Steps, stay, memory, unlock_all, Nothing}
use party_bridge.System.Follows.{
  Follows, one, Steps-append, Follows-pure, Follows-die, Follows-bind, Follows-bind_value,
  Follows-then, Follows-gets, Follows-if, Follows-or_else, Follows-emit,
}
use party_bridge.System.Returns.{Returns, Returns-pure, Returns-if, Returns-bind}
use party_bridge.System.Answers.{
  IsReady, StaysReady, ended, goes_on, Always, always, place_amount-Follows, write_json-Follows,
  leave-Follows, request_bridge-Follows, request_bridge-Returns,
}
use party_bridge.System.Confirms.{confirm_bridge-Follows, confirm_bridge-Returns}

module _ {p : Platform} where
  module _ (e : ExchangeServer) (client : WebSocketClient) where
    handle_message-Follows :
        (req : RequestBridgeMsg)
        → IsReady client
        → Follows Nothing (Always p) (handle_message e client req)
    unfolding handle_message
    handle_message-Follows req ready =
        Follows-bind always (place_amount-Follows req.request.amount) (λ at.
          Follows-if (str_eq req.kind "requestBridge")
            (request_bridge-Follows e client (shared req.request at))
            (Follows-if (str_eq req.kind "confirmBridge") (confirm_bridge-Follows e client ready)
              (Follows-pure (some client))))

    handle_message-Returns :
        (req : RequestBridgeMsg)
        → IsReady client
        → Returns {p = p} StaysReady (handle_message e client req)
    unfolding handle_message
    handle_message-Returns req ready = Returns-bind (place_amount req.request.amount) (λ at.
        Returns-if (str_eq req.kind "requestBridge")
          (request_bridge-Returns e client (shared req.request at))
          (Returns-if (str_eq req.kind "confirmBridge")
            (confirm_bridge-Returns e client ended (goes_on ready))
            (Returns-pure (some client) (goes_on ready))))

  -- a part of a session and, where it panics, the end
  deferring-Follows :
      {A : Type 0} (sid : String) {m : Exec p A}
      → Follows Nothing (Always p) m
      → Follows Nothing (Always p) (deferring sid m)
  deferring-Follows {A} sid {m} f = record {
    at = λ w h. Steps-append (f.at w h) (go (m w).0 (m w).1);
  }
    where
      left : (v : World p) → Steps Nothing v (leave sid v).1
      left v = (leave-Follows sid).at v tt

      go : (o : Outcome A) (v : World p) → Steps Nothing v (unwind sid o v).1
      go (ret a) v = stay
      go (fail error) v = left v
      go (crash c) v =
          elim (unwinds c) as (λ b. Steps Nothing v (if b then (leave sid v).1 else v)) [
            | true ↦ left v
            | false ↦ stay
          ]

  deferring-ret :
      {A : Type 0} (sid : String) (m : Exec p A) (w : World p) (a : A)
      → (deferring sid m w).0 ≡ ret a
      → (m w).0 ≡ ret a
  deferring-ret {A} sid m w a = go (m w).0 (m w).1
    where
      go : (o : Outcome A) (v : World p) → (unwind sid o v).0 ≡ ret a → o ≡ ret a
      go (ret b) v e = e
      go (fail error) v e = absurd (cc e)
      go (crash c) v e = absurd (cc e)

  -- A whole session.
  pub handle_client_requests-Follows :
      (e : ExchangeServer) (client : WebSocketClient) (messages : List (Option String))
      → IsReady client
      → Follows Nothing (Always p) (handle_client_requests e client messages)
  unfolding handle_client_requests
  handle_client_requests-Follows e client [] ready = Follows-pure Standing.listening
  handle_client_requests-Follows e client (none ∷ rest) ready =
      Follows-then always (leave-Follows client.sid) (Follows-pure Standing.left)
  handle_client_requests-Follows e client (some text ∷ rest) ready =
      Follows-bind_value always StaysReady
        (deferring-Follows client.sid
          (handle_message-Follows e client (p.unmarshal_request text) ready))
        (λ w a h run.
          (handle_message-Returns e client (p.unmarshal_request text) ready).value w a
            (deferring-ret client.sid (handle_message e client (p.unmarshal_request text)) w a run))
        (λ next stays.
          onward next stays
            (λ client' ready'. handle_client_requests-Follows e client' rest ready'))
    where
      onward :
          (next : Option WebSocketClient)
          → StaysReady next
          → ((client' : WebSocketClient)
              → IsReady client'
              → Follows Nothing (Always p) (handle_client_requests e client' rest))
          → Follows Nothing
              (Always p)
              (proceed client.sid next (λ client'. handle_client_requests e client' rest))
      onward none stays others =
          Follows-then always (leave-Follows client.sid) (Follows-pure Standing.left)
      onward (some client') stays others = others client' (stays client' refl)

  enter-Follows : (client : WebSocketClient) → Follows Nothing (Always p) (enter client)
  unfolding enter
  enter-Follows client = record { at = λ w h. one (memory _ w.heap) }

  -- The start of one.
  pub connection-Follows :
      (e : ExchangeServer) (bad : Option String)
      → Follows Nothing (Always p) (handle_web_socket_connection e bad)
  unfolding handle_web_socket_connection
  connection-Follows e (some bad) = Follows-pure none
  connection-Follows e none = Follows-bind always (Follows-gets (λ w. p.new_uuid w.trace)) (λ sid.
      Follows-then always (Follows-emit drew_uuid refl) (
        Follows-then always (enter-Follows (fresh sid)) (
          Follows-bind always
            (write_json-Follows sid (
              WsMessage.hello (record {
                kind = "hello";
                sid = sid;
                fee = e.fee;
                minimum_amount = e.minimum_amount;
              })))
            (λ sent. Follows-pure (if sent then some (fresh sid) else none)))))

  -- The end of a pod.
  pub shutdown-Follows :
      (e : ExchangeServer) (server_error : Option String)
      → Follows Nothing (Always p) (shutdown e server_error)
  unfolding shutdown
  shutdown-Follows e server_error =
      Follows-then always
        (Follows-or_else always (record { at = λ w h. one (unlock_all e) })
          (λ bad. Follows-pure tt))
        (panic_on-Follows server_error)
    where
      panic_on-Follows : (error : Option String) → Follows Nothing (Always p) (panic_on e error)
      panic_on-Follows none = Follows-pure tt
      panic_on-Follows (some error) = Follows-die Crash.panicked
