-- ===== src/System/Cleanup.antt =====
-- pkg/adapter.go: the deferred end of `handleClientRequests`, by how the session ends.
use mathlib.Core.Path.{subst}
use party_bridge.Base.{
  ℕ, String, Bool, true, false, Option, none, some, List, [], ◌∷◌, ◌≡◌, refl, if◌then◌else◌,
}
use party_bridge.Base.Int.{ℤ}
use party_bridge.Base.Text.{str_eq}
use party_bridge.Types.{BridgeRequest}
use party_bridge.Messages.{RequestBridgeMsg}
use party_bridge.Platform.{Platform}
use party_bridge.Server.{ExchangeServer}
use party_bridge.Exec.{
  World, Exec, Outcome, ret, fail, crash, continue, WebSocketClient, Pointer, Crash,
}
use party_bridge.Notify.{find_client, send_status_msg}
use party_bridge.Session.{
  Standing, account_of, write_json, answer, request_bridge, handle_message, leave, unwinds, unwind,
  proceed, handle_client_requests,
}
use party_bridge.Session.Heap.{place_amount, read, write}
use party_bridge.Session.Records.{shared}
use party_bridge.Session.Refusals.{find_client-keep_if}
use party_bridge.System.Confirms.{confirm_bridge-Returns}
use party_bridge.System.Returns.{
  Returns, Returns-pure, Returns-if, Returns-bind, Returns-then, Returns-bind_or_die,
}

-- The session that goes on is the same one.
abbrev KeepsSid : String → Option WebSocketClient → Type 0
KeepsSid sid next = (client' : WebSocketClient) → next ≡ some client' → client'.sid ≡ sid

over : {sid : String} → KeepsSid sid none
over client' e = absurd (cc e)

same_sid : {sid : String} {next : WebSocketClient} → next.sid ≡ sid → KeepsSid sid (some next)
same_sid {next = next} same client' e = let found : next ≡ client' = cc e in rw (← found) same

-- How a session stands: it listens for the next message, it has exited the process or filled the
-- stack, or the client is no longer among those of the server.
pub data Ends {p : Platform} (sid : String) (w : World p) : Outcome Standing → Type 0 where
  listens : Ends sid w (ret Standing.listening)
  exits : Ends sid w (crash Crash.exit)
  overflows : Ends sid w (crash Crash.stack_overflow)
  gone : {o : Outcome Standing} → find_client sid w.ws_clients ≡ none → Ends sid w o

module _ {p : Platform} (e : ExchangeServer) where
  module _ (client : WebSocketClient) where
    answer-KeepsSid :
        (asks : BridgeRequest Pointer) (at : Pointer) (asked : ℤ)
        → Returns {p = p} (KeepsSid client.sid) (answer e client asks at asked)
    unfolding answer
    answer-KeepsSid asks at asked = Returns-bind (account_of client.acc) (λ acc.
        Returns-then (write at _)
          (Returns-bind (write_json client.sid _) (λ sent. Returns-pure _ (go acc sent))))
      where
        go :
            (acc : ℕ) (sent : Bool)
            → KeepsSid client.sid
                (if sent then some (record client { acc = some acc; request = asks }) else none)
        go acc true = same_sid refl
        go acc false = over

    request-KeepsSid :
        (asks : BridgeRequest Pointer)
        → Returns {p = p} (KeepsSid client.sid) (request_bridge e client asks)
    unfolding request_bridge
    request-KeepsSid asks = Returns-bind_or_die Crash.nil_dereference asks.amount (λ at there.
        Returns-bind (read at) (λ asked.
          Returns-if _ (Returns-then (send_status_msg client.sid _ _) (Returns-pure none over))
            (answer-KeepsSid asks at asked)))

    handle-KeepsSid :
        (req : RequestBridgeMsg)
        → Returns {p = p} (KeepsSid client.sid) (handle_message e client req)
    unfolding handle_message
    handle-KeepsSid req = Returns-bind (place_amount req.request.amount) (λ at.
        Returns-if (str_eq req.kind "requestBridge") (request-KeepsSid (shared req.request at)) (
          Returns-if (str_eq req.kind "confirmBridge")
            (confirm_bridge-Returns e client over (same_sid refl))
            (Returns-pure (some client) (same_sid refl))))

  is_gone : (sid : String) (w : World p) → find_client sid (leave sid w).1.ws_clients ≡ none
  unfolding leave
  is_gone sid w = find_client-keep_if sid w.ws_clients

  -- from the return of a message's part on
  rest-Ends :
      (client : WebSocketClient) (o : Outcome (Option WebSocketClient)) (w : World p)
      (rest : WebSocketClient → Exec p Standing)
      → ((next : Option WebSocketClient) → o ≡ ret next → KeepsSid client.sid next)
      → ((client' : WebSocketClient) (v : World p)
          → Ends client'.sid (rest client' v).1 (rest client' v).0)
      → let (u, v) = unwind client.sid o w in
        let done = continue u (λ next. proceed client.sid next rest) v in
        Ends client.sid done.1 done.0
  unfolding unwinds leave
  rest-Ends client (ret none) w rest keeps k = gone (is_gone client.sid w)
  rest-Ends client (ret (some client')) w rest keeps k =
      subst (λ sid. Ends sid (rest client' w).1 (rest client' w).0)
        (keeps (some client') refl client' refl) (k client' w)
  rest-Ends client (fail error) w rest keeps k = gone (is_gone client.sid w)
  rest-Ends client (crash Crash.nil_dereference) w rest keeps k = gone (is_gone client.sid w)
  rest-Ends client (crash Crash.out_of_range) w rest keeps k = gone (is_gone client.sid w)
  rest-Ends client (crash Crash.panicked) w rest keeps k = gone (is_gone client.sid w)
  rest-Ends client (crash Crash.stack_overflow) w rest keeps k = overflows
  rest-Ends client (crash Crash.exit) w rest keeps k = exits

  -- Whatever messages a client sends, and whatever the outside answers to what the session does
  -- with them, at the end the session is waiting for the next message, or it has exited the process
  -- or filled the stack, or the client is no longer among those of the server, also where the
  -- session ends in a panic.
  pub session-Ends :
      (client : WebSocketClient) (messages : List (Option String)) (w : World p)
      → Ends client.sid
          (handle_client_requests e client messages w).1
          (handle_client_requests e client messages w).0
  unfolding handle_client_requests
  session-Ends client [] w = listens
  session-Ends client (none ∷ rest) w = gone (is_gone client.sid w)
  session-Ends client (some text ∷ rest) w =
      rest-Ends client (handle_message e client (p.unmarshal_request text) w).0
        (handle_message e client (p.unmarshal_request text) w).1
        (λ client'. handle_client_requests e client' rest)
        (λ next run. (handle-KeepsSid client (p.unmarshal_request text)).value w next run)
        (λ client' v. session-Ends client' rest v)
