-- ===== src/Session/Refusals.antt =====
-- pkg/adapter.go `handleClientRequests`: orders that are refused, and messages that end the
-- process.
use party_bridge.Base.{
  String, false, not, Option, none, some, List, [], ◌∷◌, ◌++◌, ◌≡◌, refl, arith, keep_if,
  get_elem?-append,
}
use party_bridge.Base.Int.{ℤ, pos, geb_ℤ}
use party_bridge.Base.Text.{str_eq}
use party_bridge.Types.{BridgeRequest}
use party_bridge.Platform.{Platform, drew_uuid}
use party_bridge.Server.{ExchangeServer}
use party_bridge.Exec.{World, Crash, ret, crash, WebSocketClient}
use party_bridge.Notify.{find_client}
use party_bridge.Dispatch.Effects.{send_status_msg-Tells}
use party_bridge.Session.{
  Standing, request_bridge, confirm_bridge, handle_message, leave, unwinds, handle_client_requests,
}
use party_bridge.Session.Heap.{place, place_amount, read}
use party_bridge.Units.{to_wei, Number}

pub find_client-keep_if :
    (sid : String) (cs : List (String × WebSocketClient))
    → find_client sid (keep_if (λ c. not (str_eq c.0 sid)) cs) ≡ none
unfolding find_client
find_client-keep_if sid [] = refl
find_client-keep_if sid ((j, c) ∷ cs) = ground (arith, find_client-keep_if sid cs)

-- the world without the client
abbrev left : {p : Platform} → WebSocketClient → World p → World p
left client v = record v { ws_clients = keep_if (λ c. not (str_eq c.0 client.sid)) v.ws_clients }

module _ {p : Platform} (e : ExchangeServer) (client : WebSocketClient) (w : World p)
    {text : String} {r : BridgeRequest ℤ} (rest : List (Option String)) where
  -- Outside development mode, an order below the minimum ends the session: the store is as it was,
  -- and the client is no longer among the server's clients.
  pub order_too_small :
      {x : ℤ}
      → p.unmarshal_request text ≡ record { kind = "requestBridge"; request = r }
      → r.amount ≡ some x
      → geb_ℤ x (to_wei p (Number.int e.minimum_amount) (pos 18)) ≡ false
      → e.dev ≡ false
      → (after : World p) × (handle_client_requests e client (some text ∷ rest) w
          ≡ (ret Standing.left, after))
        × (after.db ≡ w.db)
        × (find_client client.sid after.ws_clients ≡ none)
  unfolding handle_client_requests handle_message place_amount place request_bridge read leave
  order_too_small {x} orders some_amount small strict =
      let w1 : World p = record w { heap = w.heap ++ x ∷ [] } in
      let told = send_status_msg-Tells client.sid "error" "amount value is less than minimum" w1 in
      (
        record w1 {
          trace = told.new ++ w.trace;
          ws_clients = keep_if (λ c. not (str_eq c.0 client.sid)) w.ws_clients;
        },
        rw orders (
            simp (some_amount, strict)
              (rw (get_elem?-append w.heap [] x) (rw small (rw told.runs refl)))),
        refl,
        find_client-keep_if client.sid w.ws_clients,
      )

  -- An order without an amount kills the process by a nil pointer; the client was taken out of the
  -- map before, and nothing else has changed.
  pub order_without_amount :
      p.unmarshal_request text ≡ record { kind = "requestBridge"; request = r }
      → r.amount ≡ none
      → handle_client_requests e client (some text ∷ rest) w
        ≡ (crash Crash.nil_dereference, left client w)
  unfolding handle_client_requests handle_message place_amount request_bridge leave unwinds
  order_without_amount orders no_amount = rw orders (simp no_amount)

  -- A confirmation without an amount in a session without a key kills the process by a nil pointer,
  -- after two ids were drawn and the client was taken out of the map, and nothing else has changed.
  pub confirm_without_order :
      p.unmarshal_request text ≡ record { kind = "confirmBridge"; request = r }
      → r.amount ≡ none
      → client.acc ≡ none
      → handle_client_requests e client (some text ∷ rest) w ≡ (
        crash Crash.nil_dereference,
        left client (record w { trace = drew_uuid ∷ drew_uuid ∷ w.trace }),
      )
  unfolding handle_client_requests handle_message place_amount confirm_bridge leave unwinds
  confirm_without_order confirms no_amount no_key = rw confirms (simp (no_amount, no_key))
