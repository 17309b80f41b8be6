-- ===== src/Examples/Sessions.antt =====
-- The theorems on a client's session, at concrete messages.
use party_bridge.Base.{ℕ, some, none, [], ◌∷◌, ◌≡◌, refl, length, List}
use party_bridge.Base.Int.{ℤ, pos}
use party_bridge.Base.Text.{codes}
use party_bridge.Types.{AccountWatchRequest, BridgeRequest}
use party_bridge.Exec.{World, ret, WebSocketClient}
use party_bridge.Notify.{find_client}
use party_bridge.Store.Tables.{Tables}
use party_bridge.Session.{Standing, handle_client_requests}
use party_bridge.Session.Records.{watch_request}
use party_bridge.Units.{to_wei}
use party_bridge.Session.Orders.{stored}
use party_bridge.Session.Sent.{order_is_sent}
use party_bridge.Lifecycle.Restart.{IsIn}
use party_bridge.Warren.{start_warren_tick}
use party_bridge.Session.Refusals.{order_too_small}
use party_bridge.Examples.Fake.{platform, works}
use party_bridge.Examples.{server, order, request, world, world-Represents}

abbrev client : WebSocketClient
client = record {
  sid = "s1";
  acc = none;
  request = record {
    currency = "";
    amount = none;
    from_chain = "";
    bridge_to = "";
    shipping_address = "";
    tx_id = "";
  };
}

abbrev tables : Tables
tables = record {
  requests = request "other" (pos 25) (order "grams" "octa" "octa") ∷ [];
  accounts = [];
  failed = [];
}

abbrev w : World platform
w = world tables

abbrev asked : BridgeRequest ℤ
asked = (platform.unmarshal_request "requestBridge").request

abbrev uuid : AccountWatchRequest → ℕ
uuid r = length (codes r.awrid)

order_too_small_example :
    (after : World platform) × (handle_client_requests (server "g") client (some "small" ∷ []) w
      ≡ (ret Standing.left, after))
    × (after.db ≡ w.db)
    × (find_client "s1" after.ws_clients ≡ none)
unfolding to_wei
order_too_small_example =
    order_too_small (server "g") client w {text = "small"} [] refl refl refl refl

order_is_sent_example :
    (after : World platform) × (sent : List AccountWatchRequest) × (handle_client_requests
        (server "g")
        client
        (some "requestBridge" ∷ some "confirmBridge" ∷ [])
        w
      ≡ (ret Standing.listening, after))
    × (start_warren_tick after ≡ (ret sent, after))
    × IsIn (stored (server "g") client asked w "message" 7 (pos 40)) sent
unfolding to_wei watch_request
order_is_sent_example =
    order_is_sent works uuid (server "g") client (world-Represents tables) {order = "requestBridge"}
      {confirmation = "confirmBridge"} refl refl refl refl refl refl refl refl (refl, tt)
