-- ===== src/Notify.antt =====
-- pkg/adapter.go `sendStatusMsg` and pkg/metrics.go: what the client and the metrics are told.
use party_bridge.Base.{String, Option, none, some, List, [], ◌∷◌, if◌then◌else◌}
use party_bridge.Base.Int.{ℤ, pos, negsuc, leb_ℤ, ◌-ℤ◌}
use party_bridge.Base.Text.{str_eq}
use party_bridge.Types.{AccountWatchRequestResult}
use party_bridge.Messages.{WsMessage}
use party_bridge.Platform.{Platform, wrote, counted, timed, read_clock}
use party_bridge.Exec.{Exec, WebSocketClient, pure, gets, lift, emit, or_else, ◌>>=◌, ◌>>◌}

-- `client, ok := e.wsClients[SID]`
unfoldable pub find_client : String → List (String × WebSocketClient) → Option WebSocketClient
find_client sid [] = none
find_client sid ((j, c) ∷ rest) = if str_eq j sid then some c else find_client sid rest

-- `t.Sub(u)`: a duration of 64 bits, at its bounds where the difference is beyond them
unfoldable pub sub_time : ℤ → ℤ → ℤ
sub_time t u =
    if leb_ℤ (pos 9_223_372_036_854_775_807) (t -ℤ u)
    then pos 9_223_372_036_854_775_807
    else if leb_ℤ (t -ℤ u) (negsuc 9_223_372_036_854_775_807)
    then negsuc 9_223_372_036_854_775_807
    else t -ℤ u

module _ {p : Platform} where
  -- encode and write; a failure is only logged
  unfoldable pub write_message : String → WsMessage → Exec p (Unit {0})
  write_message sid m =
      or_else (do text ← lift (p.marshal_message m); emit (wrote sid text)) (λ e. pure tt)

  unfoldable pub send_status_msg : String → String → String → Exec p (Unit {0})
  unfolding write_message
  send_status_msg sid kind message = do
    client ← gets (λ w. find_client sid w.ws_clients)
    elim client [
      | none ↦ pure tt
      | some c ↦ write_message c.sid (WsMessage.status (record { kind = kind; message = message }))
    ]

  unfoldable pub bridge_requests_inc : String → AccountWatchRequestResult → Exec p (Unit {0})
  bridge_requests_inc status awrr = emit (counted status info.currency chain info.bridge_to)
    where
      open awrr.account_watch_request use {chain, assisted_sell_order_information as info}

  unfoldable pub bridge_requests_duration_set : AccountWatchRequestResult → Exec p (Unit {0})
  unfolding sub_time
  bridge_requests_duration_set awrr = do
    time ← gets (λ w. p.now w.trace)
    emit read_clock
    emit (timed info.currency chain info.bridge_to (sub_time time created_time))
    where
      open awrr.account_watch_request use {
        chain, created_time, assisted_sell_order_information as info,
      }
