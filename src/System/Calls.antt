-- ===== src/System/Calls.antt =====
-- pkg/shim.go, pkg/helper.go and pkg/adapter.go: the reports, the requests to a shim and the calls of
-- `Dispatch` as steps of the program, whatever is answered and however they end.
use party_bridge.Base.{ℕ, zero, suc, String, Option, none, some, refl, ◌≡◌}
use party_bridge.Base.Text.{contains}
use party_bridge.Types.{AccountWatchRequestResult, BridgeStorage}
use party_bridge.Messages.{WsMessage}
use party_bridge.Platform.{Platform, ok, posted}
use party_bridge.Server.{ExchangeServer}
use party_bridge.Exec.{World, Crash, emit, WebSocketClient, pure}
use party_bridge.Base.Int.{ℤ}
use party_bridge.Store.Requests.{remove_account_watch_request_from_db}
use party_bridge.Store.Accounts.{retrieve_bridge_account, update_bridge_account_in_db}
use party_bridge.Shim.{
  mint_body, transfer_body, load_certificates, send, request_to_mint_wrapped_currency, settle, pay,
  request_to_transfer_coin_on_chain_from_shim,
}
use party_bridge.Dispatch.{create_bridge_request, conclude}
use party_bridge.System.Unchanged.{retrieve_same}
use party_bridge.Notify.{
  find_client, write_message, send_status_msg, bridge_requests_inc, bridge_requests_duration_set,
}
use party_bridge.System.{IsFor, ask, remove, charge, stay}
use party_bridge.System.Follows.{
  Follows, one, IsStable, Follows-emit, Follows-check, Follows-fatal, Follows-when, Follows-pure,
  Follows-throw, Follows-die, Follows-gets, Follows-lift, Follows-bind_lift, Follows-or_die,
  Follows-check_nil, Follows-if, Follows-on_error, Follows-or_return, Follows-bind, Follows-then,
  Follows-or_else,
}

pub ruleset follows_rules = (
  refl, Follows-emit, Follows-check, Follows-fatal, Follows-when, Follows-pure, Follows-throw,
  Follows-die, Follows-gets, Follows-lift, Follows-or_die, Follows-check_nil, Follows-if,
  Follows-on_error, Follows-or_return, Follows-bind, Follows-then, Follows-or_else,
)

module _ {p : Platform} {asks : String → Type 0} {P : World p → Type 0} (stable : IsStable P) where
  pub write_message-Follows : (sid : String) (m : WsMessage) → Follows asks P (write_message sid m)
  unfolding write_message
  write_message-Follows sid m = search (follows_rules, stable)

  pub send_status_msg-Follows :
      (sid kind message : String) → Follows asks P (send_status_msg sid kind message)
  unfolding send_status_msg
  send_status_msg-Follows sid kind message =
      Follows-bind stable (Follows-gets (λ w. find_client sid w.ws_clients)) found
    where
      found :
          (client : Option WebSocketClient)
          → Follows asks P (elim client [
            | none ↦ pure tt
            | some c ↦
                write_message c.sid (WsMessage.status (record { kind = kind; message = message }))
          ])
      found none = Follows-pure tt
      found (some c) = write_message-Follows c.sid _

  pub bridge_requests_inc-Follows :
      (status : String) (awrr : AccountWatchRequestResult)
      → Follows asks P (bridge_requests_inc status awrr)
  unfolding bridge_requests_inc
  bridge_requests_inc-Follows status awrr = search follows_rules

  bridge_requests_duration_set-Follows :
      (awrr : AccountWatchRequestResult) → Follows asks P (bridge_requests_duration_set awrr)
  unfolding bridge_requests_duration_set
  bridge_requests_duration_set-Follows awrr = search (follows_rules, stable)

  load_certificates-Follows : (e : ExchangeServer) → Follows asks P (load_certificates e)
  unfolding load_certificates
  load_certificates-Follows e = search (follows_rules, stable)

  send-Follows : (text : String) → asks text → (url : String) → Follows asks P (send url text)
  unfolding send
  send-Follows text asked url =
      Follows-bind stable (Follows-gets (λ w. p.post w.trace url text)) (λ reply.
        Follows-then stable {m = emit (posted url text)}
          (record { at = λ w h. one (ask url text asked) }) (Follows-lift reply))

  charge-Follows :
      (id : String) (amount : Option ℤ) → Follows asks P (update_bridge_account_in_db id amount)
  charge-Follows id amount = record { at = λ w h. one (charge id amount) }

  pub remove-Follows : (id : String) → Follows asks P (remove_account_watch_request_from_db id)
  remove-Follows id = record { at = λ w h. one (remove id) }

  settle-Follows :
      (awrr : AccountWatchRequestResult) (bs : Option BridgeStorage)
      → Follows asks P (settle awrr bs)
  unfolding settle
  settle-Follows awrr bs = search (follows_rules, stable, charge-Follows)

  retrieve-Follows :
      (awrr : AccountWatchRequestResult) → Follows asks P (retrieve_bridge_account awrr)
  retrieve-Follows awrr = record { at = λ w h. rw (retrieve_same awrr w) stay }

  pub conclude-Follows :
      (room : ℕ) (e : ExchangeServer) (awrr : AccountWatchRequestResult)
      → Follows asks P (conclude room e awrr)
  unfolding conclude
  conclude-Follows room e awrr =
      search
        (
          follows_rules, stable, bridge_requests_duration_set-Follows, bridge_requests_inc-Follows,
          send_status_msg-Follows, remove-Follows,
        )
        depth 12

-- The requests to a shim are for the watch request.
module _ {p : Platform} {P : World p → Type 0} (stable : IsStable P) where
  module _ (e : ExchangeServer) (awrr : AccountWatchRequestResult) where
    abbrev Due : String → Type 0
    Due = IsFor p awrr.account_watch_request

    body-IsFor :
        (bs : Option BridgeStorage) (text : String)
        → p.marshal_mint (transfer_body awrr bs) ≡ ok text
        → Due text
    unfolding transfer_body mint_body
    body-IsFor none text encoded = record {
      body = mint_body awrr;
      encoded = encoded;
      same_amount = refl;
      same_address = refl;
      same_session = refl;
    }
    body-IsFor (some bs) text encoded = record {
      body = transfer_body awrr (some bs);
      encoded = encoded;
      same_amount = refl;
      same_address = refl;
      same_session = refl;
    }

    send_body-Follows :
        (bs : Option BridgeStorage) (text : String)
        → p.marshal_mint (transfer_body awrr bs) ≡ ok text
        → (url : String) → Follows Due P (send url text)
    send_body-Follows bs text encoded =
        send-Follows {asks = Due} stable text (body-IsFor bs text encoded)

    pub mint-Follows : Follows Due P (request_to_mint_wrapped_currency e awrr)
    unfolding request_to_mint_wrapped_currency transfer_body
    mint-Follows = Follows-bind_lift (p.marshal_mint (mint_body awrr)) (λ jsn encoded.
        search
          (
            follows_rules,
            stable,
            load_certificates-Follows stable,
            send_body-Follows none jsn encoded,
          )
          depth 12)

    pay-Follows :
        (bs : Option BridgeStorage) (jsn : String)
        → p.marshal_mint (transfer_body awrr bs) ≡ ok jsn
        → (url : String) → Follows Due P (pay awrr bs url jsn)
    unfolding pay
    pay-Follows bs jsn encoded url =
        search (follows_rules, stable, send_body-Follows bs jsn encoded, settle-Follows stable)

    transfer-Follows :
        (room : ℕ) → Follows Due P (request_to_transfer_coin_on_chain_from_shim room e awrr)
    unfolding request_to_transfer_coin_on_chain_from_shim
    transfer-Follows zero = Follows-die Crash.stack_overflow
    transfer-Follows (suc room) =
        Follows-then stable (Follows-check_nil awrr.account_watch_request.amount "amount is nil") (
          Follows-bind stable (retrieve-Follows stable awrr) (λ bs.
            Follows-bind_lift (p.marshal_mint (transfer_body awrr bs)) (λ jsn encoded.
              Follows-then stable (load_certificates-Follows stable e) (
                Follows-on_error _
                  (λ bad.
                    Follows-if (contains bad "insufficient balance") (transfer-Follows room)
                      (Follows-throw bad))
                  (pay-Follows bs jsn encoded _)))))

    pub create-Follows : (room : ℕ) → Follows Due P (create_bridge_request room e awrr)
    unfolding create_bridge_request
    create-Follows room = search (follows_rules, mint-Follows, transfer-Follows) depth 12
