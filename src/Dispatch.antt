-- ===== src/Dispatch.antt =====
-- pkg/helper.go: what happens once a watch has ended. A payment is booked, the shim is asked to
-- mint or to pay out, and the request is taken off the list.
pub mod Effects
pub mod Routes
pub mod Conclude
pub mod Deposit
pub mod Twice
pub mod Payout
use party_bridge.Base.{ℕ, String, Bool, ◌&&◌, ◌||◌, List, [], ◌∷◌, if◌then◌else◌}
use party_bridge.Base.Text.{str_eq, concat}
use party_bridge.Types.{AccountWatchRequestResult, grams, octa, bscusdt, wgrams, wocta}
use party_bridge.Platform.{Platform}
use party_bridge.Server.{ExchangeServer}
use party_bridge.Exec.{World, Exec, pure, throw, or_else, when, ◌>>=◌, ◌>>◌}
use party_bridge.Store.Requests.{remove_account_watch_request_from_db}
use party_bridge.Store.Accounts.{store_bridge_account}
use party_bridge.Shim.{
  request_to_mint_wrapped_currency, request_to_transfer_coin_on_chain_from_shim,
}
use party_bridge.Notify.{send_status_msg, bridge_requests_inc, bridge_requests_duration_set}

abbrev pub support_message : AccountWatchRequestResult → String
support_message awrr = concat (
    "There was a bridge failure. Please provide this id to support: "
    ∷ awrr.account_watch_request.transaction_id ∷ [])

-- A payment in the coins of a chain, and not in wrapped ones, is kept by the bridge.
unfoldable pub is_deposit : AccountWatchRequestResult → Bool
is_deposit awrr =
    str_eq awrr.result "success"
    && (str_eq info.currency "grams"
        || str_eq info.currency "octa"
        || str_eq info.currency "bscusdt")
  where
    open awrr.account_watch_request use {assisted_sell_order_information as info}

module _ {p : Platform} (room : ℕ) (e : ExchangeServer) (awrr : AccountWatchRequestResult) where
  open awrr.account_watch_request use {
    transaction_id, ws_client_id, assisted_sell_order_information as info,
  }

  mint : Exec p (Unit {0})
  mint = request_to_mint_wrapped_currency e awrr

  pay_out : Exec p (Unit {0})
  pay_out = request_to_transfer_coin_on_chain_from_shim room e awrr

  unfoldable pub create_bridge_request : Exec p (Unit {0})
  unfolding mint pay_out
  create_bridge_request =
      if str_eq info.bridge_to octa
      then (if str_eq info.currency grams
          then mint
          else if str_eq info.currency wocta
          then pay_out
          else if str_eq info.currency bscusdt
          then mint
          else throw (concat ("unsupported currency: " ∷ info.currency ∷ [])))
      else if str_eq info.bridge_to grams
      then (if str_eq info.currency octa
          then mint
          else if str_eq info.currency wgrams
          then pay_out
          else if str_eq info.currency bscusdt
          then mint
          else throw (concat ("unsupported currency: " ∷ info.currency ∷ [])))
      else if str_eq info.bridge_to bscusdt
      then (if str_eq info.bridge_from octa
          then pay_out
          else if str_eq info.bridge_from grams
          then pay_out
          else throw (concat ("unsupported bridge from: " ∷ info.bridge_from ∷ [])))
      else throw (concat ("unsupported bridge to: " ∷ info.bridge_to ∷ []))

  -- the reports of a success, and the removal
  unfoldable pub conclude : Exec p (Unit {0})
  conclude = do
    bridge_requests_duration_set awrr
    bridge_requests_inc "success" awrr
    send_status_msg ws_client_id "success" "The bridge reported a success"
    remove_account_watch_request_from_db transaction_id

  unfoldable pub dispatch : Exec p (Unit {0})
  dispatch = do
    when (is_deposit awrr) (
        or_else (store_bridge_account awrr)
          (λ error. do send_status_msg ws_client_id "error" (support_message awrr); throw error))
    or_else create_bridge_request (λ error. do
      bridge_requests_inc "failed" awrr
      send_status_msg ws_client_id "error" (support_message awrr)
      throw error)
    conclude
