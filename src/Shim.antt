-- ===== src/Shim.antt =====
-- pkg/shim.go: the requests to the shim servers, which mint wrapped tokens and pay out coins.
pub mod Requests
use party_bridge.Base.{
  ℕ, zero, suc, String, Bool, true, false, Option, none, some, List, [], ◌∷◌, ◌==◌, if◌then◌else◌,
}
use party_bridge.Base.Text.{str_eq, concat, contains}
use party_bridge.Types.{
  AccountWatchRequestResult, AssistedTradeOrderInformation, BridgeStorage, MintRequest, grams, octa,
  bscusdt,
}
use party_bridge.Platform.{Platform, Event, posted, Result, ok, err}
use party_bridge.Server.{ExchangeServer}
use party_bridge.Exec.{
  World, Exec, Crash, pure, throw, die, gets, lift, deref, emit, check, check_nil, on_error, fatal,
  or_else, ◌>>=◌, ◌>>◌,
}
use party_bridge.Store.Accounts.{retrieve_bridge_account, update_bridge_account_in_db}

-- the `switch` of `requestToMintWrappedCurrency`
unfoldable pub mint_address : ExchangeServer → String → String → Result String
mint_address e currency bridge_to =
    if str_eq currency octa
    then ok e.octa_shim_server_address
    else if str_eq currency grams
    then ok e.grams_shim_server_address
    else if str_eq currency bscusdt
    then (if str_eq bridge_to grams
        then ok e.bsc_usdt_on_party_chain_shim_server_address
        else if str_eq bridge_to octa
        then ok e.bsc_usdt_on_octa_space_shim_server_address
        else err (concat ("bridge to chain does not support BSCUSDT: " ∷ bridge_to ∷ [])))
    else ok ""

-- the `switch` of `requestToTransferCoinOnChainFromShim`: the server and the endpoint
unfoldable pub transfer_address : ExchangeServer → String → String → String × String
transfer_address e bridge_to bridge_from =
    if str_eq bridge_to grams
    then (e.grams_shim_server_address, "/transfer")
    else if str_eq bridge_to octa
    then (e.octa_shim_server_address, "/transfer")
    else if str_eq bridge_to bscusdt
    then (if str_eq bridge_from grams
        then (e.bsc_usdt_on_party_chain_shim_server_address, "/transferBSCUSDT")
        else if str_eq bridge_from octa
        then (e.bsc_usdt_on_octa_space_shim_server_address, "/transferBSCUSDT")
        else ("", ""))
    else ("", "")

unfoldable pub mint_body : AccountWatchRequestResult → MintRequest
mint_body awrr = record {
  to_address = awr.assisted_sell_order_information.seller_shipping_address;
  amount = awr.amount;
  from_pk = "";
  sid = awr.ws_client_id;
}
  where
    open awrr use {account_watch_request as awr}

-- The key of the account pays, if there is one.
unfoldable pub transfer_body : AccountWatchRequestResult → Option BridgeStorage → MintRequest
unfolding mint_body
transfer_body awrr none = mint_body awrr
transfer_body awrr (some bs) = record (mint_body awrr) { from_pk = bs.private_key }

abbrev pub mint_url : String → String
mint_url address = concat ("https://" ∷ address ∷ "/mint" ∷ [])

abbrev pub transfer_url : String × String → String
transfer_url (address, endpoint) = concat ("https://" ∷ address ∷ endpoint ∷ [])

module _ {p : Platform} where
  -- the client certificate and the CA certificate
  unfoldable pub load_certificates : ExchangeServer → Exec p (Unit {0})
  load_certificates e = do
    bad_pair ← gets (λ w.
        p.load_key_pair w.trace (concat (e.shim_cert_location ∷ "/client.crt" ∷ []))
          (concat (e.shim_cert_location ∷ "/client.key" ∷ [])))
    fatal bad_pair
    bad_file ← gets (λ w. p.read_file w.trace (concat (e.shim_cert_location ∷ "/ca.crt" ∷ [])))
    fatal bad_file

  -- `client.Do(req)`
  unfoldable pub send : String → String → Exec p ℕ
  send url body = do reply ← gets (λ w. p.post w.trace url body); emit (posted url body); lift reply

  unfoldable pub request_to_mint_wrapped_currency :
      ExchangeServer → AccountWatchRequestResult → Exec p (Unit {0})
  request_to_mint_wrapped_currency e awrr = do
    jsn ← lift (p.marshal_mint (mint_body awrr))
    address ← lift (mint_address e info.currency info.bridge_to)
    load_certificates e
    check (p.new_request (mint_url address))
    status ← send (mint_url address) jsn
    check (if status == 500 then some "failed to mint" else none)
    where
      open awrr.account_watch_request use {assisted_sell_order_information as info}

  -- after the shim has paid: the account is charged, and a failure is only logged
  unfoldable pub settle : AccountWatchRequestResult → Option BridgeStorage → Exec p (Unit {0})
  settle awrr bs = do
    account ← deref bs
    or_else (update_bridge_account_in_db account.id awrr.account_watch_request.amount)
        (λ e. pure tt)

  -- from the response on
  unfoldable pub pay :
      AccountWatchRequestResult → Option BridgeStorage → String → String → Exec p (Unit {0})
  pay awrr bs url jsn = do
    status ← send url jsn
    check (if status == 500 then some "failed to transfer native asset  on chain" else none)
    settle awrr bs

  -- The call repeats itself when `http.NewRequest` fails with a text that holds "insufficient
  -- balance". The first argument is how many calls the stack still has room for.
  unfoldable pub request_to_transfer_coin_on_chain_from_shim :
      ℕ → ExchangeServer → AccountWatchRequestResult → Exec p (Unit {0})
  request_to_transfer_coin_on_chain_from_shim zero e awrr = die Crash.stack_overflow
  request_to_transfer_coin_on_chain_from_shim (suc room) e awrr =
      let again = request_to_transfer_coin_on_chain_from_shim room e awrr in
      do
        check_nil awrr.account_watch_request.amount "amount is nil"
        bs ← retrieve_bridge_account awrr
        jsn ← lift (p.marshal_mint (transfer_body awrr bs))
        load_certificates e
        let url = transfer_url (transfer_address e info.bridge_to info.bridge_from)
        on_error (p.new_request url)
            (λ bad. if contains bad "insufficient balance" then again else throw bad)
            (pay awrr bs url jsn)
    where
      open awrr.account_watch_request use {assisted_sell_order_information as info}
