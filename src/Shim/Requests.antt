-- ===== src/Shim/Requests.antt =====
-- pkg/shim.go: one request to a shim server, by the server's reply.
use party_bridge.Base.{
  ℕ, suc, String, false, Option, none, some, List, [], ◌∷◌, ◌≡◌, refl, inl, inr, ◌==◌, Bool-cases,
  if◌then◌else◌,
}
use party_bridge.Base.Int.{ℤ}
use party_bridge.Base.Text.{concat}
use party_bridge.Types.{AccountWatchRequestResult, BridgeStorage, MintRequest}
use party_bridge.Platform.{Platform, Event, posted, ok}
use party_bridge.Server.{ExchangeServer}
use party_bridge.Exec.{World, ret, fail}
use party_bridge.Store.Accounts.{retrieve_bridge_account}
use party_bridge.Shim.{
  mint_url, transfer_url, mint_address, transfer_address, mint_body, transfer_body,
  load_certificates, send, settle, pay, request_to_mint_wrapped_currency,
  request_to_transfer_coin_on_chain_from_shim,
}

-- The certificates are there, the URLs parse, and a request body can be encoded.
pub record IsReady (p : Platform) : Type 0 where
  pub pair_loads : (tr : List Event) (cert key : String) → p.load_key_pair tr cert key ≡ none
  pub file_loads : (tr : List Event) (name : String) → p.read_file tr name ≡ none
  pub request_builds : (url : String) → p.new_request url ≡ none
  pub body : MintRequest → String
  pub encodes : (m : MintRequest) → p.marshal_mint m ≡ ok (body m)

module _ {p : Platform} (ready : IsReady p) (e : ExchangeServer) (awrr : AccountWatchRequestResult)
    (w : World p) where
  open awrr.account_watch_request use {amount, assisted_sell_order_information as info}

  -- the world after a request was sent
  abbrev pub sent : String → String → World p
  sent url text = record w { trace = posted url text ∷ w.trace }

  load_certificates_lem : load_certificates e w ≡ (ret tt, w)
  unfolding load_certificates
  load_certificates_lem =
      rw
        (ready.pair_loads w.trace (concat (e.shim_cert_location ∷ "/client.crt" ∷ []))
          (concat (e.shim_cert_location ∷ "/client.key" ∷ [])))
        (rw (ready.file_loads w.trace (concat (e.shim_cert_location ∷ "/ca.crt" ∷ []))) refl)

  send_lem :
      (url text : String) {status : ℕ}
      → p.post w.trace url text ≡ ok status
      → send url text w ≡ (ret status, sent url text)
  unfolding send
  send_lem url text h = rw h refl

  -- If the certificates and encodings are there, the switch finds the address and the shim answers
  -- with a status, the request to mint is sent once, to that address, and the call returns the
  -- error `failed to mint` if the status is 500, and else no error.
  pub mint_lem :
      {address : String} {status : ℕ}
      → mint_address e info.currency info.bridge_to ≡ ok address
      → p.post w.trace (mint_url address) (ready.body (mint_body awrr)) ≡ ok status
      → request_to_mint_wrapped_currency e awrr w ≡ (
        if status == 500 then fail "failed to mint" else ret tt,
        sent (mint_url address) (ready.body (mint_body awrr)),
      )
  unfolding request_to_mint_wrapped_currency
  mint_lem {address} {status} at reply = rw (ready.encodes (mint_body awrr)) (
      rw at (
        rw load_certificates_lem (
          rw (ready.request_builds (mint_url address)) (
            rw (send_lem (mint_url address) (ready.body (mint_body awrr)) reply)
              (elim (Bool-cases (status == 500)) [ inl h ↦ rw h refl | inr h ↦ rw h refl ])))))

  -- If the certificates and encodings are there, the order has an amount, the retrieval returns and
  -- the shim answers with a status other than 500, the request to pay out is sent once, with the
  -- key of the retrieved account if there is one, and the call then does what `settle` does.
  pub transfer_lem :
      (room : ℕ) {v : ℤ} (bs : Option BridgeStorage) {status : ℕ}
      → amount ≡ some v
      → retrieve_bridge_account awrr w ≡ (ret bs, w)
      → p.post w.trace
          (transfer_url (transfer_address e info.bridge_to info.bridge_from))
          (ready.body (transfer_body awrr bs))
        ≡ ok status
      → (status == 500) ≡ false
      → request_to_transfer_coin_on_chain_from_shim (suc room) e awrr w
        ≡ settle awrr bs (
            sent
              (transfer_url (transfer_address e info.bridge_to info.bridge_from))
              (ready.body (transfer_body awrr bs)))
  unfolding request_to_transfer_coin_on_chain_from_shim pay
  transfer_lem room bs some_amount found reply good = simp some_amount (
      rw found (
        rw (ready.encodes (transfer_body awrr bs)) (
          rw load_certificates_lem (
            rw
              (ready.request_builds
                (transfer_url (transfer_address e info.bridge_to info.bridge_from)))
              (rw
                (send_lem (transfer_url (transfer_address e info.bridge_to info.bridge_from))
                  (ready.body (transfer_body awrr bs)) reply)
                (rw good refl))))))
