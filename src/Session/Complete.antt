-- ===== src/Session/Complete.antt =====
-- pkg/adapter.go, pkg/helper.go, pkg/evm.go and pkg/redis.go together: from the messages of a client
-- to the end of the order.
use mathlib.Core.Path.{subst}
use party_bridge.Base.{
  ℕ, ◌<◌, ◌==◌, String, true, false, none, some, List, [], ◌∷◌, ◌++◌, ◌≡◌, refl, All, any_of,
  upsert,
}
use party_bridge.Base.Int.{ℤ, pos, geb_ℤ}
use party_bridge.Types.{AccountWatchRequest, BridgeStorage, BridgeRequest}
use party_bridge.Platform.{Platform, posted, wrote, generated_key, read_clock, ok}
use party_bridge.Server.{ExchangeServer}
use party_bridge.Exec.{World, ret, WebSocketClient}
use party_bridge.Store.Accounts.{storage_of}
use party_bridge.Store.Balances.{same_id}
use party_bridge.Store.Refinement.{Parses, same_uuid}
use party_bridge.Store.Removal.{IsOther}
use party_bridge.Store.Tables.{Tables, IsWorking, Represents}
use party_bridge.Shim.{mint_address, mint_url, mint_body}
use party_bridge.Shim.Requests.{IsReady}
use party_bridge.Units.{Number, to_wei}
use party_bridge.Watch.{Wake}
use party_bridge.Watch.Bsc.{Wake as BscWake}
use party_bridge.Watch.Complete.{Completes}
use party_bridge.Watch.Laws.{asked, asked_times, Answers}
use party_bridge.Watch.Rounds.{ticks}
use party_bridge.WatchAccount.{lock}
use party_bridge.WatchAccount.Begin.{IsCoins}
use party_bridge.WatchAccount.Complete.{watched_coins-Completes}
use party_bridge.Warren.{start_warren_tick, warren_worker}
use party_bridge.Warren.Laws.{unlocked, start_warren_tick_lem}
use party_bridge.Lifecycle.Restart.{IsIn, unlocked-IsIn}
use party_bridge.Session.{Standing, handle_client_requests}
use party_bridge.Session.Records.{watch_request}
use party_bridge.Session.Orders.{response, with_fee, stored, trace_of_order, order_adds_fee}
use party_bridge.Session.Sent.{upsert-IsIn}

module _ {p : Platform} (works : IsWorking p) (ready : IsReady p) (uuid : AccountWatchRequest → ℕ)
    (room : ℕ) (e : ExchangeServer) (client : WebSocketClient) {w : World p} {t : Tables}
    (held : Represents w t) {order confirmation : String} {r r' : BridgeRequest ℤ}
    (orders : p.unmarshal_request order ≡ record { kind = "requestBridge"; request = r })
    (confirms : p.unmarshal_request confirmation ≡ record { kind = "confirmBridge"; request = r' })
    (text : String) (acc : ℕ) (x : ℤ) where
  -- the request of the order, and the world in which its watch asks for the first time, up to the
  -- store
  abbrev pub request : AccountWatchRequest
  request = stored e client r w text acc x

  abbrev pub base : World p
  base = record w { trace = trace_of_order client.sid text w.trace }

  abbrev pub looked : String → ℕ → World p
  looked node k =
      asked_times (p.address_of acc) node k (record base { trace = read_clock ∷ base.trace })

  abbrev pub verified : String → String → ℕ → World p
  verified node second n =
      asked (p.address_of acc) second (asked (p.address_of acc) node (looked node n))

  -- the text of the request to the shim, and the account that is booked
  abbrev pub request_text : String
  request_text = ready.body (record {
    to_address = r.shipping_address;
    amount = some (with_fee p e x);
    from_pk = "";
    sid = client.sid;
  })

  abbrev pub booked : BridgeStorage
  booked = record {
    chain = r.from_chain;
    private_key = p.hex_of acc;
    amount = some (with_fee p e x);
    asset = r.currency;
    id = p.new_uuid (wrote client.sid text ∷ generated_key ∷ w.trace);
    bridge_from = r.from_chain;
    bridge_to = r.bridge_to;
  }

  -- The session, the tick and the worker, one after the other.
  pub record Serves (address node second : String) (n : ℕ) (rest : List Wake)
      (bsc_wakes : List BscWake) : Type 0 where
    pub ordered : World p
    pub runs :
        handle_client_requests e client (some order ∷ some confirmation ∷ []) w
        ≡ (ret Standing.listening, ordered)
    pub sent : List AccountWatchRequest
    pub ticks_on : start_warren_tick ordered ≡ (ret sent, ordered)
    pub is_sent : IsIn request sent
    pub completes :
        Completes
          (warren_worker room e (ticks n (Wake.tick ∷ rest)) bsc_wakes request)
          ordered
          (record t { accounts = upsert (same_id booked) booked t.accounts })
          (posted (mint_url address) request_text ∷ (verified node second n).trace)

  -- From the client to the end of its order. If Redis works and holds the tables `t`, with ids that
  -- parse and none that the new request has; the certificates and encodings are there; the session
  -- has no key yet, one is generated and the answer can be encoded; the order is for `x` of at
  -- least the minimum, for a chain's own coins to the other chain; the watch is on and both clients
  -- of the chain are there; the first client's answers to `n` looks are below `x` plus the fee, and
  -- then both clients tell at least that; and the shim at the known address answers the mint
  -- request with a status other than 500; then, after the order and its confirmation, the session
  -- goes on, the next tick sends the request to the workers, and the worker that receives it
  -- returns. The generated key is then booked as an account with `x` plus the fee, the request is
  -- off the table of requests, and the other tables are as they were; what the worker did is to
  -- read the clock, to ask the two clients, to send one request to mint `x` plus the fee for the
  -- address of the order, and reports.
  pub order-Serves :
      {status : ℕ} (address node second : String) (n : ℕ) (rest : List Wake)
      (bsc_wakes : List BscWake)
      → r.amount ≡ some x
      → geb_ℤ x (to_wei p (Number.int e.minimum_amount) (pos 18)) ≡ true
      → client.acc ≡ none
      → p.generate_key w.trace ≡ ok acc
      → p.marshal_message (response p e x acc) ≡ ok text
      → Parses p uuid request
      → Parses p uuid (lock e (p.now base.trace) request)
      → All (Parses p uuid) t.requests
      → any_of (same_uuid p uuid request) t.requests ≡ false
      → All (IsOther request.transaction_id) t.requests
      → e.watch ≡ true
      → IsCoins e node second r.from_chain request.assisted_sell_order_information
      → mint_address e r.currency r.bridge_to ≡ ok address
      → ((k : ℕ) → k < n → Answers (p.address_of acc) node (with_fee p e x) false (looked node k))
      → Answers (p.address_of acc) node (with_fee p e x) true (looked node n)
      → Answers
          (p.address_of acc)
          second
          (with_fee p e x)
          true
          (asked (p.address_of acc) node (looked node n))
      → p.post (verified node second n).trace (mint_url address) request_text ≡ ok status
      → (status == 500) ≡ false
      → Serves address node second n rest bsc_wakes
  unfolding warren_worker watch_request mint_body storage_of
  order-Serves address node second n rest bsc_wakes some_amount enough no_key key encoded parses
        parses_locked all_parse new others_there watches coins known low paid still reply good =
      let done =
        order_adds_fee works uuid e client held orders confirms some_amount enough no_key key
          encoded parses all_parse in
      let there : Represents done.after (record t { requests = t.requests ++ request ∷ [] }) =
        subst (λ l. Represents done.after (record t { requests = l })) (rw new refl)
          done.represents in
      let requests : List AccountWatchRequest =
        upsert (same_uuid p uuid request) request t.requests in
      let (k, found) = upsert-IsIn (same_uuid p uuid request) request t.requests in
      record {
        ordered = done.after;
        runs = done.runs;
        sent = unlocked requests;
        ticks_on = start_warren_tick_lem done.represents;
        is_sent = unlocked-IsIn requests k found refl;
        completes =
            watched_coins-Completes works ready uuid room e node second request watches refl coins
              address known n done.after t there base done.same_trace rest bsc_wakes parses
              parses_locked all_parse new others_there low paid still reply good;
      }
