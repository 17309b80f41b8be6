-- ===== src/Watch/Complete.antt =====
-- pkg/evm.go, pkg/helper.go and pkg/redis.go together: a deposit from the first look of its watch to
-- the end of the order.
use party_bridge.Base.{
  ℕ, zero, suc, ◌<◌, String, true, false, some, List, ◌∷◌, ◌++◌, ◌≡◌, refl, ◌∙◌, ◌==◌, All, upsert,
}
use party_bridge.Base.Int.{ℤ}
use party_bridge.Types.{AccountWatchRequest}
use party_bridge.Platform.{Platform, Event, posted, ok}
use party_bridge.Server.{ExchangeServer}
use party_bridge.Exec.{World, Exec, ret}
use party_bridge.Store.Accounts.{storage_of}
use party_bridge.Store.Balances.{same_id}
use party_bridge.Store.Removal.{IsUnique, others}
use party_bridge.Store.Tables.{Tables, IsWorking, Represents}
use party_bridge.Shim.{mint_address, mint_url, mint_body}
use party_bridge.Shim.Requests.{IsReady}
use party_bridge.Dispatch.Effects.{IsReport, Represents-db}
use party_bridge.Dispatch.Routes.{Plan, IsRoute}
use party_bridge.Dispatch.Deposit.{deposit_completes}
use party_bridge.Watch.{Wake, Watching, outcome_of, dispatch_or_park, wait_and_verify_evm_chain}
use party_bridge.Watch.Rounds.{ticks}
use party_bridge.Watch.Laws.{asked, asked_times, Answers, verified_pays}

module _ {p : Platform} where
  asked_times-db :
      (account client : String) (n : ℕ) (w : World p) → (asked_times account client n w).db ≡ w.db
  asked_times-db account client zero w = refl
  asked_times-db account client (suc n) w = asked_times-db account client n (asked account client w)

-- The watch returns, the keys then read as `t`, and the trace has grown by reports on top of `base`.
pub record Completes {p : Platform} (m : Exec p Watching) (w : World p) (t : Tables)
    (base : List Event) : Type 0 where
  pub after : World p
  pub runs : m w ≡ (ret Watching.returned, after)
  pub represents : Represents after t
  pub new : List Event
  pub reports : All IsReport new
  pub grows : after.trace ≡ new ++ base

module _ {p : Platform} (works : IsWorking p) (ready : IsReady p) (room : ℕ) (e : ExchangeServer)
    (client second : String) (request : AccountWatchRequest) {v : ℤ} (watches : e.watch ≡ true)
    (some_amount : request.amount ≡ some v) (n : ℕ) (w : World p) (t : Tables)
    (held : Represents w t) (route : IsRoute request.assisted_sell_order_information Plan.wrap)
    (address : String)
    (known : let info = request.assisted_sell_order_information in
      mint_address e info.currency info.bridge_to ≡ ok address) where
  -- the world after the low looks, and after the two that found enough
  abbrev pub looked : World p
  looked = asked_times request.account client n w

  abbrev pub verified : World p
  verified = asked request.account second (asked request.account client looked)

  abbrev pub request_text : String
  request_text = ready.body (mint_body (outcome_of request "success"))

  -- On a route that wraps, if Redis works and holds the tables `t` (under at most one request with
  -- the id), the certificates and encodings are there, the watch is on, the first client's answers
  -- to `n` looks are below the amount, then both clients tell at least the amount, and the shim at
  -- the known address answers with a status other than 500, the watch on the chain's own coins
  -- returns. The account that was paid is then in the table of accounts and the request is off the
  -- table of requests; what was done is the questions to the two clients, then one mint request,
  -- then reports to the client and the metrics, and nothing else.
  pub paid_order-Completes :
      {status : ℕ} (rest : List Wake)
      → ((k : ℕ)
          → k < n
          → Answers request.account client v false (asked_times request.account client k w))
      → Answers request.account client v true looked
      → Answers request.account second v true (asked request.account client looked)
      → p.post verified.trace (mint_url address) request_text ≡ ok status
      → (status == 500) ≡ false
      → IsUnique request.transaction_id t.requests
      → Completes
          (wait_and_verify_evm_chain room e
            (some client)
            (some second)
            request
            (ticks n (Wake.tick ∷ rest)))
          w
          (record t {
            requests = others request.transaction_id t.requests;
            accounts =
                upsert
                  (same_id (storage_of (outcome_of request "success")))
                  (storage_of (outcome_of request "success"))
                  t.accounts;
          })
          (posted (mint_url address) request_text ∷ verified.trace)
  unfolding dispatch_or_park
  paid_order-Completes rest low enough still reply good unique =
      let done =
        deposit_completes works ready room e (outcome_of request "success") verified t
          (Represents-db verified (asked_times-db request.account client n w) held) route address
          known refl reply good unique in
      record {
        after = done.after;
        runs =
            verified_pays room e client second request watches some_amount n w low rest enough still
            ∙ rw done.runs refl;
        represents = done.represents;
        new = done.new;
        reports = done.reports;
        grows = done.grows;
      }
