-- ===== src/Watch/Payout.antt =====
-- pkg/evm.go, pkg/helper.go, pkg/shim.go and pkg/redis.go together: tokens that arrive, from the
-- first look of their watch to the payment of the coins.
use party_bridge.Base.{
  ℕ, zero, suc, ◌<◌, ◌==◌, String, true, false, Option, some, List, ◌∷◌, map, ◌≡◌, refl, ◌∙◌,
  length, get_elem?, All,
}
use party_bridge.Base.Int.{ℤ}
use party_bridge.Types.{AccountWatchRequest, AccountWatchRequestResult, BridgeStorage}
use party_bridge.Platform.{Platform, posted, ok}
use party_bridge.Server.{ExchangeServer}
use party_bridge.Exec.{World}
use party_bridge.Store.Accounts.{is_candidate}
use party_bridge.Store.Balances.{charged}
use party_bridge.Store.Choice.{candidates}
use party_bridge.Store.Nearest.{IsSorted, IsNearest}
use party_bridge.Store.Removal.{IsUnique, others}
use party_bridge.Store.Tables.{Tables, IsWorking, Represents}
use party_bridge.Shim.{transfer_url, transfer_address, transfer_body}
use party_bridge.Shim.Requests.{IsReady}
use party_bridge.Dispatch.{is_deposit}
use party_bridge.Dispatch.Effects.{Represents-db}
use party_bridge.Dispatch.Payout.{IsAccount, payout_completes}
use party_bridge.Dispatch.Routes.{Plan, IsRoute}
use party_bridge.Watch.{Wake, outcome_of, dispatch_logged}
use party_bridge.Watch.Complete.{Completes}
use party_bridge.Watch.Rounds.{ticks, times}
use party_bridge.Watch.Tokens.{Token, contract_of, watch_of, asked_contract, IsTold, token_pays}

module _ {p : Platform} where
  times-asked_contract :
      (contract account client : String) (n : ℕ) (w : World p)
      → (times (asked_contract contract account client) n w).db ≡ w.db
  times-asked_contract contract account client zero w = refl
  times-asked_contract contract account client (suc n) w =
      times-asked_contract contract account client n (asked_contract contract account client w)

module _ {p : Platform} (works : IsWorking p) (ready : IsReady p) (room : ℕ) (e : ExchangeServer)
    (token : Token) (client : String) (client2 : Option String) (request : AccountWatchRequest)
    {v : ℤ} (watches : e.watch ≡ true) (some_amount : request.amount ≡ some v) (n : ℕ) (w : World p)
    (t : Tables) (held : Represents w t)
    (route : IsRoute request.assisted_sell_order_information Plan.unwrap) where
  open request use {transaction_id, account, assisted_sell_order_information as info}

  abbrev pub paid : AccountWatchRequestResult
  paid = outcome_of request "success"

  -- the world after `k` low looks, and after the two answers that were enough
  abbrev pub looked : ℕ → World p
  looked k = times (asked_contract (contract_of e token) account client) k w

  abbrev pub once_more : World p → World p
  once_more = asked_contract (contract_of e token) account client

  abbrev pub verified : World p
  verified = once_more (once_more (looked n))

  abbrev pub payout_url : String
  payout_url = transfer_url (transfer_address e info.bridge_to info.bridge_from)

  abbrev pub payout_text : BridgeStorage → String
  payout_text a = ready.body (transfer_body paid (some a))

  -- The account pays: it is a candidate in store and the nearest one if the candidates are in
  -- ascending order, and the whole watch completes with its charge.
  pub record PaysOut (s : ℤ) (rest : List Wake) : Type 0 where
    pub index : ℕ
    pub payer : BridgeStorage
    pub in_store : get_elem? t.accounts index ≡ some payer
    pub fits : is_candidate info payer ≡ true
    pub nearest : IsSorted (candidates paid held) → IsNearest (candidates paid held) s payer
    pub completes :
        Completes
          (watch_of (suc room) e token (some client) client2 request (ticks n (Wake.tick ∷ rest)))
          w
          (record t {
            requests = others transaction_id t.requests;
            accounts = map (charged payer.id v) t.accounts;
          })
          (posted payout_url (payout_text payer) ∷ verified.trace)

  -- On a route that unwraps, with a payment that is not booked (`is_deposit` is false), if Redis
  -- works and holds the tables `t` (under at most one request with the id), the certificates and
  -- encodings are there, the watch on the token is on, the contract's answers to `n` looks are
  -- below the amount and the two after them are not, every account in store has an amount and an id
  -- of 36 characters, some account is a candidate, the order has both its amounts, and the shim
  -- answers whatever it is sent with a status other than 500, the watch on the token returns. Then
  -- an account in store that is a candidate, and the nearest one in amount if the candidates are in
  -- ascending order, is charged, and the request is off the table of requests; what was done is the
  -- questions to the contract, then one request to pay out with the key of that account, then
  -- reports, and nothing else.
  pub paid_token-PaysOut :
      {s : ℤ} (rest : List Wake)
      → ((k : ℕ) → k < n → IsTold (contract_of e token) account client v false (looked k))
      → IsTold (contract_of e token) account client v true (looked n)
      → IsTold (contract_of e token) account client v true (once_more (looked n))
      → is_deposit paid ≡ false
      → info.amount ≡ some s
      → All IsAccount t.accounts
      → 0 < length (candidates paid held)
      → ((text : String)
          → (status : ℕ) × (p.post verified.trace payout_url text ≡ ok status)
            × ((status == 500) ≡ false))
      → IsUnique transaction_id t.requests
      → PaysOut s rest
  unfolding dispatch_logged
  paid_token-PaysOut rest low enough still wrapped target accounts some_candidate accepts unique =
      let there : Represents verified t =
        Represents-db verified (times-asked_contract (contract_of e token) account client n w)
          held in
      let (j, a, at, fits, near, done) =
        payout_completes works ready room e paid verified t there route wrapped some_amount target
          accounts some_candidate accepts unique in
      record {
        index = j;
        payer = a;
        in_store = at;
        fits = fits;
        nearest = near;
        completes = record {
          after = done.after;
          runs =
              token_pays (suc room) e token client client2 request watches some_amount n w rest low
                enough still
              ∙ rw done.runs refl;
          represents = done.represents;
          new = done.new;
          reports = done.reports;
          grows = done.grows;
        };
      }
