-- ===== src/Dispatch/Twice.antt =====
-- pkg/helper.go: `Dispatch` run twice on one paid request.
use party_bridge.Base.{ℕ, String, false, List, [], ◌∷◌, ◌++◌, ◌≡◌, ◌∙◌, ap, ◌==◌, arith, All}
use party_bridge.Types.{AccountWatchRequest, AccountWatchRequestResult}
use party_bridge.Platform.{Platform, Event, posted, ok}
use party_bridge.Server.{ExchangeServer}
use party_bridge.Exec.{World, ret, ◌>>◌}
use party_bridge.Store.Removal.{IsOther, IsUnique, others}
use party_bridge.Store.Tables.{Tables, IsWorking, Represents}
use party_bridge.Shim.{mint_url, mint_body, mint_address}
use party_bridge.Shim.Requests.{IsReady}
use party_bridge.Dispatch.{dispatch}
use party_bridge.Dispatch.Effects.{IsReport}
use party_bridge.Dispatch.Routes.{Plan, IsRoute}
use party_bridge.Dispatch.Deposit.{deposit_completes}

module _ (id : String) where
  others-All : (rs : List AccountWatchRequest) → All (IsOther id) (others id rs)
  others-All [] = tt
  others-All (r ∷ rs) = ground (arith, others-All rs)

  IsUnique-All : (rs : List AccountWatchRequest) → All (IsOther id) rs → IsUnique id rs
  IsUnique-All [] h = tt
  IsUnique-All (r ∷ rs) h = ((λ e. h.1), IsUnique-All rs h.1)

module _ {p : Platform} (works : IsWorking p) (ready : IsReady p) (room : ℕ) (e : ExchangeServer)
    (awrr : AccountWatchRequestResult) (w : World p) (t : Tables) (held : Represents w t)
    (route : IsRoute awrr.account_watch_request.assisted_sell_order_information Plan.wrap)
    (address : String)
    (known : let info = awrr.account_watch_request.assisted_sell_order_information in
      mint_address e info.currency info.bridge_to ≡ ok address) where
  open awrr.account_watch_request use {transaction_id}

  abbrev pub minted : Event
  minted = posted (mint_url address) (ready.body (mint_body awrr))

  -- Both calls return, each after a request to mint.
  pub record MintsTwice : Type 0 where
    pub after : World p
    pub runs : (dispatch room e awrr >> dispatch room e awrr) w ≡ (ret tt, after)
    pub first : List Event
    pub second : List Event
    pub first_reports : All IsReport first
    pub second_reports : All IsReport second
    pub grows : after.trace ≡ second ++ minted ∷ (first ++ minted ∷ w.trace)

  -- On a route that wraps, under the conditions of a completed deposit, with a shim that answers
  -- every such request with a status other than 500, two calls of `dispatch` on the same success
  -- both return, and each sends the mint request: the second does not notice that the request is
  -- off the list.
  pub dispatch_twice :
      ((tr : List Event)
        → (status : ℕ) × (p.post tr (mint_url address) (ready.body (mint_body awrr)) ≡ ok status)
          × ((status == 500) ≡ false))
      → awrr.result ≡ "success"
      → IsUnique transaction_id t.requests
      → MintsTwice
  dispatch_twice accepts paid unique =
      let (status, reply, good) = accepts w.trace in
      let one =
        deposit_completes works ready room e awrr w t held route address known paid reply good
          unique in
      let (status', reply', good') = accepts one.after.trace in
      let two =
        deposit_completes works ready room e awrr one.after _ one.represents route address known
          paid reply' good'
          (IsUnique-All transaction_id (others transaction_id t.requests)
            (others-All transaction_id t.requests)) in
      record {
        after = two.after;
        runs = rw one.runs two.runs;
        first = one.new;
        second = two.new;
        first_reports = one.reports;
        second_reports = two.reports;
        grows = two.grows ∙ ap (λ tr. two.new ++ minted ∷ tr) one.grows;
      }
